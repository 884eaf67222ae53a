-- ===== src/Store/Monad.antt =====
-- The database as the repositories see it (internal/repository/querier.go, transaction.go and the
-- tables of migrations/): a statement reads and writes the tables, or fails; a transaction puts the
-- tables back when its body or its commit fails.
use sap_orders_api.Prelude.{Bool, true, false, ℕ, ◌+◌, Option, none, some, List, String}
use sap_orders_api.Domain.Errors.{Error, wrap, external, Sentinel, sentinel}
use sap_orders_api.Domain.Types.{Uuid, Time, OrderRow, OrderItem, SapSyncLog, OutboxEntry}

pub record Db : Type 0 where
  pub orders : List OrderRow
  pub items : List OrderItem
  pub logs : List SapSyncLog
  pub outbox : List OutboxEntry

-- What becomes of a statement: it runs; it is refused (no connection, a cancelled context, a text
-- that is too long for its column); or it takes effect and its answer is lost.
pub data Fault : Type 0 where
  fine refused unanswered : Fault

-- The tables, the clock, and the outside's choices for the n-th statement: gen_random_uuid() and
-- the fault.
pub record World : Type 0 where
  pub db : Db
  pub clock : Time
  pub random : ℕ → Uuid
  pub faults : ℕ → Fault
  pub statements : ℕ

pub data Result {ℓ} (A : Type ℓ) : Type ℓ where
  ok : A → Result A
  err : Error → Result A

abbrev pub M : Type 0 → Type 0
M A = World → Result A × World

module _ {A : Type 0} where
  abbrev pub pure : A → M A
  pure a w = (ok a, w)

  abbrev pub raise : Error → M A
  raise e w = (err e, w)

  abbrev pub fail : Sentinel → M A
  fail s w = (err (sentinel s), w)

infixl 5 ◌>>=◌ ◌>>◌
unfoldable pub ◌>>=◌ : {A B : Type 0} → M A → (A → M B) → M B
◌>>=◌ m f w = let (r, w') = m w in elim r [ ok a ↦ f a w' | err e ↦ (err e, w') ]

abbrev pub ◌>>◌ : {A B : Type 0} → M A → M B → M B
m >> k = m >>= λ _. k

-- `if err != nil { return err }` for a function that returns an error alone
abbrev pub check : Option Error → M (Unit {0})
check none w = (ok tt, w)
check (some e) w = (err e, w)

-- `time.Now()` and the tables' `NOW()`
abbrev pub now : M Time
now w = (ok w.clock, w)

unfoldable pub next_statement : World → World
next_statement w = record w { statements = w.statements + 1 }

-- A statement's outcome is `none` if a constraint of the schema refuses it.
unfoldable pub answer :
    {A : Type 0} → Error → Error → Fault → Option (A × Db) → World → Result A × World
answer refusal lost refused o w = (err refusal, w)
answer refusal lost fine none w = (err refusal, w)
answer refusal lost unanswered none w = (err refusal, w)
answer refusal lost fine (some (a, db)) w = (ok a, record w { db = db })
answer refusal lost unanswered (some (a, db)) w = (err lost, record w { db = db })

unfoldable pub statement : {A : Type 0} → Error → Error → (Time → Uuid → Db → Option (A × Db)) → M A
unfolding answer next_statement
statement refusal lost run w =
    answer refusal lost (w.faults w.statements) (run w.clock (w.random w.statements) w.db)
      (next_statement w)

-- The outcome of an INSERT: none if a constraint is violated.
abbrev pub unless : {A : Type 0} → Bool → A × Db → Option (A × Db)
unless true r = none
unless false r = some r

abbrev pub driver_error : Error
driver_error = external "driver error"

-- `QueryRow(…).Scan(…)` and `Exec(…)`, with the prefix that the repository puts before an error
unfoldable pub query_row : {A : Type 0} → String → (Time → Uuid → Db → Option (A × Db)) → M A
unfolding statement
query_row what run = statement (wrap what driver_error "") (wrap what driver_error "") run

-- `Query(…)` and the loop over its rows, which returns `rows.Err()` as it is
unfoldable pub query : {A : Type 0} → String → (Time → Uuid → Db → Option (A × Db)) → M A
unfolding statement
query what run = statement (wrap what driver_error "") driver_error run

-- `pool.Begin`
unfoldable pub begin : M (Unit {0})
unfolding statement
begin = statement driver_error driver_error (λ _ _ db. some (tt, db))

-- `tx.Rollback`
unfoldable pub rollback : Db → World → World
rollback db w = record w { db = db }

-- `tx.Commit`. A commit that is refused leaves nothing behind, the tables being those `before` the
-- transaction; one whose answer is lost has taken effect.
unfoldable pub commit : {A : Type 0} → Db → A → Fault → World → Result A × World
unfolding rollback
commit before a fine w = (ok a, w)
commit before a refused w = (err driver_error, rollback before w)
commit before a unanswered w = (err driver_error, w)

-- The end of a transaction that began with the tables `before`.
unfoldable pub finish : {A : Type 0} → Db → Result A × World → Result A × World
unfolding commit rollback next_statement
finish before (err e, w) = (err e, rollback before w)
finish before (ok a, w) = commit before a (w.faults w.statements) (next_statement w)

-- WithTransaction; the closure's assignment to a captured variable is its result here.
unfoldable pub with_transaction : {A : Type 0} → M A → M A
unfolding begin finish ◌>>=◌
with_transaction body = begin >>= λ _ w. finish w.db (body w)
