-- ===== src/Store/Triple.antt =====
-- Pre- and postconditions on the tables for code that runs statements. A triple holds whatever the
-- faults, the clock and the random source give.
use sap_orders_api.Prelude.{◌≡◌, refl, Bool, true, false, Option, none, some, String, if◌then◌else◌}
use sap_orders_api.Domain.Errors.{Error, Sentinel}
use sap_orders_api.Domain.Types.{Uuid, Time}
use sap_orders_api.Store.Monad.{
  Db, Fault, fine, refused, unanswered, World, Result, ok, err, M, pure, raise, fail, now, check,
  ◌>>=◌, query_row, query, answer, begin, finish, commit, with_transaction, next_statement,
  driver_error,
}

-- What holds of the tables after a run, by how it ended.
abbrev pub Ensures : {A : Type 0} → (A → Db → Type 0) → (Db → Type 0) → Result A × World → Type 0
Ensures Q E (ok a, w) = Q a w.db
Ensures Q E (err e, w) = E w.db

-- From tables with P, a run that succeeds with `a` leaves tables with `Q a`, one that fails leaves
-- tables with E.
pub record Triple {A : Type 0} (P : Db → Type 0) (m : M A) (Q : A → Db → Type 0) (E : Db → Type 0)
    : Type 0 where
  pub run : (w : World) → P w.db → Ensures Q E (m w)

-- The same for the function that a statement applies to the tables.
abbrev pub Answers : {A : Type 0} → (A → Db → Type 0) → (Db → Type 0) → Option (A × Db) → Type 0
Answers Q E none = Unit {0}
Answers Q E (some (a, db)) = Q a db × E db

module _ {A : Type 0} (P : Db → Type 0) (Q : A → Db → Type 0) (E : Db → Type 0) where
  answer-Ensures :
      (r l : Error) (f : Fault) (o : Option (A × Db)) (w : World)
      → E w.db
      → Answers Q E o
      → Ensures Q E (answer r l f o w)
  unfolding answer
  answer-Ensures r l refused none w e h = e
  answer-Ensures r l refused (some (a, db)) w e h = e
  answer-Ensures r l fine none w e h = e
  answer-Ensures r l unanswered none w e h = e
  answer-Ensures r l fine (some (a, db)) w e h = h.0
  answer-Ensures r l unanswered (some (a, db)) w e h = h.1

  abbrev pub Runs : (Time → Uuid → Db → Option (A × Db)) → Type 0
  Runs run = (t : Time) (u : Uuid) (db : Db) → P db → Answers Q E (run t u db)

  pub query_row-Triple :
      (what : String) (f : Time → Uuid → Db → Option (A × Db))
      → ((db : Db) → P db → E db)
      → Runs f
      → Triple P (query_row what f) Q E
  unfolding query_row
  query_row-Triple what f keep h = record {
    run = λ w p.
        answer-Ensures _ _ (w.faults w.statements) (f w.clock (w.random w.statements) w.db) _
          (keep w.db p) (h w.clock (w.random w.statements) w.db p);
  }

  pub query-Triple :
      (what : String) (f : Time → Uuid → Db → Option (A × Db))
      → ((db : Db) → P db → E db)
      → Runs f
      → Triple P (query what f) Q E
  unfolding query
  query-Triple what f keep h = record {
    run = λ w p.
        answer-Ensures _ _ (w.faults w.statements) (f w.clock (w.random w.statements) w.db) _
          (keep w.db p) (h w.clock (w.random w.statements) w.db p);
  }

  commit-Ensures :
      (before : Db) (a : A) (f : Fault) (w : World)
      → E before
      → (Q a w.db → E w.db)
      → Q a w.db
      → Ensures Q E (commit before a f w)
  unfolding commit
  commit-Ensures before a fine w e lost h = h
  commit-Ensures before a refused w e lost h = e
  commit-Ensures before a unanswered w e lost h = lost h

  finish-Ensures :
      (before : Db) (r : Result A × World)
      → E before
      → ((a : A) (db : Db) → Q a db → E db)
      → Ensures Q (λ _. Unit) r
      → Ensures Q E (finish before r)
  unfolding finish
  finish-Ensures before (err x, w) e lost h = e
  finish-Ensures before (ok a, w) e lost h =
      commit-Ensures before a (w.faults w.statements) _ e (lost a w.db) h

-- A run goes on from tables that meet the first part's postcondition; a failure ends it.
>>=-Ensures :
    {A B : Type 0} (Q : A → Db → Type 0) (R : B → Db → Type 0) (E : Db → Type 0)
    (r : Result A × World) (f : A → M B)
    → Ensures Q E r
    → ((a : A) → Triple (Q a) (f a) R E)
    → Ensures R E (elim r.0 [ ok a ↦ f a r.1 | err e ↦ (err e, r.1) ])
>>=-Ensures Q R E (ok a, w) f h k = (k a).run w h
>>=-Ensures Q R E (err e, w) f h k = h

weaken-Ensures :
    {A : Type 0} (Q Q' : A → Db → Type 0) (E E' : Db → Type 0) (r : Result A × World)
    → ((a : A) (db : Db) → Q a db → Q' a db)
    → ((db : Db) → E db → E' db)
    → Ensures Q E r
    → Ensures Q' E' r
weaken-Ensures Q Q' E E' (ok a, w) q e h = q a w.db h
weaken-Ensures Q Q' E E' (err x, w) q e h = e w.db h

begin-Ensures :
    (P E : Db → Type 0) (f : Fault) (w : World)
    → P w.db
    → ((db : Db) → P db → E db)
    → Ensures {A = Unit {0}} (λ _. P) E (answer driver_error driver_error f (some (tt, w.db)) w)
unfolding answer
begin-Ensures P E fine w p keep = p
begin-Ensures P E refused w p keep = keep w.db p
begin-Ensures P E unanswered w p keep = keep w.db p

module _ {A B : Type 0} {P : Db → Type 0} {Q : A → Db → Type 0} {R : B → Db → Type 0}
    {E : Db → Type 0} where
  pub >>=-Triple :
      {m : M A} {f : A → M B}
      → Triple P m Q E
      → ((a : A) → Triple (Q a) (f a) R E)
      → Triple P (m >>= f) R E
  unfolding ◌>>=◌
  >>=-Triple {m} {f} h k = record { run = λ w p. >>=-Ensures Q R E (m w) f (h.run w p) k }

module _ {A : Type 0} {P : Db → Type 0} {Q : A → Db → Type 0} {E : Db → Type 0} where
  -- The rule of consequence.
  pub weaken-Triple :
      {P' : Db → Type 0} {Q' : A → Db → Type 0} {E' : Db → Type 0} {m : M A}
      → ((db : Db) → P' db → P db)
      → ((a : A) (db : Db) → Q a db → Q' a db)
      → ((db : Db) → E db → E' db)
      → Triple P m Q E
      → Triple P' m Q' E'
  weaken-Triple {P'} {Q'} {E'} {m} p q e h = record {
    run = λ w r. weaken-Ensures Q Q' E E' (m w) q e (h.run w (p w.db r));
  }

  pub if-Triple :
      (b : Bool) {m k : M A}
      → (b ≡ true → Triple P m Q E)
      → (b ≡ false → Triple P k Q E)
      → Triple P (if b then m else k) Q E
  if-Triple true h k = h refl
  if-Triple false h k = k refl

  pub pure-Triple : (a : A) → ((db : Db) → P db → Q a db) → Triple P (pure a) Q E
  pure-Triple a h = record { run = λ w p. h w.db p }

  pub raise-Triple : (x : Error) → ((db : Db) → P db → E db) → Triple P (raise x) Q E
  raise-Triple x h = record { run = λ w p. h w.db p }

  -- A transaction that fails leaves the tables that it found, or those of a commit that took effect.
  pub with_transaction-Triple :
      {body : M A}
      → ((db : Db) → P db → E db)
      → ((a : A) (db : Db) → Q a db → E db)
      → Triple P body Q (λ _. Unit)
      → Triple P (with_transaction body) Q E
  unfolding with_transaction
  with_transaction-Triple {body} keep lost h =
      >>=-Triple started λ _. record {
        run = λ w p. finish-Ensures P Q E w.db (body w) (keep w.db p) lost (h.run w p);
      }
    where
      started : Triple P begin (λ _. P) E
      started = record {
        run = λ w p. begin-Ensures P E (w.faults w.statements) (next_statement w) p keep;
      }

module _ {A T : Type 0} {P : Db → Type 0} {Q : A → Db → Type 0} {E : Db → Type 0} where
  -- A value that the precondition only says to exist is fixed for the rest of the run.
  pub fix-Triple :
      {m : M A} (R : T → Db → Type 0)
      → ((db : Db) → P db → (t : T) × R t db)
      → ((t : T) → Triple (R t) m Q E)
      → Triple P m Q E
  fix-Triple R f h = record { run = λ w p. (h (f w.db p).0).run w (f w.db p).1 }

pub check-Triple :
    {P E : Db → Type 0} (o : Option Error)
    → ((db : Db) → P db → E db)
    → Triple P (check o) (λ _ db. P db × (o ≡ none)) E
check-Triple none keep = record { run = λ w p. (p, refl) }
check-Triple (some e) keep = record { run = λ w p. keep w.db p }

module _ {P E : Db → Type 0} where
  -- `if b { return s }`
  pub guard-Triple :
      (b : Bool) (s : Sentinel)
      → ((db : Db) → P db → E db)
      → Triple P (if b then fail s else pure tt) (λ _ db. P db × (b ≡ false)) E
  guard-Triple true s keep = record { run = λ w p. keep w.db p }
  guard-Triple false s keep = record { run = λ w p. (p, refl) }

  pub now-Triple : Triple P now (λ _. P) E
  now-Triple = record { run = λ w p. p }
