-- ===== src/Store/Refusal.antt =====
-- Runs that are refused: an error of the program's own, one that wraps a sentinel of
-- internal/domain/errors.go, comes before anything is changed. Errors of the driver are set aside.
use sap_orders_api.Prelude.{
  ◌≡◌, refl, ◌⊎◌, inl, inr, Bool, true, false, Option, none, some, String, if◌then◌else◌,
}
use sap_orders_api.Domain.Errors.{Error, root}
use sap_orders_api.Domain.Types.{Uuid, Time}
use sap_orders_api.Store.Monad.{
  Db, Fault, fine, refused, unanswered, World, Result, ok, err, M, pure, raise, ◌>>=◌, query_row,
  answer, begin, finish, commit, with_transaction, next_statement, driver_error, rollback,
}
use sap_orders_api.Store.Triple.{Triple, Ensures}

-- After a run from the tables X: Q of a success, and X again after an error of the program's own.
abbrev pub Safe : {A : Type 0} → Db → (A → Db → Type 0) → Result A × World → Type 0
Safe X Q (ok a, w) = Q a w.db
Safe X Q (err e, w) = (root e ≡ none) ⊎ (w.db ≡ X)

pub record Refuses {A : Type 0} (X : Db) (P : Db → Type 0) (m : M A) (Q : A → Db → Type 0)
    : Type 0 where
  pub run : (w : World) → P w.db → Safe X Q (m w)

abbrev pub GivesIf : {A : Type 0} → (A → Db → Type 0) → Option (A × Db) → Type 0
GivesIf Q none = Unit {0}
GivesIf Q (some (a, db)) = Q a db

module _ {A : Type 0} (X : Db) (Q : A → Db → Type 0) where
  answer-Safe :
      (r l : Error) (f : Fault) (o : Option (A × Db)) (w : World)
      → root r ≡ none
      → root l ≡ none
      → GivesIf Q o
      → Safe X Q (answer r l f o w)
  unfolding answer
  answer-Safe r l refused none w e k h = inl e
  answer-Safe r l refused (some (a, db)) w e k h = inl e
  answer-Safe r l fine none w e k h = inl e
  answer-Safe r l unanswered none w e k h = inl e
  answer-Safe r l fine (some (a, db)) w e k h = h
  answer-Safe r l unanswered (some (a, db)) w e k h = inl k

  commit-Safe :
      (before : Db) (a : A) (f : Fault) (w : World) → Q a w.db → Safe X Q (commit before a f w)
  unfolding commit root
  commit-Safe before a fine w h = h
  commit-Safe before a refused w h = inl refl
  commit-Safe before a unanswered w h = inl refl

  finish-Safe :
      (before : Db) (r : Result A × World)
      → before ≡ X
      → Ensures Q (λ _. Unit {0}) r
      → Safe X Q (finish before r)
  unfolding finish rollback
  finish-Safe before (err e, w) same h = inr same
  finish-Safe before (ok a, w) same h = commit-Safe before a (w.faults w.statements) _ h

>>=-Safe :
    {A B : Type 0} (X : Db) (Q : A → Db → Type 0) (R : B → Db → Type 0) (r : Result A × World)
    (f : A → M B)
    → Safe X Q r
    → ((a : A) → Refuses X (Q a) (f a) R)
    → Safe X R (elim r.0 [ ok a ↦ f a r.1 | err e ↦ (err e, r.1) ])
>>=-Safe X Q R (ok a, w) f h k = (k a).run w h
>>=-Safe X Q R (err e, w) f h k = h

module _ {X : Db} {A : Type 0} {P : Db → Type 0} {Q : A → Db → Type 0} where
  pub >>=-Refuses :
      {B : Type 0} {R : B → Db → Type 0} {m : M A} {f : A → M B}
      → Refuses X P m Q
      → ((a : A) → Refuses X (Q a) (f a) R)
      → Refuses X P (m >>= f) R
  unfolding ◌>>=◌
  >>=-Refuses {B} {R} {m} {f} h k = record { run = λ w p. >>=-Safe X Q R (m w) f (h.run w p) k }

  -- a statement that changes the tables: its errors are the driver's
  pub query_row-Refuses :
      (what : String) (f : Time → Uuid → Db → Option (A × Db))
      → ((t : Time) (u : Uuid) (db : Db) → P db → GivesIf Q (f t u db))
      → Refuses X P (query_row what f) Q
  unfolding query_row root
  query_row-Refuses what f h = record {
    run = λ w p.
        answer-Safe X Q _ _ (w.faults w.statements) (f w.clock (w.random w.statements) w.db) _ refl
          refl (h w.clock (w.random w.statements) w.db p);
  }

  pub pure-Refuses : (a : A) → ((db : Db) → P db → Q a db) → Refuses X P (pure a) Q
  pure-Refuses a h = record { run = λ w p. h w.db p }

  pub raise-Refuses : (e : Error) → ((db : Db) → P db → db ≡ X) → Refuses X P (raise e) Q
  raise-Refuses e h = record { run = λ w p. inr (h w.db p) }

  pub if-Refuses :
      (b : Bool) {m k : M A}
      → (b ≡ true → Refuses X P m Q)
      → (b ≡ false → Refuses X P k Q)
      → Refuses X P (if b then m else k) Q
  if-Refuses true h k = h refl
  if-Refuses false h k = k refl

-- A part that leaves the tables as they are when it fails, such as one that only reads.
pub keeps-Refuses :
    {X : Db} {A : Type 0} {P : Db → Type 0} {m : M A} {Q : A → Db → Type 0}
    → Triple P m Q (λ db. db ≡ X)
    → Refuses X P m Q
keeps-Refuses {X} {A} {m} {Q} h = record { run = λ w p. safe (m w) (h.run w p) }
  where
    safe : (r : Result A × World) → Ensures Q (λ db. db ≡ X) r → Safe X Q r
    safe (ok a, w) h = h
    safe (err e, w) h = inr h

-- A transaction is rolled back by every error of its body.
pub with_transaction-Refuses :
    {X : Db} {A : Type 0} {body : M A} {Q : A → Db → Type 0}
    → Triple (λ db. db ≡ X) body Q (λ _. Unit {0})
    → Refuses X (λ db. db ≡ X) (with_transaction body) Q
unfolding with_transaction begin next_statement root
with_transaction-Refuses {X} {body} {Q} h =
    >>=-Refuses started λ _. record { run = λ w p. finish-Safe X Q w.db (body w) p (h.run w p) }
  where
    started : Refuses X (λ db. db ≡ X) begin (λ _ db. db ≡ X)
    started = record {
      run = λ w p.
          answer-Safe X (λ _ db. db ≡ X) driver_error driver_error (w.faults w.statements)
            (some (tt, w.db)) _ refl refl p;
    }
