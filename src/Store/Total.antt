-- ===== src/Store/Total.antt =====
-- Runs that succeed: what code does to the tables when no statement fails. A run's world has the
-- clock, the drawn ids and the faults of a world k that is fixed.
use sap_orders_api.Prelude.{
  ℕ, ◌≡◌, refl, sym, ap, subst, ◌∙◌, Bool, true, false, Option, none, some, String, if◌then◌else◌,
}
use sap_orders_api.Domain.Errors.{Error}
use sap_orders_api.Domain.Types.{Uuid, Time}
use sap_orders_api.Store.Monad.{
  Db, Fault, fine, World, Result, ok, err, M, pure, ◌>>=◌, query_row, query, answer, begin, finish,
  commit, with_transaction, next_statement,
}

pub record Alike (k w : World) : Type 0 where
  pub clock : w.clock ≡ k.clock
  pub random : w.random ≡ k.random
  pub faults : w.faults ≡ k.faults

-- The run succeeded, with Q of its result and the tables.
abbrev pub Done : {A : Type 0} → World → (A → Db → Type 0) → Result A × World → Type 0
Done k Q (ok a, w) = Alike k w × Q a w.db
Done k Q (err e, w) = ⊥

-- From tables with P the run succeeds, and leaves tables with Q.
pub record Total {A : Type 0} (k : World) (P : Db → Type 0) (m : M A) (Q : A → Db → Type 0)
    : Type 0 where
  pub run : (w : World) → Alike k w → P w.db → Done k Q (m w)

-- No statement of the world fails.
abbrev pub Steady : World → Type 0
Steady k = (n : ℕ) → k.faults n ≡ fine

abbrev pub Gives : {A : Type 0} → (A → Db → Type 0) → Option (A × Db) → Type 0
Gives Q none = ⊥
Gives Q (some (a, db)) = Q a db

>>=-Done :
    {A B : Type 0} (k : World) (Q : A → Db → Type 0) (R : B → Db → Type 0) (r : Result A × World)
    (f : A → M B)
    → Done k Q r
    → ((a : A) → Total k (Q a) (f a) R)
    → Done k R (elim r.0 [ ok a ↦ f a r.1 | err e ↦ (err e, r.1) ])
>>=-Done k Q R (ok a, w) f h t = (t a).run w h.0 h.1
>>=-Done k Q R (err e, w) f h t = absurd h

module _ {k : World} {A : Type 0} {P : Db → Type 0} {Q : A → Db → Type 0} where
  pub >>=-Total :
      {B : Type 0} {R : B → Db → Type 0} {m : M A} {f : A → M B}
      → Total k P m Q
      → ((a : A) → Total k (Q a) (f a) R)
      → Total k P (m >>= f) R
  unfolding ◌>>=◌
  >>=-Total {B} {R} {m} {f} h t = record { run = λ w s p. >>=-Done k Q R (m w) f (h.run w s p) t }

  pub pure-Total : (a : A) → ((db : Db) → P db → Q a db) → Total k P (pure a) Q
  pure-Total a h = record { run = λ w s p. (s, h w.db p) }

  pub if-Total :
      (b : Bool) {m n : M A}
      → (b ≡ true → Total k P m Q)
      → (b ≡ false → Total k P n Q)
      → Total k P (if b then m else n) Q
  if-Total true h t = h refl
  if-Total false h t = t refl

-- A run whose answer and tables are known goes on from them.
pub known :
    {A B : Type 0} {k : World} {P : Db → Type 0} {m : M A} (f : A → M B) {R : B → Db → Type 0}
    (a : A) (Y : Db)
    → Total k P m (λ b db. (b ≡ a) × (db ≡ Y))
    → Total k (λ db. db ≡ Y) (f a) R
    → Total k P (m >>= f) R
known {k} f {R} a Y h t =
    >>=-Total h
      λ b. record { run = λ w s p. subst (λ c. Done k R (f c w)) (sym p.0) (t.run w s p.1) }

module _ (k : World) {A : Type 0} (Q : A → Db → Type 0) where
  started : (w : World) → Alike k w → Alike k (next_statement w)
  unfolding next_statement
  started w s = record { clock = s.clock; random = s.random; faults = s.faults }

  fine_now : Steady k → (w : World) → Alike k w → w.faults w.statements ≡ fine
  fine_now steady w s = ap (λ f. f w.statements) s.faults ∙ steady w.statements

  answer-Done :
      (r l : Error) (f : Fault) (o : Option (A × Db)) (w : World)
      → f ≡ fine
      → Alike k w
      → Gives Q o
      → Done k Q (answer r l f o w)
  unfolding answer
  answer-Done r l f o w e s h = subst (λ f. Done k Q (answer r l f o w)) (sym e) (given o h)
    where
      given : (o : Option (A × Db)) → Gives Q o → Done k Q (answer r l fine o w)
      given none h = absurd h
      given (some (a, db)) h = (record { clock = s.clock; random = s.random; faults = s.faults }, h)

  commit-Done :
      (before : Db) (a : A) (f : Fault) (w : World)
      → f ≡ fine
      → Alike k w
      → Q a w.db
      → Done k Q (commit before a f w)
  unfolding commit
  commit-Done before a f w e s h = subst (λ f. Done k Q (commit before a f w)) (sym e) kept
    where
      kept : Done k Q (commit before a fine w)
      kept = (s, h)

  finish-Done :
      Steady k → (before : Db) (r : Result A × World) → Done k Q r → Done k Q (finish before r)
  unfolding finish next_statement
  finish-Done steady before (ok a, w) h =
      commit-Done before a (w.faults w.statements) _ (fine_now steady w h.0) (started w h.0) h.1
  finish-Done steady before (err e, w) h = absurd h

module _ {k : World} (steady : Steady k) {A : Type 0} {P : Db → Type 0} {Q : A → Db → Type 0} where
  -- A statement that the tables allow is run; its time is the clock's and its id one of the draws.
  pub query_row-Total :
      (what : String) (f : Time → Uuid → Db → Option (A × Db))
      → ((n : ℕ) (db : Db) → P db → Gives Q (f k.clock (k.random n) db))
      → Total k P (query_row what f) Q
  unfolding query_row
  query_row-Total what f h = record {
    run = λ w s p.
        answer-Done k Q _ _ (w.faults w.statements) (f w.clock (w.random w.statements) w.db) _
          (fine_now k Q steady w s) (started k Q w s)
          (subst (λ t. Gives Q (f t (w.random w.statements) w.db)) (sym s.clock)
            (subst (λ r. Gives Q (f k.clock (r w.statements) w.db)) (sym s.random)
              (h w.statements w.db p)));
  }

  pub query-Total :
      (what : String) (f : Time → Uuid → Db → Option (A × Db))
      → ((n : ℕ) (db : Db) → P db → Gives Q (f k.clock (k.random n) db))
      → Total k P (query what f) Q
  unfolding query
  query-Total what f h = record {
    run = λ w s p.
        answer-Done k Q _ _ (w.faults w.statements) (f w.clock (w.random w.statements) w.db) _
          (fine_now k Q steady w s) (started k Q w s)
          (subst (λ t. Gives Q (f t (w.random w.statements) w.db)) (sym s.clock)
            (subst (λ r. Gives Q (f k.clock (r w.statements) w.db)) (sym s.random)
              (h w.statements w.db p)));
  }

  -- A transaction whose body succeeds is committed.
  pub with_transaction-Total : {body : M A} → Total k P body Q → Total k P (with_transaction body) Q
  unfolding with_transaction begin next_statement
  with_transaction-Total {body} h =
      >>=-Total opened
        λ _. record { run = λ w s p. finish-Done k Q steady w.db (body w) (h.run w s p) }
    where
      opened : Total k P begin (λ _. P)
      opened = record {
        run = λ w s p.
            answer-Done k (λ _. P) _ _ (w.faults w.statements) (some (tt, w.db)) _
              (fine_now k Q steady w s) (started k Q w s) p;
      }

-- The one answer of a run that succeeds.
pub answered :
    {A : Type 0} (k : World) (Q : A → Db → Type 0) (r : Result A × World)
    → Done k Q r
    → (a : A) × (w : World) × (r ≡ (ok a, w)) × Alike k w × Q a w.db
answered k Q (ok a, w) h = (a, w, refl, h.0, h.1)
answered k Q (err e, w) h = absurd h
