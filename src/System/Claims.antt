-- ===== src/System/Claims.antt =====
-- Which entries ClaimPending (internal/repository/outbox_repository.go) hands to a worker.
use sap_orders_api.Prelude.{
  ℕ, zero, suc, ◌≤◌, ◌≡◌, refl, sym, ap, subst, ◌∙◌, ◌≢◌, ◌⊎◌, inl, inr, Bool, true, List, [], ◌∷◌,
  map, Memᴰ, length, take, select, sort_asc, leb, if◌then◌else◌, arith, Bool-cases,
}
use sap_orders_api.Prelude.Members.{
  Mem-select, Mem-map, Mem-take, Mem-sort_with, select-Mem, map-Mem, Mem-insert_with,
}
use sap_orders_api.Prelude.Sorting.{
  sorted-Mem, sort_asc-InOrder, take-drop-InOrder, taken-or-left, length-take_is, length-sort_with,
}
use sap_orders_api.Prelude.Lists.{insert_with, sort_with}
use sap_orders_api.Domain.Types.{OutboxEntry}
use sap_orders_api.Store.Monad.{Db, World, Result, ok, err}
use sap_orders_api.Store.Triple.{Ensures}
use sap_orders_api.Store.Total.{Steady, query-Total}
use sap_orders_api.Service.Sync.Admission.{succeeded}
use sap_orders_api.Store.Outbox
use sap_orders_api.Store.Outbox.{claimable, chosen, id_in, outbox_id_is, set_claimed, claim_rows}
use sap_orders_api.Service.Sync.{claim_pending}
use sap_orders_api.System.Effects.{claim_pending-Claimed}
use sap_orders_api.System.Distinct.{Distinct, Distinct-select}
use sap_orders_api.System.Counting.{count-ids, id_in-rows, rows-id_in}

-- What a worker gets from the outbox X: as many entries as the limit and the table allow, each a
-- claimable entry of the table with its attempt counted, and none while an older one is left.
pub record OldestFirst (limit : ℕ) (X es : List OutboxEntry) : Type 0 where
  pub count : let n = length (select claimable X) in length es ≡ (if leb limit n then limit else n)
  pub from_table :
      (e : OutboxEntry)
      → Memᴰ e es
      → (x : OutboxEntry) × Memᴰ x X × (claimable x ≡ true) × (e ≡ set_claimed x)
  pub oldest :
      (e x : OutboxEntry)
      → Memᴰ e es
      → Memᴰ x X
      → claimable x ≡ true
      → e.created_at ≤ x.created_at ⊎ Memᴰ (set_claimed x) es

Distinct-take : (n : ℕ) (xs : List OutboxEntry) → Distinct xs → Distinct (take n xs)
Distinct-take zero xs d = tt
Distinct-take (suc n) [] d = tt
Distinct-take (suc n) (x ∷ xs) d = ((λ y m. d.0 y (Mem-take n xs m)), Distinct-take n xs d.1)

Distinct-insert_with :
    (before : OutboxEntry → OutboxEntry → Bool) (x : OutboxEntry) (xs : List OutboxEntry)
    → Distinct (x ∷ xs)
    → Distinct (insert_with before x xs)
unfolding insert_with
Distinct-insert_with before x [] d = d
Distinct-insert_with before x (y ∷ ys) d =
    let rest = Distinct-insert_with before x ys ((λ z m. d.0 z (Memᴰ.tail m)), d.1.1) in
    elim (Bool-cases (before x y)) [
      | inl e ↦ rw e d
      | inr e ↦ rw e ((λ z m. later z (Mem-insert_with before x ys m)), rest)
    ]
  where
    later : (z : OutboxEntry) → (z ≡ x) ⊎ Memᴰ z ys → z.id ≢ y.id
    later z (inl q) same = d.0 y (Memᴰ.head refl) (sym same ∙ ap (λ o. o.id) q)
    later z (inr m) same = d.1.0 z m same

Distinct-sort_with :
    (before : OutboxEntry → OutboxEntry → Bool) (xs : List OutboxEntry)
    → Distinct xs
    → Distinct (sort_with before xs)
unfolding sort_with
Distinct-sort_with before [] d = tt
Distinct-sort_with before (x ∷ xs) d =
    Distinct-insert_with before x (sort_with before xs)
      ((λ y m. d.0 y (Mem-sort_with before xs m)), Distinct-sort_with before xs d.1)

leb→le : (a b : ℕ) → leb a b ≡ true → a ≤ b
leb→le a b h = ground arith

length-map : (f : OutboxEntry → OutboxEntry) (xs : List OutboxEntry) → length (map f xs) ≡ length xs
length-map f [] = refl
length-map f (x ∷ xs) = ap suc (length-map f xs)

module _ (limit : ℕ) (db : Db) (d : Distinct db.outbox) where
  -- the claimable rows, the oldest first, and those that are chosen
  abbrev sorted : List OutboxEntry
  sorted = sort_asc (λ e. e.created_at) (select claimable db.outbox)

  abbrev rows : List OutboxEntry
  rows = take limit sorted

  sorted-Mem_is : (r : OutboxEntry) → Memᴰ r sorted → Memᴰ r db.outbox × (claimable r ≡ true)
  sorted-Mem_is r m = Mem-select claimable db.outbox (Mem-sort_with _ _ m)

  in_table : (r : OutboxEntry) → Memᴰ r rows → Memᴰ r db.outbox
  in_table r m = (sorted-Mem_is r (Mem-take limit sorted m)).0

  chosen-count : length (claim_rows (chosen limit db) db).0 ≡ length rows
  chosen-count =
      length-map set_claimed (select (id_in (chosen limit db)) db.outbox)
      ∙ count-ids db.outbox rows d
          (Distinct-take limit sorted (Distinct-sort_with _ _ (Distinct-select claimable _ d)))
          in_table

  pub chosen-OldestFirst : OldestFirst limit db.outbox (claim_rows (chosen limit db) db).0
  chosen-OldestFirst = record {
    count =
        chosen-count
        ∙ length-take_is limit sorted
        ∙ ap (λ n. if leb limit n then limit else n)
            (length-sort_with _ (select claimable db.outbox));
    from_table = λ e m.
        let (x, n, q) = Mem-map set_claimed (select (id_in (chosen limit db)) db.outbox) m in
        let (k, c) = Mem-select (id_in (chosen limit db)) db.outbox n in
        let ready =
          sorted-Mem_is x (Mem-take limit sorted (id_in-rows db.outbox rows x d in_table k c)) in
        (x, k, ready.1, q);
    oldest = λ e x m n c.
        let (y, l, q) = Mem-map set_claimed (select (id_in (chosen limit db)) db.outbox) m in
        let (k, f) = Mem-select (id_in (chosen limit db)) db.outbox l in
        elim (taken-or-left limit sorted (sorted-Mem _ _ (select-Mem claimable db.outbox n c))) [
          | inl taken ↦ inr (
              map-Mem set_claimed _
                (select-Mem (id_in (chosen limit db)) db.outbox n (rows-id_in rows x taken)))
          | inr left ↦ inl (
              subst (λ o. o.created_at ≤ x.created_at) (sym q)
                (leb→le y.created_at x.created_at (
                  take-drop-InOrder _ limit sorted
                    (sort_asc-InOrder (λ (o : OutboxEntry). o.created_at) _)
                    (id_in-rows db.outbox rows y d in_table k f) left)))
        ];
  }

ok-injective : {x y : List OutboxEntry} → ok x ≡ ok y → x ≡ y
ok-injective h = cc

claimed-is :
    (limit : ℕ) (X : Db) (r : Result (List OutboxEntry) × World) (es : List OutboxEntry)
    → r.0 ≡ ok es
    → (let after = claim_rows (chosen limit X) X in
        Ensures (λ es db. (es ≡ after.0) × (db ≡ after.1)) (λ db. (db ≡ X) ⊎ (db ≡ after.1)) r)
    → es ≡ (claim_rows (chosen limit X) X).0
claimed-is limit X (ok xs, v) es q h = sym (ok-injective q) ∙ h.0
claimed-is limit X (err x, v) es q h = cc

claim_pending-succeeds :
    (limit : ℕ) (w : World)
    → Steady w
    → (es : List OutboxEntry) × ((claim_pending limit w).0 ≡ ok es)
unfolding claim_pending Outbox.claim_pending
claim_pending-succeeds limit w steady =
    let (es, same, h) =
      succeeded w (λ _ _. Unit {0}) (λ _. Unit {0}) (claim_pending limit w)
        ((query-Total steady {P = λ _. Unit {0}} "claim pending outbox entries: " _
            (λ n db p. tt)).run
          w (record { clock = refl; random = refl; faults = refl }) tt)
        (anyhow (claim_pending limit w)) in
    (es, same)
  where
    anyhow : (r : Result (List OutboxEntry) × World) → Ensures (λ _ _. Unit {0}) (λ _. Unit {0}) r
    anyhow (ok es, v) = tt
    anyhow (err x, v) = tt

-- ClaimPending is a queue. Of a table whose ids are distinct a claim that succeeds takes exactly as
-- many entries as its limit and the number of claimable ones (PENDING, with an attempt left) allow,
-- hands them out with their attempt counted, and leaves no claimable entry that is older than one
-- that it takes; and it succeeds if no statement fails.
pub claim_pending-OldestFirst :
    (limit : ℕ) (w : World)
    → Distinct w.db.outbox
    → ((es : List OutboxEntry)
        → (claim_pending limit w).0 ≡ ok es
        → OldestFirst limit w.db.outbox es)
      × (Steady w → (es : List OutboxEntry) × ((claim_pending limit w).0 ≡ ok es))
claim_pending-OldestFirst limit w d = (
  λ es e.
      subst (OldestFirst limit w.db.outbox)
        (sym (claimed-is limit w.db _ es e (claim_pending-Claimed limit w)))
        (chosen-OldestFirst limit w.db d),
  claim_pending-succeeds limit w,
)
