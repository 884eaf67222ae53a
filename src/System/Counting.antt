-- ===== src/System/Counting.antt =====
-- The number of outbox rows that a condition selects, by the primary key.
use sap_orders_api.Prelude.{
  ℕ, suc, ◌+◌, ◌≡◌, refl, sym, ap, ◌∙◌, ◌≢◌, inl, inr, Bool, true, false, ◌||◌, List, [], ◌∷◌, map,
  Memᴰ, length, select, ◌==◌, ==_iff, ==_refl, arith, Bool-cases,
}
use sap_orders_api.Domain.Types.{OutboxEntry}
use sap_orders_api.Store.Outbox.{id_in, outbox_id_is}
use sap_orders_api.System.Distinct.{Distinct, Distinct-eq}

-- the number of rows with p
abbrev pub count : (OutboxEntry → Bool) → List OutboxEntry → ℕ
count p X = length (select p X)

count-none :
    (p : OutboxEntry → Bool) (X : List OutboxEntry)
    → ((x : OutboxEntry) → Memᴰ x X → p x ≡ false)
    → count p X ≡ 0
count-none p [] h = refl
count-none p (x ∷ X) h =
    let rest = count-none p X (λ y m. h y (Memᴰ.tail m)) in rw (h x (Memᴰ.head refl)) rest

-- Rows with one of two conditions that no row meets both.
count-either :
    (p q : OutboxEntry → Bool) (X : List OutboxEntry)
    → ((x : OutboxEntry) → Memᴰ x X → p x ≡ true → q x ≡ false)
    → count (λ x. p x || q x) X ≡ count p X + count q X
count-either p q [] h = refl
count-either p q (x ∷ X) h =
    let rest = count-either p q X (λ y m. h y (Memᴰ.tail m)) in
    elim (Bool-cases (p x)) [
      | inl e ↦ rw e (rw (h x (Memᴰ.head refl) e) (omega (arith, rest)))
      | inr e ↦
          rw e (elim (Bool-cases (q x)) [ inl k ↦ rw k (omega (arith, rest)) | inr k ↦ rw k rest ])
    ]

-- The primary key picks one row.
count-id :
    (X : List OutboxEntry) (r : OutboxEntry)
    → Distinct X
    → Memᴰ r X
    → count (outbox_id_is r.id) X ≡ 1
count-id [] r d m = elim m [ ]
count-id (x ∷ X) r d (Memᴰ.head q) =
    rw (ap (λ o. o.id == r.id) (sym q) ∙ ==_refl r.id) (
      ap suc
        (count-none (outbox_id_is r.id) X λ y m. other y (λ s. d.0 y m (s ∙ ap (λ o. o.id) q))))
  where
    other : (y : OutboxEntry) → y.id ≢ r.id → (y.id == r.id) ≡ false
    other y n = elim (Bool-cases (y.id == r.id)) [
      | inl e ↦ absurd (n ((==_iff _ _).0 e))
      | inr e ↦ e
    ]
count-id (x ∷ X) r d (Memᴰ.tail m) = rw (not_first (d.0 r m)) (count-id X r d.1 m)
  where
    not_first : r.id ≢ x.id → (x.id == r.id) ≡ false
    not_first n = elim (Bool-cases (x.id == r.id)) [
      | inl e ↦ absurd (n (sym ((==_iff _ _).0 e)))
      | inr e ↦ e
    ]

-- A row's id is among those of some rows if the row is, and only then.
pub id_in-rows :
    (X R : List OutboxEntry) (x : OutboxEntry)
    → Distinct X
    → ((r : OutboxEntry) → Memᴰ r R → Memᴰ r X)
    → Memᴰ x X
    → id_in (map (λ (e : OutboxEntry). e.id) R) x ≡ true
    → Memᴰ x R
id_in-rows X [] x d h m e = cc
id_in-rows X (r ∷ R) x d h m e = elim (Bool-cases (x.id == r.id)) [
  | inl q ↦ Memᴰ.head (Distinct-eq X d m (h r (Memᴰ.head refl)) ((==_iff _ _).0 q))
  | inr q ↦ Memᴰ.tail (id_in-rows X R x d (λ y n. h y (Memᴰ.tail n)) m (rw q at e))
]

pub rows-id_in :
    (R : List OutboxEntry) (x : OutboxEntry)
    → Memᴰ x R
    → id_in (map (λ (e : OutboxEntry). e.id) R) x ≡ true
rows-id_in [] x m = elim m [ ]
rows-id_in (r ∷ R) x (Memᴰ.head q) = rw (ap (λ o. o.id == r.id) q ∙ ==_refl r.id) refl
rows-id_in (r ∷ R) x (Memᴰ.tail m) = or_right (x.id == r.id) _ (rows-id_in R x m)
  where
    or_right : (a b : Bool) → b ≡ true → (a || b) ≡ true
    or_right a b h = ground arith

-- As many rows have one of the ids as there are ids.
pub count-ids :
    (X R : List OutboxEntry)
    → Distinct X
    → Distinct R
    → ((r : OutboxEntry) → Memᴰ r R → Memᴰ r X)
    → count (id_in (map (λ (e : OutboxEntry). e.id) R)) X ≡ length R
count-ids X [] d k h = count-none _ X (λ x m. refl)
count-ids X (r ∷ R) d k h =
    count-either (outbox_id_is r.id) (id_in (map (λ (e : OutboxEntry). e.id) R)) X apart
    ∙ (let one = count-id X r d (h r (Memᴰ.head refl)) in
        let rest = count-ids X R d k.1 (λ y n. h y (Memᴰ.tail n)) in omega (arith, one, rest))
  where
    apart :
        (x : OutboxEntry)
        → Memᴰ x X
        → outbox_id_is r.id x ≡ true
        → id_in (map (λ (e : OutboxEntry). e.id) R) x ≡ false
    apart x m e = elim (Bool-cases (id_in (map (λ (e : OutboxEntry). e.id) R) x)) [
      | inl q ↦
          absurd (k.0 x (id_in-rows X R x d (λ y n. h y (Memᴰ.tail n)) m q) ((==_iff _ _).0 e))
      | inr q ↦ q
    ]
