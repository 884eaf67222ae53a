-- ===== src/System/Distinct.antt =====
-- Outbox entries with different ids, the primary key of the table sap_outbox.
use sap_orders_api.Prelude.{
  ◌≡◌, refl, sym, ap, ◌∙◌, ◌≢◌, inl, inr, Bool, true, false, List, [], ◌∷◌, ◌++◌, map, Memᴰ, select,
  update_rows, any, ◌==◌, ==_refl, Bool-cases,
}
use sap_orders_api.Prelude.Members.{
  changed, Mem-append, Mem-append_left, Mem-append_right, Mem-update_rows, Mem-select, Mem-map,
  any-false,
}
use sap_orders_api.Domain.Types.{OutboxEntry}
use sap_orders_api.Store.Outbox.{outbox_id_is}

abbrev pub Distinct : List OutboxEntry → Type 0
Distinct [] = Unit {0}
Distinct (x ∷ xs) = ((y : OutboxEntry) → Memᴰ y xs → y.id ≢ x.id) × Distinct xs

-- A change that keeps ids.
abbrev pub KeepsId : (OutboxEntry → OutboxEntry) → Type 0
KeepsId f = (x : OutboxEntry) → (f x).id ≡ x.id

changed-id :
    (p : OutboxEntry → Bool) (f : OutboxEntry → OutboxEntry) → KeepsId f → KeepsId (changed p f)
changed-id p f k x = elim (Bool-cases (p x)) [ inl e ↦ rw e (k x) | inr e ↦ rw e refl ]

-- Two entries of the table with one id are the same entry.
pub Distinct-eq :
    {x y : OutboxEntry} (xs : List OutboxEntry)
    → Distinct xs
    → Memᴰ x xs
    → Memᴰ y xs
    → x.id ≡ y.id
    → x ≡ y
Distinct-eq [] d m n e = elim m [ ]
Distinct-eq (z ∷ xs) d (Memᴰ.head p) (Memᴰ.head q) e = p ∙ sym q
Distinct-eq {x} {y} (z ∷ xs) d (Memᴰ.head p) (Memᴰ.tail n) e =
    absurd (d.0 y n (sym e ∙ ap (λ o. o.id) p))
Distinct-eq {x} (z ∷ xs) d (Memᴰ.tail m) (Memᴰ.head q) e = absurd (d.0 x m (e ∙ ap (λ o. o.id) q))
Distinct-eq (z ∷ xs) d (Memᴰ.tail m) (Memᴰ.tail n) e = Distinct-eq xs d.1 m n e

pub Distinct-update_rows :
    (p : OutboxEntry → Bool) (f : OutboxEntry → OutboxEntry) (xs : List OutboxEntry)
    → KeepsId f
    → Distinct xs
    → Distinct (update_rows p f xs)
Distinct-update_rows p f [] k d = tt
Distinct-update_rows p f (x ∷ xs) k d = (
  λ y m e.
      let (z, n, q) = Mem-update_rows p f xs m in
      d.0 z n (sym (ap (λ o. o.id) q ∙ changed-id p f k z) ∙ e ∙ changed-id p f k x),
  Distinct-update_rows p f xs k d.1,
)

pub Distinct-append :
    (xs ys : List OutboxEntry)
    → Distinct xs
    → Distinct ys
    → ((x y : OutboxEntry) → Memᴰ x xs → Memᴰ y ys → y.id ≢ x.id)
    → Distinct (xs ++ ys)
Distinct-append [] ys d e apart = e
Distinct-append (x ∷ xs) ys d e apart = (
  λ y m q. elim (Mem-append xs ys m) [ inl a ↦ d.0 y a q | inr b ↦ apart x y (Memᴰ.head refl) b q ],
  Distinct-append xs ys d.1 e (λ x' y m n. apart x' y (Memᴰ.tail m) n),
)

pub Distinct-map :
    (f : OutboxEntry → OutboxEntry) (xs : List OutboxEntry)
    → KeepsId f
    → Distinct xs
    → Distinct (map f xs)
Distinct-map f [] k d = tt
Distinct-map f (x ∷ xs) k d = (
  λ y m q. let (z, n, e) = Mem-map f xs m in d.0 z n (sym (ap (λ o. o.id) e ∙ k z) ∙ q ∙ k x),
  Distinct-map f xs k d.1,
)

pub Distinct-select :
    (p : OutboxEntry → Bool) (xs : List OutboxEntry) → Distinct xs → Distinct (select p xs)
Distinct-select p [] d = tt
Distinct-select p (x ∷ xs) d = elim (Bool-cases (p x)) [
  | inl e ↦ rw e ((λ y m. d.0 y (Mem-select p xs m).0), Distinct-select p xs d.1)
  | inr e ↦ rw e (Distinct-select p xs d.1)
]

-- One entry taken out: the others are distinct, and none has its id.
pub Distinct-remove :
    (xs : List OutboxEntry) (e : OutboxEntry) (ys : List OutboxEntry)
    → Distinct (xs ++ e ∷ ys)
    → Distinct (xs ++ ys) × ((x : OutboxEntry) → Memᴰ x (xs ++ ys) → x.id ≢ e.id)
Distinct-remove [] e ys d = (d.1, d.0)
Distinct-remove (z ∷ xs) e ys d =
    let (rest, apart) = Distinct-remove xs e ys d.1 in ((widen, rest), λ x m. others x apart m)
  where
    widen : (y : OutboxEntry) → Memᴰ y (xs ++ ys) → y.id ≢ z.id
    widen y m = elim (Mem-append xs ys m) [
      | inl a ↦ d.0 y (Mem-append_left xs (e ∷ ys) a)
      | inr b ↦ d.0 y (Mem-append_right xs (e ∷ ys) (Memᴰ.tail b))
    ]

    others :
        (x : OutboxEntry)
        → ((x : OutboxEntry) → Memᴰ x (xs ++ ys) → x.id ≢ e.id)
        → Memᴰ x (z ∷ xs ++ ys)
        → x.id ≢ e.id
    others x apart (Memᴰ.head q) k =
        d.0 e (Mem-append_right xs (e ∷ ys) (Memᴰ.head refl)) (sym k ∙ ap (λ o. o.id) q)
    others x apart (Memᴰ.tail m) k = apart x m k

-- An entry whose id is new may be added.
pub Distinct-added :
    (xs : List OutboxEntry) (e : OutboxEntry)
    → Distinct xs
    → any (outbox_id_is e.id) xs ≡ false
    → Distinct (xs ++ e ∷ [])
Distinct-added xs e d new =
    Distinct-append xs (e ∷ []) d ((λ y m. elim m [ ]), tt)
      λ x y m n q. let same = same_id x y n q in cc (any-false (outbox_id_is e.id) xs new m, same)
  where
    same_id : (x y : OutboxEntry) → Memᴰ y (e ∷ []) → y.id ≡ x.id → (x.id == e.id) ≡ true
    same_id x y (Memᴰ.head p) q = rw (sym q ∙ ap (λ o. o.id) p) (==_refl e.id)
    same_id x y (Memᴰ.tail m) q = elim m [ ]
