-- ===== src/Store/Rearranged.antt =====
-- The order in which a table keeps its rows, against `ORDER BY created_at DESC` of List in
-- internal/repository/order_repository.go.
use mathlib.Core.List.{Permᴰ}
use sap_orders_api.Prelude.{
  ℕ, ◌≡◌, refl, sym, ap, ◌∙◌, ◌≢◌, ◌⊎◌, inl, inr, Bool, true, false, List, [], ◌∷◌, Memᴰ, select,
  sort_desc, leb, ◌==◌, ==_iff, Bool-cases, arith,
}
use sap_orders_api.Prelude.Lists.{insert_with, sort_with}
use sap_orders_api.Domain.Types.{OrderRow}

-- No two orders were created at the same time.
abbrev pub IsApart : List OrderRow → Type 0
IsApart rows = (x y : OrderRow) → Memᴰ x rows → Memᴰ y rows → x.created_at ≡ y.created_at → x ≡ y

abbrev newer : OrderRow → OrderRow → Bool
newer x y = leb y.created_at x.created_at

apart :
    (a b : ℕ)
    → a ≢ b
    → ((leb a b ≡ true) × (leb b a ≡ false)) ⊎ ((leb a b ≡ false) × (leb b a ≡ true))
apart a b h = elim (Bool-cases (leb a b)) [
  | inl e ↦ inl (e, not_both (Bool-cases (leb b a)) e)
  | inr e ↦ inr (e, ground arith)
]
  where
    not_both : (leb b a ≡ true) ⊎ (leb b a ≡ false) → leb a b ≡ true → leb b a ≡ false
    not_both (inr k) e = k
    not_both (inl k) e = absurd (h (ground arith))

insert-commute :
    (x y : OrderRow) (s : List OrderRow)
    → x.created_at ≢ y.created_at
    → insert_with newer x (insert_with newer y s) ≡ insert_with newer y (insert_with newer x s)
unfolding insert_with
insert-commute x y [] h = elim (apart x.created_at y.created_at h) [
  | inl (a, b) ↦ rw a (rw b refl)
  | inr (a, b) ↦ rw a (rw b refl)
]
insert-commute x y (z ∷ s) h =
    let rest = insert-commute x y s h in
    elim (Bool-cases (newer x z)) [
      | inl i ↦ elim (Bool-cases (newer y z)) [
        | inl j ↦ elim (apart x.created_at y.created_at h) [
          | inl (a, b) ↦ rw i (rw j (rw a (rw b (rw i refl))))
          | inr (a, b) ↦ rw i (rw j (rw a (rw b refl)))
        ]
        | inr j ↦ rw i (rw j (rw i (rw (later y x z j i) refl)))
      ]
      | inr i ↦ elim (Bool-cases (newer y z)) [
        | inl j ↦ rw i (rw j (rw (later x y z i j) (rw i refl)))
        | inr j ↦ rw i (rw j (rw i (ap (λ t. z ∷ t) rest)))
      ]
    ]
  where
    later : (a b z : OrderRow) → newer a z ≡ false → newer b z ≡ true → newer a b ≡ false
    later a b z h k = ground arith

insert-either :
    (x y : OrderRow) (s : List OrderRow)
    → (x.created_at ≡ y.created_at → x ≡ y)
    → insert_with newer x (insert_with newer y s) ≡ insert_with newer y (insert_with newer x s)
insert-either x y s h = elim (Bool-cases (x.created_at == y.created_at)) [
  | inl e ↦
      let same = h ((==_iff x.created_at y.created_at).0 e) in
      ap (λ z. insert_with newer z (insert_with newer y s)) same
      ∙ ap (λ z. insert_with newer y (insert_with newer z s)) (sym same)
  | inr e ↦ insert-commute x y s (differ e)
]
  where
    differ : (x.created_at == y.created_at) ≡ false → x.created_at ≢ y.created_at
    differ e same = clash ((==_iff x.created_at y.created_at).1 same) e
      where
        clash : {b : Bool} → b ≡ true → b ≡ false → ⊥
        clash h k = cc

perm-Mem : {xs ys : List OrderRow} {z : OrderRow} → Permᴰ xs ys → Memᴰ z ys → Memᴰ z xs
perm-Mem Permᴰ.nil m = m
perm-Mem (Permᴰ.cons e p) (Memᴰ.head h) = Memᴰ.head (h ∙ sym e)
perm-Mem (Permᴰ.cons e p) (Memᴰ.tail m) = Memᴰ.tail (perm-Mem p m)
perm-Mem (Permᴰ.swap e f) (Memᴰ.head h) = Memᴰ.tail (Memᴰ.head (h ∙ sym f))
perm-Mem (Permᴰ.swap e f) (Memᴰ.tail (Memᴰ.head h)) = Memᴰ.head (h ∙ sym e)
perm-Mem (Permᴰ.swap e f) (Memᴰ.tail (Memᴰ.tail m)) = Memᴰ.tail (Memᴰ.tail m)
perm-Mem (Permᴰ.trans p q) m = perm-Mem p (perm-Mem q m)

module _ (p : OrderRow → Bool) where
  abbrev sorted : List OrderRow → List OrderRow
  sorted X = sort_desc (λ r. r.created_at) (select p X)

  sorted-cons :
      (x : OrderRow) (X Y : List OrderRow) → sorted X ≡ sorted Y → sorted (x ∷ X) ≡ sorted (x ∷ Y)
  unfolding sort_with
  sorted-cons x X Y rest = elim (Bool-cases (p x)) [
    | inl i ↦ rw i (ap (insert_with newer x) rest)
    | inr i ↦ rw i rest
  ]

  sorted-swap :
      (x y : OrderRow) (X : List OrderRow)
      → (x.created_at ≡ y.created_at → x ≡ y)
      → sorted (x ∷ y ∷ X) ≡ sorted (y ∷ x ∷ X)
  unfolding sort_with
  sorted-swap x y X h = elim (Bool-cases (p x)) [
    | inl i ↦ elim (Bool-cases (p y)) [
      | inl j ↦ rw i (rw j (insert-either x y (sorted X) h))
      | inr j ↦ rw i (rw j refl)
    ]
    | inr i ↦ elim (Bool-cases (p y)) [ inl j ↦ rw i (rw j refl) | inr j ↦ rw i (rw j refl) ]
  ]

  -- Whatever order the rows are kept in, the sorted rows are the same ones.
  pub sorted-Perm : {X Y : List OrderRow} → Permᴰ X Y → IsApart X → sorted X ≡ sorted Y
  sorted-Perm Permᴰ.nil h = refl
  sorted-Perm (Permᴰ.cons {a} {b} {l₁} {l₂} e q) h =
      let rest = sorted-Perm q (λ x y m n. h x y (Memᴰ.tail m) (Memᴰ.tail n)) in
      sorted-cons a l₁ l₂ rest ∙ ap (λ z. sorted (z ∷ l₂)) e
  sorted-Perm (Permᴰ.swap {a} {b} {a'} {b'} {l} e f) h =
      sorted-swap a b l (h a b (Memᴰ.head refl) (Memᴰ.tail (Memᴰ.head refl)))
      ∙ ap (λ z. sorted (z ∷ a ∷ l)) f
      ∙ ap (λ z. sorted (a' ∷ z ∷ l)) e
  sorted-Perm (Permᴰ.trans q r) h =
      sorted-Perm q h ∙ sorted-Perm r (λ x y m n. h x y (perm-Mem q m) (perm-Mem q n))
