-- ===== src/System/Held.antt =====
-- What a change of the outbox table does to the entries that workers hold.
use sap_orders_api.Prelude.{
  ℕ, ◌≡◌, refl, sym, ap, subst, ◌∙◌, ◌≢◌, inl, inr, Bool, true, false, List, [], ◌∷◌, ◌++◌, Memᴰ,
  select, update_rows, arith, if◌then◌else◌, Bool-cases, ◌==◌, ==_iff,
}
use sap_orders_api.Prelude.Members.{Mem-append_left, update_rows-Mem, Mem-select, Mem-map}
use sap_orders_api.Domain.Types.{Uuid, processing, OutboxEntry}
use sap_orders_api.Store.Monad.{Db}
use sap_orders_api.Store.Outbox.{
  cancellable, set_cancelled, chosen, id_in, claimable, set_claimed, claim_rows, outbox_id_is,
}
use sap_orders_api.System.Effects.{
  IsFresh, Requested, unchanged, added, withdrawn, Processed, settled,
}
use sap_orders_api.System.Distinct.{
  Distinct, Distinct-append, Distinct-map, Distinct-select, Distinct-eq,
}
use sap_orders_api.System.Table.{
  IsPlain, OneActive, update_rows-OneActive, added-OneActive, IsHeld, update_rows-IsPlain,
  set_cancelled-IsFine, set_claimed-IsFine, settled-IsFine, added-IsPlain, chosen-claimable,
}

-- A row that an UPDATE does not select is still there.
pub update_rows-IsHeld :
    (p : OutboxEntry → Bool) (f : OutboxEntry → OutboxEntry) (X : List OutboxEntry)
    (e : OutboxEntry)
    → p e ≡ false
    → IsHeld X e
    → IsHeld (update_rows p f X) e
update_rows-IsHeld p f X e h (m, s) = (
  subst (λ x. Memᴰ x (update_rows p f X)) (ap (λ b. if b then f e else e) h)
      (update_rows-Mem p f X m),
  s,
)

==_false : (x y : ℕ) → x ≢ y → (x == y) ≡ false
==_false x y d = elim (Bool-cases (x == y)) [ inl e ↦ absurd (d ((==_iff x y).0 e)) | inr e ↦ e ]

-- What a change of the table keeps: its form, and what is held.
abbrev pub Keeps : List OutboxEntry → List OutboxEntry → Type 0
Keeps X Y = IsPlain Y × ((e : OutboxEntry) → IsHeld X e → IsHeld Y e)

pub along : {X Y Z : List OutboxEntry} → Z ≡ Y → Keeps X Y → Keeps X Z
along {X} e k = subst (Keeps X) (sym e) k

not_cancellable :
    (item_id outbox_id : Uuid) (e : OutboxEntry)
    → e.status ≡ processing
    → cancellable item_id outbox_id e ≡ false
not_cancellable item_id outbox_id e h = ground arith

pub added-Keeps :
    (X : List OutboxEntry) (e : OutboxEntry) → IsFresh X e → IsPlain X → Keeps X (X ++ e ∷ [])
added-Keeps X e new t = (added-IsPlain X e new t, λ x h. (Mem-append_left X (e ∷ []) h.0, h.1))

pub Requested-Keeps : (X Y : List OutboxEntry) → Requested X Y → IsPlain X → Keeps X Y
Requested-Keeps X Y (unchanged e) t = along e (t, λ x h. h)
Requested-Keeps X Y (added e new q) t = along q (added-Keeps X e new.fresh t)
Requested-Keeps X Y (withdrawn item_id outbox_id t q) table = along q (
  update_rows-IsPlain (set_cancelled-IsFine X item_id outbox_id t) table,
  λ x h.
      update_rows-IsHeld (cancellable item_id outbox_id) (set_cancelled t) X x
        (not_cancellable item_id outbox_id x h.1) h,
)

pub Requested-OneActive : (X Y : List OutboxEntry) → Requested X Y → OneActive X → OneActive Y
Requested-OneActive X Y (unchanged e) one = subst OneActive (sym e) one
Requested-OneActive X Y (added e new q) one =
    subst OneActive (sym q) (added-OneActive X e new.none_active one)
Requested-OneActive X Y (withdrawn item_id outbox_id t q) one =
    subst OneActive (sym q) (update_rows-OneActive (set_cancelled-IsFine X item_id outbox_id t) one)

pub not_both : (e : OutboxEntry) → claimable e ≡ true → e.status ≡ processing → ⊥
not_both e a b = ground arith

module _ (limit : ℕ) (db : Db) (t : IsPlain db.outbox) where
  -- A held entry is not chosen: the chosen ones are PENDING.
  held_not_chosen : (e : OutboxEntry) → IsHeld db.outbox e → id_in (chosen limit db) e ≡ false
  held_not_chosen e h = elim (Bool-cases (id_in (chosen limit db) e)) [
    | inl c ↦ absurd (not_both e (chosen-claimable limit db e t.distinct h.0 c) h.1)
    | inr n ↦ n
  ]

  pub claimed-Keeps : Keeps db.outbox (claim_rows (chosen limit db) db).1.outbox
  claimed-Keeps = (
    update_rows-IsPlain (set_claimed-IsFine limit db t.distinct) t,
    λ e h.
        update_rows-IsHeld (id_in (chosen limit db)) set_claimed db.outbox e (held_not_chosen e h)
          h,
  )

  pub claimed-OneActive : OneActive db.outbox → OneActive (claim_rows (chosen limit db) db).1.outbox
  claimed-OneActive one = update_rows-OneActive (set_claimed-IsFine limit db t.distinct) one

  -- What the worker gets is in the table, and PROCESSING.
  pub claimed-IsHeld :
      (e : OutboxEntry)
      → Memᴰ e (claim_rows (chosen limit db) db).0
      → IsHeld (claim_rows (chosen limit db) db).1.outbox e
  claimed-IsHeld e m =
      let (y, n, q) = Mem-map set_claimed (select (id_in (chosen limit db)) db.outbox) m in
      let (k, c) = Mem-select (id_in (chosen limit db)) db.outbox n in
      (
        subst (λ x. Memᴰ x (claim_rows (chosen limit db) db).1.outbox)
            (ap (λ b. if b then set_claimed y else y) c ∙ sym q)
            (update_rows-Mem (id_in (chosen limit db)) set_claimed db.outbox k),
        ap (λ x. x.status) q,
      )

  pub claimed-apart :
      (xs : List OutboxEntry)
      → ((e : OutboxEntry) → Memᴰ e xs → IsHeld db.outbox e)
      → Distinct xs
      → Distinct (xs ++ (claim_rows (chosen limit db) db).0)
  claimed-apart xs held d =
      Distinct-append xs _ d
        (Distinct-map set_claimed _ (λ x. refl) (Distinct-select _ db.outbox t.distinct))
        λ x y m n same.
          let (z, k, q) = Mem-map set_claimed (select (id_in (chosen limit db)) db.outbox) n in
          let (found, c) = Mem-select (id_in (chosen limit db)) db.outbox k in
          let z_is =
            Distinct-eq db.outbox t.distinct found (held x m).0 (sym (ap (λ o. o.id) q) ∙ same) in
          not_both x
            (subst (λ o. claimable o ≡ true) z_is (chosen-claimable limit db z t.distinct found c))
            (held x m).1

-- The others that are held stay PROCESSING while one entry is settled.
pub Processed-Keeps :
    (e : OutboxEntry) (X Y : List OutboxEntry)
    → Processed e X Y
    → IsHeld X e
    → IsPlain X
    → IsPlain Y × ((x : OutboxEntry) → x.id ≢ e.id → IsHeld X x → IsHeld Y x)
Processed-Keeps e X Y (Processed.unchanged q) h t =
    subst (λ Y. IsPlain Y × ((x : OutboxEntry) → x.id ≢ e.id → IsHeld X x → IsHeld Y x)) (sym q)
      (t, λ x d k. k)
Processed-Keeps e X Y (settled f s q) h t =
    subst (λ Y. IsPlain Y × ((x : OutboxEntry) → x.id ≢ e.id → IsHeld X x → IsHeld Y x)) (sym q)
      (
        update_rows-IsPlain (settled-IsFine X e f t.distinct h s) t,
        λ x d k. update_rows-IsHeld (outbox_id_is e.id) f X x (==_false x.id e.id d) k,
      )

pub Processed-OneActive :
    (e : OutboxEntry) (X Y : List OutboxEntry)
    → Processed e X Y
    → IsHeld X e
    → IsPlain X
    → OneActive X
    → OneActive Y
Processed-OneActive e X Y (Processed.unchanged q) h t one = subst OneActive (sym q) one
Processed-OneActive e X Y (settled f s q) h t one =
    subst OneActive (sym q) (update_rows-OneActive (settled-IsFine X e f t.distinct h s) one)
