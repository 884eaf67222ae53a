-- ===== src/System/Table.antt =====
-- A well-formed outbox table, an item with one active entry, and the changes that keep it so.
use sap_orders_api.Prelude.{
  ℕ, ◌≤◌, ◌<◌, ◌≡◌, refl, sym, ap, subst, ◌∙◌, ◌≢◌, inl, inr, Bool, true, false, List, [], ◌∷◌,
  ◌++◌, any, Memᴰ, select, update_rows, take, sort_asc, ◌==◌, ==_iff, arith, Bool-cases,
}
use sap_orders_api.Prelude.Members.{
  changed, Mem-added, Mem-update_rows, Mem-select, Mem-map, Mem-take, Mem-sort_with, any-Mem,
  any-false,
}
use sap_orders_api.Domain.Types.{Uuid, Time, OutboxStatus, processing, completed, OutboxEntry}
use sap_orders_api.Store.Monad.{Db}
use sap_orders_api.Store.Outbox.{
  is_active, active_for, cancellable, set_cancelled, claimable, chosen, id_in, set_claimed,
  outbox_id_is,
}
use sap_orders_api.System.Effects.{IsFresh, Settles, completes, fails}
use sap_orders_api.System.Distinct.{
  Distinct, Distinct-eq, Distinct-update_rows, Distinct-added, KeepsId,
}

-- The count of attempts fits the status: a PENDING entry has an attempt left, a FAILED one has
-- none left, and only an entry that was tried is processed, completed or failed.
pub record IsSound (e : OutboxEntry) : Type 0 where
  pub within : e.attempts ≤ e.max_attempts
  pub left : e.status ≡ OutboxStatus.pending → e.attempts < e.max_attempts
  pub spent : e.status ≡ OutboxStatus.failed → e.attempts ≡ e.max_attempts
  pub tried : e.status ≡ processing → 0 < e.attempts
  pub tried_completed : e.status ≡ completed → 0 < e.attempts

-- An item has at most one entry that is PENDING or PROCESSING.
abbrev pub OneActive : List OutboxEntry → Type 0
OneActive X =
    (x y : OutboxEntry)
    → Memᴰ x X
    → Memᴰ y X
    → is_active x.status ≡ true
    → is_active y.status ≡ true
    → x.order_item_id ≡ y.order_item_id
    → x ≡ y

abbrev pub AllSound : List OutboxEntry → Type 0
AllSound X = (x : OutboxEntry) → Memᴰ x X → IsSound x

-- What one statement after the other keeps, whatever runs between them.
pub record IsPlain (X : List OutboxEntry) : Type 0 where
  pub sound : AllSound X
  pub distinct : Distinct X

-- A change of the rows with p that keeps ids and items, keeps soundness and activates no row.
pub record IsFine (X : List OutboxEntry) (p : OutboxEntry → Bool) (f : OutboxEntry → OutboxEntry)
    : Type 0 where
  pub keeps_id : KeepsId f
  pub keeps_item : (x : OutboxEntry) → (f x).order_item_id ≡ x.order_item_id
  pub keeps_sound : (x : OutboxEntry) → Memᴰ x X → p x ≡ true → IsSound x → IsSound (f x)
  pub activates_none :
      (x : OutboxEntry)
      → Memᴰ x X
      → p x ≡ true
      → is_active (f x).status ≡ true
      → is_active x.status ≡ true

module _ {X : List OutboxEntry} {p : OutboxEntry → Bool} {f : OutboxEntry → OutboxEntry}
    (fine : IsFine X p f) where
  changed-IsSound : (x : OutboxEntry) → Memᴰ x X → IsSound x → IsSound (changed p f x)
  changed-IsSound x m s = elim (Bool-cases (p x)) [
    | inl e ↦ rw e (fine.keeps_sound x m e s)
    | inr e ↦ rw e s
  ]

  changed-active :
      (x : OutboxEntry)
      → Memᴰ x X
      → is_active (changed p f x).status ≡ true
      → is_active x.status ≡ true
  changed-active x m h = elim (Bool-cases (p x)) [
    | inl e ↦ fine.activates_none x m e (rw e at h)
    | inr e ↦ rw e at h
  ]

  changed-item : (x : OutboxEntry) → (changed p f x).order_item_id ≡ x.order_item_id
  changed-item x = elim (Bool-cases (p x)) [ inl e ↦ rw e (fine.keeps_item x) | inr e ↦ rw e refl ]

  pub update_rows-IsPlain : IsPlain X → IsPlain (update_rows p f X)
  update_rows-IsPlain t = record {
    sound = λ x m.
        let (y, n, e) = Mem-update_rows p f X m in
        subst IsSound (sym e) (changed-IsSound y n (t.sound y n));
    distinct = Distinct-update_rows p f X fine.keeps_id t.distinct;
  }

  pub update_rows-OneActive : OneActive X → OneActive (update_rows p f X)
  update_rows-OneActive one x y m n a b same =
      let (x', m', e) = Mem-update_rows p f X m in
      let (y', n', q) = Mem-update_rows p f X n in
      e
      ∙ ap (changed p f) (
          one x' y' m' n' (changed-active x' m' (ap (λ o. is_active o.status) (sym e) ∙ a))
            (changed-active y' n' (ap (λ o. is_active o.status) (sym q) ∙ b))
            (sym (changed-item x')
              ∙ ap (λ o. o.order_item_id) (sym e)
              ∙ same
              ∙ ap (λ o. o.order_item_id) q
              ∙ changed-item y'))
      ∙ sym q

pub set_cancelled-IsFine :
    (X : List OutboxEntry) (item_id outbox_id : Uuid) (t : Time)
    → IsFine X (cancellable item_id outbox_id) (set_cancelled t)
set_cancelled-IsFine X item_id outbox_id t = record {
  keeps_id = λ x. refl;
  keeps_item = λ x. refl;
  keeps_sound = λ x m p s. ground (arith, s.within);
  activates_none = λ x m p a. cc;
}

-- A row is claimed only if it is PENDING with an attempt left.
pub chosen-claimable :
    (limit : ℕ) (db : Db) (x : OutboxEntry)
    → Distinct db.outbox
    → Memᴰ x db.outbox
    → id_in (chosen limit db) x ≡ true
    → claimable x ≡ true
chosen-claimable limit db x d m h =
    let (id, n, same) = any-Mem (λ id. x.id == id) (chosen limit db) h in
    let rows = sort_asc (λ e. e.created_at) (select claimable db.outbox) in
    let (y, k, is) = Mem-map (λ (e : OutboxEntry). e.id) (take limit rows) n in
    let (found, ready) =
      Mem-select claimable db.outbox
        (Mem-sort_with _ (select claimable db.outbox) (Mem-take limit rows k)) in
    subst (λ o. claimable o ≡ true)
      (sym (Distinct-eq db.outbox d m found ((==_iff _ _).0 same ∙ is))) ready

pub set_claimed-IsFine :
    (limit : ℕ) (db : Db)
    → Distinct db.outbox
    → IsFine db.outbox (id_in (chosen limit db)) set_claimed
set_claimed-IsFine limit db d = record {
  keeps_id = λ x. refl;
  keeps_item = λ x. refl;
  keeps_sound = λ x m p s. claimed-IsSound x (chosen-claimable limit db x d m p);
  activates_none = λ x m p a. active x (chosen-claimable limit db x d m p);
}
  where
    claimed-IsSound : (x : OutboxEntry) → claimable x ≡ true → IsSound (set_claimed x)
    claimed-IsSound x h = ground arith

    active : (x : OutboxEntry) → claimable x ≡ true → is_active x.status ≡ true
    active x h = ground arith

-- The entry e of the table is PROCESSING.
abbrev pub IsHeld : List OutboxEntry → OutboxEntry → Type 0
IsHeld X e = Memᴰ e X × (e.status ≡ processing)

settled-IsSound :
    (e : OutboxEntry) (f : OutboxEntry → OutboxEntry)
    → Settles e f
    → e.status ≡ processing
    → IsSound e
    → IsSound (f e)
settled-IsSound e _ (completes t) h s = ground arith
settled-IsSound e _ (fails message t) h s = ground arith

Settles-Keeps :
    (e : OutboxEntry) (f : OutboxEntry → OutboxEntry)
    → Settles e f
    → (x : OutboxEntry) → ((f x).id ≡ x.id) × ((f x).order_item_id ≡ x.order_item_id)
Settles-Keeps e _ (completes t) x = (refl, refl)
Settles-Keeps e _ (fails message t) x = (refl, refl)

pub settled-IsFine :
    (X : List OutboxEntry) (e : OutboxEntry) (f : OutboxEntry → OutboxEntry)
    → Distinct X
    → IsHeld X e
    → Settles e f
    → IsFine X (outbox_id_is e.id) f
settled-IsFine X e f d held s = record {
  keeps_id = λ x. (Settles-Keeps e f s x).0;
  keeps_item = λ x. (Settles-Keeps e f s x).1;
  keeps_sound = λ x m p q.
      let same = row x m p in
      subst (λ o. IsSound (f o)) (sym same) (settled-IsSound e f s held.1 (subst IsSound same q));
  activates_none = λ x m p a. ap (λ o. is_active o.status) (row x m p) ∙ ap is_active held.1;
}
  where
    row : (x : OutboxEntry) → Memᴰ x X → outbox_id_is e.id x ≡ true → x ≡ e
    row x m p = Distinct-eq X d m held.0 ((==_iff _ _).0 p)

module _ (X : List OutboxEntry) (e : OutboxEntry) where
  new-IsSound : IsFresh X e → IsSound e
  new-IsSound new = ground (arith, new)

  pub added-IsPlain : IsFresh X e → IsPlain X → IsPlain (X ++ e ∷ [])
  added-IsPlain new t = record {
    sound = λ x m. elim (Mem-added X m) [
      | inl a ↦ t.sound x a
      | inr q ↦ subst IsSound (sym q) (new-IsSound new)
    ];
    distinct = Distinct-added X e t.distinct new.id_is_new;
  }

  not_active :
      any (active_for e.order_item_id) X ≡ false
      → (x : OutboxEntry) → Memᴰ x X
      → is_active x.status ≡ true
      → x.order_item_id ≢ e.order_item_id
  not_active none x m a same = clash (any-false (active_for e.order_item_id) X none m)
    where
      clash : active_for e.order_item_id x ≡ false → ⊥
      clash h = ground arith

  pub added-OneActive :
      any (active_for e.order_item_id) X ≡ false → OneActive X → OneActive (X ++ e ∷ [])
  added-OneActive none one x y m n a b same = elim (Mem-added X m) [
    | inl m' ↦ elim (Mem-added X n) [
      | inl n' ↦ one x y m' n' a b same
      | inr q ↦ absurd (not_active none x m' a (same ∙ ap (λ o. o.order_item_id) q))
    ]
    | inr p ↦ elim (Mem-added X n) [
      | inl n' ↦ absurd (not_active none y n' b (sym same ∙ ap (λ o. o.order_item_id) p))
      | inr q ↦ p ∙ sym q
    ]
  ]
