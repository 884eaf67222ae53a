-- ===== src/System/Overlap.antt =====
-- Two runs of ClaimPending (internal/repository/outbox_repository.go) at the same time: FOR UPDATE
-- SKIP LOCKED passes over the rows that the other run has locked and not yet committed.
use sap_orders_api.Prelude.{
  ℕ, ◌≡◌, refl, sym, ap, ◌∙◌, inl, inr, Bool, true, false, ◌&&◌, not, List, [], ◌∷◌, map, take,
  select, update_rows, any, sort_asc, ◌==◌, ==_iff, Bool-cases, arith,
}
use sap_orders_api.Prelude.Members.{changed, Mem-select, Mem-map, Mem-take, Mem-sort_with, any-Mem}
use sap_orders_api.Domain.Types.{Uuid, OutboxEntry}
use sap_orders_api.Store.Monad.{Db}
use sap_orders_api.Store.Outbox.{claimable, chosen, id_in, set_claimed, claim_rows}

-- the subselect, where another transaction has locked the rows with these ids
unfoldable pub chosen_skipping : List Uuid → ℕ → Db → List Uuid
chosen_skipping locked limit db =
    map (λ e. e.id)
      (take limit (
        sort_asc (λ e. e.created_at) (select (λ e. claimable e && not (id_in locked e)) db.outbox)))

module _ (p q : OutboxEntry → Bool) (f : OutboxEntry → OutboxEntry) where
  -- rows that an UPDATE changes so that they are not selected any more
  select-update_rows :
      ((x : OutboxEntry) → p (f x) ≡ false)
      → (X : List OutboxEntry) → select p (update_rows q f X) ≡ select (λ x. p x && not (q x)) X
  select-update_rows h [] = refl
  select-update_rows h (x ∷ X) =
      let rest = select-update_rows h X in
      elim (Bool-cases (q x)) [
        | inl e ↦ rw e (rw (h x) (rw (and_false (p x)) rest))
        | inr e ↦
            rw e (elim (Bool-cases (p x)) [
              | inl k ↦ rw k (ap (λ ys. x ∷ ys) rest)
              | inr k ↦ rw k rest
            ])
      ]
    where
      and_false : (b : Bool) → (b && false) ≡ false
      and_false b = ground arith

  -- rows that an UPDATE does not touch
  select-apart :
      ((x : OutboxEntry) → p x ≡ true → q x ≡ false)
      → ((x : OutboxEntry) → p (f x) ≡ p x)
      → (X : List OutboxEntry) → select p (update_rows q f X) ≡ select p X
  select-apart h k [] = refl
  select-apart h k (x ∷ X) =
      let rest = select-apart h k X in
      elim (Bool-cases (p x)) [
        | inl e ↦ rw (h x e) (rw e (ap (λ ys. x ∷ ys) rest))
        | inr e ↦ elim (Bool-cases (q x)) [
          | inl i ↦ rw i (rw (k x ∙ e) (rw e rest))
          | inr i ↦ rw i (rw e rest)
        ]
      ]

module _ (p q : OutboxEntry → Bool) (f : OutboxEntry → OutboxEntry)
    (apart : (x : OutboxEntry) → p x ≡ true → q x ≡ false)
    (p_same : (x : OutboxEntry) → p (f x) ≡ p x) (q_same : (x : OutboxEntry) → q (f x) ≡ q x) where
  changed-commute : (x : OutboxEntry) → changed p f (changed q f x) ≡ changed q f (changed p f x)
  changed-commute x = elim (Bool-cases (p x)) [
    | inl e ↦ rw (apart x e) (rw e (rw (q_same x ∙ apart x e) refl))
    | inr e ↦ elim (Bool-cases (q x)) [
      | inl i ↦ rw i (rw (p_same x ∙ e) (rw e (rw i refl)))
      | inr i ↦ rw i (rw e (rw i refl))
    ]
  ]

  -- Two updates of different rows, in either order.
  update_rows-commute :
      (X : List OutboxEntry)
      → update_rows p f (update_rows q f X) ≡ update_rows q f (update_rows p f X)
  update_rows-commute [] = refl
  update_rows-commute (x ∷ X) =
      ap (λ y. y ∷ update_rows p f (update_rows q f X)) (changed-commute x)
      ∙ ap (λ ys. changed q f (changed p f x) ∷ ys) (update_rows-commute X)

module _ (first_limit second_limit : ℕ) (db : Db) where
  -- the rows that the first run has locked, and those that the second one chooses meanwhile
  abbrev locked : List Uuid
  locked = chosen first_limit db

  abbrev chosen_meanwhile : List Uuid
  chosen_meanwhile = chosen_skipping locked second_limit db

  not_claimable : (x : OutboxEntry) → claimable (set_claimed x) ≡ false
  not_claimable x = ground arith

  id_in-id : (ids : List Uuid) (x y : OutboxEntry) → x.id ≡ y.id → id_in ids x ≡ id_in ids y
  id_in-id ids x y e = ap (λ id. any (λ i. id == i) ids) e

  -- no row has an id that both runs choose
  different : (x : OutboxEntry) → id_in chosen_meanwhile x ≡ true → id_in locked x ≡ false
  unfolding chosen_skipping
  different x h =
      let free = λ (e : OutboxEntry). claimable e && not (id_in locked e) in
      let (id, n, same) = any-Mem (λ id. x.id == id) chosen_meanwhile h in
      let (y, k, is) =
        Mem-map (λ (e : OutboxEntry). e.id)
          (take second_limit (sort_asc (λ e. e.created_at) (select free db.outbox))) n in
      let (found, ready) =
        Mem-select free db.outbox (Mem-sort_with _ _ (Mem-take second_limit _ k)) in
      id_in-id locked x y ((==_iff _ _).0 same ∙ is)
      ∙ not_locked (claimable y) (id_in locked y) ready
    where
      not_locked : (a b : Bool) → (a && not b) ≡ true → b ≡ false
      not_locked a b h = ground arith

  -- Two runs of ClaimPending that overlap, the second one skipping the rows that the first has locked,
  -- are worth two runs one after the other. The second chooses the rows that it would choose after
  -- the commit of the first, none of them chosen by the first; it answers the same entries as then;
  -- and the two updates give the same tables in whichever order they are committed.
  pub overlap-serial :
      let after_first = (claim_rows locked db).1 in
      (chosen_meanwhile ≡ chosen second_limit after_first)
      × ((x : OutboxEntry) → id_in chosen_meanwhile x ≡ true → id_in locked x ≡ false)
      × ((claim_rows chosen_meanwhile db).0 ≡ (claim_rows chosen_meanwhile after_first).0)
      × ((claim_rows chosen_meanwhile after_first).1
          ≡ (claim_rows locked (claim_rows chosen_meanwhile db).1).1)
  unfolding chosen_skipping
  overlap-serial = (
    sym (
        ap
          (λ rows.
            map (λ (e : OutboxEntry). e.id)
              (take second_limit (sort_asc (λ (e : OutboxEntry). e.created_at) rows)))
          (select-update_rows claimable (id_in locked) set_claimed not_claimable db.outbox)),
    different,
    sym (
        ap (map set_claimed) (
          select-apart (id_in chosen_meanwhile) (id_in locked) set_claimed different (λ x. refl)
            db.outbox)),
    ap (λ rows. record db { outbox = rows })
        (update_rows-commute (id_in chosen_meanwhile) (id_in locked) set_claimed different
          (λ x. refl) (λ x. refl) db.outbox),
  )
