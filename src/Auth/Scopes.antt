-- ===== src/Auth/Scopes.antt =====
-- Which users have a scope (HasScope of internal/auth/claims.go).
use sap_orders_api.Prelude.{
  ◌≡◌, refl, ap, ◌∙◌, subst, ◌↔◌, ◌⊎◌, inl, inr, Bool, true, false, ◌||◌, List, [], ◌∷◌, Memᴰ,
  String, str_eq, eq_iff, any, Bool-cases, arith,
}
use sap_orders_api.Prelude.Members.{any-Mem, any-false}
use sap_orders_api.Auth.{UserClaims, contains, role_scopes, has_scope}

any-true :
    {A : Type 0} (p : A → Bool) {x : A} (xs : List A) → Memᴰ x xs → p x ≡ true → any p xs ≡ true
any-true p {x} xs m h = elim (Bool-cases (any p xs)) [
  | inl e ↦ e
  | inr e ↦ absurd (clash (p x) h (any-false p xs e m))
]
  where
    clash : (b : Bool) → b ≡ true → b ≡ false → ⊥
    clash b h k = ground arith

contains-Mem : (xs : List String) (s : String) → (contains xs s ≡ true) ↔ Memᴰ s xs
contains-Mem xs s = (
  λ h.
      let (x, m, e) = any-Mem (λ x. str_eq x s) xs h in subst (λ y. Memᴰ y xs) ((eq_iff x s).0 e) m,
  λ m. any-true (λ x. str_eq x s) xs m ((eq_iff s s).1 refl),
)

-- The user's token lists the scope, or the user has a role that comes with it: a reader may read, a
-- writer and an administrator may read and write.
abbrev pub Grants : UserClaims → String → Type 0
Grants c scope =
    Memᴰ scope c.scopes
    ⊎ ((Memᴰ "Orders.Reader" c.roles × (scope ≡ "orders.read"))
        ⊎ ((Memᴰ "Orders.Writer" c.roles ⊎ Memᴰ "Orders.Admin" c.roles)
            × ((scope ≡ "orders.read") ⊎ (scope ≡ "orders.write"))))

-- What comes with a role, and what the role is.
RoleGives : String → String → Type 0
RoleGives role scope =
    ((role ≡ "Orders.Reader") × (scope ≡ "orders.read"))
    ⊎ (((role ≡ "Orders.Writer") ⊎ (role ≡ "Orders.Admin"))
        × ((scope ≡ "orders.read") ⊎ (scope ≡ "orders.write")))

of_both :
    (scope : String)
    → Memᴰ scope ("orders.read" ∷ "orders.write" ∷ [])
    → (scope ≡ "orders.read") ⊎ (scope ≡ "orders.write")
of_both scope (Memᴰ.head e) = inl e
of_both scope (Memᴰ.tail (Memᴰ.head e)) = inr e
of_both scope (Memᴰ.tail (Memᴰ.tail m)) = elim m [ ]

role_scopes-RoleGives : (role scope : String) → Memᴰ scope (role_scopes role) → RoleGives role scope
unfolding RoleGives
role_scopes-RoleGives role scope m = elim (Bool-cases (str_eq role "Orders.Reader")) [
  | inl e ↦ inl ((eq_iff role "Orders.Reader").0 e, only (rw e at m))
  | inr e ↦ elim (Bool-cases (str_eq role "Orders.Writer")) [
    | inl f ↦ inr (inl ((eq_iff role "Orders.Writer").0 f), of_both scope (rw f at (rw e at m)))
    | inr f ↦ elim (Bool-cases (str_eq role "Orders.Admin")) [
      | inl g ↦
          inr
            (inr ((eq_iff role "Orders.Admin").0 g), of_both scope (rw g at (rw f at (rw e at m))))
      | inr g ↦ elim (rw g at (rw f at (rw e at m))) [ ]
    ]
  ]
]
  where
    only : Memᴰ scope ("orders.read" ∷ []) → scope ≡ "orders.read"
    only (Memᴰ.head e) = e
    only (Memᴰ.tail m) = elim m [ ]

-- HasScope says true exactly for the scopes that the token lists and for those of the user's roles:
-- orders.read for Orders.Reader, orders.read and orders.write for Orders.Writer and Orders.Admin.
pub has_scope-Grants :
    (c : UserClaims) (scope : String) → (has_scope c scope ≡ true) ↔ Grants c scope
unfolding has_scope RoleGives
has_scope-Grants c scope = (there, back)
  where
    by_role : (role : String) → Memᴰ role c.roles → RoleGives role scope → Grants c scope
    by_role role m (inl (is, s)) = inr (inl (subst (λ r. Memᴰ r c.roles) is m, s))
    by_role role m (inr (inl is, s)) = inr (inr (inl (subst (λ r. Memᴰ r c.roles) is m), s))
    by_role role m (inr (inr is, s)) = inr (inr (inr (subst (λ r. Memᴰ r c.roles) is m), s))

    there :
        (contains c.scopes scope || any (λ role. contains (role_scopes role) scope) c.roles) ≡ true
        → Grants c scope
    there h = elim (Bool-cases (contains c.scopes scope)) [
      | inl e ↦ inl ((contains-Mem c.scopes scope).0 e)
      | inr e ↦
          let (role, m, k) =
            any-Mem (λ role. contains (role_scopes role) scope) c.roles (rw e at h) in
          by_role role m
            (role_scopes-RoleGives role scope ((contains-Mem (role_scopes role) scope).0 k))
    ]

    or_right : (a b : Bool) → b ≡ true → (a || b) ≡ true
    or_right a b h = ground arith

    of_role :
        (role : String)
        → Memᴰ role c.roles
        → contains (role_scopes role) scope ≡ true
        → (contains c.scopes scope || any (λ role. contains (role_scopes role) scope) c.roles)
          ≡ true
    of_role role m h =
        or_right (contains c.scopes scope) _
          (any-true (λ role. contains (role_scopes role) scope) c.roles m h)

    holds :
        (role s : String)
        → scope ≡ s
        → contains (role_scopes role) s ≡ true
        → contains (role_scopes role) scope ≡ true
    holds role s is h = ap (contains (role_scopes role)) is ∙ h

    back :
        Grants c scope
        → (contains c.scopes scope || any (λ role. contains (role_scopes role) scope) c.roles)
          ≡ true
    back (inl m) = rw ((contains-Mem c.scopes scope).1 m) refl
    back (inr (inl (m, s))) = of_role "Orders.Reader" m (holds "Orders.Reader" _ s refl)
    back (inr (inr (inl m, inl s))) = of_role "Orders.Writer" m (holds "Orders.Writer" _ s refl)
    back (inr (inr (inl m, inr s))) = of_role "Orders.Writer" m (holds "Orders.Writer" _ s refl)
    back (inr (inr (inr m, inl s))) = of_role "Orders.Admin" m (holds "Orders.Admin" _ s refl)
    back (inr (inr (inr m, inr s))) = of_role "Orders.Admin" m (holds "Orders.Admin" _ s refl)
