-- ===== src/Auth/Bearer.antt =====
-- extractBearerToken of internal/auth/authenticator.go, against the form of the header.
use Prim.Native.Char.{Char, code}
use text.Mathlib.TextLemmas.{nil-append, cons-append}
use text.Mathlib.TextEquality.{Char-path}
use sap_orders_api.Prelude.{
  ◌≡◌, refl, sym, ap, subst, ◌∙◌, ◌↔◌, Bool, true, false, ◌&&◌, ◌||◌, not, Option, none, some,
  String, str_eq, ◌==◌, ==_iff, if◌then◌else◌, Bool-cases, inl, inr, arith, eq_iff, ◌<+>◌,
}
use sap_orders_api.Auth.Token.{
  split_space, equal_fold, bearer, no_bearer, bearer_of, extract_bearer_token,
}

-- the text has no space
unfoldable pub spaceless : String → Bool
spaceless String.[] = true
spaceless (String.◌∷◌ c s) = not (code c == 32) && spaceless s

abbrev space : Char
space = " "

-- The header is a scheme that is "Bearer" in whatever case, one space, and the token.
pub record IsBearer (header token : String) : Type 0 where
  pub scheme : String
  pub one_word : spaceless scheme ≡ true
  pub is_bearer : equal_fold scheme "Bearer" ≡ true
  pub has_token : str_eq token "" ≡ false
  pub form : header ≡ scheme <+> String.◌∷◌ space token

split-form :
    (scheme token : String)
    → spaceless scheme ≡ true
    → split_space (scheme <+> String.◌∷◌ space token) ≡ (scheme, some token)
unfolding split_space spaceless
split-form String.[] token h = ap split_space (nil-append (String.◌∷◌ space token))
split-form (String.◌∷◌ c s) token h =
    ap split_space (cons-append c s (String.◌∷◌ space token))
    ∙ rw (left_false (code c == 32) (spaceless s) h) (
        ap (λ p. (String.◌∷◌ c p.0, p.1))
          (split-form s token (right_true (code c == 32) (spaceless s) h)))
  where
    left_false : (a b : Bool) → (not a && b) ≡ true → a ≡ false
    left_false a b h = ground arith

    right_true : (a b : Bool) → (not a && b) ≡ true → b ≡ true
    right_true a b h = ground arith

-- what a header that was split looks like
abbrev IsSplit : String → String × Option String → Type 0
IsSplit header (scheme, none) = Unit {0}
IsSplit header (scheme, some token) =
    (header ≡ scheme <+> String.◌∷◌ space token) × (spaceless scheme ≡ true)

longer :
    (c : Char) (s : String) (r : String × Option String)
    → (code c == 32) ≡ false
    → IsSplit s r
    → IsSplit (String.◌∷◌ c s) (String.◌∷◌ c r.0, r.1)
unfolding spaceless
longer c s (scheme, none) e h = tt
longer c s (scheme, some token) e h =
    (ap (String.◌∷◌ c) h.0 ∙ sym (cons-append c scheme (String.◌∷◌ space token)), rw e h.1)

split_space-IsSplit : (header : String) → IsSplit header (split_space header)
unfolding split_space spaceless
split_space-IsSplit String.[] = tt
split_space-IsSplit (String.◌∷◌ c s) = elim (Bool-cases (code c == 32)) [
  | inl e ↦ rw e (
    ap (λ d. String.◌∷◌ d s) (Char-path c space ((==_iff (code c) 32).0 e))
        ∙ sym (nil-append (String.◌∷◌ space s)),
    refl,
  )
  | inr e ↦ rw e (longer c s (split_space s) e (split_space-IsSplit s))
]

passed-test : (a b : Bool) → (not a || b) ≡ false → (a ≡ true) × (b ≡ false)
passed-test a b h = ground arith

bearer-inj : {s t : String} → bearer s ≡ bearer t → s ≡ t
bearer-inj h = cc

split-bearer :
    (header token : String) (r : String × Option String)
    → IsSplit header r
    → bearer_of r ≡ bearer token
    → IsBearer header token
unfolding bearer_of
split-bearer header token (scheme, none) f h = absurd (refused h)
  where
    refused : no_bearer "invalid authorization header" ≡ bearer token → ⊥
    refused h = cc
split-bearer header token (scheme, some t) f h =
    elim (Bool-cases (not (equal_fold scheme "Bearer") || str_eq t "")) [
      | inl e ↦ absurd (refused (rw e at h))
      | inr e ↦
          let same = bearer-inj (rw e at h) in
          let (is, has) = passed-test (equal_fold scheme "Bearer") (str_eq t "") e in
          record {
            scheme = scheme;
            one_word = f.1;
            is_bearer = is;
            has_token = subst (λ u. str_eq u "" ≡ false) same has;
            form = f.0 ∙ ap (λ u. scheme <+> String.◌∷◌ space u) same;
          }
    ]
  where
    refused : no_bearer "invalid authorization header" ≡ bearer token → ⊥
    refused h = cc

abbrev pair : String → Option String → String × Option String
pair s o = (s, o)

module _ (header token : String) (h : IsBearer header token) where
  split_is : split_space header ≡ (h.scheme, some token)
  split_is = ap split_space h.form ∙ split-form h.scheme token h.one_word

  not_empty : str_eq header "" ≡ false
  unfolding split_space
  not_empty = elim (Bool-cases (str_eq header "")) [
    | inl e ↦ absurd (clash (sym split_is ∙ ap split_space ((eq_iff header "").0 e)))
    | inr e ↦ e
  ]
    where
      clash : pair h.scheme (some token) ≡ pair "" none → ⊥
      clash q = some_none (ap (λ r. r.1) q)
        where
          some_none : some token ≡ none → ⊥
          some_none q = cc

  tests_pass : bearer_of (h.scheme, some token) ≡ bearer token
  unfolding bearer_of
  tests_pass =
      ap (λ b. if b then no_bearer "invalid authorization header" else bearer token)
        (both_pass (equal_fold h.scheme "Bearer") (str_eq token "") h.is_bearer h.has_token)
    where
      both_pass : (a b : Bool) → a ≡ true → b ≡ false → (not a || b) ≡ false
      both_pass a b h k = ground arith

  from_form : extract_bearer_token header ≡ bearer token
  unfolding extract_bearer_token
  from_form = rw not_empty (ap bearer_of split_is ∙ tests_pass)

missing : {token : String} → no_bearer "missing authorization header" ≡ bearer token → ⊥
missing h = cc

-- A token is taken from a header exactly if the header is the word "Bearer", in upper or lower case
-- or both, one space, and that token, which is all the rest of the header and is not empty.
pub extract_bearer_token-IsBearer :
    (header token : String) → (extract_bearer_token header ≡ bearer token) ↔ IsBearer header token
unfolding extract_bearer_token
extract_bearer_token-IsBearer header token = (forth, from_form header token)
  where
    forth : extract_bearer_token header ≡ bearer token → IsBearer header token
    forth h = elim (Bool-cases (str_eq header "")) [
      | inl e ↦ absurd (missing (rw e at h))
      | inr e ↦
          split-bearer header token (split_space header) (split_space-IsSplit header) (rw e at h)
    ]
