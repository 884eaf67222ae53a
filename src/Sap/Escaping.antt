-- ===== src/Sap/Escaping.antt =====
-- The texts of the payload of internal/sap/xml.go, as a reader of XML takes them.
use Prim.Native.Char.{Char, code}
use Prim.Native.String
use text.Mathlib.TextLemmas.{nil-append, cons-append}
use mathlib.Core.List.{append_assoc}
use sap_orders_api.Prelude.{
  ℕ, ◌≡◌, refl, sym, ap, subst, ◌∙◌, Bool, true, false, ◌&&◌, Option, none, some, List, [], ◌∷◌,
  ◌++◌, map, String, ◌==◌, ==_iff, if◌then◌else◌, Bool-cases, inl, inr,
}
use sap_orders_api.Domain.Dates.{codes}
use sap_orders_api.Sap.{in_character_range, escape_char, escape}

unfoldable same_codes : List ℕ → List ℕ → Bool
same_codes [] [] = true
same_codes [] (d ∷ ds) = false
same_codes (c ∷ cs) [] = false
same_codes (c ∷ cs) (d ∷ ds) = (c == d) && same_codes cs ds

-- The character of a reference, by what stands between `&` and `;`: the entities of XML, and the
-- numbers that the encoder writes.
unfoldable pub referred : List ℕ → Option ℕ
unfolding same_codes
referred name =
    if same_codes name (codes "amp")
    then some b'&'
    else if same_codes name (codes "lt")
    then some b'<'
    else if same_codes name (codes "gt")
    then some b'>'
    else if same_codes name (codes "quot")
    then some b'"'
    else if same_codes name (codes "apos")
    then some b'\''
    else if same_codes name (codes "#34")
    then some b'"'
    else if same_codes name (codes "#39")
    then some b'\''
    else if same_codes name (codes "#x9")
    then some b'\t'
    else if same_codes name (codes "#xA")
    then some b'\n'
    else if same_codes name (codes "#xD")
    then some b'\r'
    else none

unfoldable pub with_char : Option ℕ → Option (List ℕ × List ℕ) → Option (List ℕ × List ℕ)
with_char none rest = none
with_char (some c) none = none
with_char (some c) (some (cs, rest)) = some (c ∷ cs, rest)

-- The text that a reader of XML takes up to the next markup, and what follows, or none if there is a
-- reference that it does not know. It is outside a reference, or has read a part of one.
unfoldable pub read_text : Option (List ℕ) → List ℕ → Option (List ℕ × List ℕ)
unfolding referred with_char
read_text none [] = some ([], [])
read_text (some name) [] = none
read_text none (c ∷ cs) =
    let plain = read_text none cs in
    let reference = read_text (some []) cs in
    if c == b'&'
    then reference
    else if c == b'<'
    then some ([], c ∷ cs)
    else with_char (some c) plain
read_text (some name) (c ∷ cs) =
    let after = read_text none cs in
    let more = read_text (some (name ++ c ∷ [])) cs in
    if c == b';' then with_char (referred name) after else more

-- A character that XML cannot hold is replaced by U+FFFD.
abbrev pub sanitized : ℕ → ℕ
sanitized c = if in_character_range c then c else 0xFFFD

pub codes-append : (s t : String) → codes (String.◌++◌ s t) ≡ codes s ++ codes t
codes-append String.[] t = ap codes (nil-append t)
codes-append (String.◌∷◌ c s) t =
    ap codes (cons-append c s t) ∙ ap (λ cs. code c ∷ cs) (codes-append s t)

-- the cases of escape_char, by the character's number
by_number : ℕ → String → String
by_number n plain =
    if n == b'"'
    then "&#34;"
    else if n == b'\''
    then "&#39;"
    else if n == b'&'
    then "&amp;"
    else if n == b'<'
    then "&lt;"
    else if n == b'>'
    then "&gt;"
    else if n == b'\t'
    then "&#x9;"
    else if n == b'\n'
    then "&#xA;"
    else if n == b'\r'
    then "&#xD;"
    else if in_character_range n
    then plain
    else "�"

last_case :
    (n : ℕ) (plain : String)
    → (n == b'"') ≡ false
    → (n == b'\'') ≡ false
    → (n == b'&') ≡ false
    → (n == b'<') ≡ false
    → (n == b'>') ≡ false
    → (n == b'\t') ≡ false
    → (n == b'\n') ≡ false
    → (n == b'\r') ≡ false
    → by_number n plain ≡ (if in_character_range n then plain else "�")
unfolding by_number
last_case n plain e1 e2 e3 e4 e5 e6 e7 e8 =
    rw e1 (rw e2 (rw e3 (rw e4 (rw e5 (rw e6 (rw e7 (rw e8 refl)))))))

module _ (c : Char) (rest : List ℕ) where
  -- the reader takes the character with this number
  abbrev Taken : ℕ → Type 0
  Taken n =
      read_text none (codes (by_number n (String.◌∷◌ c "")) ++ rest)
      ≡ with_char (some (sanitized n)) (read_text none rest)

  or_else : (v : ℕ) → Taken v → ((code c == v) ≡ false → Taken (code c)) → Taken (code c)
  or_else v h k = elim (Bool-cases (code c == v)) [
    | inl e ↦ subst Taken (sym ((==_iff _ _).0 e)) h
    | inr e ↦ k e
  ]

  reads_char : Taken (code c)
  unfolding by_number read_text referred same_codes
  reads_char = or_else b'"' refl λ e1. or_else b'\'' refl λ e2. or_else b'&' refl λ e3.
      or_else b'<' refl λ e4. or_else b'>' refl λ e5. or_else b'\t' refl λ e6.
        or_else b'\n' refl λ e7. or_else b'\r' refl λ e8.
          ap (λ t. read_text none (codes t ++ rest)) (last_case (code c) _ e1 e2 e3 e4 e5 e6 e7 e8)
          ∙ kept_or_replaced (in_character_range (code c)) e3 e4
    where
      plain_read :
          (n : ℕ)
          → (n == b'&') ≡ false
          → (n == b'<') ≡ false
          → read_text none (n ∷ rest) ≡ with_char (some n) (read_text none rest)
      plain_read n e3 e4 = rw e3 (rw e4 refl)

      kept_or_replaced :
          (b : Bool)
          → (code c == b'&') ≡ false
          → (code c == b'<') ≡ false
          → read_text none (codes (if b then String.◌∷◌ c "" else "�") ++ rest)
            ≡ with_char (some (if b then code c else 0xFFFD)) (read_text none rest)
      kept_or_replaced true e3 e4 = plain_read (code c) e3 e4
      kept_or_replaced false e3 e4 = refl

-- A reader of XML takes from an escaped text before the next tag the text itself, in which U+FFFD
-- stands for each character that XML cannot hold.
pub read_text-escape :
    (s : String) (rest : List ℕ)
    → read_text none (codes (escape s) ++ (b'<' ∷ rest))
      ≡ some (map sanitized (codes s), b'<' ∷ rest)
unfolding escape read_text escape_char by_number with_char
read_text-escape String.[] rest = refl
read_text-escape (String.◌∷◌ c s) rest =
    ap (read_text none) (
      ap (λ cs. cs ++ (b'<' ∷ rest)) (codes-append (escape_char c) (escape s))
      ∙ append_assoc (codes (escape_char c)) (codes (escape s)) (b'<' ∷ rest))
    ∙ reads_char c (codes (escape s) ++ (b'<' ∷ rest))
    ∙ ap (with_char (some (sanitized (code c)))) (read_text-escape s rest)
