-- ===== src/Base/Text.antt =====
-- Texts that the program walks: lists of code points, with Python's `strip`, `split`, `startswith`.
use Prim.Native.Nat.{ℕ, ◌+◌}
use Prim.Native.Char.{code}
use Prim.Native.String.{String}
use mathlib.Core.Path.{◌≡◌, refl, ap, ◌∙◌}
use mathlib.Core.Bool.{Bool, true, false, ◌&&◌, ◌||◌, false≢true}
use mathlib.Core.List.{List, [], ◌∷◌, ◌++◌, reverse}
use native.Mathlib.Omega.{arith}
use hadcd_agent.Base.Tests.{leb, ◌==◌, if◌then◌else◌}

abbrev pub Text : Type 0
Text = List ℕ

abbrev pub text_eq : Text → Text → Bool
text_eq [] [] = true
text_eq [] (d ∷ t) = false
text_eq (c ∷ s) [] = false
text_eq (c ∷ s) (d ∷ t) = c == d && text_eq s t

-- `s.startswith(prefix)`, with the prefix first.
abbrev pub starts_with : Text → Text → Bool
starts_with [] s = true
starts_with (c ∷ p) [] = false
starts_with (c ∷ p) (d ∷ s) = c == d && starts_with p s

-- `str.isspace` of one code point.
unfoldable pub is_space : ℕ → Bool
is_space c =
    leb 0x9 c && leb c 0xd
    || leb 0x1c c && leb c 0x20
    || c == 0x85
    || c == 0xa0
    || c == 0x1680
    || leb 0x2000 c && leb c 0x200a
    || c == 0x2028
    || c == 0x2029
    || c == 0x202f
    || c == 0x205f
    || c == 0x3000

abbrev pub drop_while : (ℕ → Bool) → Text → Text
drop_while p [] = []
drop_while p (c ∷ s) = elim (p c) [ true ↦ drop_while p s | false ↦ c ∷ s ]

-- `s.rstrip` of the characters that `p` accepts
abbrev pub drop_end_while : (ℕ → Bool) → Text → Text
drop_end_while p s = reverse (drop_while p (reverse s))

unfoldable pub strip : Text → Text
strip s = drop_end_while is_space (drop_while is_space s)

-- `s.split(",")`, with `word` the characters since the last comma
unfoldable pub split_commas : Text → Text → List Text
split_commas word [] = word ∷ []
split_commas word (c ∷ s) = elim (c == 44) [
  | true ↦ word ∷ split_commas [] s
  | false ↦ split_commas (word ++ (c ∷ [])) s
]

-- `[p.strip() for p in pieces if p.strip()]`
unfoldable pub stripped : List Text → List Text
stripped [] = []
stripped (p ∷ ps) = let rest = stripped ps in if text_eq (strip p) [] then rest else strip p ∷ rest

-- The code points of a string, and ASCII's `lower`
abbrev pub codes : String → Text
codes String.[] = []
codes (String.◌∷◌ c s) = code c ∷ codes s

unfoldable pub lower : Text → Text
lower [] = []
lower (c ∷ s) = (if leb 65 c && leb c 90 then c + 32 else c) ∷ lower s

pub text_eq_sound : (a b : Text) → text_eq a b ≡ true → a ≡ b
text_eq_sound [] [] e = refl
text_eq_sound [] (d ∷ b) e = elim (false≢true e) [ ]
text_eq_sound (c ∷ a) [] e = elim (false≢true e) [ ]
text_eq_sound (c ∷ a) (d ∷ b) e =
    let same : c ≡ d = ground arith in
    let rest : text_eq a b ≡ true = ground arith in
    ap (λ x. x ∷ a) same ∙ ap (λ t. d ∷ t) (text_eq_sound a b rest)

pub text_eq_refl : (a : Text) → text_eq a a ≡ true
text_eq_refl [] = refl
text_eq_refl (c ∷ a) = ground (arith, text_eq_refl a)

pub text_eq_sym : (a b : Text) → text_eq a b ≡ text_eq b a
text_eq_sym [] [] = refl
text_eq_sym [] (d ∷ b) = refl
text_eq_sym (c ∷ a) [] = refl
text_eq_sym (c ∷ a) (d ∷ b) = ground (arith, text_eq_sym a b)
