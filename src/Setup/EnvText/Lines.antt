-- ===== src/Setup/EnvText/Lines.antt =====
-- The lines of a text, and the text of lines.
use hadcd_agent.Base.{
  ◌≡◌, refl, ◌∙◌, inl, inr, Bool, false, ◌&&◌, List, [], ◌∷◌, ◌++◌, All, Bool-cases, ◌==◌, any,
}
use mathlib.Core.List.{append_assoc, append-nil}
use mathlib.Core.Bool.{true≢false}
use hadcd_agent.Base.Text.{Text}
use hadcd_agent.Setup.EnvText.{is_break, last_line, lines_from, splitlines, join}

-- No character of the text is a break.
abbrev pub IsUnbroken : Text → Type 0
IsUnbroken s = All (λ c. is_break c ≡ false) s

pub unbroken : (s : Text) → any is_break s ≡ false → IsUnbroken s
unbroken [] e = tt
unbroken (c ∷ s) e = elim (Bool-cases (is_break c)) [
  | inl ends ↦ absurd (true≢false (rw ends at e))
  | inr inner ↦ (inner, unbroken s (rw inner at e))
]

pub IsUnbroken-append : (s t : Text) → IsUnbroken s → IsUnbroken t → IsUnbroken (s ++ t)
IsUnbroken-append [] t a b = b
IsUnbroken-append (c ∷ s) t (x, a) b = (x, IsUnbroken-append s t a b)

lines_from-IsUnbroken :
    (r : Bool) (word s : Text) → IsUnbroken word → All IsUnbroken (lines_from r word s)
unfolding lines_from last_line
lines_from-IsUnbroken r [] [] w = tt
lines_from-IsUnbroken r (c ∷ word) [] w = (w, tt)
lines_from-IsUnbroken r word (c ∷ s) w = elim (Bool-cases (r && c == 0xa)) [
  | inl skip ↦ rw (lines_from, skip) (lines_from-IsUnbroken false word s w)
  | inr other ↦ elim (Bool-cases (is_break c)) [
    | inl ends ↦ rw (lines_from, other, ends) (w, lines_from-IsUnbroken (c == 0xd) [] s tt)
    | inr inner ↦
        rw (lines_from, other, inner)
          (lines_from-IsUnbroken false (word ++ (c ∷ [])) s
            (IsUnbroken-append word (c ∷ []) w (inner, tt)))
  ]
]

pub splitlines-IsUnbroken : (s : Text) → All IsUnbroken (splitlines s)
unfolding splitlines
splitlines-IsUnbroken s = lines_from-IsUnbroken false [] s tt

-- An unbroken text up to a newline is one line.
lines_from-line :
    (word l rest : Text)
    → IsUnbroken l
    → lines_from false word (l ++ (0xa ∷ rest)) ≡ (word ++ l) ∷ lines_from false [] rest
unfolding lines_from is_break
lines_from-line word [] rest u = rw (append-nil word) refl
lines_from-line word (c ∷ l) rest (inner, u) =
    rw (lines_from, inner)
      (lines_from-line (word ++ (c ∷ [])) l rest u ∙ rw (append_assoc word (c ∷ []) l) refl)

pub splitlines-join :
    (l : Text) (ls : List Text)
    → IsUnbroken l
    → All IsUnbroken ls
    → splitlines (join (l ∷ ls) ++ (0xa ∷ [])) ≡ l ∷ ls
unfolding splitlines join lines_from last_line
splitlines-join l [] u us = lines_from-line [] l [] u
splitlines-join l (m ∷ ls) u (v, us) =
    rw (append_assoc l (0xa ∷ join (m ∷ ls)) (0xa ∷ []))
      (lines_from-line [] l (join (m ∷ ls) ++ (0xa ∷ [])) u ∙ rw (splitlines-join m ls v us) refl)
