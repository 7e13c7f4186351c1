-- ===== src/Base/Strip.antt =====
-- Lemmas on `strip`: what it keeps, and that a stripped text has no space at its ends.
use Prim.Native.Nat.{ℕ}
use mathlib.Core.Path.{◌≡◌, refl, ap, ◌∙◌}
use mathlib.Core.Logic.{inl, inr}
use mathlib.Core.Bool.{Bool, false}
use mathlib.Core.List.{
  [], ◌∷◌, ◌++◌, reverse, reverse-cons, reverse-append, reverse-reverse, append_assoc,
}
use hadcd_agent.Base.Tests.{Bool-cases}
use hadcd_agent.Base.Lists.{All, All-append}
use hadcd_agent.Base.Text.{Text, is_space, drop_while, drop_end_while, strip}

drop_while-All : (P : ℕ → Type 0) (p : ℕ → Bool) (s : Text) → All P s → All P (drop_while p s)
drop_while-All P p [] h = tt
drop_while-All P p (c ∷ s) (q, h) = elim (Bool-cases (p c)) [
  | inl e ↦ rw (e, drop_while) (drop_while-All P p s h)
  | inr e ↦ rw (e, drop_while) (q, h)
]

reverse-All : (P : ℕ → Type 0) (s : Text) → All P s → All P (reverse s)
reverse-All P [] h = tt
reverse-All P (c ∷ s) (q, h) =
    rw (reverse-cons c s) (All-append P (reverse s) (c ∷ []) (reverse-All P s h) (q, tt))

pub strip-All : (P : ℕ → Type 0) (s : Text) → All P s → All P (strip s)
unfolding strip
strip-All P s h = reverse-All P (drop_while is_space (reverse (drop_while is_space s))) (
    drop_while-All P is_space (reverse (drop_while is_space s))
      (reverse-All P (drop_while is_space s) (drop_while-All P is_space s h)))

drop_while-append :
    (p : ℕ → Bool) (s : Text) (c : ℕ) (t : Text)
    → p c ≡ false
    → drop_while p (s ++ (c ∷ t)) ≡ drop_while p s ++ (c ∷ t)
drop_while-append p [] c t h = rw (drop_while, h) refl
drop_while-append p (d ∷ s) c t h = elim (Bool-cases (p d)) [
  | inl e ↦ rw (drop_while, e) (drop_while-append p s c t h)
  | inr e ↦ rw (drop_while, e) refl
]

drop_while_twice : (p : ℕ → Bool) (s : Text) → drop_while p (drop_while p s) ≡ drop_while p s
drop_while_twice p [] = refl
drop_while_twice p (c ∷ s) = elim (Bool-cases (p c)) [
  | inl e ↦ rw (drop_while, e) (drop_while_twice p s)
  | inr e ↦ rw (drop_while, e, drop_while, e) refl
]

-- The end of a text, behind a character that stays.
pub drop_end-append :
    (p : ℕ → Bool) (a : Text) (c : ℕ) (s : Text)
    → p c ≡ false
    → drop_end_while p (a ++ (c ∷ s)) ≡ a ++ (c ∷ drop_end_while p s)
drop_end-append p a c s h =
    let whole : reverse (a ++ (c ∷ s)) ≡ reverse s ++ (c ∷ reverse a) =
      rw (reverse-append a (c ∷ s), reverse-cons c s, append_assoc (reverse s) (c ∷ []) (reverse a))
        refl in
    let kept : drop_while p (reverse (a ++ (c ∷ s))) ≡ drop_while p (reverse s) ++ (c ∷ reverse a) =
      rw whole (drop_while-append p (reverse s) c (reverse a) h) in
    ap reverse kept
    ∙ reverse-append (drop_while p (reverse s)) (c ∷ reverse a)
    ∙ rw
        (
          reverse-cons c (reverse a),
          reverse-reverse a,
          append_assoc a (c ∷ []) (reverse (drop_while p (reverse s))),
        )
        refl

drop_end_twice :
    (p : ℕ → Bool) (s : Text) → drop_end_while p (drop_end_while p s) ≡ drop_end_while p s
drop_end_twice p s =
    ap (λ x. reverse (drop_while p x)) (reverse-reverse (drop_while p (reverse s)))
    ∙ ap reverse (drop_while_twice p (reverse s))

-- A text without spaces at its front keeps its front when its end is dropped.
front :
    (p : ℕ → Bool) (s : Text)
    → drop_while p (drop_end_while p (drop_while p s)) ≡ drop_end_while p (drop_while p s)
front p [] = refl
front p (c ∷ s) = elim (Bool-cases (p c)) [
  | inl gone ↦ rw (drop_while, gone) (front p s)
  | inr stays ↦ rw (drop_while, stays, drop_end-append p [] c s stays, drop_while, stays) refl
]

pub strip_end : (s : Text) → drop_end_while is_space (strip s) ≡ strip s
unfolding strip
strip_end s = drop_end_twice is_space (drop_while is_space s)

pub strip_twice : (s : Text) → strip (strip s) ≡ strip s
unfolding strip
strip_twice s =
    ap (drop_end_while is_space) (front is_space s)
    ∙ drop_end_twice is_space (drop_while is_space s)
