-- ===== src/Container/Mounts/Segments.antt =====
-- Paths by their components: a resolved path is "/" or components that are not empty and hold no
-- slash, each after one.
use hadcd_agent.Base.{
  ℕ, ◌≡◌, refl, sym, ap, ◌∙◌, Bool, true, false, ◌&&◌, ◌||◌, List, [], ◌∷◌, ◌++◌, All, arith, ◌==◌,
}
use mathlib.Core.List.{reverse, reverse-append, reverse-reverse, append_assoc, append-nil}
use hadcd_agent.Base.Text.{Text, text_eq, starts_with, drop_while, drop_end_while}
use hadcd_agent.Container.Mounts.{slash, strip_slashes, lies_in}

-- The components, each after a slash.
abbrev pub body : List Text → Text
body [] = []
body (s ∷ ss) = slash ∷ (s ++ body ss)

abbrev pub render : List Text → Text
render [] = slash ∷ []
render (s ∷ ss) = body (s ∷ ss)

abbrev pub IsFlat : Text → Type 0
IsFlat s = All (λ c. (c == slash) ≡ false) s

abbrev pub IsSegment : Text → Type 0
IsSegment [] = ⊥
IsSegment (c ∷ s) = ((c == slash) ≡ false) × IsFlat s

abbrev pub is_prefix : List Text → List Text → Bool
is_prefix [] ss = true
is_prefix (t ∷ ts) [] = false
is_prefix (t ∷ ts) (s ∷ ss) = text_eq t s && is_prefix ts ss

pub IsSegment-IsFlat : (s : Text) → IsSegment s → IsFlat s
IsSegment-IsFlat [] h = elim h [ ]
IsSegment-IsFlat (c ∷ s) h = h

is_proper : List Text → List Text → Bool
is_proper [] [] = false
is_proper [] (s ∷ ss) = true
is_proper (t ∷ ts) [] = false
is_proper (t ∷ ts) (s ∷ ss) = text_eq t s && is_proper ts ss

is_same : List Text → List Text → Bool
is_same [] [] = true
is_same [] (t ∷ ts) = false
is_same (s ∷ ss) [] = false
is_same (s ∷ ss) (t ∷ ts) = text_eq t s && is_same ss ts

==-refl : (c : ℕ) → (c == c) ≡ true
==-refl c = ground arith

pub ==-sym : (c d : ℕ) → (c == d) ≡ (d == c)
==-sym c d = ground arith

-- Where both texts go on with a slash or end, the flat parts are compared first.
pub starts_with-flat :
    (t s : Text) (x : Text) (ss : List Text)
    → IsFlat t
    → IsFlat s
    → starts_with (t ++ (slash ∷ x)) (s ++ body ss)
      ≡ (text_eq t s && starts_with (slash ∷ x) (body ss))
starts_with-flat [] [] x ss ft fs = refl
starts_with-flat [] (d ∷ s) x ss ft (n, fs) = rw (==-sym slash d, n) refl
starts_with-flat (c ∷ t) [] x [] ft fs = refl
starts_with-flat (c ∷ t) [] x (u ∷ ss) (n, ft) fs = rw n refl
starts_with-flat (c ∷ t) (d ∷ s) x ss (n, ft) (n', fs) =
    ground (arith, starts_with-flat t s x ss ft fs)

text_eq-flat :
    (s t : Text) (ss ts : List Text)
    → IsFlat s
    → IsFlat t
    → text_eq (s ++ body ss) (t ++ body ts) ≡ (text_eq t s && text_eq (body ss) (body ts))
text_eq-flat [] [] ss ts fs ft = refl
text_eq-flat [] (d ∷ t) [] ts fs ft = refl
text_eq-flat [] (d ∷ t) (u ∷ ss) ts fs (n, ft) = rw (==-sym slash d, n) refl
text_eq-flat (c ∷ s) [] ss [] fs ft = refl
text_eq-flat (c ∷ s) [] ss (u ∷ ts) (n, fs) ft = rw n refl
text_eq-flat (c ∷ s) (d ∷ t) ss ts (n, fs) (n', ft) =
    rw (==-sym d c) (ground (arith, text_eq-flat s t ss ts fs ft))

append_slash :
    (s : Text) (ts : List Text)
    → (slash ∷ (s ++ body ts)) ++ (slash ∷ []) ≡ slash ∷ (s ++ (body ts ++ (slash ∷ [])))
append_slash s ts = ap (λ u. slash ∷ u) (append_assoc s (body ts) (slash ∷ []))

-- The components with a slash after them, which a text that begins with a slash is.
tail_of : List Text → Text
tail_of [] = []
tail_of (t ∷ ts) = t ++ (slash ∷ tail_of ts)

body-slash : (ts : List Text) → body ts ++ (slash ∷ []) ≡ slash ∷ tail_of ts
unfolding tail_of
body-slash [] = refl
body-slash (t ∷ ts) = append_slash t ts ∙ ap (λ u. slash ∷ (t ++ u)) (body-slash ts)

starts_with-body :
    (ts ss : List Text)
    → All IsSegment ts
    → All IsSegment ss
    → starts_with (slash ∷ tail_of ts) (body ss) ≡ is_proper ts ss
unfolding tail_of is_proper
starts_with-body [] [] ht hs = refl
starts_with-body [] (s ∷ ss) ht hs = refl
starts_with-body (t ∷ ts) [] ht hs = refl
starts_with-body (t ∷ ts) (s ∷ ss) (ht, hts) (hs, hss) =
    starts_with-flat t s (tail_of ts) ss (IsSegment-IsFlat t ht) (IsSegment-IsFlat s hs)
    ∙ ap (λ b. text_eq t s && b) (starts_with-body ts ss hts hss)

text_eq-body :
    (ss ts : List Text)
    → All IsSegment ss
    → All IsSegment ts
    → text_eq (body ss) (body ts) ≡ is_same ss ts
unfolding is_same
text_eq-body [] [] hs ht = refl
text_eq-body [] (t ∷ ts) hs ht = refl
text_eq-body (s ∷ ss) [] hs ht = refl
text_eq-body (s ∷ ss) (t ∷ ts) (hs, hss) (ht, hts) =
    text_eq-flat s t ss ts (IsSegment-IsFlat s hs) (IsSegment-IsFlat t ht)
    ∙ ap (λ b. text_eq t s && b) (text_eq-body ss ts hss hts)

same-proper : (ss ts : List Text) → (is_same ss ts || is_proper ts ss) ≡ is_prefix ts ss
unfolding is_same is_proper
same-proper [] [] = refl
same-proper [] (t ∷ ts) = refl
same-proper (s ∷ ss) [] = refl
same-proper (s ∷ ss) (t ∷ ts) = ground (arith, same-proper ss ts)

-- A text that ends in another character than a slash.
EndsFlat : Text → Type 0
EndsFlat s = (u : Text) × (c : ℕ) × (s ≡ u ++ (c ∷ [])) × ((c == slash) ≡ false)

segment-EndsFlat : (s : Text) → IsSegment s → EndsFlat s
unfolding EndsFlat
segment-EndsFlat [] h = elim h [ ]
segment-EndsFlat (c ∷ []) (n, f) = ([], c, refl, n)
segment-EndsFlat (c ∷ d ∷ s) (n, f) =
    let (u, e, eq, m) = segment-EndsFlat (d ∷ s) f in (c ∷ u, e, ap (λ v. c ∷ v) eq, m)

append-EndsFlat : (t s : Text) → EndsFlat s → EndsFlat (t ++ s)
unfolding EndsFlat
append-EndsFlat t s (u, c, eq, n) =
    (t ++ u, c, ap (λ v. t ++ v) eq ∙ sym (append_assoc t u (c ∷ [])), n)

body-EndsFlat :
    (t : Text) (ts : List Text) → IsSegment t → All IsSegment ts → EndsFlat (body (t ∷ ts))
body-EndsFlat t [] ht hts =
    append-EndsFlat (slash ∷ []) (t ++ []) (rw (append-nil t) (segment-EndsFlat t ht))
body-EndsFlat t (u ∷ ts) ht (hu, hts) =
    append-EndsFlat (slash ∷ t) (body (u ∷ ts)) (body-EndsFlat u ts hu hts)

drop_while-stops : (p : ℕ → Bool) (c : ℕ) (s : Text) → p c ≡ false → drop_while p (c ∷ s) ≡ c ∷ s
drop_while-stops p c s n = rw (n, drop_while) refl

drop_end_while-stops :
    (p : ℕ → Bool) (s : Text) (c : ℕ) (x : Text)
    → reverse s ≡ c ∷ x
    → p c ≡ false
    → drop_end_while p s ≡ s
drop_end_while-stops p s c x eq n =
    ap (λ v. reverse (drop_while p v)) eq
    ∙ ap reverse (drop_while-stops p c x n ∙ sym eq)
    ∙ reverse-reverse s

strip-EndsFlat : (s : Text) → EndsFlat s → strip_slashes s ≡ s
unfolding EndsFlat strip_slashes
strip-EndsFlat s (u, c, eq, n) =
    drop_end_while-stops (λ d. d == slash) s c (reverse u)
      (ap reverse eq ∙ reverse-append u (c ∷ [])) n

pub strip_slashes-render : (ts : List Text) → All IsSegment ts → strip_slashes (render ts) ≡ body ts
unfolding strip_slashes
strip_slashes-render [] h = refl
strip_slashes-render (t ∷ ts) (ht, hts) = strip-EndsFlat (body (t ∷ ts)) (body-EndsFlat t ts ht hts)

or-true : (b : Bool) → (b || true) ≡ true
or-true true = refl
or-true false = refl

lies_in-root : (ss : List Text) → All IsSegment ss → lies_in (render ss) (render []) ≡ true
unfolding lies_in strip_slashes
lies_in-root [] h = refl
lies_in-root (s ∷ ss) h = or-true (text_eq (body (s ∷ ss)) (render []))

root_in :
    (t : Text) (ts : List Text)
    → IsSegment t
    → All IsSegment ts
    → lies_in (render []) (render (t ∷ ts)) ≡ false
unfolding lies_in
root_in [] ts ht hts = elim ht [ ]
root_in (c ∷ t) ts ht hts = rw (strip_slashes-render ((c ∷ t) ∷ ts) (ht, hts)) refl

-- For resolved paths `lies_in` goes by whole components: those of the parent come first in those of
-- the path.
pub lies_in-is_prefix :
    (ss ts : List Text)
    → All IsSegment ss
    → All IsSegment ts
    → lies_in (render ss) (render ts) ≡ is_prefix ts ss
unfolding lies_in
lies_in-is_prefix ss [] hs ht = lies_in-root ss hs
lies_in-is_prefix [] (t ∷ ts) hs (ht, hts) = root_in t ts ht hts
lies_in-is_prefix (s ∷ ss) (t ∷ ts) hs ht =
    ap
      (λ v.
        text_eq (body (s ∷ ss)) (body (t ∷ ts)) || starts_with (v ++ (slash ∷ [])) (body (s ∷ ss)))
      (strip_slashes-render (t ∷ ts) ht)
    ∙ ap (λ v. text_eq (body (s ∷ ss)) (body (t ∷ ts)) || starts_with v (body (s ∷ ss)))
        (body-slash (t ∷ ts))
    ∙ ap (λ b. b || starts_with (slash ∷ tail_of (t ∷ ts)) (body (s ∷ ss)))
        (text_eq-body (s ∷ ss) (t ∷ ts) hs ht)
    ∙ ap (λ b. is_same (s ∷ ss) (t ∷ ts) || b) (starts_with-body (t ∷ ts) (s ∷ ss) ht hs)
    ∙ same-proper (s ∷ ss) (t ∷ ts)
