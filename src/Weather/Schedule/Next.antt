-- ===== src/Weather/Schedule/Next.antt =====
-- The window that the schedule announces is the earliest one to come.
use mathlib.Core.Option
use mathlib.Core.Path.{subst}
use hadcd_agent.Base.{
  ℕ, ◌≤◌, ◌<◌, ◌≡◌, ◌⊎◌, inl, inr, refl, ◌∙◌, ap, Bool, true, false, Option, none, some, List, [],
  ◌∷◌, ◌++◌, All, Any, arith, Bool-cases, leb, ltb, if◌then◌else◌,
}
use hadcd_agent.Weather.Windows.{Window}
use hadcd_agent.Weather.Schedule.{upcoming, insert, sort, next_of, decide_listing}

module _ {F : Type 0} where
  upcoming-append :
      (now : ℕ) (xs ys : List (Window F))
      → upcoming now (xs ++ ys) ≡ upcoming now xs ++ upcoming now ys
  upcoming-append now [] ys = refl
  upcoming-append now (x ∷ xs) ys = ground (arith, upcoming-append now xs ys)

  -- `m` is in the list, and no window of the list starts earlier.
  abbrev IsFirst : Window F → List (Window F) → Type 0
  IsFirst m ws = Any (λ v. v ≡ m) ws × All (λ v. m.start ≤ v.start) ws

  next_of-insert :
      (w m : Window F) (ws : List (Window F))
      → next_of ws ≡ some m
      → next_of (insert w ws) ≡ some (if leb w.start m.start then w else m)
  next_of-insert w m [] e = cc
  next_of-insert w m (v ∷ vs) e = ground arith

  All-le :
      (w m : Window F) (ws : List (Window F))
      → w.start ≤ m.start
      → All (λ v. m.start ≤ v.start) ws
      → All (λ v. w.start ≤ v.start) ws
  All-le w m [] le h = tt
  All-le w m (v ∷ vs) le h = (omega (arith, h.0), All-le w m vs le h.1)

  sort-IsFirst :
      (w : Window F) (ws : List (Window F))
      → (m : Window F) × (next_of (sort (w ∷ ws)) ≡ some m) × IsFirst m (w ∷ ws)
  sort-IsFirst w [] = (w, refl, (inl refl, (omega arith, tt)))
  sort-IsFirst w (v ∷ vs) =
      let (m, e, first) = sort-IsFirst v vs in
      elim (Bool-cases (leb w.start m.start)) [
        | inl h ↦ (
          w,
          next_of-insert w m (sort (v ∷ vs)) e ∙ rw h,
          (inl refl, (omega arith, All-le w m (v ∷ vs) (ground arith) first.1)),
        )
        | inr h ↦
            (m, next_of-insert w m (sort (v ∷ vs)) e ∙ rw h, (inr first.0, (ground arith, first.1)))
      ]

  -- What the announced start says of all the windows.
  abbrev pub IsNext : ℕ → List (Window F) → Option ℕ → Type 0
  IsNext now ws none = All (λ w. w.start ≤ now) ws
  IsNext now ws (some s) =
      (now < s) × Any (λ w. w.start ≡ s) ws × All (λ w. now < w.start → s ≤ w.start) ws

  none_upcoming :
      (now : ℕ) (ws : List (Window F)) → upcoming now ws ≡ [] → All (λ w. w.start ≤ now) ws
  none_upcoming now [] e = tt
  none_upcoming now (w ∷ ws) e = elim (Bool-cases (ltb now w.start)) [
    | inl h ↦ absurd (let f : w ∷ upcoming now ws ≡ [] = (rw h at e) in cc)
    | inr h ↦ (ground arith, none_upcoming now ws (rw h at e))
  ]

  upcoming_member :
      (now : ℕ) (m : Window F) (ws : List (Window F))
      → Any (λ v. v ≡ m) (upcoming now ws)
      → (now < m.start) × Any (λ w. w.start ≡ m.start) ws
  upcoming_member now m [] h = elim h [ ]
  upcoming_member now m (w ∷ ws) h = go (upcoming_member now m ws) (ltb now w.start) refl h
    where
      go :
          (Any (λ v. v ≡ m) (upcoming now ws) → (now < m.start) × Any (λ w. w.start ≡ m.start) ws)
          → (b : Bool) → ltb now w.start ≡ b
          → Any (λ v. v ≡ m) (if b then w ∷ upcoming now ws else upcoming now ws)
          → (now < m.start) × (w.start ≡ m.start ⊎ Any (λ u. u.start ≡ m.start) ws)
      go ih true e (inl f) = (
        subst (λ (v : Window F). now < v.start) f (ground arith),
        inl (ap (λ (v : Window F). v.start) f),
      )
      go ih true e (inr g) = let (x, y) = ih g in (x, inr y)
      go ih false e g = let (x, y) = ih g in (x, inr y)

  upcoming-All :
      (now s : ℕ) (ws : List (Window F))
      → All (λ v. s ≤ v.start) (upcoming now ws)
      → All (λ w. now < w.start → s ≤ w.start) ws
  upcoming-All now s [] h = tt
  upcoming-All now s (w ∷ ws) h = go (upcoming-All now s ws) (ltb now w.start) refl h
    where
      go :
          (All (λ v. s ≤ v.start) (upcoming now ws) → All (λ w. now < w.start → s ≤ w.start) ws)
          → (b : Bool) → ltb now w.start ≡ b
          → All (λ v. s ≤ v.start) (if b then w ∷ upcoming now ws else upcoming now ws)
          → (now < w.start → s ≤ w.start) × All (λ u. now < u.start → s ≤ u.start) ws
      go ih true e h' = (λ _. h'.0, ih h'.1)
      go ih false e h' = (λ l. absurd (let f : ¬ (now < w.start) = ground arith in f l), ih h')

  IsNext-of_sorted :
      (now : ℕ) (ws : List (Window F))
      → IsNext now ws (Option.map (λ w. w.start) (next_of (sort (upcoming now ws))))
  IsNext-of_sorted now ws = go (upcoming now ws) refl
    where
      go :
          (us : List (Window F))
          → upcoming now ws ≡ us
          → IsNext now ws (Option.map (λ w. w.start) (next_of (sort us)))
      go [] e = none_upcoming now ws e
      go (u ∷ us) e =
          let (m, f, first) = sort-IsFirst u us in
          let first' : IsFirst m (upcoming now ws) = rw e first in
          let (x, y) = upcoming_member now m ws first'.0 in
          rw f (x, y, upcoming-All now m.start ws first'.1)

  -- The announced start is that of the earliest window, cold or hot, that has not begun; nothing is
  -- announced exactly if every window has begun.
  decide_listing-IsNext :
      (now : ℕ) (cold hot : List (Window F))
      → IsNext now (cold ++ hot) (decide_listing now cold hot).next_window_start
  unfolding decide_listing
  decide_listing-IsNext now cold hot =
      rw (← upcoming-append now cold hot) (IsNext-of_sorted now (cold ++ hot))
