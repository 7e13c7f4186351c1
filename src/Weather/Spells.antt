-- ===== src/Weather/Spells.antt =====
-- What the runs are: maximal blocks of hours inside, and every hour inside lies in one of them.
use mathlib.Core.List.{append_assoc}
use hadcd_agent.Base.{
  ℕ, ◌≡◌, ◌⊎◌, inl, inr, refl, sym, ◌∙◌, ap, Bool, true, false, some, List, [], ◌∷◌, ◌++◌, All, Any,
  All-append, Bool-cases,
}
use hadcd_agent.Weather.Windows.{Hour, Floats, windows}
use hadcd_agent.Weather.Runs.{close, runs_from, runs, windows_of, windows-runs}

module _ {F : Type 0} (inside : F → Bool) where
  abbrev pub IsInside : Hour F → Type 0
  IsInside x = inside x.1 ≡ true

  -- Nothing, or a list whose last hour is outside; nothing, or a list whose first hour is.
  abbrev pub EndsOutside : List (Hour F) → Type 0
  EndsOutside [] = Unit
  EndsOutside (x ∷ []) = inside x.1 ≡ false
  EndsOutside (x ∷ y ∷ ys) = EndsOutside (y ∷ ys)

  abbrev pub BeginsOutside : List (Hour F) → Type 0
  BeginsOutside [] = Unit
  BeginsOutside (x ∷ xs) = inside x.1 ≡ false

  -- A block of hours inside that cannot be made longer on either side.
  pub record IsMaximal (pairs run : List (Hour F)) : Type 0 where
    pub before : List (Hour F)
    pub behind : List (Hour F)
    pub split : pairs ≡ before ++ (run ++ behind)
    pub all_inside : All IsInside run
    pub before_outside : EndsOutside before
    pub behind_outside : BeginsOutside behind

  EndsOutside-append :
      (xs : List (Hour F)) (x : Hour F) → inside x.1 ≡ false → EndsOutside (xs ++ (x ∷ []))
  EndsOutside-append [] x h = h
  EndsOutside-append (y ∷ []) x h = h
  EndsOutside-append (y ∷ z ∷ zs) x h = EndsOutside-append (z ∷ zs) x h

  runs_from-IsMaximal :
      (rest pre run pairs : List (Hour F))
      → pairs ≡ pre ++ (run ++ rest)
      → EndsOutside pre
      → All IsInside run
      → All (IsMaximal pairs) (runs_from inside run rest)
  unfolding runs_from
  runs_from-IsMaximal [] pre [] pairs e o h = tt
  runs_from-IsMaximal [] pre (y ∷ ys) pairs e o h = (
    record {
      before = pre;
      behind = [];
      split = e;
      all_inside = h;
      before_outside = o;
      behind_outside = tt;
    },
    tt,
  )
  runs_from-IsMaximal (x ∷ rest) pre [] pairs e o h = elim (Bool-cases (inside x.1)) [
    | inl g ↦ rw (g, runs_from) (runs_from-IsMaximal rest pre (x ∷ []) pairs e o (g, tt))
    | inr g ↦
        rw (g, runs_from)
          (runs_from-IsMaximal rest (pre ++ (x ∷ [])) [] pairs (e ∙ simp append_assoc)
            (EndsOutside-append pre x g) tt)
  ]
  runs_from-IsMaximal (x ∷ rest) pre (y ∷ ys) pairs e o h = elim (Bool-cases (inside x.1)) [
    | inl g ↦
        rw (g, runs_from)
          (runs_from-IsMaximal rest pre ((y ∷ ys) ++ (x ∷ [])) pairs
            (e ∙ ap (λ l. pre ++ l) (sym (append_assoc (y ∷ ys) (x ∷ []) rest))) o
            (All-append IsInside (y ∷ ys) (x ∷ []) h (g, tt)))
    | inr g ↦
        rw (g, runs_from)
          (
            record {
              before = pre;
              behind = x ∷ rest;
              split = e;
              all_inside = h;
              before_outside = o;
              behind_outside = g;
            },
            runs_from-IsMaximal rest (pre ++ ((y ∷ ys) ++ (x ∷ []))) [] pairs
                (e ∙ simp append_assoc)
                (rw (sym (append_assoc pre (y ∷ ys) (x ∷ [])))
                  (EndsOutside-append (pre ++ (y ∷ ys)) x g))
                tt,
          )
  ]

  abbrev pub Contains : Hour F → List (Hour F) → Type 0
  Contains x = Any (λ y. y ≡ x)

  Contains-append :
      (x : Hour F) (xs ys : List (Hour F)) → Contains x xs ⊎ Contains x ys → Contains x (xs ++ ys)
  Contains-append x [] ys (inl h) = elim h [ ]
  Contains-append x [] ys (inr h) = h
  Contains-append x (z ∷ zs) ys (inl (inl e)) = inl e
  Contains-append x (z ∷ zs) ys (inl (inr h)) = inr (Contains-append x zs ys (inl h))
  Contains-append x (z ∷ zs) ys (inr h) = inr (Contains-append x zs ys (inr h))

  runs_from_open :
      (x : Hour F) (rest run : List (Hour F))
      → Contains x run
      → Any (Contains x) (runs_from inside run rest)
  unfolding runs_from
  runs_from_open x [] [] h = elim h [ ]
  runs_from_open x [] (y ∷ ys) h = inl h
  runs_from_open x (z ∷ rest) [] h = elim h [ ]
  runs_from_open x (z ∷ rest) (y ∷ ys) h = elim (Bool-cases (inside z.1)) [
    | inl g ↦
        rw (g, runs_from)
          (runs_from_open x rest ((y ∷ ys) ++ (z ∷ []))
            (Contains-append x (y ∷ ys) (z ∷ []) (inl h)))
    | inr g ↦ rw (g, runs_from) (inl h)
  ]

  Any-close :
      (x : Hour F) (run : List (Hour F)) (rs : List (List (Hour F)))
      → Any (Contains x) rs
      → Any (Contains x) (close run rs)
  Any-close x [] rs h = h
  Any-close x (y ∷ ys) rs h = inr h

  runs_from-Contains :
      (x : Hour F) (rest run : List (Hour F))
      → inside x.1 ≡ true
      → Contains x rest
      → Any (Contains x) (runs_from inside run rest)
  unfolding runs_from
  runs_from-Contains x [] run g h = elim h [ ]
  runs_from-Contains x (z ∷ rest) run g (inl e) =
      rw ((ap (λ (y : Hour F). inside y.1) e ∙ g), runs_from)
        (runs_from_open x rest (run ++ (z ∷ [])) (Contains-append x run (z ∷ []) (inr (inl e))))
  runs_from-Contains x (z ∷ rest) run g (inr h) = elim (Bool-cases (inside z.1)) [
    | inl f ↦ rw (f, runs_from) (runs_from-Contains x rest (run ++ (z ∷ [])) g h)
    | inr f ↦
        rw (f, runs_from)
          (Any-close x run (runs_from inside [] rest) (runs_from-Contains x rest [] g h))
  ]

  -- Every run is a maximal block of hours inside.
  pub runs-IsMaximal : (pairs : List (Hour F)) → All (IsMaximal pairs) (runs inside pairs)
  unfolding runs
  runs-IsMaximal pairs = runs_from-IsMaximal pairs [] [] pairs refl tt tt

  -- Every hour inside lies in a run.
  pub runs-Contains :
      (x : Hour F) (pairs : List (Hour F))
      → inside x.1 ≡ true
      → Contains x pairs
      → Any (Contains x) (runs inside pairs)
  unfolding runs
  runs-Contains x pairs g h = runs_from-Contains x pairs [] g h

-- The scan never raises, and its windows are those of runs that are maximal blocks of hours inside,
-- among which every hour inside lies.
windows-IsMaximal :
    {F : Type 0} (fl : Floats F) (extreme_of : F → List F → F) (min_length : ℕ) (inside : F → Bool)
    (pairs : List (Hour F))
    → (rs : List (List (Hour F))) × (windows fl extreme_of inside min_length pairs
        ≡ some (windows_of fl extreme_of min_length rs))
      × All (IsMaximal inside pairs) rs
      × ((x : Hour F) → inside x.1 ≡ true → Contains inside x pairs → Any (Contains inside x) rs)
windows-IsMaximal fl extreme_of min_length inside pairs = (
  runs inside pairs,
  windows-runs fl extreme_of min_length inside pairs,
  runs-IsMaximal inside pairs,
  λ x h m. runs-Contains inside x pairs h m,
)
