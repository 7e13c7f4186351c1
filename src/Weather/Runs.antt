-- ===== src/Weather/Runs.antt =====
-- The scan by index finds the maximal runs of the forecast: the reference definition, by one
-- recursion on the hours, and what its runs are.
use mathlib.Core.List.{append_assoc, append-nil}
use hadcd_agent.Base.{
  ℕ, ◌+◌, ◌-◌, ◌≡◌, inl, inr, refl, sym, ◌∙◌, ap, Bool, true, false, Option, none, some, List, [],
  ◌∷◌, ◌++◌, length, length-append, take, drop, take-append, drop-append, arith, Bool-cases,
}
use hadcd_agent.Weather.Windows.{Floats, Hour, Window, window_of, maybe_add_window, scan, windows}

-- The run that is open, unless it is empty, and the runs after it.
abbrev pub close {ℓ} : {A : Type ℓ} → List A → List (List A) → List (List A)
close [] rs = rs
close (y ∷ ys) rs = (y ∷ ys) ∷ rs

module _ {F : Type 0} (inside : F → Bool) where
  -- The maximal runs of hours inside, where `run` is the run that is open.
  unfoldable pub runs_from : List (Hour F) → List (Hour F) → List (List (Hour F))
  runs_from run [] = close run []
  runs_from run (x ∷ xs) = elim (inside x.1) [
    | true ↦ runs_from (run ++ (x ∷ [])) xs
    | false ↦ close run (runs_from [] xs)
  ]

  unfoldable pub runs : List (Hour F) → List (List (Hour F))
  unfolding runs_from
  runs pairs = runs_from [] pairs

slice {ℓ} :
    {A : Type ℓ} (pre run rest pairs : List A) (j : ℕ)
    → pairs ≡ pre ++ (run ++ rest)
    → j ≡ length pre + length run
    → take (j - length pre) (drop (length pre) pairs) ≡ run
slice pre run rest pairs j e f =
    let g : j - length pre ≡ length run = omega arith in
    rw (g, e, drop-append pre (run ++ rest)) (take-append run rest)

-- Moving the end of `pre` over the hours up to and with `x`.
shift {ℓ} :
    {A : Type ℓ} (pre run : List A) (x : A) (rest pairs : List A)
    → pairs ≡ pre ++ (run ++ (x ∷ rest))
    → pairs ≡ (pre ++ (run ++ (x ∷ []))) ++ rest
shift pre run x rest pairs e = e ∙ simp append_assoc

length-pairs {ℓ} :
    {A : Type ℓ} (pre run pairs : List A)
    → pairs ≡ pre ++ (run ++ [])
    → length pairs ≡ length pre + length run
length-pairs pre run pairs e = rw (e, append-nil run) (length-append pre run)

module _ {F : Type 0} (fl : Floats F) (extreme_of : F → List F → F) (min_length : ℕ) where
  abbrev pub long : Option (Option (Window F)) → List (Window F)
  long none = []
  long (some none) = []
  long (some (some w)) = w ∷ []

  -- The windows of those runs that are long enough.
  unfoldable pub windows_of : List (List (Hour F)) → List (Window F)
  windows_of [] = []
  windows_of (run ∷ rs) = long (window_of fl extreme_of min_length run) ++ windows_of rs

  -- A run that is not empty never raises.
  add_run :
      (ws : List (Window F)) (y : Hour F) (ys pairs : List (Hour F)) (i j : ℕ)
      → take (j - i) (drop i pairs) ≡ y ∷ ys
      → maybe_add_window fl extreme_of min_length ws pairs i j
        ≡ some (ws ++ long (window_of fl extreme_of min_length (y ∷ ys)))
  unfolding maybe_add_window window_of
  add_run ws y ys pairs i j e = rw (e, maybe_add_window) (ground (arith, append-nil ws))

  module _ (inside : F → Bool) where
    start_of : ℕ → List (Hour F) → Option ℕ
    start_of n [] = none
    start_of n (y ∷ ys) = some n

    scan_lem :
        (rest pre run : List (Hour F)) (pairs : List (Hour F)) (i : ℕ) (ws : List (Window F))
        → pairs ≡ pre ++ (run ++ rest)
        → i ≡ length pre + length run
        → scan fl extreme_of inside min_length pairs rest i (start_of (length pre) run) ws
          ≡ some (ws ++ windows_of (runs_from inside run rest))
    unfolding scan start_of windows_of runs_from
    scan_lem [] pre [] pairs i ws e f = rw (append-nil ws)
    scan_lem [] pre (y ∷ ys) pairs i ws e f =
        add_run ws y ys pairs (length pre) (length pairs)
          (slice pre (y ∷ ys) [] pairs (length pairs) e (length-pairs pre (y ∷ ys) pairs e))
        ∙ rw (append-nil (long (window_of fl extreme_of min_length (y ∷ ys))))
    scan_lem (x ∷ rest) pre [] pairs i ws e f = elim (Bool-cases (inside x.1)) [
      | inl h ↦
          rw (h, runs_from)
            (ap (λ t. scan fl extreme_of inside min_length pairs rest (i + 1) (some t) ws)
                (let g : i ≡ length pre = omega arith in g)
              ∙ scan_lem rest pre (x ∷ []) pairs (i + 1) ws e (omega arith))
      | inr h ↦
          rw (h, runs_from)
            (scan_lem rest (pre ++ (x ∷ [])) [] pairs (i + 1) ws (shift pre [] x rest pairs e)
              (omega (arith, length-append pre (x ∷ []))))
    ]
    scan_lem (x ∷ rest) pre (y ∷ ys) pairs i ws e f = elim (Bool-cases (inside x.1)) [
      | inl h ↦
          rw (h, scan, runs_from)
            (scan_lem rest pre ((y ∷ ys) ++ (x ∷ [])) pairs (i + 1) ws
              (e ∙ ap (λ l. pre ++ l) (sym (append_assoc (y ∷ ys) (x ∷ []) rest)))
              (omega (arith, length-append (y ∷ ys) (x ∷ []))))
      | inr h ↦
          rw
            (
              h,
              add_run ws y ys pairs (length pre) i (slice pre (y ∷ ys) (x ∷ rest) pairs i e f),
              scan,
              runs_from,
            )
            (scan_lem rest (pre ++ ((y ∷ ys) ++ (x ∷ []))) [] pairs (i + 1)
                (ws ++ long (window_of fl extreme_of min_length (y ∷ ys)))
                (shift pre (y ∷ ys) x rest pairs e)
                (omega (
                  arith,
                  length-append pre ((y ∷ ys) ++ (x ∷ [])),
                  length-append (y ∷ ys) (x ∷ []),
                ))
              ∙ rw append_assoc)
    ]

    -- The scan by index never raises, and finds exactly the windows of the maximal runs of hours
    -- inside, in order.
    pub windows-runs :
        (pairs : List (Hour F))
        → windows fl extreme_of inside min_length pairs ≡ some (windows_of (runs inside pairs))
    unfolding windows runs start_of
    windows-runs pairs = scan_lem pairs [] [] pairs 0 [] refl (omega arith)
