-- ===== src/Weather/Windows.antt =====
-- `cold_windows` and `hot_windows`: one scan of the hourly forecast, by index. Times are in
-- microseconds, the resolution of `datetime`.
use hadcd_agent.Base.{
  ℕ, ◌+◌, ◌-◌, Bool, true, false, Option, none, some, List, [], ◌∷◌, ◌++◌, length, take, drop, ltb,
  if◌then◌else◌,
}

-- Python's floats: the operations that the module calls on temperatures.
pub record Floats (F : Type 0) : Type 0 where
  pub lt : F → F → Bool
  pub add : F → F → F
  pub zero : F
  pub div : F → ℕ → F

abbrev pub hour : ℕ
hour = 3_600_000_000

abbrev pub Hour : Type 0 → Type 0
Hour F = ℕ × F

-- A `ColdWindow` or a `HotWindow`: `extreme` is `min_temp_c` of the one, `max_temp_c` of the other.
pub record Window (F : Type 0) : Type 0 where
  pub start : ℕ
  pub end_ : ℕ
  pub extreme : F
  pub mean : F

module _ {F : Type 0} where
  abbrev pub last_time : Hour F → List (Hour F) → ℕ
  last_time x [] = x.0
  last_time x (y ∷ ys) = last_time y ys

  abbrev pub temps : List (Hour F) → List F
  temps [] = []
  temps (x ∷ xs) = x.1 ∷ temps xs

module _ {F : Type 0} (fl : Floats F) where
  -- `min(xs)` and `max(xs)` of a list that begins with `m`.
  abbrev pub min_of : F → List F → F
  min_of m [] = m
  min_of m (x ∷ xs) = min_of (if fl.lt x m then x else m) xs

  abbrev pub max_of : F → List F → F
  max_of m [] = m
  max_of m (x ∷ xs) = max_of (if fl.lt m x then x else m) xs

  -- `sum(xs)` from `acc`, by which the mean is taken.
  abbrev pub sum_from : F → List F → F
  sum_from acc [] = acc
  sum_from acc (x ∷ xs) = sum_from (fl.add acc x) xs

  -- `_maybe_add_window` and `_maybe_add_hot_window` on the hours of the run, where `extreme_of` is
  -- `min` or `max`, and `min_length` is `min_hours` as a length of time, and `end - start < min_hours` is read as
  -- `end < start + min_hours`. The outer `none` is the
  -- `IndexError` of an empty run.
  unfoldable pub window_of : (F → List F → F) → ℕ → List (Hour F) → Option (Option (Window F))
  window_of extreme_of min_length [] = none
  window_of extreme_of min_length (x ∷ xs) =
      let end_ = last_time x xs + hour in
      if ltb end_ (x.0 + min_length)
      then some none
      else some (
          some (record {
            start = x.0;
            end_ = end_;
            extreme = extreme_of x.1 (temps xs);
            mean = fl.div (sum_from fl.zero (x.1 ∷ temps xs)) (length (x ∷ xs));
          }))

  append_window : List (Window F) → Option (Option (Window F)) → Option (List (Window F))
  append_window ws none = none
  append_window ws (some none) = some ws
  append_window ws (some (some w)) = some (ws ++ (w ∷ []))

  -- `_maybe_add_window` with the hours `pairs[start_idx:end_idx]`
  unfoldable pub maybe_add_window :
      (F → List F → F) → ℕ → List (Window F) → List (Hour F) → ℕ → ℕ → Option (List (Window F))
  unfolding append_window
  maybe_add_window extreme_of min_length ws pairs start_idx end_idx =
      append_window ws
        (window_of extreme_of min_length (take (end_idx - start_idx) (drop start_idx pairs)))

  module _ (extreme_of : F → List F → F) (inside : F → Bool) (min_length : ℕ) where
    -- The loop over `enumerate(pairs)`, from index `i` on; `start` is `run_start_idx`.
    unfoldable pub scan :
        List (Hour F) → List (Hour F) → ℕ → Option ℕ → List (Window F) → Option (List (Window F))
    unfolding maybe_add_window
    scan pairs [] i none ws = some ws
    scan pairs [] i (some s) ws = maybe_add_window extreme_of min_length ws pairs s (length pairs)
    scan pairs (x ∷ rest) i none ws =
        scan pairs rest (i + 1) (if inside x.1 then some i else none) ws
    scan pairs (x ∷ rest) i (some s) ws = elim (inside x.1) [
      | true ↦ scan pairs rest (i + 1) (some s) ws
      | false ↦ elim (maybe_add_window extreme_of min_length ws pairs s i) [
        | none ↦ none
        | some ws' ↦ scan pairs rest (i + 1) none ws'
      ]
    ]

    unfoldable pub windows : List (Hour F) → Option (List (Window F))
    unfolding scan
    windows pairs = scan pairs pairs 0 none []

  unfoldable pub cold_windows : F → ℕ → List (Hour F) → Option (List (Window F))
  unfolding windows
  cold_windows threshold min_length = windows min_of (λ temp. fl.lt temp threshold) min_length

  unfoldable pub hot_windows : F → ℕ → List (Hour F) → Option (List (Window F))
  unfolding windows
  hot_windows threshold min_length = windows max_of (λ temp. fl.lt threshold temp) min_length
