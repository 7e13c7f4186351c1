-- ===== src/Weather/Schedule/Listing.antt =====
-- When the schedule lists the machine, in terms of the runs of the forecast.
use hadcd_agent.Base.{
  ℕ, ◌+◌, ◌≤◌, ◌≡◌, ◌⊎◌, ◌↔◌, refl, Bool, true, false, ◌||◌, Option, none, some, List, [], ◌∷◌,
  ◌++◌, Any, any, arith,
}
use hadcd_agent.Weather.Windows.{
  Floats, Hour, hour, Window, last_time, window_of, cold_windows, hot_windows, min_of, max_of,
}
use hadcd_agent.Weather.Runs.{long, runs, windows_of, windows-runs}
use hadcd_agent.Weather.Schedule.{Decision, holds_at, decide_listing, build_vast_schedule}

module _ {F : Type 0} (fl : Floats F) where
  abbrev pub is_cold : F → F → Bool
  is_cold threshold temp = fl.lt temp threshold

  abbrev pub is_hot : F → F → Bool
  is_hot threshold temp = fl.lt threshold temp

  -- `none` is no upper bound: no hour is too hot.
  abbrev pub hot_runs : Option F → List (Hour F) → List (List (Hour F))
  hot_runs none pairs = []
  hot_runs (some threshold) pairs = runs (is_hot threshold) pairs

  -- The decision with the windows of the runs: the code never raises.
  pub build_vast_schedule_lem :
      (threshold : F) (hot_threshold : Option F) (min_length now : ℕ) (pairs : List (Hour F))
      → build_vast_schedule fl threshold hot_threshold min_length now pairs
        ≡ some (
            decide_listing now
              (windows_of fl (min_of fl) min_length (runs (is_cold threshold) pairs))
              (windows_of fl (max_of fl) min_length (hot_runs hot_threshold pairs)))
  unfolding build_vast_schedule cold_windows hot_windows windows_of
  build_vast_schedule_lem threshold none min_length now pairs =
      rw (windows-runs fl (min_of fl) min_length (is_cold threshold) pairs)
  build_vast_schedule_lem threshold (some hot_threshold) min_length now pairs = rw (
    windows-runs fl (min_of fl) min_length (is_cold threshold) pairs,
    windows-runs fl (max_of fl) min_length (is_hot hot_threshold) pairs,
  )

-- `now` lies between the begin of the run and the end of its last hour, and the run is long enough.
abbrev pub IsSpellAt : {F : Type 0} → ℕ → ℕ → List (Hour F) → Type 0
IsSpellAt min_length now [] = ⊥
IsSpellAt min_length now (x ∷ xs) =
    let end_ = last_time x xs + hour in (x.0 ≤ now) × (now ≤ end_) × (x.0 + min_length ≤ end_)

module _ {F : Type 0} (fl : Floats F) (extreme_of : F → List F → F) (min_length now : ℕ) where
  any-append :
      (p : Window F → Bool) (xs ys : List (Window F)) → any p (xs ++ ys) ≡ (any p xs || any p ys)
  any-append p [] ys = refl
  any-append p (x ∷ xs) ys = ground (arith, any-append p xs ys)

  any-long :
      (run : List (Hour F))
      → (any (holds_at now) (long fl extreme_of min_length (window_of fl extreme_of min_length run))
          ≡ true)
        ↔ IsSpellAt min_length now run
  unfolding window_of
  any-long [] = (λ e. cc, λ h. elim h [ ])
  any-long (x ∷ xs) = ground arith

  any-windows_of :
      (rs : List (List (Hour F)))
      → (any (holds_at now) (windows_of fl extreme_of min_length rs) ≡ true)
        ↔ Any (IsSpellAt min_length now) rs
  unfolding windows_of
  any-windows_of [] = (λ e. cc, λ h. elim h [ ])
  any-windows_of (run ∷ rs) =
      rw
        (any-append (holds_at now)
          (long fl extreme_of min_length (window_of fl extreme_of min_length run)))
        (ground (arith, any-long run, any-windows_of rs))

module _ {F : Type 0} (fl : Floats F) where
  -- The machine is delisted exactly while `now` lies in a cold spell or in a hot one: a maximal run
  -- of hours below the cold, or above the hot threshold, that lasts `min_length` or more.
  pub delisted_iff :
      (threshold : F) (hot_threshold : Option F) (min_length now : ℕ) (pairs : List (Hour F))
      → (d : Decision) × (build_vast_schedule fl threshold hot_threshold min_length now pairs
          ≡ some d)
        × ((d.should_list ≡ false) ↔ (
            Any (IsSpellAt min_length now) (runs (is_cold fl threshold) pairs)
            ⊎ Any (IsSpellAt min_length now) (hot_runs fl hot_threshold pairs)))
  unfolding decide_listing
  delisted_iff threshold hot_threshold min_length now pairs = (
    _,
    build_vast_schedule_lem fl threshold hot_threshold min_length now pairs,
    ground (
      arith,
      any-windows_of fl (min_of fl) min_length now (runs (is_cold fl threshold) pairs),
      any-windows_of fl (max_of fl) min_length now (hot_runs fl hot_threshold pairs),
    ),
  )
