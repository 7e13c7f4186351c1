-- ===== src/Weather/Tests.antt =====
-- The forecast by whole degrees: a day of seven hours with one cold spell, and the theorems on it.
use hadcd_agent.Base.{
  ℕ, zero, suc, ◌+◌, ◌*◌, ◌-◌, ◌≡◌, ◌↔◌, ◌⊎◌, refl, true, false, some, List, [], ◌∷◌, Any, ltb,
}
use hadcd_agent.Weather.Windows.{
  Floats, Hour, hour, Window, window_of, windows, min_of, cold_windows,
}
use hadcd_agent.Weather.Runs.{runs, windows_of, windows-runs}
use hadcd_agent.Weather.Schedule.{Decision, build_vast_schedule}
use hadcd_agent.Weather.Schedule.Listing.{is_cold, hot_runs, IsSpellAt, delisted_iff}

-- Degrees above -40; the mean is rounded down by repeated subtraction.
abbrev quotient : ℕ → ℕ → ℕ → ℕ
quotient zero n d = 0
quotient (suc k) n d = elim (ltb n d) [ true ↦ 0 | false ↦ suc (quotient k (n - d) d) ]

abbrev degrees : Floats ℕ
degrees = record { lt = ltb; add = λ a b. a + b; zero = 0; div = λ n d. quotient n n d }

abbrev at : ℕ → ℕ → Hour ℕ
at h t = (h * hour, t)

-- Below 40 from hour 2 to hour 4.
abbrev day : List (Hour ℕ)
day = at 0 50 ∷ at 1 45 ∷ at 2 38 ∷ at 3 35 ∷ at 4 39 ∷ at 5 44 ∷ at 6 52 ∷ []

abbrev cold_spell : Window ℕ
cold_spell = record { start = 2 * hour; end_ = 5 * hour; extreme = 35; mean = 37 }

day_window : cold_windows degrees 40 (3 * hour) day ≡ some (cold_spell ∷ [])
unfolding cold_windows window_of
day_window = refl

windows-runs_example :
    windows degrees (min_of degrees) (λ t. ltb t 40) (2 * hour) day
    ≡ some (windows_of degrees (min_of degrees) (2 * hour) (runs (λ t. ltb t 40) day))
windows-runs_example = windows-runs degrees (min_of degrees) (2 * hour) (λ t. ltb t 40) day

delisted_iff_example :
    (d : Decision) × (build_vast_schedule degrees 40 (some 60) (2 * hour) (3 * hour) day ≡ some d)
    × ((d.should_list ≡ false) ↔ (
        Any (IsSpellAt (2 * hour) (3 * hour)) (runs (is_cold degrees 40) day)
        ⊎ Any (IsSpellAt (2 * hour) (3 * hour)) (hot_runs degrees (some 60) day)))
delisted_iff_example = delisted_iff degrees 40 (some 60) (2 * hour) (3 * hour) day
