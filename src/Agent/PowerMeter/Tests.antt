-- ===== src/Agent/PowerMeter/Tests.antt =====
-- Runs of the meter at concrete polls.
use hadcd_agent.Base.{ℕ, ◌≤◌, ◌≡◌, refl, arith, some, List, [], ◌∷◌, All, length}
use hadcd_agent.Agent.PowerMeter.{
  Plug, raises, reports, enabled, push, record_sample, poll, in_window, average, total_sec,
  doubled_energy, average_watts_since,
}
use hadcd_agent.Agent.PowerMeter.Average.{IsReported, AverageWithin, fresh, polls, polls-IsBetween}

-- 100 W, a failure, 200 W and 300 W.
abbrev series : List (ℕ × Plug)
series =
    (0, reports (some 100))
    ∷ (10, raises)
    ∷ (20, reports (some 200))
    ∷ (40, reports (some 300))
    ∷ []

abbrev all-IsReported : All (IsReported 100 300) series
all-IsReported = (
  (omega arith, omega arith),
  (tt, ((omega arith, omega arith), ((omega arith, omega arith), tt))),
)

polls-IsBetween_example :
    (length (polls series (fresh "10.0.0.2")).samples ≤ 180)
    × AverageWithin 100 300 (average_watts_since 0 (polls series (fresh "10.0.0.2")))
polls-IsBetween_example = polls-IsBetween 100 300 series "10.0.0.2" 0 all-IsReported

-- (150 W over 20 and 250 W over 20 units of time)
trapezoids :
    average_watts_since 0 (polls series (fresh "10.0.0.2"))
    ≡ some (record { numerator = 16000; denominator = 80 })
unfolding polls poll enabled record_sample push average_watts_since in_window average total_sec
    doubled_energy
trapezoids = refl
