-- ===== src/Setup/Demand/Tests.antt =====
-- Runs of the simulated demand: a cycle of 300 and 120 seconds.
use hadcd_agent.Base.{◌≡◌, refl, true, false, none, some, List, [], ◌∷◌}
use hadcd_agent.Base.Int.{pos}
use hadcd_agent.Base.Json.{Decimal}
use hadcd_agent.Agent.HeatSource.{Floats, whole}
use hadcd_agent.Setup.Demand.{cycle, Args, zero_payload, phase, Pass, runs, main}

-- The reading converts no number.
abbrev plain_floats : Floats Decimal
plain_floats = record {
  float = λ d. d;
  minus = λ a b. a;
  plus = λ a b. a;
  times = λ a b. a;
  over = λ a b. a;
}

abbrev args : Args
args = record {
  mode = cycle;
  measured_kw = whole 5;
  setpoint_c = whole 21;
  room_temp_c = whole 18;
  expected_window_sec = pos 1800;
  cycle_on_sec = 300;
  cycle_off_sec = 120;
  once = true;
}

abbrev passes : List Pass
passes =
    record { since_start = 0; is_written = true; stops = none }
    ∷ record { since_start = 400; is_written = true; stops = none }
    ∷ []

-- `--once` does not end the cycle.
two_passes : main args passes none ≡ (runs, some (zero_payload args))
unfolding main phase
two_passes = refl

idle_at_400 : phase 300 120 400 ≡ some (false, 20)
unfolding phase
idle_at_400 = refl
