-- ===== src/Setup/Demand/Reading.antt =====
-- What the agent's file adapter reads of the simulated demand (agent/fake_demand.py, with
-- `FileHeatSource` of agent/heat_source.py).
use hadcd_agent.Base.{ℕ, ◌≡◌, ◌⊎◌, Bool, true, false, Option, none, some, List, Any, if◌then◌else◌}
use hadcd_agent.Base.Int.{ℤ, pos, is_positive}
use hadcd_agent.Base.Json.{Value, Decimal}
use hadcd_agent.Agent.HeatSource.{Floats, HeatReading, Flags, holds, file_read}
use hadcd_agent.Setup.Demand.{
  Mode, constant, off, cycle, Args, zero_kw, phase, Pass, Ending, runs, exits, raises, File,
}

module _ (T : Type 0) (floats : Floats T) (window : ℤ) where
  -- The reading with this demand, and with this window if it is positive
  abbrev pub reading : Args → Decimal → ℤ → HeatReading T
  reading a kw window_sec = record {
    measured_kw = floats.float kw;
    setpoint_c = some (floats.float a.setpoint_c);
    room_temp_c = some (floats.float a.room_temp_c);
    expected_window_sec = some (if is_positive window_sec then window_sec else window);
  }

  -- The adapter reads it from the file, whatever it has warned of before, and warns of nothing.
  abbrev pub Shows : Value → HeatReading T → Type 0
  Shows v r =
      (flags : Flags)
      → file_read T floats window (holds v) flags
        ≡ (record { warned_missing = false; warned_bad = false }, false, some r)

  -- The demand of the options, or none.
  abbrev pub ShowsDemand : Args → Value → Type 0
  ShowsDemand a v = Shows v (reading a a.measured_kw a.expected_window_sec)

  abbrev pub ShowsNone : Args → Value → Type 0
  ShowsNone a v = Shows v (reading a zero_kw (pos 0))

  -- What a mode shows after so many seconds: the demand, none, or in the cycle what the phase is.
  abbrev pub ShowsPhase : Args → Option (Bool × ℕ) → Value → Type 0
  ShowsPhase a none v = ⊥
  ShowsPhase a (some (true, left)) v = ShowsDemand a v
  ShowsPhase a (some (false, left)) v = ShowsNone a v

  abbrev pub ShowsAt : Mode → Args → ℕ → Value → Type 0
  ShowsAt constant a t v = ShowsDemand a v
  ShowsAt off a t v = ShowsNone a v
  ShowsAt cycle a t v = ShowsPhase a (phase a.cycle_on_sec a.cycle_off_sec t) v

  -- What the mode shows at one of the passes.
  abbrev pub IsOfPass : Args → List Pass → Value → Type 0
  IsOfPass a ps v = Any (λ p. ShowsAt a.mode a p.since_start v) ps

  -- The file before the run, or one of those values.
  abbrev pub IsShown : (Value → Type 0) → File → File → Type 0
  IsShown Q before now = (now ≡ before) ⊎ ((v : Value) × (now ≡ some v) × Q v)

  -- What is left by a mode, and by `--once`: the demand if it was to write the demand once, else no
  -- demand.
  abbrev pub ShowsLast : Mode → Bool → Args → Value → Type 0
  ShowsLast constant true a v = ShowsDemand a v
  ShowsLast constant false a v = ShowsNone a v
  ShowsLast off once a v = ShowsNone a v
  ShowsLast cycle once a v = ShowsNone a v

  abbrev pub IsStopped : Args → File → Type 0
  IsStopped a now = (v : Value) × (now ≡ some v) × ShowsLast a.mode a.once a v

  abbrev pub IsLeft : (Value → Type 0) → Args → File → Ending × File → Type 0
  IsLeft Q a before (runs, now) = IsShown Q before now
  IsLeft Q a before (raises, now) = IsShown Q before now
  IsLeft Q a before (exits, now) = IsStopped a now

  abbrev IsWritten : (Value → Type 0) → Option Value → Type 0
  IsWritten P none = Unit
  IsWritten P (some v) = P v
