-- ===== src/Setup/Demand.antt =====
-- The writer of a simulated demand (agent/fake_demand.py). A float of the command line is the
-- decimal that `json.dump` writes of it; times are whole seconds, none of them negative.
mod Reading
mod Phases
mod Tests
use hadcd_agent.Base.{
  ℕ, zero, suc, ◌+◌, ◌-◌, Bool, true, false, Option, none, some, List, [], ◌∷◌, if◌then◌else◌, ltb,
  ◌==◌,
}
use Prim.Native.Nat.{◌%◌}
use hadcd_agent.Base.Int.{ℤ, pos}
use hadcd_agent.Base.Json.{Value, num, obj, Decimal, Fields, field, end}

pub data Mode : Type 0 where
  constant off cycle : Mode

-- The options of the command line that the loops use
pub record Args : Type 0 where
  pub mode : Mode
  pub measured_kw : Decimal
  pub setpoint_c : Decimal
  pub room_temp_c : Decimal
  pub expected_window_sec : ℤ
  pub cycle_on_sec : ℕ
  pub cycle_off_sec : ℕ
  pub once : Bool

abbrev pub int : ℤ → Decimal
int z = record { mantissa = z; scale = 0 }

-- `0.0`
abbrev pub zero_kw : Decimal
zero_kw = record { mantissa = pos 0; scale = 1 }

abbrev pub payload : Decimal → Decimal → Decimal → ℤ → Value
payload kw setpoint room window = obj (
    field "measured_kw" (num kw) (
      field "setpoint_c" (num setpoint)
        (field "room_temp_c" (num room) (field "expected_window_sec" (num (int window)) end))))

unfoldable pub demand_payload : Args → Value
demand_payload a = payload a.measured_kw a.setpoint_c a.room_temp_c a.expected_window_sec

unfoldable pub zero_payload : Args → Value
zero_payload a = payload zero_kw a.setpoint_c a.room_temp_c (pos 0)

-- Whether the cycle is in its heating phase, and the seconds that are left of the phase; none where
-- the period is zero, which is a `ZeroDivisionError`.
unfoldable pub phase : ℕ → ℕ → ℕ → Option (Bool × ℕ)
phase on_sec off_sec since_start =
    let period = on_sec + off_sec in
    let elapsed = since_start % period in
    if period == 0
    then none
    else (if ltb elapsed on_sec
        then some (true, on_sec - elapsed)
        else some (false, period - elapsed))

unfoldable pub phase_payload : Args → Option (Bool × ℕ) → Option Value
unfolding demand_payload zero_payload
phase_payload a none = none
phase_payload a (some (heats, left)) = some (if heats then demand_payload a else zero_payload a)

-- What a pass of the mode's loop writes, none where it raises.
unfoldable pub pass_payload : Args → Mode → ℕ → Option Value
unfolding phase phase_payload demand_payload zero_payload
pass_payload a constant since_start = some (demand_payload a)
pass_payload a off since_start = some (zero_payload a)
pass_payload a cycle since_start =
    phase_payload a (phase a.cycle_on_sec a.cycle_off_sec since_start)

-- `if once: break`, which `run_cycle` does not have
unfoldable pub stops_after_one : Args → Mode → Bool
stops_after_one a constant = a.once
stops_after_one a off = a.once
stops_after_one a cycle = false

-- One pass: the seconds since the start, whether the file takes the write, and whether the process
-- is interrupted or terminated in the sleep after it, with whether the file takes the last write.
pub record Pass : Type 0 where
  pub since_start : ℕ
  pub is_written : Bool
  pub stops : Option Bool

pub data Ending : Type 0 where
  runs exits raises : Ending

-- The file's content
abbrev pub File : Type 0
File = Option Value

-- The handlers of `SIGTERM` and of `KeyboardInterrupt`
unfoldable pub stop : Args → Bool → File → Ending × File
unfolding zero_payload
stop a is_written file = if is_written then (exits, some (zero_payload a)) else (raises, file)

-- After a write: `rest` is the run of the later passes.
unfoldable pub go_on : Args → Option Bool → Ending × File → File → Ending × File
unfolding stop
go_on a none rest file = rest
go_on a (some is_written) rest file = stop a is_written file

-- A write, with what the later passes make of the new file.
unfoldable pub write_pass :
    Args → Pass → Option Value → (File → Ending × File) → File → Ending × File
unfolding go_on stops_after_one
write_pass a p none rest file = (raises, file)
write_pass a p (some v) rest file =
    if p.is_written
    then (if stops_after_one a a.mode
        then (exits, some v)
        else go_on a p.stops (rest (some v)) (some v))
    else (raises, file)

unfoldable pub main : Args → List Pass → File → Ending × File
unfolding write_pass pass_payload
main a [] file = (runs, file)
main a (p ∷ ps) file =
    let rest : File → Ending × File = main a ps in
    write_pass a p (pass_payload a a.mode p.since_start) rest file
