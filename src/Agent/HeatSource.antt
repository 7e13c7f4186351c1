-- ===== src/Agent/HeatSource.antt =====
-- The heat sources (agent/heat_source.py): the shape of a reading, and the adapters for a file and a
-- URL. The adapters for thermostats are the modules below. A float is a number of any type `T` with
-- the operations that the code uses.
pub mod HomeAssistant
pub mod Ecobee
mod Warnings
mod Contract
mod Tokens
mod Choice
mod Tests
use hadcd_agent.Base.{
  ℕ, Bool, true, false, not, ◌&&◌, Option, none, some, List, [], ◌∷◌, if◌then◌else◌, ◌==◌,
}
use hadcd_agent.Base.Int.{ℤ, pos, is_positive}
use hadcd_agent.Base.Json.{Value, null, bool, num, str, arr, obj, Decimal, Fields, get_or}

pub record Floats (T : Type 0) : Type 0 where
  pub float : Decimal → T
  pub minus : T → T → T
  pub plus : T → T → T
  pub times : T → T → T
  pub over : T → T → T

-- A whole number
abbrev pub whole : ℕ → Decimal
whole n = record { mantissa = pos n; scale = 0 }

-- `isinstance(v, (int, float))`, with the number; a Boolean is an `int` too.
unfoldable pub as_number : Value → Option Decimal
as_number null = none
as_number (bool b) = some (whole (if b then 1 else 0))
as_number (num d) = some d
as_number (str s) = none
as_number (arr xs) = none
as_number (obj fs) = none

-- `isinstance(v, int)`: what JSON writes without a fraction, or a Boolean.
unfoldable pub as_int : Value → Option ℤ
as_int null = none
as_int (bool b) = some (pos (if b then 1 else 0))
as_int (num d) = if d.scale == 0 then some d.mantissa else none
as_int (str s) = none
as_int (arr xs) = none
as_int (obj fs) = none

-- How a call that may raise ends: by what it returns, by an exception of a class that the handler
-- names, or by another.
pub data Answer {ℓ} (A : Type ℓ) : Type ℓ where
  returns : A → Answer A
  named unnamed : Answer A

pub record HeatReading (T : Type 0) : Type 0 where
  pub measured_kw : T
  pub setpoint_c : Option T
  pub room_temp_c : Option T
  pub expected_window_sec : Option ℤ

-- What one call of `read` gives: the warning flag afterwards, whether a warning was logged, and
-- the reading, or none for an exception.
pub record Read (T : Type 0) : Type 0 where
  pub warned : Bool
  pub is_logged : Bool
  pub reading : Option (HeatReading T)

-- The file adapter's file: not there; unreadable or no JSON; not UTF-8, whose error the handler
-- does not name; or a value.
pub data Source : Type 0 where
  missing unreadable undecodable : Source
  holds : Value → Source

pub record Flags : Type 0 where
  pub warned_missing : Bool
  pub warned_bad : Bool

module _ (T : Type 0) (floats : Floats T) where
  -- `_ZERO`
  abbrev pub zero_reading : HeatReading T
  zero_reading = record {
    measured_kw = floats.float (whole 0);
    setpoint_c = none;
    room_temp_c = none;
    expected_window_sec = none;
  }

  unfoldable pub optional_float : Value → Option T
  unfolding as_number
  optional_float v = elim (as_number v) [ none ↦ none | some d ↦ some (floats.float d) ]

  unfoldable pub window_of : Value → ℤ → ℤ
  unfolding as_int
  window_of v default_window_sec = elim (as_int v) [
    | none ↦ default_window_sec
    | some n ↦ if is_positive n then n else default_window_sec
  ]

  unfoldable pub reading_of : Fields → ℤ → Option (HeatReading T)
  unfolding optional_float window_of as_number
  reading_of fs default_window_sec = elim (as_number (get_or "measured_kw" null fs)) [
    | none ↦ none
    | some d ↦ some (record {
      measured_kw = floats.float d;
      setpoint_c = optional_float (get_or "setpoint_c" null fs);
      room_temp_c = optional_float (get_or "room_temp_c" null fs);
      expected_window_sec =
          some (window_of (get_or "expected_window_sec" null fs) default_window_sec);
    })
  ]

  unfoldable pub parse_reading : Value → ℤ → Option (HeatReading T)
  unfolding reading_of
  parse_reading null w = none
  parse_reading (bool b) w = none
  parse_reading (num d) w = none
  parse_reading (str s) w = none
  parse_reading (arr xs) w = none
  parse_reading (obj fs) w = reading_of fs w

  -- `if not self._warned: …`, and `return _ZERO`
  abbrev pub complain : Bool → Read T
  complain warned = record { warned = true; is_logged = not warned; reading = some zero_reading }

  abbrev pub succeed : HeatReading T → Read T
  succeed r = record { warned = false; is_logged = false; reading = some r }

  abbrev pub bad_file : Bool → Flags × Bool × Option (HeatReading T)
  bad_file warned =
      (record { warned_missing = false; warned_bad = true }, not warned, some zero_reading)

  -- The flags, whether a warning was logged, and the reading, or none for an exception.
  unfoldable pub file_read : ℤ → Source → Flags → Flags × Bool × Option (HeatReading T)
  unfolding parse_reading
  file_read window missing flags =
      (record flags { warned_missing = true }, not flags.warned_missing, some zero_reading)
  file_read window unreadable flags = bad_file flags.warned_bad
  file_read window undecodable flags = (record flags { warned_missing = false }, false, none)
  file_read window (holds v) flags = elim (parse_reading v window) [
    | none ↦ bad_file flags.warned_bad
    | some r ↦ (record { warned_missing = false; warned_bad = false }, false, some r)
  ]

  unfoldable pub http_read : ℤ → Answer Value → Bool → Read T
  unfolding parse_reading
  http_read window named warned = complain warned
  http_read window unnamed warned = record { warned = warned; is_logged = false; reading = none }
  http_read window (returns v) warned = elim (parse_reading v window) [
    | none ↦ complain warned
    | some r ↦ succeed r
  ]
