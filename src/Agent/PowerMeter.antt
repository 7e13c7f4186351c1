-- ===== src/Agent/PowerMeter.antt =====
-- The Kasa plug's meter (agent/kasa_power_meter.py): its samples, and their average over a task.
-- A power is a number of thousandths of a watt, a time a number of microseconds.
mod Average
mod Tests
use hadcd_agent.Base.{
  ℕ, zero, suc, ◌+◌, ◌-◌, ◌*◌, String, Bool, true, false, not, Option, none, some, List, [], ◌∷◌,
  ◌++◌, if◌then◌else◌, ltb, leb, str_eq, length, drop,
}

pub record Sample : Type 0 where
  pub time : ℕ
  pub watts : ℕ

pub record Meter : Type 0 where
  pub ip : String
  pub has_device : Bool
  pub samples : List Sample
  pub last_watts : Option ℕ
  pub warned : Bool

-- `_WINDOW_MAX`
abbrev pub window_max : ℕ
window_max = 180

unfoldable pub enabled : Meter → Bool
enabled m = not (str_eq m.ip "")

-- `append` on a deque of bounded length: the oldest samples go.
unfoldable pub push : Sample → List Sample → List Sample
push s samples = drop (length (samples ++ (s ∷ [])) - window_max) (samples ++ (s ∷ []))

-- What the device does when it is found and updated: it raises, or it reports a power or none.
pub data Plug : Type 0 where
  raises : Plug
  reports : Option ℕ → Plug

-- The meter, the power that is returned, and whether a warning is logged.
unfoldable pub record_sample : ℕ → Plug → Meter → Meter × Option ℕ × Bool
unfolding push
record_sample now raises m = (record m { has_device = false; warned = true }, none, not m.warned)
record_sample now (reports none) m = (record m { has_device = true }, none, false)
record_sample now (reports (some w)) m = (
  record m {
    has_device = true;
    samples = push (record { time = now; watts = w }) m.samples;
    last_watts = some w;
    warned = false;
  },
  some w,
  false,
)

unfoldable pub poll : ℕ → Plug → Meter → Meter × Option ℕ × Bool
unfolding enabled record_sample
poll now plug m = if enabled m then record_sample now plug m else (m, none, false)

-- `[… if ts >= since_monotonic]`
unfoldable pub in_window : ℕ → List Sample → List Sample
in_window since [] = []
in_window since (s ∷ ss) =
    let rest = in_window since ss in if leb since s.time then s ∷ rest else rest

-- Twice `total_ws`, the sum over neighbours of (w0 + w1) times the time between.
unfoldable pub doubled_energy : Sample → List Sample → ℕ
doubled_energy s [] = 0
doubled_energy s (t ∷ ts) = (s.watts + t.watts) * (t.time - s.time) + doubled_energy t ts

unfoldable pub total_sec : Sample → List Sample → ℕ
total_sec s [] = 0
total_sec s (t ∷ ts) = (t.time - s.time) + total_sec t ts

unfoldable pub last_of : Sample → List Sample → Sample
last_of s [] = s
last_of s (t ∷ ts) = last_of t ts

-- A quotient of two numbers
pub record Ratio : Type 0 where
  pub numerator : ℕ
  pub denominator : ℕ

abbrev pub exact : ℕ → Ratio
exact w = record { numerator = w; denominator = 1 }

-- The average of the samples of the window.
unfoldable pub average : List Sample → Option Ratio
unfolding doubled_energy total_sec last_of
average [] = none
average (s ∷ ss) =
    if ltb 0 (total_sec s ss)
    then some (record { numerator = doubled_energy s ss; denominator = 2 * total_sec s ss })
    else some (exact (last_of s ss).watts)

unfoldable pub average_watts_since : ℕ → Meter → Option Ratio
unfolding average in_window
average_watts_since since m = elim (average (in_window since m.samples)) [
  | some r ↦ some r
  | none ↦ elim m.last_watts [ none ↦ none | some w ↦ some (exact w) ]
]
