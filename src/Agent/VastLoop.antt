-- ===== src/Agent/VastLoop.antt =====
-- `_vast_loop` and `_local_vast_schedule`: the schedule of the backend, or else one from the local
-- forecast, cached between refreshes. Temperatures are Python's floats.
pub mod Staleness
use hadcd_agent.Base.{
  ℕ, ◌+◌, String, Bool, true, false, ◌||◌, Option, none, some, List, [], ◌∷◌, leb, is_some,
  if◌then◌else◌,
}
use hadcd_agent.Vast.Provider.{Schedule}
use hadcd_agent.Weather.Windows.{Floats, Hour}
use hadcd_agent.Weather.Schedule.{Decision, build_vast_schedule}

-- The settings that the fallback reads.
pub record Settings (F : Type 0) : Type 0 where
  pub latitude : Option F
  pub longitude : Option F
  pub hot_threshold : Option F
  pub cold_threshold : F
  pub min_length : ℕ
  pub check_interval : ℕ
  pub weather_refresh : ℕ

-- What `heat_source.read()` comes to: an exception, or a setpoint that may be missing.
pub data SetpointReading (F : Type 0) : Type 0 where
  failed : SetpointReading F
  setpoint : Option F → SetpointReading F

module _ {F : Type 0} (fl : Floats F) (default_floor : F) (is_zero : F → Bool) where
  -- `not x` for a coordinate: missing, or 0.0.
  is_unset : Option F → Bool
  is_unset none = true
  is_unset (some x) = is_zero x

  floor_of : Settings F → F
  floor_of s = elim s.hot_threshold [ none ↦ default_floor | some t ↦ t ]

  -- `max(floor, setpoint)` where there is a setpoint.
  unfoldable pub hot_threshold_of : Settings F → SetpointReading F → F
  unfolding floor_of
  hot_threshold_of s failed = floor_of s
  hot_threshold_of s (setpoint none) = floor_of s
  hot_threshold_of s (setpoint (some t)) = if fl.lt (floor_of s) t then t else floor_of s

  -- `isoformat` writes the stamps of the decision; a missing forecast is a failed fetch.
  to_schedule : (ℕ → String) → Option Decision → Option Schedule
  to_schedule isoformat none = none
  to_schedule isoformat (some d) = some (record {
    should_list = d.should_list;
    next_window_start = elim d.next_window_start [ none ↦ none | some t ↦ some (isoformat t) ];
  })

  from_forecast :
      (ℕ → String) → Settings F → ℕ → SetpointReading F → Option (List (Hour F)) → Option Schedule
  unfolding to_schedule hot_threshold_of
  from_forecast isoformat s now reading none = none
  from_forecast isoformat s now reading (some pairs) = to_schedule isoformat (
      build_vast_schedule fl s.cold_threshold (some (hot_threshold_of s reading)) s.min_length now
        pairs)

  unfoldable pub local_vast_schedule :
      (ℕ → String) → Settings F → ℕ → SetpointReading F → Option (List (Hour F)) → Option Schedule
  unfolding is_unset from_forecast
  local_vast_schedule isoformat s now reading forecast =
      if is_unset s.latitude || is_unset s.longitude
      then none
      else from_forecast isoformat s now reading forecast

-- The two variables of the loop; the age is `none` before the first fetch, which stands for `inf`.
pub record Cache : Type 0 where
  pub schedule : Option Schedule
  pub age : Option ℕ

abbrev pub empty : Cache
empty = record { schedule = none; age = none }

abbrev aged : ℕ → Option ℕ → Option ℕ
aged interval none = none
aged interval (some a) = some (a + interval)

abbrev is_due : ℕ → Option ℕ → Bool
is_due refresh none = true
is_due refresh (some a) = leb refresh a

refresh_or_keep : ℕ → Cache → Option Schedule → Cache
refresh_or_keep refresh c local =
    if is_some c.schedule
    then (if is_due refresh c.age then record { schedule = local; age = some 0 } else c)
    else record { schedule = local; age = some 0 }

-- One tick: the cache after it, and the schedule that `provider.update` is called with, if any.
-- `local` is what a fetch would return now.
unfoldable pub choose : ℕ → ℕ → Cache → Option Schedule → Option Schedule → Cache × Option Schedule
unfolding refresh_or_keep
choose interval refresh c (some s) local = (c, some s)
choose interval refresh c none local =
    let c' = refresh_or_keep refresh (record c { age = aged interval c.age }) local in
    (c', c'.schedule)
