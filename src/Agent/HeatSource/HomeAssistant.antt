-- ===== src/Agent/HeatSource/HomeAssistant.antt =====
-- `HomeAssistantHeatSource` (agent/heat_source.py).
use hadcd_agent.Base.{
  ◌-◌, String, Bool, true, false, ◌&&◌, Option, none, some, List, [], ◌∷◌, if◌then◌else◌, leb, any,
}
use hadcd_agent.Base.Int.{ℤ}
use hadcd_agent.Base.Json.{Value, null, bool, num, str, arr, obj, Fields, end, get_or, truthy}
use hadcd_agent.Base.Text.{Text, text_eq, codes, lower, strip}
use hadcd_agent.Agent.HeatSource.{
  Floats, whole, as_number, Answer, returns, named, unnamed, HeatReading, Read, complain, succeed,
}

unfoldable pub upper : Text → Text
upper [] = []
upper (c ∷ s) = (if leb 97 c && leb c 122 then c - 32 else c) ∷ upper s

-- `temperature_unit.upper().strip() == "F"`
unfoldable pub is_fahrenheit : String → Bool
unfolding upper strip
is_fahrenheit unit = text_eq (strip (upper (codes unit))) (codes "F")

-- `str(v).lower() in words`: no other value prints as one of the words that are asked for.
unfoldable pub is_word : List Text → Value → Bool
unfolding lower
is_word words null = false
is_word words (bool b) = false
is_word words (num d) = false
is_word words (str s) = any (text_eq (lower (codes s))) words
is_word words (arr xs) = false
is_word words (obj fs) = false

-- `v or {}`, of which the keys are then read: none where `.get` raises.
unfoldable pub dict_or_empty : Value → Option Fields
unfolding truthy
dict_or_empty null = some end
dict_or_empty (bool b) = if b then none else some end
dict_or_empty (num d) = if truthy (num d) then none else some end
dict_or_empty (str s) = if truthy (str s) then none else some end
dict_or_empty (arr xs) = if truthy (arr xs) then none else some end
dict_or_empty (obj fs) = some fs

-- The action where there is one, else the mode.
unfoldable pub is_heating : Fields → Fields → Bool
unfolding is_word
is_heating fs attrs = elim (get_or "hvac_action" null attrs) [
  | null ↦ is_word (codes "heat" ∷ codes "heating" ∷ []) (get_or "state" (str "") fs)
  | bool b ↦ false
  | num d ↦ false
  | str s ↦ is_word (codes "heating" ∷ []) (str s)
  | arr xs ↦ false
  | obj o ↦ false
]

pub record HomeAssistant (T : Type 0) : Type 0 where
  pub demand_when_heating_kw : T
  pub default_window_sec : ℤ
  pub temperature_unit : String

module _ (T : Type 0) (floats : Floats T) where
  unfoldable pub to_celsius : String → Value → Option T
  unfolding is_fahrenheit as_number
  to_celsius unit v = elim (as_number v) [
    | none ↦ none
    | some d ↦
        let f = floats.float d in
        some (
          if is_fahrenheit unit
          then floats.over
              (floats.times (floats.minus f (floats.float (whole 32))) (floats.float (whole 5)))
              (floats.float (whole 9))
          else f)
  ]

  unfoldable pub state_reading : HomeAssistant T → Fields → Fields → HeatReading T
  unfolding is_heating to_celsius
  state_reading ha fs attrs =
      let heats = is_heating fs attrs in
      record {
        measured_kw = if heats then ha.demand_when_heating_kw else floats.float (whole 0);
        setpoint_c = to_celsius ha.temperature_unit (get_or "temperature" null attrs);
        room_temp_c = to_celsius ha.temperature_unit (get_or "current_temperature" null attrs);
        expected_window_sec = if heats then some ha.default_window_sec else none;
      }

  unfoldable pub state_read : HomeAssistant T → Fields → Read T
  unfolding dict_or_empty state_reading
  state_read ha fs = elim (dict_or_empty (get_or "attributes" null fs)) [
    | none ↦ record { warned = false; is_logged = false; reading = none }
    | some attrs ↦ succeed T floats (state_reading ha fs attrs)
  ]

  unfoldable pub ha_read : HomeAssistant T → Answer Value → Bool → Read T
  unfolding state_read
  ha_read ha named warned = complain T floats warned
  ha_read ha unnamed warned = record { warned = warned; is_logged = false; reading = none }
  ha_read ha (returns null) warned = complain T floats warned
  ha_read ha (returns (bool b)) warned = complain T floats warned
  ha_read ha (returns (num d)) warned = complain T floats warned
  ha_read ha (returns (str s)) warned = complain T floats warned
  ha_read ha (returns (arr xs)) warned = complain T floats warned
  ha_read ha (returns (obj fs)) warned = state_read ha fs

  -- The temperature that is posted, by `round(…, 1)`, and what is returned, or none for an exception.
  unfoldable pub set_setpoint : (T → T) → HomeAssistant T → T → Answer (Unit {0}) → T × Option Bool
  unfolding is_fahrenheit
  set_setpoint round ha temp_c answer = (
    round (
        if is_fahrenheit ha.temperature_unit
        then floats.plus
            (floats.over (floats.times temp_c (floats.float (whole 9))) (floats.float (whole 5)))
            (floats.float (whole 32))
        else temp_c),
    elim answer [ returns u ↦ some true | named ↦ some false | unnamed ↦ none ],
  )
