-- ===== src/Agent/HeatSource/Ecobee.antt =====
-- `EcobeeHeatSource` (agent/heat_source.py): the rotation of its tokens, and its reading.
use hadcd_agent.Base.{
  ℕ, ◌+◌, String, Bool, false, not, ◌&&◌, ◌||◌, Option, none, some, List, [], ◌∷◌, if◌then◌else◌,
  ltb, any, str_eq,
}
use hadcd_agent.Base.Int.{ℤ}
use hadcd_agent.Base.Json.{Value, null, bool, num, str, arr, obj, Fields, nil, cons, get_or, truthy}
use hadcd_agent.Base.Text.{Text, text_eq, codes, split_commas, stripped}
use hadcd_agent.Agent.HeatSource.{
  Floats, whole, as_number, Answer, returns, named, unnamed, HeatReading, Read, complain,
}
use hadcd_agent.Agent.HeatSource.HomeAssistant.{dict_or_empty}

-- The tokens in memory, and the refresh token of the state file.
pub record Tokens : Type 0 where
  pub access_token : String
  pub access_expires_at : ℕ
  pub refresh_token : String
  pub stored : String

-- The response to a refresh: `data["access_token"]`, none where the key is missing; the number of
-- `int(data.get("expires_in", 3600))`; and the new refresh token, none if there is none.
pub record Grant : Type 0 where
  pub access_token : Option String
  pub expires_in : Answer ℕ
  pub refresh_token : Option String

-- `self._access_token and now < self._access_expires_at - 60`; no token is the empty one.
unfoldable pub is_current : ℕ → Tokens → Bool
is_current now t = not (str_eq t.access_token "") && ltb (now + 60) t.access_expires_at

-- The rotated token, in memory and then in the file, whose write may raise an OSError.
unfoldable pub keep_refresh : Bool → Option String → Tokens → Tokens × Answer (Unit {0})
keep_refresh is_written none t = (t, returns tt)
keep_refresh is_written (some new) t =
    if str_eq new "" || str_eq new t.refresh_token
    then (t, returns tt)
    else (if is_written
        then (record t { refresh_token = new; stored = new }, returns tt)
        else (record t { refresh_token = new }, unnamed))

-- After the access token: the expiry, then the refresh token.
unfoldable pub keep_expiry :
    ℕ → Bool → Answer ℕ → Option String → Tokens → Tokens × Answer (Unit {0})
unfolding keep_refresh
keep_expiry now is_written named new t = (t, named)
keep_expiry now is_written unnamed new t = (t, unnamed)
keep_expiry now is_written (returns n) new t =
    keep_refresh is_written new (record t { access_expires_at = now + n })

unfoldable pub take_grant : ℕ → Bool → Grant → Tokens → Tokens × Answer (Unit {0})
unfolding keep_expiry
take_grant now is_written g t = elim g.access_token [
  | none ↦ (t, named)
  | some token ↦
      keep_expiry now is_written g.expires_in g.refresh_token (record t { access_token = token })
]

unfoldable pub refresh : ℕ → Bool → Answer Grant → Tokens → Tokens × Answer (Unit {0})
unfolding take_grant
refresh now is_written named t = (t, named)
refresh now is_written unnamed t = (t, unnamed)
refresh now is_written (returns g) t = take_grant now is_written g t

unfoldable pub ensure_access_token : ℕ → Bool → Answer Grant → Tokens → Tokens × Answer (Unit {0})
unfolding is_current refresh
ensure_access_token now is_written answer t =
    if is_current now t then (t, returns tt) else refresh now is_written answer t

-- `thermostats[0]` of what is truthy: none where the index raises; the character of a string is no
-- dictionary, so what follows raises.
unfoldable pub first_of : Value → Option Value
first_of null = none
first_of (bool b) = none
first_of (num d) = none
first_of (str s) = none
first_of (arr nil) = none
first_of (arr (cons x xs)) = some x
first_of (obj fs) = none

abbrev pub heating_states : List Text
heating_states =
    codes "heatPump"
    ∷ codes "heatPump2"
    ∷ codes "heatPump3"
    ∷ codes "auxHeat1"
    ∷ codes "auxHeat2"
    ∷ codes "auxHeat3"
    ∷ []

-- The pieces of `equipmentStatus`, none where `split` raises.
unfoldable pub equipment_states : Value → Option (List Text)
unfolding truthy split_commas stripped
equipment_states null = some []
equipment_states (bool b) = if b then none else some []
equipment_states (num d) = if truthy (num d) then none else some []
equipment_states (str s) = some (stripped (split_commas [] (codes s)))
equipment_states (arr xs) = if truthy (arr xs) then none else some []
equipment_states (obj fs) = if truthy (obj fs) then none else some []

-- `equipment_states & ECOBEE_HEATING_STATES`
abbrev pub heats : List Text → Bool
heats pieces = any (λ p. any (text_eq p) heating_states) pieces

pub record Ecobee (T : Type 0) : Type 0 where
  pub demand_when_heating_kw : T
  pub default_window_sec : ℤ

module _ (T : Type 0) (floats : Floats T) where
  unfoldable pub tenths_f_to_c : Value → Option T
  unfolding as_number
  tenths_f_to_c v = elim (as_number v) [
    | none ↦ none
    | some d ↦
        let number : ℕ → T = λ n. floats.float (whole n) in
        let f = floats.over (floats.float d) (number 10) in
        some (floats.over (floats.times (floats.minus f (number 32)) (number 5)) (number 9))
  ]

  unfoldable pub thermostat_reading : Ecobee T → List Text → Fields → HeatReading T
  unfolding tenths_f_to_c
  thermostat_reading e pieces runtime = record {
    measured_kw = if heats pieces then e.demand_when_heating_kw else floats.float (whole 0);
    setpoint_c = tenths_f_to_c (get_or "desiredHeat" null runtime);
    room_temp_c = tenths_f_to_c (get_or "actualTemperature" null runtime);
    expected_window_sec = if heats pieces then some e.default_window_sec else none;
  }

  -- What is read of one thermostat, none where something raises.
  unfoldable pub read_thermostat : Ecobee T → Value → Option (HeatReading T)
  unfolding equipment_states dict_or_empty thermostat_reading
  read_thermostat e null = none
  read_thermostat e (bool b) = none
  read_thermostat e (num d) = none
  read_thermostat e (str s) = none
  read_thermostat e (arr xs) = none
  read_thermostat e (obj fs) = elim (equipment_states (get_or "equipmentStatus" null fs)) [
    | none ↦ none
    | some pieces ↦ elim (dict_or_empty (get_or "runtime" null fs)) [
      | none ↦ none
      | some runtime ↦ some (thermostat_reading e pieces runtime)
    ]
  ]

  unfoldable pub read_list : Ecobee T → Bool → Value → Read T
  unfolding first_of read_thermostat truthy
  read_list e warned thermostats =
      if truthy thermostats
      then record {
        warned = false;
        is_logged = false;
        reading = elim (first_of thermostats) [ none ↦ none | some t ↦ read_thermostat e t ];
      }
      else complain T floats warned

  unfoldable pub read_body : Ecobee T → Answer Value → Bool → Read T
  unfolding read_list
  read_body e named warned = complain T floats warned
  read_body e unnamed warned = record { warned = warned; is_logged = false; reading = none }
  read_body e (returns null) warned = record { warned = warned; is_logged = false; reading = none }
  read_body e (returns (bool b)) warned = record {
    warned = warned;
    is_logged = false;
    reading = none;
  }
  read_body e (returns (num d)) warned = record {
    warned = warned;
    is_logged = false;
    reading = none;
  }
  read_body e (returns (str s)) warned = record {
    warned = warned;
    is_logged = false;
    reading = none;
  }
  read_body e (returns (arr xs)) warned = record {
    warned = warned;
    is_logged = false;
    reading = none;
  }
  read_body e (returns (obj fs)) warned = read_list e warned (get_or "thermostatList" null fs)

  -- `answers`: the response to the refresh, whether the state file takes the write, and the state.
  unfoldable pub ecobee_read :
      Ecobee T → ℕ → Answer Grant × Bool × Answer Value → Tokens × Bool → Tokens × Read T
  unfolding ensure_access_token read_body
  ecobee_read e now (grant, is_written, state) (t, warned) =
      let (after, answer) = ensure_access_token now is_written grant t in
      elim answer [
        | named ↦ (after, complain T floats warned)
        | unnamed ↦ (after, record { warned = warned; is_logged = false; reading = none })
        | returns u ↦ (after, read_body e state warned)
      ]
