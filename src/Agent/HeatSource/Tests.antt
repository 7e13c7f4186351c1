-- ===== src/Agent/HeatSource/Tests.antt =====
-- Runs of the heat sources' models at concrete answers; a float is the number as it is written.
use hadcd_agent.Base.{◌+◌, ◌<◌, ◌≡◌, refl, ◌⊎◌, true, false, some, List, [], ◌∷◌, str_eq}
use hadcd_agent.Base.Int.{pos}
use hadcd_agent.Base.Json.{Value, num, obj, end, field, Decimal}
use hadcd_agent.Agent.HeatSource.{Floats, whole, Answer, returns, named, Flags}
use hadcd_agent.Agent.HeatSource.HomeAssistant.{HomeAssistant}
use hadcd_agent.Agent.HeatSource.Ecobee.{
  Tokens, Grant, is_current, refresh, take_grant, keep_expiry, keep_refresh, ensure_access_token,
  Ecobee,
}
use hadcd_agent.Agent.HeatSource.Tokens.{
  IsKept, IsGranted, Call, refreshes, refreshes-IsKept, ensure_access_token-IsFresh,
}

-- The operations keep their first argument: no test below converts a temperature.
abbrev decimals : Floats Decimal
decimals = record {
  float = λ d. d;
  minus = λ a b. a;
  plus = λ a b. a;
  times = λ a b. a;
  over = λ a b. a;
}

abbrev house : HomeAssistant Decimal
house = record {
  demand_when_heating_kw = whole 5;
  default_window_sec = pos 1800;
  temperature_unit = "C";
}

abbrev thermostat : Ecobee Decimal
thermostat = record { demand_when_heating_kw = whole 5; default_window_sec = pos 1800 }

-- `{"measured_kw": 8}`
abbrev eight : Value
eight = obj (field "measured_kw" (num (whole 8)) end)

abbrev answers : List (Answer Value)
answers = named ∷ named ∷ returns eight ∷ named ∷ []

abbrev misshapen : Value
misshapen = obj (field "attributes" (num (whole 1)) end)

abbrev fresh : Flags
fresh = record { warned_missing = false; warned_bad = false }

-- The first grant, with a rotated refresh token.
abbrev tokens : Tokens
tokens = record { access_token = ""; access_expires_at = 0; refresh_token = "a"; stored = "a" }

abbrev grant : Grant
grant = record { access_token = some "t"; expires_in = returns 3600; refresh_token = some "b" }

abbrev calls : List Call
calls = (100, true, returns grant) ∷ (200, true, named) ∷ []

refreshes-IsKept_example : IsKept (refreshes calls tokens)
refreshes-IsKept_example = refreshes-IsKept calls tokens (refl, (refl, tt)) refl

rotated :
    refreshes calls tokens
    ≡ record { access_token = "t"; access_expires_at = 3700; refresh_token = "b"; stored = "b" }
unfolding refreshes ensure_access_token is_current refresh take_grant keep_expiry keep_refresh
rotated = refl

ensure_access_token-IsFresh_example :
    (((ensure_access_token 100 true (returns grant) tokens).0 ≡ tokens)
      × (str_eq tokens.access_token "" ≡ false)
      × (100 + 60 < tokens.access_expires_at))
    ⊎ IsGranted 100 (returns grant) (ensure_access_token 100 true (returns grant) tokens).0
unfolding ensure_access_token is_current refresh take_grant keep_expiry keep_refresh
ensure_access_token-IsFresh_example =
    ensure_access_token-IsFresh 100 true (returns grant) tokens refl
