-- ===== src/Agent/HeatSource/Choice.antt =====
-- `build_source` (agent/heat_source.py): which adapter the settings choose, and when they are refused.
use hadcd_agent.Base.{
  ◌≡◌, refl, inl, inr, String, Bool, true, false, ◌||◌, Option, none, some, Bool-cases,
  if◌then◌else◌, str_eq,
}
use hadcd_agent.Base.Text.{text_eq, codes}
use hadcd_agent.Agent.SessionSource.{kind_of}

-- The settings that the choice reads.
pub record Settings : Type 0 where
  pub bms_source : Option String
  pub bms_http_url : String
  pub ecobee_api_key : String
  pub ecobee_thermostat_id : String
  pub ha_token : String
  pub ha_entity_id : String

pub data Adapter : Type 0 where
  file http ecobee home_assistant : Adapter

-- The adapter, or none for a BMSConfigError.
unfoldable pub build_source : Settings → Option Adapter
unfolding kind_of
build_source c =
    let k = kind_of "file" c.bms_source in
    if text_eq k (codes "file")
    then some file
    else (if text_eq k (codes "http")
        then (if str_eq c.bms_http_url "" then none else some http)
        else (if text_eq k (codes "ecobee")
            then (if str_eq c.ecobee_api_key "" || str_eq c.ecobee_thermostat_id ""
                then none
                else some ecobee)
            else (if text_eq k (codes "homeassistant")
                then (if str_eq c.ha_token "" || str_eq c.ha_entity_id ""
                    then none
                    else some home_assistant)
                else none)))

-- What an adapter cannot do without.
abbrev pub IsSupplied : Settings → Option Adapter → Type 0
IsSupplied c none = Unit
IsSupplied c (some file) = Unit
IsSupplied c (some http) = str_eq c.bms_http_url "" ≡ false
IsSupplied c (some ecobee) =
    (str_eq c.ecobee_api_key "" ≡ false) × (str_eq c.ecobee_thermostat_id "" ≡ false)
IsSupplied c (some home_assistant) =
    (str_eq c.ha_token "" ≡ false) × (str_eq c.ha_entity_id "" ≡ false)

both-IsSupplied :
    (c : Settings) (adapter : Adapter) (x y : Bool)
    → (x ≡ false → y ≡ false → IsSupplied c (some adapter))
    → IsSupplied c (if x || y then none else some adapter)
both-IsSupplied c adapter true y h = tt
both-IsSupplied c adapter false true h = tt
both-IsSupplied c adapter false false h = h refl refl

-- An adapter is built only from settings that have what it needs.
build_source-IsSupplied : (c : Settings) → IsSupplied c (build_source c)
unfolding build_source
build_source-IsSupplied c =
    let k = kind_of "file" c.bms_source in
    elim (Bool-cases (text_eq k (codes "file"))) [
      | inl a ↦ rw (build_source, a) tt
      | inr a ↦ elim (Bool-cases (text_eq k (codes "http"))) [
        | inl b ↦ elim (Bool-cases (str_eq c.bms_http_url "")) [
          | inl e ↦ rw (build_source, a, b, e) tt
          | inr e ↦ rw (build_source, a, b, e) e
        ]
        | inr b ↦ elim (Bool-cases (text_eq k (codes "ecobee"))) [
          | inl d ↦
              rw (build_source, a, b, d)
                (both-IsSupplied c ecobee (str_eq c.ecobee_api_key "")
                  (str_eq c.ecobee_thermostat_id "") (λ e f. (e, f)))
          | inr d ↦ elim (Bool-cases (text_eq k (codes "homeassistant"))) [
            | inl g ↦
                rw (build_source, a, b, d, g)
                  (both-IsSupplied c home_assistant (str_eq c.ha_token "")
                    (str_eq c.ha_entity_id "") (λ e f. (e, f)))
            | inr g ↦ rw (build_source, a, b, d, g) tt
          ]
        ]
      ]
    ]
