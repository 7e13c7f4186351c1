-- ===== src/Setup/Provisioner.antt =====
-- The configuration wizard (agent/provisioner.py): the setup code, the form, the handler of a POST
-- and the server's loop. `Form` is what `parse_qs` gives: the first value of each name.
pub mod Server
pub mod Form
pub mod Entries
pub mod Updates
mod Gate
pub mod Filled
mod Complete
mod Tests
use hadcd_agent.Base.{
  ℕ, zero, suc, ◌+◌, Bool, true, false, not, ◌&&◌, ◌||◌, Option, none, some, List, [], ◌∷◌,
  if◌then◌else◌, ◌==◌, ltb, any, String,
}
use Prim.Native.Nat.{◌/◌, ◌%◌}
use hadcd_agent.Base.Text.{Text, text_eq, strip, lower, codes}
use hadcd_agent.Agent.EnvFile.{Config, find}
use hadcd_agent.Setup.EnvText.{put, read_env, env_text}

abbrev pub Form : Type 0
Form = Config

-- `f"{n:06d}"` of a number below a million
unfoldable pub six_digits : ℕ → Text
six_digits n =
    (48 + n / 100000 % 10)
    ∷ (48 + n / 10000 % 10)
    ∷ (48 + n / 1000 % 10)
    ∷ (48 + n / 100 % 10)
    ∷ (48 + n / 10 % 10)
    ∷ (48 + n % 10)
    ∷ []

-- The preset of the environment, and the random number below a million.
unfoldable pub make_setup_code : Text → ℕ → Option Text
unfolding six_digits lower
make_setup_code preset n =
    if text_eq (lower (strip preset)) (codes "off")
    then none
    else (if text_eq (strip preset) [] then some (six_digits n) else some (strip preset))

unfoldable pub is_control : ℕ → Bool
is_control c = ltb c 32 || c == 127

-- The value, none for a `ValueError`.
unfoldable pub clean_env_value : Text → Option Text
unfolding is_control
clean_env_value value = if any is_control (strip value) then none else some (strip value)

abbrev pub text_of : Option Text → Text
text_of none = []
text_of (some v) = v

-- `env.get(k, "").strip()` is not empty.
unfoldable pub is_filled : String → Config → Bool
is_filled k env = not (text_eq (strip (text_of (find (codes k) env))) [])

-- `env.get("BMS_SOURCE", "file").strip()`
unfoldable pub bms_source : Option Text → Text
bms_source none = codes "file"
bms_source (some v) = strip v

unfoldable pub is_configured : Option Text → Bool
unfolding is_filled bms_source read_env
is_configured none = false
is_configured (some text) =
    let env = read_env (some text) in
    if is_filled "HADCD_API" env && is_filled "ENROLLMENT_TOKENS" env && is_filled "NODE_NAME" env
    then (if text_eq (bms_source (find (codes "BMS_SOURCE") env)) (codes "homeassistant")
        then is_filled "HA_TOKEN" env && is_filled "HA_ENTITY_ID" env
        else true)
    else false

-- `g(k)`
unfoldable pub field_value : Form → String → Option Text
unfolding clean_env_value
field_value form k = clean_env_value (text_of (find (codes k) form))

-- `if g(k): updates[key] = g(k)`
unfoldable pub store : String → Option Text → Config → Option Config
store key none updates = none
store key (some v) updates = some (if text_eq v [] then updates else put (codes key) v updates)

unfoldable pub store_token : Option Text → Config → Option Config
store_token none updates = none
store_token (some v) updates = some (
    if text_eq v []
    then updates
    else put (codes "HA_TOKEN") v (put (codes "BMS_SOURCE") (codes "homeassistant") updates))

-- The longitude is read only if there is a latitude.
unfoldable pub store_longitude : Text → Option Text → Config → Option Config
store_longitude latitude none updates = none
store_longitude latitude (some v) updates = some (
    if text_eq v []
    then updates
    else put (codes "NODE_LONGITUDE") v (put (codes "NODE_LATITUDE") latitude updates))

unfoldable pub store_place : Option Text → Option Text → Config → Option Config
unfolding store_longitude
store_place none longitude updates = none
store_place (some v) longitude updates =
    if text_eq v [] then some updates else store_longitude v longitude updates

-- `updates.setdefault(k, v)`
unfoldable pub set_default : Text → Text → Config → Config
set_default k v updates = elim (find k updates) [ none ↦ put k v updates | some w ↦ updates ]

-- A wallet, and the path of the program that pays into it.
unfoldable pub store_wallet : String → String → String → Option Text → Config → Option Config
unfolding set_default
store_wallet key program path none updates = none
store_wallet key program path (some v) updates = some (
    if text_eq v []
    then updates
    else set_default (codes program) (codes path) (put (codes key) v updates))

abbrev pub Step : Type 0
Step = Config → Option Config

unfoldable pub run_steps : List Step → Config → Option Config
run_steps [] updates = some updates
run_steps (s ∷ ss) updates = elim (s updates) [ none ↦ none | some next ↦ run_steps ss next ]

unfoldable pub steps : Form → List Step
unfolding field_value store store_token store_place store_wallet
steps form =
    store "HADCD_API" (field_value form "hadcd_api")
    ∷ store "ENROLLMENT_TOKENS" (field_value form "enrollment_tokens")
    ∷ store "NODE_NAME" (field_value form "node_name")
    ∷ store "MAX_POWER_KW" (field_value form "max_power_kw")
    ∷ store "NODE_TYPE" (field_value form "node_type")
    ∷ store_token (field_value form "ha_token")
    ∷ store "HA_ENTITY_ID" (field_value form "ha_entity_id")
    ∷ store "HA_DEMAND_WHEN_HEATING_KW" (field_value form "ha_demand_kw")
    ∷ store "ZONE_NAME" (field_value form "zone_name")
    ∷ store_place (field_value form "node_latitude") (field_value form "node_longitude")
    ∷ store_wallet "NICEHASH_WALLET" "NICEHASH_TREX_PATH" "/opt/trex/t-rex"
        (field_value form "nicehash_wallet")
    ∷ store_wallet "XMR_WALLET_ADDRESS" "XMRIG_PATH" "/opt/xmrig/xmrig"
        (field_value form "xmr_wallet")
    ∷ store "VASTAI_API_KEY" (field_value form "vastai_api_key")
    ∷ []

unfoldable pub collect_updates : Form → Option Config
unfolding run_steps steps
collect_updates form = run_steps (steps form) []
