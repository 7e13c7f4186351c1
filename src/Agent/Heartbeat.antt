-- ===== src/Agent/Heartbeat.antt =====
-- One pass of `_heartbeat_loop`: the reply of the dispatcher, what the agent does with it, and the
-- fallback to mining while the dispatcher is away. Other loops move the provider between passes.
pub mod Fallback
pub mod Outage
pub mod Config
use hadcd_agent.Base.{
  ℕ, ◌+◌, ◌-◌, String, Bool, true, false, not, ◌&&◌, ◌||◌, Option, none, some, List, [], ◌∷◌, ◌++◌,
  leb, is_some, if◌then◌else◌,
}
use hadcd_agent.Base.Int.{ℤ}
use hadcd_agent.Base.Json.{Value, null, bool, num, str, arr, obj, truthy}
use hadcd_agent.Vast.Monad.{Provider, ProviderState, unlisted, listing, listed, unlisting}
use hadcd_agent.Vast.Provider.{enabled, set_override}
use hadcd_agent.Agent.Room.{Room, Env, apply_heat_override}

-- The fields that the agent reads; a missing one is null.
pub record Response : Type 0 where
  pub vast_override : Option String
  pub heat_override : Option String
  pub setback_temp_c : Option ℤ
  pub pending_config : Value
  pub pending_media_models : Value
  pub sessions : Value

-- An exception of the client, a status other than 200, a body that is no object, or a response.
pub data Reply : Type 0 where
  unreachable refused unparsed : Reply
  answered : Response → Reply

-- A pass reads the clock twice: for `_offline_since`, and for `offline_sec`. `scanned` are the
-- models found on the volume, and none where the scan raises.
pub record Input : Type 0 where
  pub reply : Reply
  pub env : Env
  pub seen : ℕ
  pub checked : ℕ
  pub scanned : Option (List String)

pub record Settings : Type 0 where
  pub setback_temp_c : ℤ
  pub autonomous_fallback_after_sec : ℕ

-- `miner` is `autonomous_miner.active`; the two flags are the pending acknowledgements.
pub record Node : Type 0 where
  pub provider : Provider
  pub room : Room ℤ
  pub config_applied : Bool
  pub media_applied : Bool
  pub offline_since : Option ℕ
  pub miner : Bool
  pub dep_check_counter : ℕ
  pub cached_models : List String

pub data Effect : Type 0 where
  applied_config synced_media handed_sessions : Value → Effect
  restart_scheduled checked_deps : Effect

unfoldable pub is_dict : Value → Bool
is_dict (obj fs) = true
is_dict null = false
is_dict (bool b) = false
is_dict (num d) = false
is_dict (str s) = false
is_dict (arr xs) = false

unfoldable pub is_list : Value → Bool
is_list (arr xs) = true
is_list null = false
is_list (bool b) = false
is_list (num d) = false
is_list (str s) = false
is_list (obj fs) = false

unfoldable pub config_push : Value → Bool → Bool × List Effect
config_push pending applied =
    if truthy pending && is_dict pending
    then (true, applied_config pending ∷ [])
    else if not (truthy pending) && applied
    then (false, restart_scheduled ∷ [])
    else (applied, [])

unfoldable pub media_push : Value → Bool → Bool × List Effect
media_push models applied =
    if truthy models && is_list models
    then (true, synced_media models ∷ [])
    else if not (truthy models) && applied
    then (false, [])
    else (applied, [])

unfoldable pub session_push : Value → List Effect
session_push sessions = if truthy sessions then handed_sessions sessions ∷ [] else []

unfoldable pub respond : Settings → Env → Response → Node → Node × List Effect
unfolding config_push media_push session_push
respond s e data_ n =
    let config = config_push data_.pending_config n.config_applied in
    let media = media_push data_.pending_media_models n.media_applied in
    (
      record n {
        provider =
            if enabled n.provider then set_override data_.vast_override n.provider else n.provider;
        room =
            apply_heat_override e s.setback_temp_c data_.heat_override data_.setback_temp_c n.room;
        config_applied = config.0;
        media_applied = media.0;
      },
      config.1 ++ (media.1 ++ session_push data_.sessions),
    )

-- `_hb_ok`
unfoldable pub hb_ok : Reply → Bool
hb_ok unreachable = false
hb_ok refused = false
hb_ok unparsed = true
hb_ok (answered data_) = true

unfoldable pub receive : Settings → Input → Node → Node × List Effect
receive s i n = elim i.reply [
  | unreachable ↦ (n, [])
  | refused ↦ (n, [])
  | unparsed ↦ (n, [])
  | answered data_ ↦ respond s i.env data_ n
]

-- `_vast_renting`
unfoldable pub vast_renting : Provider → Bool
vast_renting p =
    enabled p
    && elim p.state [ listed ↦ true | listing ↦ true | unlisted ↦ false | unlisting ↦ false ]

since : Option ℕ → ℕ → ℕ
since none now = now
since (some t) now = t

unfoldable pub fall_back : Settings → Bool → Input → Node → Node
unfolding since
fall_back s ok i n =
    if ok
    then record n { offline_since = none; miner = false }
    else if vast_renting n.provider
    then record n { miner = false }
    else (let t = since n.offline_since i.seen in
        record n {
          offline_since = some t;
          miner =
              n.miner || leb s.autonomous_fallback_after_sec (i.checked - t) && not n.room.active;
        })

abbrev pub dep_check_interval : ℕ
dep_check_interval = 60

-- An empty scan leaves the models as they were.
unfoldable pub scan_models : Option (List String) → List String → List String
scan_models none models = models
scan_models (some []) models = models
scan_models (some (m ∷ ms)) models = m ∷ ms

-- The dependency check of every 60th pass.
unfoldable pub refresh : Input → Node → Node × List Effect
unfolding scan_models
refresh i n =
    if leb dep_check_interval (n.dep_check_counter + 1)
    then (
      record n { dep_check_counter = 0; cached_models = scan_models i.scanned n.cached_models },
      checked_deps ∷ [],
    )
    else (record n { dep_check_counter = n.dep_check_counter + 1 }, [])

unfoldable pub beat : Settings → Input → Node → Node × List Effect
unfolding receive refresh fall_back
beat s i n =
    let (n', effects) = receive s i n in
    let (n'', checks) = refresh i n' in (fall_back s (hb_ok i.reply) i n'', effects ++ checks)
