-- ===== src/Setup/Provisioner/Updates.antt =====
-- The updates that an accepted form gives (`_collect_updates` of agent/provisioner.py).
use hadcd_agent.Base.{
  ◌≡◌, refl, inl, inr, String, true, false, Option, none, some, List, [], ◌∷◌, All, Bool-cases,
  Option-cases, any,
}
use hadcd_agent.Base.Text.{Text, text_eq, strip, codes, is_space, drop_end_while}
use hadcd_agent.Agent.EnvFile.{Config, find}
use hadcd_agent.Setup.EnvText.{put, is_break}
use hadcd_agent.Setup.EnvText.Lines.{unbroken}
use hadcd_agent.Setup.EnvText.Updates.{AreEntries}
use hadcd_agent.Setup.Provisioner.{
  Form, field_value, store, store_token, store_longitude, store_place, set_default, store_wallet,
  Step, run_steps, steps, collect_updates,
}
use hadcd_agent.Setup.Provisioner.Form.{
  IsPlainForm, IsLineValue, Holds, IsEnvKey, is_key, is_key-IsEnvKey, field-Holds,
}
use hadcd_agent.Setup.Provisioner.Entries.{IsSound, put-IsSound, sound-AreEntries}

-- A step keeps the updates sound.
abbrev Keeps : Step → Type 0
Keeps step = (c : Config) → IsSound c → Holds IsSound (step c)

store-Keeps :
    (key : String) (field : Option Text)
    → IsEnvKey (codes key)
    → Holds IsLineValue field
    → Keeps (store key field)
unfolding store
store-Keeps key none k f c s = tt
store-Keeps key (some v) k f c s = elim (Bool-cases (text_eq v [])) [
  | inl blank ↦ rw (store, blank) s
  | inr filled ↦ rw (store, filled) (put-IsSound (codes key) v c k f s)
]

home-IsLineValue : IsLineValue (codes "homeassistant")
unfolding strip is_space is_break
home-IsLineValue = (refl, refl, unbroken (codes "homeassistant") refl)

token-Keeps :
    (field : Option Text)
    → IsEnvKey (codes "HA_TOKEN")
    → IsEnvKey (codes "BMS_SOURCE")
    → Holds IsLineValue field
    → Keeps (store_token field)
unfolding store_token
token-Keeps none k b f c s = tt
token-Keeps (some v) k b f c s = elim (Bool-cases (text_eq v [])) [
  | inl blank ↦ rw (store_token, blank) s
  | inr filled ↦
      rw (store_token, filled)
        (put-IsSound (codes "HA_TOKEN") v (put (codes "BMS_SOURCE") (codes "homeassistant") c) k f
          (put-IsSound (codes "BMS_SOURCE") (codes "homeassistant") c b home-IsLineValue s))
]

longitude-Keeps :
    (latitude : Text) (field : Option Text)
    → IsEnvKey (codes "NODE_LATITUDE")
    → IsEnvKey (codes "NODE_LONGITUDE")
    → IsLineValue latitude
    → Holds IsLineValue field
    → Keeps (store_longitude latitude field)
unfolding store_longitude
longitude-Keeps latitude none a o l f c s = tt
longitude-Keeps latitude (some v) a o l f c s = elim (Bool-cases (text_eq v [])) [
  | inl blank ↦ rw (store_longitude, blank) s
  | inr filled ↦
      rw (store_longitude, filled)
        (put-IsSound (codes "NODE_LONGITUDE") v (put (codes "NODE_LATITUDE") latitude c) o f
          (put-IsSound (codes "NODE_LATITUDE") latitude c a l s))
]

place-Keeps :
    (latitude longitude : Option Text)
    → IsEnvKey (codes "NODE_LATITUDE")
    → IsEnvKey (codes "NODE_LONGITUDE")
    → Holds IsLineValue latitude
    → Holds IsLineValue longitude
    → Keeps (store_place latitude longitude)
unfolding store_place
place-Keeps none longitude a o l f c s = tt
place-Keeps (some v) longitude a o l f c s = elim (Bool-cases (text_eq v [])) [
  | inl blank ↦ rw (store_place, blank) s
  | inr filled ↦ rw (store_place, filled) (longitude-Keeps v longitude a o l f c s)
]

default-IsSound :
    (k v : Text) (c : Config) → IsEnvKey k → IsLineValue v → IsSound c → IsSound (set_default k v c)
unfolding set_default
default-IsSound k v c key f s = elim (Option-cases (find k c)) [
  | inl missing ↦ rw (set_default, missing) (put-IsSound k v c key f s)
  | inr (w, there) ↦ rw (set_default, there) s
]

wallet-Keeps :
    (key program path : String) (field : Option Text)
    → IsEnvKey (codes key)
    → IsEnvKey (codes program)
    → IsLineValue (codes path)
    → Holds IsLineValue field
    → Keeps (store_wallet key program path field)
unfolding store_wallet
wallet-Keeps key program path none k g p f c s = tt
wallet-Keeps key program path (some v) k g p f c s = elim (Bool-cases (text_eq v [])) [
  | inl blank ↦ rw (store_wallet, blank) s
  | inr filled ↦
      rw (store_wallet, filled)
        (default-IsSound (codes program) (codes path) (put (codes key) v c) g p
          (put-IsSound (codes key) v c k f s))
]

run_steps-Keeps :
    (ss : List Step) (c : Config) → All Keeps ss → IsSound c → Holds IsSound (run_steps ss c)
unfolding run_steps
run_steps-Keeps [] c k s = s
run_steps-Keeps (step ∷ ss) c (k, ks) s = elim (Option-cases (step c)) [
  | inl refused ↦ rw (run_steps, refused) tt
  | inr (next, kept) ↦ rw (run_steps, kept) (run_steps-Keeps ss next ks (rw kept at (k c s)))
]

constant-IsLineValue :
    (s : String)
    → any is_break (codes s) ≡ false
    → strip (codes s) ≡ codes s
    → drop_end_while is_space (codes s) ≡ codes s
    → IsLineValue (codes s)
constant-IsLineValue s line trims ends = (trims, ends, unbroken (codes s) line)

steps-Keep : (form : Form) → IsPlainForm form → All Keeps (steps form)
unfolding steps strip is_space is_break
steps-Keep form h =
    let value : (k : String) → Holds IsLineValue (field_value form k) = λ k. field-Holds form k h in
    let key : (k : String) → is_key (codes k) ≡ true → IsEnvKey (codes k) =
      λ k e. is_key-IsEnvKey (codes k) e in
    let plain : (k f : String) → is_key (codes k) ≡ true → Keeps (store k (field_value form f)) =
      λ k f e. store-Keeps k (field_value form f) (key k e) (value f) in
    (
      plain "HADCD_API" "hadcd_api" refl,
      (
        plain "ENROLLMENT_TOKENS" "enrollment_tokens" refl,
        (
          plain "NODE_NAME" "node_name" refl,
          (
            plain "MAX_POWER_KW" "max_power_kw" refl,
            (
              plain "NODE_TYPE" "node_type" refl,
              (
                token-Keeps (field_value form "ha_token") (key "HA_TOKEN" refl)
                    (key "BMS_SOURCE" refl) (value "ha_token"),
                (
                  plain "HA_ENTITY_ID" "ha_entity_id" refl,
                  (
                    plain "HA_DEMAND_WHEN_HEATING_KW" "ha_demand_kw" refl,
                    (
                      plain "ZONE_NAME" "zone_name" refl,
                      (
                        place-Keeps (field_value form "node_latitude")
                            (field_value form "node_longitude") (key "NODE_LATITUDE" refl)
                            (key "NODE_LONGITUDE" refl) (value "node_latitude")
                            (value "node_longitude"),
                        (
                          wallet-Keeps "NICEHASH_WALLET" "NICEHASH_TREX_PATH" "/opt/trex/t-rex"
                              (field_value form "nicehash_wallet") (key "NICEHASH_WALLET" refl)
                              (key "NICEHASH_TREX_PATH" refl)
                              (constant-IsLineValue "/opt/trex/t-rex" refl refl refl)
                              (value "nicehash_wallet"),
                          (
                            wallet-Keeps "XMR_WALLET_ADDRESS" "XMRIG_PATH" "/opt/xmrig/xmrig"
                                (field_value form "xmr_wallet") (key "XMR_WALLET_ADDRESS" refl)
                                (key "XMRIG_PATH" refl)
                                (constant-IsLineValue "/opt/xmrig/xmrig" refl refl refl)
                                (value "xmr_wallet"),
                            (plain "VASTAI_API_KEY" "vastai_api_key" refl, tt),
                          ),
                        ),
                      ),
                    ),
                  ),
                ),
              ),
            ),
          ),
        ),
      ),
    )

-- The updates of an accepted form, none of whose values has a line break beyond ASCII.
pub collect-AreEntries :
    (form : Form) (updates : Config)
    → IsPlainForm form
    → collect_updates form ≡ some updates
    → AreEntries updates updates
unfolding collect_updates
collect-AreEntries form updates h e =
    sound-AreEntries updates updates (λ k v f. f)
      (rw e at (run_steps-Keeps (steps form) [] (steps-Keep form h) (tt, tt)))
