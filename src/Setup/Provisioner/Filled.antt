-- ===== src/Setup/Provisioner/Filled.antt =====
-- The keys that the steps of the form fill, and keep filled (agent/provisioner.py).
use hadcd_agent.Base.{
  ◌≡◌, refl, ◌⊎◌, inl, inr, String, true, false, Option, none, some, List, [], ◌∷◌, All, Bool-cases,
  Option-cases,
}
use hadcd_agent.Base.Text.{Text, text_eq, text_eq_sound, strip, codes, is_space}
use hadcd_agent.Agent.EnvFile.{Config, find}
use hadcd_agent.Setup.EnvText.{put}
use hadcd_agent.Setup.EnvText.Dictionary.{find-put, find-put_other}
use hadcd_agent.Setup.Provisioner.{
  Form, text_of, is_filled, field_value, store, store_token, store_longitude, store_place,
  set_default, store_wallet, Step, run_steps, steps,
}
use hadcd_agent.Setup.Provisioner.Form.{IsPlainForm, IsLineValue, Holds, field-Holds}

-- A value that is blank neither as it is nor stripped.
abbrev pub IsMeant : Text → Type 0
IsMeant v = text_eq (strip v) [] ≡ false

pub meant : (v : Text) → strip v ≡ v → text_eq v [] ≡ false → IsMeant v
meant v s n = rw s n

module _ (k : String) where
  put-Filled :
      (j v : Text) (c : Config) → IsMeant v → is_filled k c ≡ true → is_filled k (put j v c) ≡ true
  unfolding is_filled
  put-Filled j v c m h = elim (Bool-cases (text_eq j (codes k))) [
    | inl same ↦ rw (text_eq_sound j (codes k) same, find-put (codes k) v c, text_of, m) refl
    | inr other ↦ rw (find-put_other j (codes k) v c other) h
  ]

  put-Fills : (v : Text) (c : Config) → IsMeant v → is_filled k (put (codes k) v c) ≡ true
  unfolding is_filled
  put-Fills v c m = rw (find-put (codes k) v c, text_of, m) refl

  abbrev pub Filled : Config → Type 0
  Filled c = is_filled k c ≡ true

  store-Filled :
      (key : String) (field : Option Text) (c : Config)
      → Holds IsLineValue field
      → Filled c
      → Holds Filled (store key field c)
  unfolding store
  store-Filled key none c f h = tt
  store-Filled key (some v) c (s, e, u) h = elim (Bool-cases (text_eq v [])) [
    | inl blank ↦ rw (store, blank) h
    | inr full ↦ rw (store, full) (put-Filled (codes key) v c (meant v s full) h)
  ]

  token-Filled :
      (field : Option Text) (c : Config)
      → Holds IsLineValue field
      → Filled c
      → Holds Filled (store_token field c)
  unfolding store_token strip is_space
  token-Filled none c f h = tt
  token-Filled (some v) c (s, e, u) h = elim (Bool-cases (text_eq v [])) [
    | inl blank ↦ rw (store_token, blank) h
    | inr full ↦
        rw (store_token, full)
          (put-Filled (codes "HA_TOKEN") v (put (codes "BMS_SOURCE") (codes "homeassistant") c)
            (meant v s full) (put-Filled (codes "BMS_SOURCE") (codes "homeassistant") c refl h))
  ]

  longitude-Filled :
      (latitude : Text) (field : Option Text) (c : Config)
      → IsMeant latitude
      → Holds IsLineValue field
      → Filled c
      → Holds Filled (store_longitude latitude field c)
  unfolding store_longitude
  longitude-Filled latitude none c m f h = tt
  longitude-Filled latitude (some v) c m (s, e, u) h = elim (Bool-cases (text_eq v [])) [
    | inl blank ↦ rw (store_longitude, blank) h
    | inr full ↦
        rw (store_longitude, full)
          (put-Filled (codes "NODE_LONGITUDE") v (put (codes "NODE_LATITUDE") latitude c)
            (meant v s full) (put-Filled (codes "NODE_LATITUDE") latitude c m h))
  ]

  place-Filled :
      (latitude longitude : Option Text) (c : Config)
      → Holds IsLineValue latitude
      → Holds IsLineValue longitude
      → Filled c
      → Holds Filled (store_place latitude longitude c)
  unfolding store_place
  place-Filled none longitude c l f h = tt
  place-Filled (some v) longitude c (s, e, u) f h = elim (Bool-cases (text_eq v [])) [
    | inl blank ↦ rw (store_place, blank) h
    | inr full ↦ rw (store_place, full) (longitude-Filled v longitude c (meant v s full) f h)
  ]

  default-Filled : (j v : Text) (c : Config) → IsMeant v → Filled c → Filled (set_default j v c)
  unfolding set_default
  default-Filled j v c m h = elim (Option-cases (find j c)) [
    | inl missing ↦ rw (set_default, missing) (put-Filled j v c m h)
    | inr (w, there) ↦ rw (set_default, there) h
  ]

  wallet-Filled :
      (key program path : String) (field : Option Text) (c : Config)
      → IsMeant (codes path)
      → Holds IsLineValue field
      → Filled c
      → Holds Filled (store_wallet key program path field c)
  unfolding store_wallet
  wallet-Filled key program path none c p f h = tt
  wallet-Filled key program path (some v) c p (s, e, u) h = elim (Bool-cases (text_eq v [])) [
    | inl blank ↦ rw (store_wallet, blank) h
    | inr full ↦
        rw (store_wallet, full)
          (default-Filled (codes program) (codes path) (put (codes key) v c) p
            (put-Filled (codes key) v c (meant v s full) h))
  ]

  abbrev pub KeepsFilled : Step → Type 0
  KeepsFilled step = (c : Config) → Filled c → Holds Filled (step c)

  abbrev pub Fills : Step → Type 0
  Fills step = (c : Config) → Holds Filled (step c)

  -- One of the steps fills the key, and those after it keep it filled.
  abbrev pub Reaches : List Step → Type 0
  Reaches [] = ⊥
  Reaches (s ∷ ss) = (Fills s × All KeepsFilled ss) ⊎ Reaches ss

  run-Filled :
      (ss : List Step) (c : Config) → All KeepsFilled ss → Filled c → Holds Filled (run_steps ss c)
  unfolding run_steps
  run-Filled [] c k h = h
  run-Filled (s ∷ ss) c (k, ks) h = elim (Option-cases (s c)) [
    | inl refused ↦ rw (run_steps, refused) tt
    | inr (next, kept) ↦
        let filled : Filled next = rw kept at (k c h) in
        rw (run_steps, kept) (run-Filled ss next ks filled)
  ]

  pub run-Fills : (ss : List Step) (c : Config) → Reaches ss → Holds Filled (run_steps ss c)
  unfolding run_steps
  run-Fills [] c r = elim r [ ]
  run-Fills (s ∷ ss) c r = elim (Option-cases (s c)) [
    | inl refused ↦ rw (run_steps, refused) tt
    | inr (next, kept) ↦ elim r [
      | inl (f, ks) ↦
          let filled : Filled next = rw kept at (f c) in
          rw (run_steps, kept) (run-Filled ss next ks filled)
      | inr later ↦ rw (run_steps, kept) (run-Fills ss next later)
    ]
  ]

  pub steps-Filled : (form : Form) → IsPlainForm form → All KeepsFilled (steps form)
  unfolding steps strip is_space
  steps-Filled form h =
      let value : (f : String) → Holds IsLineValue (field_value form f) =
        λ f. field-Holds form f h in
      let plain : (key f : String) → KeepsFilled (store key (field_value form f)) =
        λ key f c. store-Filled key (field_value form f) c (value f) in
      (
        plain "HADCD_API" "hadcd_api",
        (
          plain "ENROLLMENT_TOKENS" "enrollment_tokens",
          (
            plain "NODE_NAME" "node_name",
            (
              plain "MAX_POWER_KW" "max_power_kw",
              (
                plain "NODE_TYPE" "node_type",
                (
                  λ c. token-Filled (field_value form "ha_token") c (value "ha_token"),
                  (
                    plain "HA_ENTITY_ID" "ha_entity_id",
                    (
                      plain "HA_DEMAND_WHEN_HEATING_KW" "ha_demand_kw",
                      (
                        plain "ZONE_NAME" "zone_name",
                        (
                          λ c.
                              place-Filled (field_value form "node_latitude")
                                (field_value form "node_longitude") c (value "node_latitude")
                                (value "node_longitude"),
                          (
                            λ c.
                                wallet-Filled "NICEHASH_WALLET" "NICEHASH_TREX_PATH"
                                  "/opt/trex/t-rex" (field_value form "nicehash_wallet") c refl
                                  (value "nicehash_wallet"),
                            (
                              λ c.
                                  wallet-Filled "XMR_WALLET_ADDRESS" "XMRIG_PATH" "/opt/xmrig/xmrig"
                                    (field_value form "xmr_wallet") c refl (value "xmr_wallet"),
                              (plain "VASTAI_API_KEY" "vastai_api_key", tt),
                            ),
                          ),
                        ),
                      ),
                    ),
                  ),
                ),
              ),
            ),
          ),
        ),
      )

  pub store-Fills : (v : Text) → IsMeant v → text_eq v [] ≡ false → Fills (store k (some v))
  unfolding store
  store-Fills v m n c = rw (store, n) (put-Fills v c m)

pub token-Fills :
    (v : Text) → IsMeant v → text_eq v [] ≡ false → Fills "HA_TOKEN" (store_token (some v))
unfolding store_token
token-Fills v m n c =
    rw (store_token, n)
      (put-Fills "HA_TOKEN" v (put (codes "BMS_SOURCE") (codes "homeassistant") c) m)
