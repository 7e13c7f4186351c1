-- ===== src/Agent/HeatSource/Warnings.antt =====
-- How often the adapters warn (`_warned` of agent/heat_source.py).
use hadcd_agent.Base.{
  ℕ, suc, ◌+◌, ◌≤◌, ◌≡◌, refl, ◌⊎◌, inl, inr, Bool, true, false, not, List, [], ◌∷◌, arith,
  Bool-cases, Option-cases, if◌then◌else◌,
}
use hadcd_agent.Base.Int.{ℤ}
use hadcd_agent.Base.Json.{Value, null, bool, num, str, arr, obj, Fields, get_or, truthy}
use hadcd_agent.Agent.HeatSource.{
  Floats, Answer, returns, named, unnamed, Read, parse_reading, http_read,
}
use hadcd_agent.Agent.HeatSource.HomeAssistant.{HomeAssistant, dict_or_empty, state_read, ha_read}
use hadcd_agent.Agent.HeatSource.Ecobee.{Ecobee, read_list, read_body}

module _ (T : Type 0) where
  -- Successive reads of an adapter.
  abbrev pub reads : (Answer Value → Bool → Read T) → List (Answer Value) → Bool → List (Read T)
  reads adapter [] warned = []
  reads adapter (a ∷ xs) warned = adapter a warned ∷ reads adapter xs (adapter a warned).warned

  abbrev pub warnings : List (Read T) → ℕ
  warnings [] = 0
  warnings (r ∷ rs) = (if r.is_logged then 1 else 0) + warnings rs

  -- The reads after which the flag is down.
  abbrev pub recoveries : List (Read T) → ℕ
  recoveries [] = 0
  recoveries (r ∷ rs) = (if r.warned then 0 else 1) + recoveries rs

  -- A read raises the flag, logging only if it was down; puts it down; or leaves it.
  abbrev IsGated : Bool → Read T → Type 0
  IsGated warned r =
      ((r.warned ≡ true) × (r.is_logged ≡ not warned))
      ⊎ (((r.warned ≡ false) × (r.is_logged ≡ false))
          ⊎ ((r.warned ≡ warned) × (r.is_logged ≡ false)))

  reads-bounded :
      (adapter : Answer Value → Bool → Read T)
      → ((a : Answer Value) (w : Bool) → IsGated w (adapter a w))
      → (xs : List (Answer Value)) (w : Bool)
      → warnings (reads adapter xs w) + (if w then 1 else 0) ≤ suc (recoveries (reads adapter xs w))
  reads-bounded adapter gated [] w = ground arith
  reads-bounded adapter gated (a ∷ xs) w =
      let rest = reads-bounded adapter gated xs (adapter a w).warned in
      let step = gated a w in ground (arith, rest, step)

  module _ (floats : Floats T) where
    http-IsGated :
        (window : ℤ) (a : Answer Value) (w : Bool) → IsGated w (http_read T floats window a w)
    unfolding http_read
    http-IsGated window named w = inl (refl, refl)
    http-IsGated window unnamed w = inr (inr (refl, refl))
    http-IsGated window (returns v) w = elim (Option-cases (parse_reading T floats v window)) [
      | inl bad ↦ rw (http_read, bad) (inl (refl, refl))
      | inr (r, ok) ↦ rw (http_read, ok) (inr (inl (refl, refl)))
    ]

    state-IsGated :
        (ha : HomeAssistant T) (fs : Fields) (w : Bool) → IsGated w (state_read T floats ha fs)
    unfolding state_read
    state-IsGated ha fs w = elim (Option-cases (dict_or_empty (get_or "attributes" null fs))) [
      | inl bad ↦ rw (state_read, bad) (inr (inl (refl, refl)))
      | inr (attrs, ok) ↦ rw (state_read, ok) (inr (inl (refl, refl)))
    ]

    ha-IsGated :
        (ha : HomeAssistant T) (a : Answer Value) (w : Bool) → IsGated w (ha_read T floats ha a w)
    unfolding ha_read
    ha-IsGated ha named w = inl (refl, refl)
    ha-IsGated ha unnamed w = inr (inr (refl, refl))
    ha-IsGated ha (returns null) w = inl (refl, refl)
    ha-IsGated ha (returns (bool b)) w = inl (refl, refl)
    ha-IsGated ha (returns (num d)) w = inl (refl, refl)
    ha-IsGated ha (returns (str s)) w = inl (refl, refl)
    ha-IsGated ha (returns (arr is)) w = inl (refl, refl)
    ha-IsGated ha (returns (obj fs)) w = state-IsGated ha fs w

    list-IsGated : (e : Ecobee T) (v : Value) (w : Bool) → IsGated w (read_list T floats e w v)
    unfolding read_list
    list-IsGated e v w = elim (Bool-cases (truthy v)) [
      | inl some_e ↦ rw (read_list, some_e) (inr (inl (refl, refl)))
      | inr empty ↦ rw (read_list, empty) (inl (refl, refl))
    ]

    ecobee-IsGated :
        (e : Ecobee T) (a : Answer Value) (w : Bool) → IsGated w (read_body T floats e a w)
    unfolding read_body
    ecobee-IsGated e named w = inl (refl, refl)
    ecobee-IsGated e unnamed w = inr (inr (refl, refl))
    ecobee-IsGated e (returns null) w = inr (inr (refl, refl))
    ecobee-IsGated e (returns (bool b)) w = inr (inr (refl, refl))
    ecobee-IsGated e (returns (num d)) w = inr (inr (refl, refl))
    ecobee-IsGated e (returns (str s)) w = inr (inr (refl, refl))
    ecobee-IsGated e (returns (arr is)) w = inr (inr (refl, refl))
    ecobee-IsGated e (returns (obj fs)) w = list-IsGated e (get_or "thermostatList" null fs) w

    -- Over any run of reads from a fresh adapter, those of the URL, of Home Assistant and of Ecobee's
    -- thermostat each log at most one warning more than there are reads that leave the flag down.
    warnings_bounded :
        (window : ℤ) (ha : HomeAssistant T) (e : Ecobee T) (xs : List (Answer Value))
        → (warnings (reads (http_read T floats window) xs false)
            ≤ suc (recoveries (reads (http_read T floats window) xs false)))
          × (warnings (reads (ha_read T floats ha) xs false)
              ≤ suc (recoveries (reads (ha_read T floats ha) xs false)))
          × (warnings (reads (λ a w. read_body T floats e a w) xs false)
              ≤ suc (recoveries (reads (λ a w. read_body T floats e a w) xs false)))
    warnings_bounded window ha e xs =
        let h = reads-bounded (http_read T floats window) (http-IsGated window) xs false in
        let a = reads-bounded (ha_read T floats ha) (ha-IsGated ha) xs false in
        let b = reads-bounded (λ x w. read_body T floats e x w) (ecobee-IsGated e) xs false in
        (omega (arith, h), omega (arith, a), omega (arith, b))
