-- ===== src/Setup/Provisioner/Complete.antt =====
-- A form with the fields that the wizard requires configures the node (agent/provisioner.py).
use hadcd_agent.Base.{
  ◌≡◌, refl, inl, inr, String, Bool, true, false, Option, none, some, List, [], ◌∷◌, All,
  Option-cases, if◌then◌else◌,
}
use mathlib.Core.Bool.{false≢true}
use hadcd_agent.Base.Int.{ℤ}
use hadcd_agent.Base.Text.{Text, text_eq, strip, codes}
use hadcd_agent.Agent.EnvFile.{Config, find}
use hadcd_agent.Setup.EnvText.{read_env, env_text}
use hadcd_agent.Setup.EnvText.Updates.{overlay, env_text-updates}
use hadcd_agent.Setup.Provisioner.{
  Form, text_of, is_filled, bms_source, is_configured, field_value, store, store_token, steps,
  collect_updates,
}
use hadcd_agent.Setup.Provisioner.Form.{IsPlainForm, IsLineValue, field-Holds}
use hadcd_agent.Setup.Provisioner.Updates.{collect-AreEntries}
use hadcd_agent.Setup.Provisioner.Filled.{
  meant, Fills, KeepsFilled, Reaches, steps-Filled, run-Fills, store-Fills, token-Fills,
}
use hadcd_agent.Setup.Provisioner.Server.{
  Node, written, Post, success, opens, is_oversized, check_code, source_of, finish_save, save,
  pass_gate, route, admit, do_post, Round, provision,
}

-- The form has the field, with a value that is neither blank nor refused.
abbrev pub IsEntered : Form → String → Type 0
IsEntered form f = (v : Text) × (field_value form f ≡ some v) × (text_eq v [] ≡ false)

-- The fields that the page marks as required.
abbrev pub IsComplete : Form → Type 0
IsComplete form =
    IsEntered form "hadcd_api"
    × IsEntered form "enrollment_tokens"
    × IsEntered form "node_name"
    × IsEntered form "ha_token"
    × IsEntered form "ha_entity_id"

module _ (form : Form) (plain : IsPlainForm form) where
  entered-Fills : (f key : String) → IsEntered form f → Fills key (store key (field_value form f))
  entered-Fills f key (v, e, n) =
      let held : IsLineValue v = rw e at (field-Holds form f plain) in
      rw e (store-Fills key v (meant v held.0 n) n)

  entered-token :
      IsEntered form "ha_token" → Fills "HA_TOKEN" (store_token (field_value form "ha_token"))
  entered-token (v, e, n) =
      let held : IsLineValue v = rw e at (field-Holds form "ha_token" plain) in
      rw e (token-Fills v (meant v held.0 n) n)

  collect-Fills :
      (updates : Config) (k : String)
      → collect_updates form ≡ some updates
      → Reaches k (steps form)
      → is_filled k updates ≡ true
  unfolding collect_updates
  collect-Fills updates k e r = rw e at (run-Fills k (steps form) [] r)

  -- What the updates fill is filled in the new file.
  file-Filled :
      (updates : Config) (source : Option Text) (k : String)
      → collect_updates form ≡ some updates
      → is_filled k updates ≡ true
      → is_filled k (read_env (some (env_text updates source))) ≡ true
  unfolding is_filled strip
  file-Filled updates source k e h = elim (Option-cases (find (codes k) updates)) [
    | inl missing ↦ absurd (false≢true (rw (missing, text_of) at h))
    | inr (v, there) ↦
        rw
          (
            env_text-updates updates source (codes k) (collect-AreEntries form updates plain e),
            there,
            overlay,
            text_of,
          )
          (rw (there, text_of) at h)
  ]

  steps_fill :
      (updates : Config)
      → collect_updates form ≡ some updates
      → IsComplete form
      → All
          (λ k. is_filled k updates ≡ true)
          ("HADCD_API" ∷ "ENROLLMENT_TOKENS" ∷ "NODE_NAME" ∷ "HA_TOKEN" ∷ "HA_ENTITY_ID" ∷ [])
  unfolding steps
  steps_fill updates e (api, enrolls, name, token, entity) =
      let keep : (k : String) → All (KeepsFilled k) (steps form) = λ k. steps-Filled k form plain in
      (
        collect-Fills updates "HADCD_API" e
            (inl (entered-Fills "hadcd_api" "HADCD_API" api, (keep "HADCD_API").1)),
        (
          collect-Fills updates "ENROLLMENT_TOKENS" e (
              inr (
                inl (
                  entered-Fills "enrollment_tokens" "ENROLLMENT_TOKENS" enrolls,
                  (keep "ENROLLMENT_TOKENS").1.1,
                ))),
          (
            collect-Fills updates "NODE_NAME" e (
                inr (
                  inr
                    (inl (entered-Fills "node_name" "NODE_NAME" name, (keep "NODE_NAME").1.1.1)))),
            (
              collect-Fills updates "HA_TOKEN" e (
                  inr (
                    inr (
                      inr (inr (inr (inl (entered-token token, (keep "HA_TOKEN").1.1.1.1.1.1))))))),
              (
                collect-Fills updates "HA_ENTITY_ID" e (
                    inr (
                      inr (
                        inr (
                          inr (
                            inr (
                              inr (
                                inl (
                                  entered-Fills "ha_entity_id" "HA_ENTITY_ID" entity,
                                  (keep "HA_ENTITY_ID").1.1.1.1.1.1.1,
                                )))))))),
                tt,
              ),
            ),
          ),
        ),
      )

  file-Fills :
      (updates : Config) (source : Option Text)
      → collect_updates form ≡ some updates
      → All
          (λ k. is_filled k updates ≡ true)
          ("HADCD_API" ∷ "ENROLLMENT_TOKENS" ∷ "NODE_NAME" ∷ "HA_TOKEN" ∷ "HA_ENTITY_ID" ∷ [])
      → All
          (λ k. is_filled k (read_env (some (env_text updates source))) ≡ true)
          ("HADCD_API" ∷ "ENROLLMENT_TOKENS" ∷ "NODE_NAME" ∷ "HA_TOKEN" ∷ "HA_ENTITY_ID" ∷ [])
  file-Fills updates source e (a, (b, (c, (d, (g, u))))) =
      let fills : (k : String)
          → is_filled k updates ≡ true
          → is_filled k (read_env (some (env_text updates source))) ≡ true =
        λ k h. file-Filled updates source k e h in
      (
        fills "HADCD_API" a,
        (
          fills "ENROLLMENT_TOKENS" b,
          (fills "NODE_NAME" c, (fills "HA_TOKEN" d, (fills "HA_ENTITY_ID" g, tt))),
        ),
      )

either : (b : Bool) → (if b then true else true) ≡ true
either true = refl
either false = refl

filled-IsConfigured :
    (text : Text)
    → All
        (λ k. is_filled k (read_env (some text)) ≡ true)
        ("HADCD_API" ∷ "ENROLLMENT_TOKENS" ∷ "NODE_NAME" ∷ "HA_TOKEN" ∷ "HA_ENTITY_ID" ∷ [])
    → is_configured (some text) ≡ true
unfolding is_configured
filled-IsConfigured text (a, (b, (c, (d, (e, u))))) =
    rw (is_configured, a, b, c, d, e)
      (either (
        text_eq (bms_source (find (codes "BMS_SOURCE") (read_env (some text))))
          (codes "homeassistant")))

-- The length of a body that is read.
abbrev pub IsRead : Option ℤ → Type 0
IsRead none = ⊥
IsRead (some n) = is_oversized n ≡ false

-- A POST to `/save` of a size that is read, which passes the gate, whose form is accepted, and
-- whose write, restart and reply succeed.
abbrev pub IsAccepted : Option Text → Post → Config → Type 0
IsAccepted code post updates =
    IsRead post.length
    × (text_eq post.path (codes "/save") ≡ true)
    × (check_code code post.form ≡ opens)
    × (collect_updates post.form ≡ some updates)
    × (post.write ≡ written)

module _ (code template : Option Text) where
  admit-written :
      (length : Option ℤ) (post : Post) (node : Node) (updates : Config)
      → IsRead length
      → IsAccepted code post updates
      → admit length code template post node ≡ finish_save template written updates node
  unfolding admit route pass_gate save
  admit-written none post node updates l a = elim l [ ]
  admit-written (some n) post node updates l (size, path, gate, e, w) =
      rw (admit, l, route, path, gate, pass_gate, save, e, w) refl

  -- A POST to `/save` of a size that is read, which passes the gate, whose form is accepted and has the
  -- dispatcher, the enrollment token, the name, the token of Home Assistant and the thermostat, whose
  -- values have no line break beyond ASCII, whose write and restart succeed and whose reply can be
  -- sent: it is answered with success, ends the server's loop, and leaves a file that counts as
  -- configured, so that the wizard does not open its port again.
  pub saved_configures :
      (post : Post) (node : Node) (updates : Config) (rounds : List Round)
      → IsPlainForm post.form
      → IsComplete post.form
      → IsAccepted code post updates
      → ((do_post code template post node).0 ≡ success)
        × ((do_post code template post node).1.is_done ≡ true)
        × (provision code template rounds (do_post code template post node).1
            ≡ ((do_post code template post node).1, false))
  unfolding do_post provision
  saved_configures post node updates rounds plain complete accepted =
      let end : do_post code template post node ≡ finish_save template written updates node =
        admit-written post.length post node updates accepted.0 accepted in
      let text = env_text updates (source_of template node.env) in
      let configured : is_configured (some text) ≡ true = filled-IsConfigured text (
        file-Fills post.form plain updates (source_of template node.env) accepted.3
          (steps_fill post.form plain updates accepted.3 complete)) in
      rw end (refl, refl, rw (finish_save, configured) refl)
