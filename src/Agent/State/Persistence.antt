-- ===== src/Agent/State/Persistence.antt =====
-- What survives a restart of the agent.
use hadcd_agent.Base.{
  String, ◌≡◌, refl, ap, true, false, Option, none, some, List, [], ◌∷◌, ◌++◌, arith, str_eq,
  str_eq_refl,
}
use mathlib.Core.Bool.{false≢true}
use hadcd_agent.Base.Json.{Decimal}
use hadcd_agent.Agent.State.{
  State, enrolled, loaded, as_str, as_float, strings, as_strings, identity, load, model_items,
  models_field, setpoint_field, payload, save, contains, record_saves, record_cached_model,
}

strings-model_items : (ms : List String) → strings (model_items ms) ≡ ms
unfolding strings model_items as_str
strings-model_items [] = refl
strings-model_items (m ∷ ms) = ap (λ l. m ∷ l) (strings-model_items ms)

load-fields :
    (i t : Option String) (d : Option Decimal) (ms : List String)
    → (let s : State = record {
      node_id = i;
      node_token = t;
      saved_setpoint_c = d;
      cached_models = ms;
    } in
        enrolled s ≡ true → load (save s) ≡ loaded s)
unfolding load save enrolled payload models_field setpoint_field identity as_str as_float as_strings
load-fields none t d ms e = elim (false≢true e) [ ]
load-fields (some i) none d ms e = elim (false≢true e) [ ]
load-fields (some i) (some t) none [] e = refl
load-fields (some i) (some t) (some d) [] e = refl
load-fields (some i) (some t) none (m ∷ ms) e =
    ap
      (λ l. loaded (record {
        node_id = some i;
        node_token = some t;
        saved_setpoint_c = none;
        cached_models = l;
      }))
      (strings-model_items (m ∷ ms))
load-fields (some i) (some t) (some d) (m ∷ ms) e =
    ap
      (λ l. loaded (record {
        node_id = some i;
        node_token = some t;
        saved_setpoint_c = some d;
        cached_models = l;
      }))
      (strings-model_items (m ∷ ms))

-- A state with an identity is read back as it was saved: the identity, the setpoint from before a
-- vacancy, and the cached models in their order.
pub load-save : (s : State) → enrolled s ≡ true → load (save s) ≡ loaded s
load-save s e = load-fields s.node_id s.node_token s.saved_setpoint_c s.cached_models e

contains-append : (m : String) (ks : List String) → contains m (ks ++ (m ∷ [])) ≡ true
unfolding contains
contains-append m [] = rw (str_eq_refl m) refl
contains-append m (k ∷ ks) = grind (arith, contains-append m ks)

-- A model that was recorded, if its name is not empty, is listed, and recording it again neither
-- changes the list nor writes the file.
record-idempotent :
    (m : String) (s : State)
    → str_eq m "" ≡ false
    → (contains m (record_cached_model m s).cached_models ≡ true)
      × (record_saves m (record_cached_model m s) ≡ false)
      × (record_cached_model m (record_cached_model m s) ≡ record_cached_model m s)
unfolding record_cached_model record_saves
record-idempotent m s named = ground (arith, contains-append m s.cached_models)
