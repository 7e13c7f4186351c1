-- ===== src/Agent/State.antt =====
-- `AgentState` (agent/state.py): the identity and what is kept with it in one JSON file, which is a
-- JSON value here.
pub mod Persistence
use hadcd_agent.Base.{
  String, Bool, true, false, not, ◌&&◌, ◌||◌, Option, none, some, List, [], ◌∷◌, ◌++◌, str_eq,
  is_some, if◌then◌else◌,
}
use hadcd_agent.Base.Int.{ℤ, pos}
use hadcd_agent.Base.Json.{
  Decimal, Value, null, bool, num, str, arr, obj, Items, nil, cons, Fields, end, field, get_or,
  lookup,
}

pub record State : Type 0 where
  pub node_id : Option String
  pub node_token : Option String
  pub saved_setpoint_c : Option Decimal
  pub cached_models : List String

unfoldable pub enrolled : State → Bool
enrolled s = is_some s.node_id && is_some s.node_token

-- How `load` ends: with the new state, with False, or by the exception of `data.get` on a value that
-- is no dictionary.
pub data Loaded : Type 0 where
  loaded : State → Loaded
  no_identity attribute_error : Loaded

unfoldable pub as_str : Value → Option String
as_str (str s) = some s
as_str null = none
as_str (bool b) = none
as_str (num d) = none
as_str (arr xs) = none
as_str (obj fs) = none

-- A boolean is an `int` to `isinstance`.
unfoldable pub as_float : Value → Option Decimal
as_float (num d) = some d
as_float (bool b) = some (record { mantissa = pos (if b then 1 else 0); scale = 0 })
as_float null = none
as_float (str s) = none
as_float (arr xs) = none
as_float (obj fs) = none

unfoldable pub strings : Items → List String
strings nil = []
strings (cons x xs) = elim (as_str x) [ none ↦ strings xs | some s ↦ s ∷ strings xs ]

unfoldable pub as_strings : Value → List String
unfolding strings
as_strings (arr xs) = strings xs
as_strings null = []
as_strings (bool b) = []
as_strings (num d) = []
as_strings (str s) = []
as_strings (obj fs) = []

identity : Option String → Option String → Fields → Loaded
identity (some i) (some t) fs = loaded (record {
  node_id = some i;
  node_token = some t;
  saved_setpoint_c = as_float (get_or "saved_setpoint_c" null fs);
  cached_models = as_strings (get_or "cached_models" null fs);
})
identity none t fs = no_identity
identity (some i) none fs = no_identity

-- The parsed file; none where it is missing, unreadable or no JSON.
unfoldable pub load : Option Value → Loaded
unfolding identity as_str
load none = no_identity
load (some (obj fs)) =
    identity (as_str (get_or "node_id" null fs)) (as_str (get_or "node_token" null fs)) fs
load (some null) = attribute_error
load (some (bool b)) = attribute_error
load (some (num d)) = attribute_error
load (some (str s)) = attribute_error
load (some (arr xs)) = attribute_error

unfoldable pub model_items : List String → Items
model_items [] = nil
model_items (m ∷ ms) = cons (str m) (model_items ms)

models_field : List String → Fields
unfolding model_items
models_field [] = end
models_field (m ∷ ms) = field "cached_models" (arr (model_items (m ∷ ms))) end

setpoint_field : Option Decimal → Fields → Fields
setpoint_field none fs = fs
setpoint_field (some d) fs = field "saved_setpoint_c" (num d) fs

payload : Option String → Option String → State → Option Value
unfolding models_field setpoint_field
payload (some i) (some t) s = some (
    obj (
      field "node_id" (str i) (
        field "node_token" (str t)
          (setpoint_field s.saved_setpoint_c (models_field s.cached_models)))))
payload none t s = none
payload (some i) none s = none

-- The file that `save` leaves; none is the exception of a state with no identity.
unfoldable pub save : State → Option Value
unfolding payload
save s = payload s.node_id s.node_token s

unfoldable pub contains : String → List String → Bool
contains m [] = false
contains m (k ∷ ks) = str_eq k m || contains m ks

-- The state after the call; `record_saves` says whether it writes the file.
unfoldable pub record_saves : String → State → Bool
unfolding contains
record_saves model s = not (str_eq model "") && not (contains model s.cached_models)

unfoldable pub record_cached_model : String → State → State
unfolding record_saves
record_cached_model model s =
    if record_saves model s then record s { cached_models = s.cached_models ++ (model ∷ []) } else s
