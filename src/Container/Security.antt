-- ===== src/Container/Security.antt =====
-- `_ensure_network` and `_build_security_kwargs`: the arguments of `docker run` that the security
-- profile of a task comes to.
pub mod Floor
use hadcd_agent.Base.{
  String, Bool, true, false, not, ◌&&◌, ◌||◌, Option, none, some, List, [], ◌∷◌, ◌++◌, str_eq,
  if◌then◌else◌,
}
use hadcd_agent.Base.Json.{Value, null, bool, num, str, arr, obj, truthy, items}
use text.Mathlib.Text.{starts_with}
use hadcd_agent.Container.{Result, returns, value_error, execution_error, api_error, bind}

-- The keys of the task's arguments that the profile uses; a missing one is null.
pub record Args : Type 0 where
  pub hardened : Value
  pub cap_drop : Value
  pub security_opts : Value
  pub security_opt : Value
  pub network_mode : Value

pub record Kwargs : Type 0 where
  pub privileged : Option Bool
  pub cap_drop : Option (List Value)
  pub security_opt : Option (List Value)
  pub network : Option String

pub data Lookup : Type 0 where
  found missing broken : Lookup

-- The Docker client by network name, and Python's `str` on a value that is not a string. `exists` is
-- the first `networks.get`, `creates` the creation, `appeared` the second `networks.get`.
pub record Host : Type 0 where
  pub exists : String → Lookup
  pub creates : String → Bool
  pub appeared : String → Bool
  pub repr : Value → String
  pub require_hardened : Bool

unfoldable pub is_builtin : String → Bool
is_builtin name = str_eq name "bridge" || str_eq name "host" || str_eq name "none"

create_network : Host → String → Result Unit
create_network h name = if h.creates name || h.appeared name then returns tt else execution_error

unfoldable pub ensure_network : Host → String → Result Unit
unfolding is_builtin create_network
ensure_network h name = if is_builtin name then returns tt else elim (h.exists name) [
  | found ↦ returns tt
  | missing ↦ create_network h name
  | broken ↦ api_error
]

-- A key that is left out, or holds a list.
unfoldable pub list_field : Value → Result (Option (List Value))
list_field (arr xs) = returns (if truthy (arr xs) then some (items xs) else none)
list_field null = returns none
list_field (bool b) = if b then value_error else returns none
list_field (num d) = if truthy (num d) then value_error else returns none
list_field (str s) = if truthy (str s) then value_error else returns none
list_field (obj fs) = if truthy (obj fs) then value_error else returns none

-- `a or b`
unfoldable pub either_key : Value → Value → Value
either_key a b = if truthy a then a else b

unfoldable pub named_network : Host → String → Result (Option String)
unfolding ensure_network
named_network h s =
    if str_eq s ""
    then returns none
    else if str_eq s "host"
    then value_error
    else bind (ensure_network h s) (λ u. returns (some s))

unfoldable pub network_field : Host → Value → Result (Option String)
unfolding named_network
network_field h (str s) = named_network h s
network_field h null = returns none
network_field h (bool b) = if b then value_error else returns none
network_field h (num d) = if truthy (num d) then value_error else returns none
network_field h (arr xs) = if truthy (arr xs) then value_error else returns none
network_field h (obj fs) = if truthy (obj fs) then value_error else returns none

abbrev pub hardened_default_network : String
hardened_default_network = "hadcd-client-bridge"

unfoldable pub text_of : Host → Value → String
text_of h (str s) = s
text_of h null = h.repr null
text_of h (bool b) = h.repr (bool b)
text_of h (num d) = h.repr (num d)
text_of h (arr xs) = h.repr (arr xs)
text_of h (obj fs) = h.repr (obj fs)

-- `any(str(o).startswith("no-new-privileges") for o in opts)`
unfoldable pub has_no_new_privileges : Host → List Value → Bool
has_no_new_privileges h [] = false
has_no_new_privileges h (o ∷ opts) =
    starts_with (text_of h o) "no-new-privileges" || has_no_new_privileges h opts

unfoldable pub floor_opts : Host → Option (List Value) → List Value
floor_opts h none = str "no-new-privileges:true" ∷ []
floor_opts h (some opts) =
    if has_no_new_privileges h opts then opts else opts ++ (str "no-new-privileges:true" ∷ [])

unfoldable pub floor_network : Host → Option String → Result (Option String)
unfolding ensure_network
floor_network h (some n) = returns (some n)
floor_network h none =
    bind (ensure_network h hardened_default_network) (λ u. returns (some hardened_default_network))

unfoldable pub is_hardened : Host → Args → Bool
is_hardened h args = truthy args.hardened || h.require_hardened

unfoldable pub harden : Host → Kwargs → Result Kwargs
unfolding floor_opts floor_network
harden h k = bind (floor_network h k.network) (λ n. returns (record {
  privileged = some false;
  cap_drop = some (str "ALL" ∷ []);
  security_opt = some (floor_opts h k.security_opt);
  network = n;
}))

unfoldable pub build_security_kwargs : Host → Args → Result Kwargs
unfolding list_field either_key network_field is_hardened harden
build_security_kwargs h args = bind (list_field args.cap_drop) (λ caps.
    bind (list_field (either_key args.security_opts args.security_opt)) (λ opts.
      bind (network_field h args.network_mode) (λ net.
        let k : Kwargs = record {
          privileged = none;
          cap_drop = caps;
          security_opt = opts;
          network = net;
        } in
        if is_hardened h args then harden h k else returns k)))
