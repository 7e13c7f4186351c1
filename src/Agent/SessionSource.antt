-- ===== src/Agent/SessionSource.antt =====
-- The detectors of an interactive session (agent/session_source.py): none, or Sunshine's connections,
-- whose last known state stands in for a poll that fails.
use hadcd_agent.Base.{
  ◌≡◌, refl, String, Bool, true, false, not, ◌||◌, Option, none, some, List, [], ◌∷◌, if◌then◌else◌,
}
use hadcd_agent.Base.Json.{Value, null, bool, num, str, arr, obj, nil, get_or, truthy}
use hadcd_agent.Base.Text.{Text, text_eq, codes, lower}
use hadcd_agent.Agent.HeatSource.{Answer, returns, named, unnamed}

pub record Sunshine : Type 0 where
  pub last_known : Bool
  pub warned : Bool

abbrev pub init : Sunshine
init = record { last_known = false; warned = false }

-- `a or b`
abbrev pub or_else : Value → Value → Value
or_else a b = if truthy a then a else b

-- A list, or an envelope under one of two keys.
unfoldable pub connections_of : Value → Value
unfolding truthy
connections_of null = null
connections_of (bool b) = bool b
connections_of (num d) = num d
connections_of (str s) = str s
connections_of (arr xs) = arr xs
connections_of (obj fs) =
    or_else (get_or "connections" null fs) (or_else (get_or "clients" null fs) (arr nil))

-- The source afterwards, whether a warning is logged, and the answer, or none for an exception.
unfoldable pub is_active : Answer Value → Sunshine → Sunshine × Bool × Option Bool
unfolding connections_of truthy
is_active named s = (record s { warned = true }, not s.warned, some s.last_known)
is_active unnamed s = (s, false, none)
is_active (returns v) s =
    let active = truthy (connections_of v) in
    (record { last_known = active; warned = false }, false, some active)

pub data Source : Type 0 where
  null_source : Source
  sunshine : String → String → String → Source

-- `(setting or default).lower()`
unfoldable pub kind_of : String → Option String → Text
unfolding lower
kind_of default none = codes default
kind_of default (some s) = if text_eq (codes s) [] then codes default else lower (codes s)

-- The source of the settings, or none for a SessionConfigError.
unfoldable pub build_session_source : Option String → String → String → String → Option Source
unfolding kind_of
build_session_source kind url username password =
    let k = kind_of "none" kind in
    if text_eq k (codes "none") || text_eq k [] || text_eq k (codes "null")
    then some null_source
    else (if text_eq k (codes "sunshine")
        then (if text_eq (codes password) [] then none else some (sunshine url username password))
        else none)

-- What a run of polls ends with.
unfoldable pub polls : List (Answer Value) → Sunshine → Sunshine
unfolding is_active
polls [] s = s
polls (a ∷ rest) s = polls rest (is_active a s).0

-- The state that the last poll with a response gave.
abbrev last_response : Bool → List (Answer Value) → Bool
last_response known [] = known
last_response known (named ∷ rest) = last_response known rest
last_response known (unnamed ∷ rest) = last_response known rest
last_response known (returns v ∷ rest) = last_response (truthy (connections_of v)) rest

-- After any polls a poll that fails answers what the last response showed, and no session if there
-- has been none.
failed_poll-holds :
    (rest : List (Answer Value)) (s : Sunshine)
    → (is_active named (polls rest s)).2 ≡ some (last_response s.last_known rest)
unfolding polls is_active
failed_poll-holds [] s = refl
failed_poll-holds (named ∷ rest) s = failed_poll-holds rest (record s { warned = true })
failed_poll-holds (unnamed ∷ rest) s = failed_poll-holds rest s
failed_poll-holds (returns v ∷ rest) s =
    failed_poll-holds rest (record { last_known = truthy (connections_of v); warned = false })
