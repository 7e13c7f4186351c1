-- ===== src/Setup/EcobeePin.antt =====
-- The one-time set-up of Ecobee (agent/ecobee_setup.py): the poll for a token, the choice of a
-- thermostat, and `main`. Times are whole seconds.
mod Polling
mod Choice
mod Tests
use hadcd_agent.Base.{
  ℕ, zero, suc, ◌+◌, ◌-◌, String, Bool, true, false, not, ◌&&◌, ◌||◌, Option, none, some, List, [],
  ◌∷◌, if◌then◌else◌, ltb, leb, ◌==◌, length, str_eq,
}
use hadcd_agent.Base.Int.{ℤ, pos, negsuc}
use hadcd_agent.Base.Json.{
  Value, null, bool, num, str, arr, obj, Fields, Items, nil, cons, get_or, truthy, items,
}
use hadcd_agent.Agent.HeatSource.{Answer, returns, named, unnamed}

-- The answer to one request for a token: no response, which is an `httpx.HTTPError`, or a status
-- with the JSON body, none where the body is none.
pub data Reply : Type 0 where
  fails : Reply
  responds : ℕ → Option Value → Reply

-- How the poll ends: a body, an `httpx.HTTPError`, a `TimeoutError`, another exception. It does not
-- end where the fuel runs out.
pub data Outcome : Type 0 where
  granted : Option Value → Outcome
  http_error timed_out crashed unfinished : Outcome

-- What one reply makes the loop do: end, sleep and go on, or go on at once.
pub data Next : Type 0 where
  ends : Outcome → Next
  sleeps again : Next

-- `resp.raise_for_status()`, which returns on a status of success
unfoldable pub raise_for_status : ℕ → Next
raise_for_status status = if leb 200 status && ltb status 300 then again else ends http_error

-- `err == "authorization_pending"`
unfoldable pub is_pending : Value → Bool
is_pending null = false
is_pending (bool b) = false
is_pending (num d) = false
is_pending (str s) = str_eq s "authorization_pending"
is_pending (arr xs) = false
is_pending (obj fs) = false

-- The body of a response with status 400; a `ValueError` leaves no error, and what is no
-- dictionary has no `get`.
unfoldable pub read_error : Option Value → Next
unfolding is_pending raise_for_status
read_error none = raise_for_status 400
read_error (some null) = ends crashed
read_error (some (bool b)) = ends crashed
read_error (some (num d)) = ends crashed
read_error (some (str s)) = ends crashed
read_error (some (arr xs)) = ends crashed
read_error (some (obj fs)) =
    if is_pending (get_or "error" null fs) then sleeps else raise_for_status 400

unfoldable pub react : Reply → Next
unfolding read_error raise_for_status
react fails = ends http_error
react (responds status body) =
    if status == 200
    then ends (granted body)
    else (if status == 400 then read_error body else raise_for_status status)

-- The n-th request: its reply, and how long it takes.
abbrev pub Service : Type 0
Service = ℕ → Reply × ℕ

-- `time.sleep(5)`
abbrev pub pause : ℕ
pause = 5

-- The outcome, and the number of requests after `n` of them.
unfoldable pub resume : Next → Outcome × ℕ → Outcome × ℕ → ℕ → Outcome × ℕ
resume (ends outcome) slept at_once n = (outcome, suc n)
resume sleeps slept at_once n = slept
resume again slept at_once n = at_once

unfoldable pub poll : Service → ℕ → ℕ → ℕ → ℕ → Outcome × ℕ
unfolding resume react
poll service deadline zero n now = (unfinished, n)
poll service deadline (suc fuel) n now =
    let (reply, took) = service n in
    let slept = poll service deadline fuel (suc n) (now + took + pause) in
    let at_once = poll service deadline fuel (suc n) (now + took) in
    if ltb now deadline then resume (react reply) slept at_once n else (timed_out, n)

-- `thermostats[int(pick) - 1]`: `i` items from the front, or from the end where the index is
-- negative; none is an `IndexError`.
unfoldable pub item_at : ℕ → List Value → Option Value
item_at i [] = none
item_at zero (x ∷ xs) = some x
item_at (suc i) (x ∷ xs) = item_at i xs

-- `negsuc k` is the pick -(k + 1), of index -(k + 2).
unfoldable pub picked : ℤ → List Value → Option Value
unfolding item_at
picked (pos zero) xs = if leb 1 (length xs) then item_at (length xs - 1) xs else none
picked (pos (suc i)) xs = item_at i xs
picked (negsuc k) xs = if leb (k + 2) (length xs) then item_at (length xs - (k + 2)) xs else none

-- The prompts, each with its number, none where `int` raises. None is left: `input` raises.
unfoldable pub pick_loop : List (Option ℤ) → List Value → Option Value
unfolding picked
pick_loop [] xs = none
pick_loop (none ∷ ps) xs = pick_loop ps xs
pick_loop (some p ∷ ps) xs =
    let rest = pick_loop ps xs in elim (picked p xs) [ none ↦ rest | some t ↦ some t ]

-- `d.get(key)`, none where `d` is no dictionary
unfoldable pub get_field : String → Value → Option Value
get_field k null = none
get_field k (bool b) = none
get_field k (num d) = none
get_field k (str s) = none
get_field k (arr xs) = none
get_field k (obj fs) = some (get_or k null fs)

-- What the operator and the service answer in one run, each prompt stripped.
pub record Answers : Type 0 where
  pub api_key : String
  pub pin : Answer Value
  pub token : Outcome
  pub thermostats : Answer Value
  pub picks : List (Option ℤ)
  pub is_written : Bool

-- The tokens that the state file holds: the refresh token and the thermostat.
abbrev pub File : Type 0
File = Option (Value × Value)

-- The exit status, none where an exception leaves `main`, and the file.
abbrev pub Exit : Type 0
Exit = Option ℕ × File

unfoldable pub write_state_file : Bool → Value → Value → File → Exit
write_state_file is_written token id file =
    if is_written then (some 0, some (token, id)) else (none, file)

unfoldable pub finish_choice : Bool → Value → Option Value → File → Exit
unfolding write_state_file truthy
finish_choice is_written token none file = (none, file)
finish_choice is_written token (some id) file =
    if truthy id then write_state_file is_written token id file else (some 2, file)

-- Every item is a dictionary, as the listing of the names requires.
unfoldable pub are_objects : List Value → Bool
unfolding get_field
are_objects [] = true
are_objects (x ∷ xs) = elim (get_field "name" x) [ none ↦ false | some n ↦ are_objects xs ]

unfoldable pub choose : List (Option ℤ) → List Value → Option Value
unfolding pick_loop
choose picks [] = none
choose picks (t ∷ []) = some t
choose picks (t ∷ u ∷ ts) = pick_loop picks (t ∷ u ∷ ts)

unfoldable pub select : Answers → Value → List Value → File → Exit
unfolding are_objects choose get_field finish_choice
select a token thermostats file =
    if are_objects thermostats
    then elim (choose a.picks thermostats) [
      | none ↦ (none, file)
      | some t ↦ finish_choice a.is_written token (get_field "identifier" t) file
    ]
    else (none, file)

-- `resp.json().get("thermostatList", []) or []`; what is truthy and no list has items without `get`.
unfoldable pub from_list : Answers → Value → Value → File → Exit
unfolding truthy select
from_list a token (arr xs) file =
    if truthy (arr xs) then select a token (items xs) file else (some 2, file)
from_list a token null file = (some 2, file)
from_list a token (bool b) file = (if b then none else some 2, file)
from_list a token (num d) file = (if truthy (num d) then none else some 2, file)
from_list a token (str s) file = (if truthy (str s) then none else some 2, file)
from_list a token (obj fs) file = (if truthy (obj fs) then none else some 2, file)

unfoldable pub from_thermostats : Answers → Value → Answer Value → File → Exit
unfolding get_field from_list
from_thermostats a token named file = (some 2, file)
from_thermostats a token unnamed file = (none, file)
from_thermostats a token (returns v) file = elim (get_field "thermostatList" v) [
  | none ↦ (none, file)
  | some list ↦ from_list a token list file
]

-- The tokens of the response, both of which must be there.
unfoldable pub from_tokens : Answers → Option Value → Option Value → File → Exit
unfolding truthy from_thermostats
from_tokens a none refresh file = (none, file)
from_tokens a (some access) none file = (none, file)
from_tokens a (some access) (some refresh) file =
    if truthy access && truthy refresh
    then from_thermostats a refresh a.thermostats file
    else (some 2, file)

unfoldable pub from_poll : Answers → Outcome → File → Exit
unfolding get_field from_tokens
from_poll a http_error file = (some 2, file)
from_poll a timed_out file = (some 2, file)
from_poll a crashed file = (none, file)
from_poll a unfinished file = (none, file)
from_poll a (granted none) file = (none, file)
from_poll a (granted (some body)) file =
    from_tokens a (get_field "access_token" body) (get_field "refresh_token" body) file

-- The PIN and the code of the response, both of which must be there.
unfoldable pub from_pin : Answers → Option Value → Option Value → File → Exit
unfolding truthy from_poll
from_pin a none code file = (none, file)
from_pin a (some pin) none file = (none, file)
from_pin a (some pin) (some code) file =
    if truthy pin && truthy code then from_poll a a.token file else (some 2, file)

unfoldable pub from_answer : Answers → Answer Value → File → Exit
unfolding get_field from_pin
from_answer a named file = (some 2, file)
from_answer a unnamed file = (none, file)
from_answer a (returns v) file = from_pin a (get_field "ecobeePin" v) (get_field "code" v) file

unfoldable pub main : Answers → File → Exit
unfolding from_answer
main a file = if str_eq a.api_key "" then (some 2, file) else from_answer a a.pin file
