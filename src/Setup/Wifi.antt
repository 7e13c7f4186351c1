-- ===== src/Setup/Wifi.antt =====
-- The provisioner of the wireless network (agent/wifi_provision.py): what it reads of `nmcli`, the
-- form's handler, and `provision`.
pub mod Scan
pub mod Boot
mod Sorting
mod Networks
mod Tidy
mod Tests
use hadcd_agent.Base.{
  ℕ, zero, suc, Bool, true, false, not, ◌&&◌, ◌||◌, Option, none, some, List, [], ◌∷◌, ◌++◌,
  if◌then◌else◌, ltb, ◌==◌, any, length,
}
use hadcd_agent.Base.Int.{ℤ, pos, negsuc}
use hadcd_agent.Base.Text.{Text, text_eq, strip, lower, codes}
use hadcd_agent.Setup.EnvText.{splitlines}

-- How one command ends: `TimeoutExpired`, another status than 0, or 0 with its output.
pub data Ran : Type 0 where
  hangs fails : Ran
  prints : Text → Ran

-- `s.split(":")`, with `word` the characters since the last colon
unfoldable pub split_colons : Text → Text → List Text
split_colons word [] = word ∷ []
split_colons word (c ∷ s) = elim (c == 58) [
  | true ↦ word ∷ split_colons [] s
  | false ↦ split_colons (word ++ (c ∷ [])) s
]

abbrev pub is_one_of : Text → Text → Text → Bool
is_one_of a b s = text_eq s a || text_eq s b

unfoldable pub is_wifi_type : Text → Bool
unfolding strip lower
is_wifi_type s = is_one_of (codes "wifi") (codes "802-11-wireless") (lower (strip s))

unfoldable pub is_ethernet_type : Text → Bool
unfolding strip lower
is_ethernet_type s = is_one_of (codes "ethernet") (codes "802-3-ethernet") (lower (strip s))

-- The device of a line `DEVICE:TYPE`, if it is wireless.
unfoldable pub wifi_device : List Text → Option Text
unfolding is_wifi_type
wifi_device [] = none
wifi_device (d ∷ []) = none
wifi_device (d ∷ t ∷ rest) = if is_wifi_type t then some (strip d) else none

unfoldable pub first_device : List Text → Option Text
unfolding wifi_device split_colons
first_device [] = none
first_device (line ∷ lines) =
    let rest = first_device lines in
    elim (wifi_device (split_colons [] line)) [ none ↦ rest | some d ↦ some d ]

-- `TYPE:STATE` of a wired interface that is connected
unfoldable pub is_connected_line : List Text → Bool
unfolding is_ethernet_type
is_connected_line [] = false
is_connected_line (t ∷ []) = false
is_connected_line (t ∷ s ∷ rest) =
    is_ethernet_type t && text_eq (lower (strip s)) (codes "connected")

-- `TYPE:NAME` of a wireless profile
unfoldable pub is_profile_line : List Text → Bool
unfolding is_wifi_type
is_profile_line [] = false
is_profile_line (t ∷ rest) = is_wifi_type t

-- What a function makes of a command's result; none where `TimeoutExpired` leaves it.
unfoldable pub read_ran : {A : Type 0} → A → (Text → A) → Ran → Option A
read_ran failed f hangs = none
read_ran failed f fails = some failed
read_ran failed f (prints out) = some (f out)

unfoldable pub find_wifi_interface : Ran → Option (Option Text)
unfolding read_ran first_device
find_wifi_interface = read_ran none (λ out. first_device (splitlines out))

unfoldable pub ethernet_connected : Ran → Option Bool
unfolding read_ran is_connected_line
ethernet_connected =
    read_ran false (λ out. any (λ l. is_connected_line (split_colons [] l)) (splitlines out))

unfoldable pub wifi_already_configured : Ran → Option Bool
unfolding read_ran is_profile_line
wifi_already_configured =
    read_ran false (λ out. any (λ l. is_profile_line (split_colons [] l)) (splitlines out))

-- One POST: the path, the `Content-Length`, none where `int` raises, and the fields of the form.
pub record Post : Type 0 where
  pub path : Text
  pub length : Option ℤ
  pub ssid : Text
  pub pw : Text

-- `_ProvisionResult`
pub record Target : Type 0 where
  pub ssid : Text
  pub password : Text

pub data Reply : Type 0 where
  not_found bad_request too_large no_ssid unsupported : Reply
  accepted : Target → Reply

unfoldable pub is_option : Text → Bool
is_option [] = false
is_option (c ∷ s) = c == 45

unfoldable pub check_fields : Text → Text → Reply
unfolding is_option
check_fields ssid password =
    if text_eq ssid []
    then no_ssid
    else (if is_option ssid || any (λ c. ltb c 32) (ssid ++ password)
        then unsupported
        else accepted (record { ssid = ssid; password = password }))

unfoldable pub check_length : Option ℤ → Text → Text → Reply
unfolding check_fields
check_length none ssid password = bad_request
check_length (some (negsuc n)) ssid password = too_large
check_length (some (pos n)) ssid password =
    if ltb 16384 n then too_large else check_fields ssid password

unfoldable pub do_post : Post → Reply
unfolding check_length
do_post p =
    if text_eq p.path (codes "/connect")
    then check_length p.length (strip p.ssid) p.pw
    else not_found

-- `result_holder[0]`, none at the timeout
unfoldable pub first_accepted : List Post → Option Target
unfolding do_post
first_accepted [] = none
first_accepted (p ∷ ps) =
    let rest = first_accepted ps in
    elim (do_post p) [
      | not_found ↦ rest
      | bad_request ↦ rest
      | too_large ↦ rest
      | no_ssid ↦ rest
      | unsupported ↦ rest
      | accepted t ↦ some t
    ]
