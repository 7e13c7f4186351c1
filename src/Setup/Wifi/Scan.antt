-- ===== src/Setup/Wifi/Scan.antt =====
-- The scan for networks (`scan_networks` of agent/wifi_provision.py).
use hadcd_agent.Base.{
  ℕ, ◌+◌, ◌*◌, ◌-◌, Bool, true, false, not, ◌&&◌, ◌||◌, Option, none, some, List, [], ◌∷◌,
  if◌then◌else◌, leb, ◌==◌, any,
}
use hadcd_agent.Base.Text.{Text, text_eq, strip, codes}
use hadcd_agent.Setup.EnvText.{splitlines}
use hadcd_agent.Setup.Wifi.{Ran, hangs, fails, prints}

pub record Network : Type 0 where
  pub ssid : Text
  pub signal : Text
  pub security : Text

-- The text before the last colon and the one after it
unfoldable pub split_last : Text → Option (Text × Text)
split_last [] = none
split_last (c ∷ s) = elim (split_last s) [
  | some (a, b) ↦ some (c ∷ a, b)
  | none ↦ if c == 58 then some ([], s) else none
]

-- `line.rsplit(":", 2)`, if it has three parts
unfoldable pub three_parts : Text → Option (Text × Text × Text)
unfolding split_last
three_parts line = elim (split_last line) [
  | none ↦ none
  | some (front, security) ↦ elim (split_last front) [
    | none ↦ none
    | some (ssid, signal) ↦ some (ssid, signal, security)
  ]
]

-- `HOTSPOT_SSID`
abbrev pub hotspot_ssid : Text
hotspot_ssid = codes "HADCD-Setup"

abbrev pub security_of : Text → Text
security_of s = if text_eq (strip s) [] then codes "open" else strip s

unfoldable pub is_skipped : Text → List Text → Bool
is_skipped ssid seen = text_eq ssid [] || text_eq ssid hotspot_ssid || any (text_eq ssid) seen

-- The networks of the lines, `seen` the names so far
unfoldable pub collect : List Text → List Text → List Network
unfolding three_parts is_skipped
collect seen [] = []
collect seen (line ∷ lines) = elim (three_parts line) [
  | none ↦ collect seen lines
  | some (name, signal, security) ↦ elim (is_skipped (strip name) seen) [
    | true ↦ collect seen lines
    | false ↦
        record { ssid = strip name; signal = strip signal; security = security_of security }
        ∷ collect (strip name ∷ seen) lines
  ]
]

abbrev pub is_digit : ℕ → Bool
is_digit c = leb 48 c && leb c 57

unfoldable pub number : ℕ → Text → ℕ
number n [] = n
number n (c ∷ s) = number (10 * n + (c - 48)) s

-- `int(n["signal"]) if n["signal"].isdigit() else 0`, for the digits of ASCII
unfoldable pub strength : Network → ℕ
unfolding number
strength n = if any (λ c. not (is_digit c)) n.signal then 0 else number 0 n.signal

-- `networks.sort(key=…, reverse=True)`, which keeps the order of equal keys
unfoldable pub insert : Network → List Network → List Network
unfolding strength
insert n [] = n ∷ []
insert n (m ∷ ms) = if leb (strength m) (strength n) then n ∷ m ∷ ms else m ∷ insert n ms

unfoldable pub sort : List Network → List Network
unfolding insert
sort [] = []
sort (n ∷ ns) = insert n (sort ns)

-- The rescan and the list; none where a command hangs.
unfoldable pub scan_networks : Ran → Ran → Option (List Network)
unfolding collect sort
scan_networks hangs listed = none
scan_networks fails hangs = none
scan_networks fails fails = some []
scan_networks fails (prints out) = some (sort (collect [] (splitlines out)))
scan_networks (prints o) hangs = none
scan_networks (prints o) fails = some []
scan_networks (prints o) (prints out) = some (sort (collect [] (splitlines out)))
