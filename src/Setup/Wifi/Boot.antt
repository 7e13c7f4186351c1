-- ===== src/Setup/Wifi/Boot.antt =====
-- `provision` of agent/wifi_provision.py: one run at boot, with the answers of every command.
use hadcd_agent.Base.{ℕ, Bool, true, false, Option, none, some, List, [], ◌∷◌, if◌then◌else◌}
use hadcd_agent.Base.Text.{Text}
use hadcd_agent.Setup.Wifi.{
  Ran, hangs, fails, prints, find_wifi_interface, ethernet_connected, wifi_already_configured, Post,
  Target, first_accepted,
}
use hadcd_agent.Setup.Wifi.Scan.{scan_networks}

-- Whether the hotspot's profile exists, the network that a command reported as joined, and the flag.
pub record Radio : Type 0 where
  pub hotspot : Bool
  pub joined : Option Text
  pub is_provisioned : Bool

-- `is_up` tells whether a hotspot whose command hangs comes up all the same.
pub record Answers : Type 0 where
  pub which : Ran
  pub states : Ran
  pub profiles : Ran
  pub devices : Ran
  pub rescan : Ran
  pub listed : Ran
  pub leftover : Ran
  pub created : Ran
  pub is_up : Bool
  pub can_bind : Bool
  pub posts : List Post
  pub torn : Ran
  pub joins : Ran
  pub can_touch : Bool

-- The exit status, none for an exception
abbrev pub Exit : Type 0
Exit = Option ℕ × Radio

-- `nmcli connection delete`; none where it hangs
unfoldable pub delete_hotspot : Ran → Radio → Option Radio
delete_hotspot hangs r = none
delete_hotspot fails r = some r
delete_hotspot (prints out) r = some (record r { hotspot = false })

unfoldable pub connect_to_wifi : Ran → Bool → Target → Radio → Exit
connect_to_wifi hangs can_touch t r = (none, r)
connect_to_wifi fails can_touch t r = (some 1, r)
connect_to_wifi (prints out) can_touch t r = (
  some 0,
  record r { joined = some t.ssid; is_provisioned = if can_touch then true else r.is_provisioned },
)

-- After the wait: a time-out, or a target.
unfoldable pub finish_wait : Answers → Option Target → Option Radio → Radio → Exit
unfolding connect_to_wifi
finish_wait a target none before = (none, before)
finish_wait a none (some r) before = (some 1, r)
finish_wait a (some t) (some r) before = connect_to_wifi a.joins a.can_touch t r

unfoldable pub serve : Answers → Radio → Exit
unfolding finish_wait delete_hotspot first_accepted
serve a r =
    if a.can_bind
    then finish_wait a (first_accepted a.posts) (delete_hotspot a.torn r) r
    else finish_wait a none (delete_hotspot a.torn r) r

unfoldable pub create_hotspot : Answers → Ran → Radio → Exit
unfolding serve
create_hotspot a hangs r = (none, if a.is_up then record r { hotspot = true } else r)
create_hotspot a fails r = (some 1, r)
create_hotspot a (prints out) r = serve a (record r { hotspot = true })

-- The leftover of an earlier run is deleted first.
unfoldable pub clear_leftover : Answers → Option Radio → Radio → Exit
unfolding create_hotspot
clear_leftover a none before = (none, before)
clear_leftover a (some r) before = create_hotspot a a.created r

unfoldable pub scan_first : Answers → Radio → Exit
unfolding scan_networks clear_leftover delete_hotspot
scan_first a r = elim (scan_networks a.rescan a.listed) [
  | none ↦ (none, r)
  | some networks ↦ clear_leftover a (delete_hotspot a.leftover r) r
]

unfoldable pub with_interface : Answers → Option (Option Text) → Radio → Exit
unfolding scan_first
with_interface a none r = (none, r)
with_interface a (some none) r = (some 0, r)
with_interface a (some (some [])) r = (some 0, r)
with_interface a (some (some (c ∷ iface))) r = scan_first a r

-- A check that lets the run go on: not `b`.
unfoldable pub unless : Option Bool → Radio → Exit → Exit
unless none r next = (none, r)
unless (some true) r next = (some 0, r)
unless (some false) r next = next

unfoldable pub after_nmcli : Answers → Ran → Radio → Exit
unfolding unless ethernet_connected wifi_already_configured with_interface find_wifi_interface
after_nmcli a hangs r = (none, r)
after_nmcli a fails r = (some 0, r)
after_nmcli a (prints out) r =
    if r.is_provisioned
    then (some 0, r)
    else unless (ethernet_connected a.states) r (
        unless (wifi_already_configured a.profiles) r
          (with_interface a (find_wifi_interface a.devices) r))

unfoldable pub provision : Answers → Radio → Exit
unfolding after_nmcli
provision a r = after_nmcli a a.which r
