-- ===== src/Setup/Wifi/Tests.antt =====
-- Runs of the wireless provisioner: a boot that joins a network, and a scan with a hidden name.
use hadcd_agent.Base.{◌≡◌, refl, true, false, none, some, [], ◌∷◌, ◌++◌}
use hadcd_agent.Base.Int.{pos}
use hadcd_agent.Base.Text.{Text, codes, strip, is_space, lower}
use hadcd_agent.Setup.EnvText.{splitlines, is_break}
use hadcd_agent.Setup.Wifi.{fails, prints, is_wifi_type, is_ethernet_type}
use hadcd_agent.Setup.Wifi.Scan.{scan_networks, three_parts, strength, number}
use hadcd_agent.Setup.Wifi.Boot.{Radio, Answers, provision}
use hadcd_agent.Setup.Wifi.Tidy.{IsTidy, provision-IsTidy}
use hadcd_agent.Setup.Wifi.Networks.{IsScanned, scan_networks-IsScanned}

abbrev listed : Text
listed =
    codes "a:b:40:WPA2"
    ++ (10 ∷ codes ":90:WPA2")
    ++ (10 ∷ codes "home:70:")
    ++ (10 ∷ codes "home:60:")

abbrev answers : Answers
answers = record {
  which = prints [];
  states = prints (codes "wifi:disconnected");
  profiles = prints [];
  devices = prints (codes "wlan0:wifi");
  rescan = fails;
  listed = prints listed;
  leftover = fails;
  created = prints [];
  is_up = false;
  can_bind = true;
  posts =
      record { path = codes "/connect"; length = some (pos 9); ssid = codes "-x"; pw = [] }
      ∷ record { path = codes "/connect"; length = some (pos 9); ssid = codes " home "; pw = [] }
      ∷ [];
  torn = prints [];
  joins = prints [];
  can_touch = true;
}

abbrev radio : Radio
radio = record { hotspot = false; joined = none; is_provisioned = false }

provision-IsTidy_example : IsTidy answers radio (provision answers radio)
provision-IsTidy_example = provision-IsTidy answers radio [] refl refl

joined_home :
    provision answers radio
    ≡ (some 0, record { hotspot = false; joined = some (codes "home"); is_provisioned = true })
unfolding provision splitlines is_break strip is_space lower is_wifi_type is_ethernet_type
joined_home = refl

scan_networks-IsScanned_example : IsScanned (prints listed) (scan_networks fails (prints listed))
scan_networks-IsScanned_example = scan_networks-IsScanned fails (prints listed)

scanned :
    scan_networks fails (prints listed)
    ≡ some (
        record { ssid = codes "home"; signal = codes "70"; security = codes "open" }
        ∷ record { ssid = codes "a:b"; signal = codes "40"; security = codes "WPA2" }
        ∷ [])
unfolding scan_networks splitlines is_break strip is_space three_parts strength number
scanned = refl
