-- ===== src/Setup/Wifi/Tidy.antt =====
-- What a run at boot leaves behind (`provision` of agent/wifi_provision.py).
use hadcd_agent.Base.{
  ◌≡◌, refl, sym, ◌⊎◌, inl, inr, Bool, true, false, ◌||◌, Option, none, some, List, [], ◌∷◌, ◌++◌,
  arith, Bool-cases, Option-cases, any, ltb,
}
use mathlib.Core.Path.{subst}
use mathlib.Core.Option.{some-ne-none}
use hadcd_agent.Base.Int.{ℤ, pos, negsuc}
use hadcd_agent.Base.Text.{Text, text_eq, strip, codes}
use hadcd_agent.Setup.Wifi.{
  Ran, hangs, fails, prints, find_wifi_interface, ethernet_connected, wifi_already_configured, Post,
  Target, Reply, not_found, bad_request, too_large, no_ssid, unsupported, accepted, is_option,
  check_fields, check_length, do_post, first_accepted,
}
use hadcd_agent.Setup.Wifi.Scan.{scan_networks}
use hadcd_agent.Setup.Wifi.Boot.{
  Radio, Answers, Exit, delete_hotspot, connect_to_wifi, finish_wait, serve, create_hotspot,
  clear_leftover, scan_first, with_interface, unless, after_nmcli, provision,
}

-- A name that `nmcli` takes for no option, and no control character in it or in the password.
abbrev pub IsSafe : Target → Type 0
IsSafe t =
    (text_eq t.ssid [] ≡ false)
    × (is_option t.ssid ≡ false)
    × (any (λ c. ltb c 32) (t.ssid ++ t.password) ≡ false)

abbrev IsSafeReply : Reply → Type 0
IsSafeReply not_found = Unit
IsSafeReply bad_request = Unit
IsSafeReply too_large = Unit
IsSafeReply no_ssid = Unit
IsSafeReply unsupported = Unit
IsSafeReply (accepted t) = IsSafe t

fields-IsSafeReply : (ssid password : Text) → IsSafeReply (check_fields ssid password)
unfolding check_fields
fields-IsSafeReply ssid password = elim (Bool-cases (text_eq ssid [])) [
  | inl blank ↦ rw (check_fields, blank) tt
  | inr named ↦ elim (Bool-cases (is_option ssid || any (λ c. ltb c 32) (ssid ++ password))) [
    | inl bad ↦ rw (check_fields, named, bad) tt
    | inr fine ↦
        let own : is_option ssid ≡ false = ground arith in
        let plain : any (λ c. ltb c 32) (ssid ++ password) ≡ false = ground arith in
        rw (check_fields, named, fine) (named, own, plain)
  ]
]

length-IsSafeReply :
    (n : Option ℤ) (ssid password : Text) → IsSafeReply (check_length n ssid password)
unfolding check_length
length-IsSafeReply none ssid password = tt
length-IsSafeReply (some (negsuc n)) ssid password = tt
length-IsSafeReply (some (pos n)) ssid password = elim (Bool-cases (ltb 16384 n)) [
  | inl large ↦ rw (check_length, large) tt
  | inr small ↦ rw (check_length, small) (fields-IsSafeReply ssid password)
]

post-IsSafeReply : (p : Post) → IsSafeReply (do_post p)
unfolding do_post
post-IsSafeReply p = elim (Bool-cases (text_eq p.path (codes "/connect"))) [
  | inl here ↦ rw (do_post, here) (length-IsSafeReply p.length (strip p.ssid) p.pw)
  | inr other ↦ rw (do_post, other) tt
]

-- What the form's handler accepts is safe.
abbrev AreSafe : Option Target → Type 0
AreSafe none = Unit
AreSafe (some t) = IsSafe t

chosen-AreSafe :
    (r : Reply) (rest : Option Target)
    → IsSafeReply r
    → AreSafe rest
    → AreSafe (elim r [
      | not_found ↦ rest
      | bad_request ↦ rest
      | too_large ↦ rest
      | no_ssid ↦ rest
      | unsupported ↦ rest
      | accepted t ↦ some t
    ])
chosen-AreSafe not_found rest s h = h
chosen-AreSafe bad_request rest s h = h
chosen-AreSafe too_large rest s h = h
chosen-AreSafe no_ssid rest s h = h
chosen-AreSafe unsupported rest s h = h
chosen-AreSafe (accepted t) rest s h = s

first-AreSafe : (ps : List Post) → AreSafe (first_accepted ps)
unfolding first_accepted
first-AreSafe [] = tt
first-AreSafe (p ∷ ps) =
    chosen-AreSafe (do_post p) (first_accepted ps) (post-IsSafeReply p) (first-AreSafe ps)

-- No hotspot is left, unless the command that creates it hung and the run ended by that exception;
-- and nothing else has changed, or the run ended with status 0, the network is joined that the first
-- accepted form names, and it is safe.
abbrev pub IsTidy : Answers → Radio → Exit → Type 0
IsTidy a before (exit, now) =
    ((now.hotspot ≡ false) ⊎ ((a.created ≡ hangs) × (exit ≡ none)))
    × (((now.joined ≡ before.joined) × (now.is_provisioned ≡ before.is_provisioned))
        ⊎ ((exit ≡ some 0)
            × ((t : Target) × (first_accepted a.posts ≡ some t)
                × IsSafe t
                × (now.joined ≡ some t.ssid))))

module _ (a : Answers) (before : Radio) where
  -- The same radio, with or without the hotspot
  abbrev IsSame : Radio → Type 0
  IsSame r = (r.joined ≡ before.joined) × (r.is_provisioned ≡ before.is_provisioned)

  connect-IsTidy :
      (ran : Ran) (t : Target) (r : Radio)
      → r.hotspot ≡ false
      → IsSame r
      → first_accepted a.posts ≡ some t
      → IsSafe t
      → IsTidy a before (connect_to_wifi ran a.can_touch t r)
  unfolding connect_to_wifi
  connect-IsTidy hangs t r off same f s = (inl off, inl same)
  connect-IsTidy fails t r off same f s = (inl off, inl same)
  connect-IsTidy (prints out) t r off same f s = (inl off, inr (refl, (t, f, s, refl)))

  wait-IsTidy :
      (target : Option Target) (r begun : Radio)
      → r.hotspot ≡ false
      → IsSame r
      → (target ≡ none) ⊎ ((first_accepted a.posts ≡ target) × AreSafe target)
      → IsTidy a before (finish_wait a target (some r) begun)
  unfolding finish_wait
  wait-IsTidy none r begun off same f = (inl off, inl same)
  wait-IsTidy (some t) r begun off same f = elim f [
    | inl no_target ↦ absurd (some-ne-none t no_target)
    | inr (f, s) ↦ connect-IsTidy a.joins t r off same f s
  ]

  module _ (out : Text) (torn : a.torn ≡ prints out) where
    serve-IsTidy : (r : Radio) → IsSame r → IsTidy a before (serve a r)
    unfolding serve delete_hotspot
    serve-IsTidy r same =
        let off : Radio = record r { hotspot = false } in
        let down : delete_hotspot a.torn r ≡ some off = rw (delete_hotspot, torn) refl in
        elim (Bool-cases a.can_bind) [
          | inl bound ↦
              rw (serve, bound, down)
                (wait-IsTidy (first_accepted a.posts) off r refl same
                  (inr (refl, first-AreSafe a.posts)))
          | inr taken ↦ rw (serve, taken, down) (wait-IsTidy none off r refl same (inl refl))
        ]

    create-IsTidy :
        (ran : Ran) (r : Radio)
        → a.created ≡ ran
        → r.hotspot ≡ false
        → IsSame r
        → IsTidy a before (create_hotspot a ran r)
    unfolding create_hotspot
    create-IsTidy hangs r ran off same = elim (Bool-cases a.is_up) [
      | inl up ↦ rw (create_hotspot, up) (inr (ran, refl), inl same)
      | inr down ↦ rw (create_hotspot, down) (inl off, inl same)
    ]
    create-IsTidy fails r ran off same = (inl off, inl same)
    create-IsTidy (prints o) r ran off same = serve-IsTidy (record r { hotspot = true }) same

    clear-IsTidy :
        (ran : Ran)
        → before.hotspot ≡ false
        → IsTidy a before (clear_leftover a (delete_hotspot ran before) before)
    unfolding clear_leftover delete_hotspot
    clear-IsTidy hangs off = (inl off, inl (refl, refl))
    clear-IsTidy fails off = create-IsTidy a.created before refl off (refl, refl)
    clear-IsTidy (prints o) off =
        create-IsTidy a.created (record before { hotspot = false }) refl refl (refl, refl)

    scan-IsTidy : before.hotspot ≡ false → IsTidy a before (scan_first a before)
    unfolding scan_first
    scan-IsTidy off = elim (Option-cases (scan_networks a.rescan a.listed)) [
      | inl stuck ↦ rw (scan_first, stuck) (inl off, inl (refl, refl))
      | inr (networks, scanned) ↦ rw (scan_first, scanned) (clear-IsTidy a.leftover off)
    ]

    interface-IsTidy :
        (iface : Option (Option Text))
        → before.hotspot ≡ false
        → IsTidy a before (with_interface a iface before)
    unfolding with_interface
    interface-IsTidy none off = (inl off, inl (refl, refl))
    interface-IsTidy (some none) off = (inl off, inl (refl, refl))
    interface-IsTidy (some (some [])) off = (inl off, inl (refl, refl))
    interface-IsTidy (some (some (c ∷ iface))) off = scan-IsTidy off

    unless-IsTidy :
        (b : Option Bool) (next : Exit)
        → before.hotspot ≡ false
        → IsTidy a before next
        → IsTidy a before (unless b before next)
    unfolding unless
    unless-IsTidy none next off h = (inl off, inl (refl, refl))
    unless-IsTidy (some true) next off h = (inl off, inl (refl, refl))
    unless-IsTidy (some false) next off h = h

    nmcli-IsTidy : (ran : Ran) → before.hotspot ≡ false → IsTidy a before (after_nmcli a ran before)
    unfolding after_nmcli
    nmcli-IsTidy hangs off = (inl off, inl (refl, refl))
    nmcli-IsTidy fails off = (inl off, inl (refl, refl))
    nmcli-IsTidy (prints o) off = elim (Bool-cases before.is_provisioned) [
      | inl already ↦ rw (after_nmcli, already) (inl off, inl (refl, refl))
      | inr new ↦
          let end : after_nmcli a (prints o) before
              ≡ unless (ethernet_connected a.states) before (
                  unless (wifi_already_configured a.profiles) before
                    (with_interface a (find_wifi_interface a.devices) before)) =
            rw (after_nmcli, new) refl in
          subst (IsTidy a before) (sym end) (
            unless-IsTidy (ethernet_connected a.states)
              (unless (wifi_already_configured a.profiles) before
                (with_interface a (find_wifi_interface a.devices) before))
              off
              (unless-IsTidy (wifi_already_configured a.profiles)
                (with_interface a (find_wifi_interface a.devices) before) off
                (interface-IsTidy (find_wifi_interface a.devices) off)))
    ]

-- Without a hotspot before, and with one that is deleted when asked: a run leaves no hotspot, unless
-- the command that creates it hung, which ends the run by an exception. It changes nothing else, or
-- it ends with status 0 and has joined the network that the first accepted form names, whose name is
-- no option of `nmcli` and which, as the password, has no control character.
pub provision-IsTidy :
    (a : Answers) (before : Radio) (out : Text)
    → before.hotspot ≡ false
    → a.torn ≡ prints out
    → IsTidy a before (provision a before)
unfolding provision
provision-IsTidy a before out off torn = nmcli-IsTidy a before out torn a.which off
