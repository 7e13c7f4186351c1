-- ===== src/Setup/Wifi/Networks.antt =====
-- The networks that the form offers (`scan_networks` of agent/wifi_provision.py).
use hadcd_agent.Base.{
  ◌≡◌, refl, sym, ◌∙◌, ◌⊎◌, inl, inr, Bool, true, false, ◌||◌, Option, none, some, List, [], ◌∷◌,
  All, arith, Bool-cases, Option-cases, any,
}
use mathlib.Core.Path.{subst}
use hadcd_agent.Base.Text.{Text, text_eq, text_eq_sym, text_eq_refl, strip}
use hadcd_agent.Setup.EnvText.{splitlines}
use hadcd_agent.Setup.Wifi.{Ran, hangs, fails, prints}
use hadcd_agent.Setup.Wifi.Scan.{
  Network, three_parts, hotspot_ssid, is_skipped, security_of, collect, sort, scan_networks,
}
use hadcd_agent.Setup.Wifi.Sorting.{
  IsOffered, IsApart, AreDistinct, IsDescending, is_among, sort-All, sort-AreDistinct,
  sort-IsDescending, sort-among,
}

-- Offered, and not among the names so far.
abbrev IsFresh : List Text → Network → Type 0
IsFresh seen n = IsOffered n × (any (text_eq n.ssid) seen ≡ false)

IsFresh-weaken :
    (x : Text) (seen : List Text) (ns : List Network)
    → All (IsFresh (x ∷ seen)) ns
    → All (IsFresh seen) ns
IsFresh-weaken x seen [] h = tt
IsFresh-weaken x seen (n ∷ ns) ((o, f), h) = ((o, ground arith), IsFresh-weaken x seen ns h)

new_names-IsApart :
    (n : Network) (seen : List Text) (ns : List Network)
    → All (IsFresh (n.ssid ∷ seen)) ns
    → All (IsApart n) ns
new_names-IsApart n seen [] h = tt
new_names-IsApart n seen (m ∷ ms) ((o, f), h) =
    let other : text_eq m.ssid n.ssid ≡ false = ground arith in
    (text_eq_sym n.ssid m.ssid ∙ other, new_names-IsApart n seen ms h)

-- What a line adds to the networks after it.
network_of : Text → Text → Text → Network
network_of name signal security = record {
  ssid = strip name;
  signal = strip signal;
  security = security_of security;
}

abbrev IsCollected : List Text → List Network → Type 0
IsCollected seen ns = All (IsFresh seen) ns × AreDistinct ns

add-IsCollected :
    (seen : List Text) (n : Network) (ns : List Network)
    → is_skipped n.ssid seen ≡ false
    → IsCollected (n.ssid ∷ seen) ns
    → IsCollected seen (n ∷ ns)
unfolding is_skipped
add-IsCollected seen n ns kept (f, d) =
    let named : text_eq n.ssid [] ≡ false = ground arith in
    let other : text_eq n.ssid hotspot_ssid ≡ false = ground arith in
    let new : any (text_eq n.ssid) seen ≡ false = ground arith in
    ((((named, other), new), IsFresh-weaken n.ssid seen ns f), (new_names-IsApart n seen ns f, d))

collect-IsCollected : (seen lines : List Text) → IsCollected seen (collect seen lines)
unfolding collect network_of
collect-IsCollected seen [] = (tt, tt)
collect-IsCollected seen (line ∷ lines) = elim (Option-cases (three_parts line)) [
  | inl odd ↦ rw (collect, odd) (collect-IsCollected seen lines)
  | inr ((name, signal, security), parts) ↦ elim (Bool-cases (is_skipped (strip name) seen)) [
    | inl skipped ↦ rw (collect, parts, skipped) (collect-IsCollected seen lines)
    | inr kept ↦
        rw (collect, parts, kept)
          (add-IsCollected seen (network_of name signal security)
            (collect (strip name ∷ seen) lines) kept
            (collect-IsCollected (strip name ∷ seen) lines))
  ]
]

-- The name of a line is among the networks, or it is skipped after the names `seen`.
abbrev IsSeen : List Text → List Network → Option (Text × Text × Text) → Type 0
IsSeen seen ns none = Unit
IsSeen seen ns (some (name, signal, security)) =
    (is_skipped (strip name) seen || is_among (strip name) ns) ≡ true

skipped_later :
    (name x : Text) (seen : List Text) (n : Network) (ns : List Network)
    → n.ssid ≡ x
    → (is_skipped name (x ∷ seen) || is_among name ns) ≡ true
    → (is_skipped name seen || is_among name (n ∷ ns)) ≡ true
unfolding is_skipped
skipped_later name x seen n ns e h = rw e (ground arith)

IsSeen-weaken :
    (seen : List Text) (n : Network) (ns : List Network) (o : Option (Text × Text × Text))
    → IsSeen (n.ssid ∷ seen) ns o
    → IsSeen seen (n ∷ ns) o
IsSeen-weaken seen n ns none h = tt
IsSeen-weaken seen n ns (some (name, signal, security)) h =
    skipped_later (strip name) n.ssid seen n ns refl h

all_later :
    (seen : List Text) (n : Network) (ns : List Network) (lines : List Text)
    → All (λ l. IsSeen (n.ssid ∷ seen) ns (three_parts l)) lines
    → All (λ l. IsSeen seen (n ∷ ns) (three_parts l)) lines
all_later seen n ns [] h = tt
all_later seen n ns (l ∷ ls) (g, h) =
    (IsSeen-weaken seen n ns (three_parts l) g, all_later seen n ns ls h)

or-true : (a b : Bool) → (a || (true || b)) ≡ true
or-true a b = ground arith

IsSeen-carry :
    (seen lines : List Text) {ns ms : List Network}
    → ns ≡ ms
    → All (λ l. IsSeen seen ns (three_parts l)) lines
    → All (λ l. IsSeen seen ms (three_parts l)) lines
IsSeen-carry seen lines e = subst (λ ns. All (λ l. IsSeen seen ns (three_parts l)) lines) e

collect-IsSeen :
    (seen lines : List Text) → All (λ l. IsSeen seen (collect seen lines) (three_parts l)) lines
unfolding collect network_of
collect-IsSeen seen [] = tt
collect-IsSeen seen (line ∷ lines) = elim (Option-cases (three_parts line)) [
  | inl odd ↦
      let end : collect seen (line ∷ lines) ≡ collect seen lines = rw (collect, odd) refl in
      IsSeen-carry seen (line ∷ lines) (sym end) (rw odd tt, collect-IsSeen seen lines)
  | inr ((name, signal, security), parts) ↦ elim (Bool-cases (is_skipped (strip name) seen)) [
    | inl skipped ↦
        let end : collect seen (line ∷ lines) ≡ collect seen lines =
          rw (collect, parts, skipped) refl in
        IsSeen-carry seen (line ∷ lines) (sym end)
          (rw (parts, IsSeen, skipped) refl, collect-IsSeen seen lines)
    | inr kept ↦
        let n : Network = network_of name signal security in
        let end : collect seen (line ∷ lines) ≡ n ∷ collect (strip name ∷ seen) lines =
          rw (collect, parts, kept) refl in
        IsSeen-carry seen (line ∷ lines) (sym end) (
          rw (parts, IsSeen, is_among, text_eq_refl (strip name))
              (or-true (is_skipped (strip name) seen)
                (is_among (strip name) (collect (strip name ∷ seen) lines))),
          all_later seen n (collect (strip name ∷ seen) lines) lines
              (collect-IsSeen (strip name ∷ seen) lines),
        )
  ]
]

-- The name of a line of three parts is offered, unless it is blank or the node's own hotspot.
abbrev pub IsCovered : List Network → Option (Text × Text × Text) → Type 0
IsCovered ns none = Unit
IsCovered ns (some (name, signal, security)) =
    (text_eq (strip name) [] || text_eq (strip name) hotspot_ssid || is_among (strip name) ns)
    ≡ true

seen-IsCovered :
    (ns : List Network) (o : Option (Text × Text × Text)) → IsSeen [] ns o → IsCovered (sort ns) o
unfolding is_skipped
seen-IsCovered ns none h = tt
seen-IsCovered ns (some (name, signal, security)) h = rw (sort-among (strip name) ns) (ground arith)

all-IsCovered :
    (ns : List Network) (lines : List Text)
    → All (λ l. IsSeen [] ns (three_parts l)) lines
    → All (λ l. IsCovered (sort ns) (three_parts l)) lines
all-IsCovered ns [] h = tt
all-IsCovered ns (l ∷ ls) (g, h) = (seen-IsCovered ns (three_parts l) g, all-IsCovered ns ls h)

-- The network has the name, the signal and the security of the line of three parts.
abbrev pub IsLine : Network → Option (Text × Text × Text) → Type 0
IsLine n none = ⊥
IsLine n (some (name, signal, security)) =
    (n.ssid ≡ strip name) × (n.signal ≡ strip signal) × (n.security ≡ security_of security)

-- It is that of one of the lines.
abbrev pub ComesFrom : List Text → Network → Type 0
ComesFrom [] n = ⊥
ComesFrom (l ∷ ls) n = IsLine n (three_parts l) ⊎ ComesFrom ls n

all-ComesFrom :
    (l : Text) (ls : List Text) (ns : List Network)
    → All (ComesFrom ls) ns
    → All (ComesFrom (l ∷ ls)) ns
all-ComesFrom l ls [] h = tt
all-ComesFrom l ls (n ∷ ns) (c, h) = (inr c, all-ComesFrom l ls ns h)

collect-ComesFrom : (seen lines : List Text) → All (ComesFrom lines) (collect seen lines)
unfolding collect network_of
collect-ComesFrom seen [] = tt
collect-ComesFrom seen (line ∷ lines) = elim (Option-cases (three_parts line)) [
  | inl odd ↦
      let end : collect seen (line ∷ lines) ≡ collect seen lines = rw (collect, odd) refl in
      subst (All (ComesFrom (line ∷ lines))) (sym end)
        (all-ComesFrom line lines (collect seen lines) (collect-ComesFrom seen lines))
  | inr ((name, signal, security), parts) ↦ elim (Bool-cases (is_skipped (strip name) seen)) [
    | inl skipped ↦
        let end : collect seen (line ∷ lines) ≡ collect seen lines =
          rw (collect, parts, skipped) refl in
        subst (All (ComesFrom (line ∷ lines))) (sym end)
          (all-ComesFrom line lines (collect seen lines) (collect-ComesFrom seen lines))
    | inr kept ↦
        let n : Network = network_of name signal security in
        let end : collect seen (line ∷ lines) ≡ n ∷ collect (strip name ∷ seen) lines =
          rw (collect, parts, kept) refl in
        subst (All (ComesFrom (line ∷ lines))) (sym end) (
          inl (subst (IsLine n) (sym parts) (refl, refl, refl)),
          all-ComesFrom line lines (collect (strip name ∷ seen) lines)
              (collect-ComesFrom (strip name ∷ seen) lines),
        )
  ]
]

-- The list for the form, of the lines: no blank name, not the node's own hotspot, no name twice,
-- each with what a line says of it, and the strongest signals first.
abbrev pub IsMenu : List Text → List Network → Type 0
IsMenu lines ns = All IsOffered ns × AreDistinct ns × All (ComesFrom lines) ns × IsDescending ns

all_new-IsOffered :
    (seen : List Text) (ns : List Network) → All (IsFresh seen) ns → All IsOffered ns
all_new-IsOffered seen [] h = tt
all_new-IsOffered seen (n ∷ ns) ((o, f), h) = (o, all_new-IsOffered seen ns h)

sorted-IsMenu : (lines : List Text) → IsMenu lines (sort (collect [] lines))
sorted-IsMenu lines =
    let (f, d) = collect-IsCollected [] lines in
    (
      sort-All IsOffered (collect [] lines) (all_new-IsOffered [] (collect [] lines) f),
      sort-AreDistinct (collect [] lines) d,
      sort-All (ComesFrom lines) (collect [] lines) (collect-ComesFrom [] lines),
      sort-IsDescending (collect [] lines),
    )

-- The list that a command printed, or none.
abbrev pub IsScanned : Ran → Option (List Network) → Type 0
IsScanned listed none = Unit
IsScanned (prints out) (some ns) =
    IsMenu (splitlines out) ns × All (λ l. IsCovered ns (three_parts l)) (splitlines out)
IsScanned hangs (some ns) = ⊥
IsScanned fails (some ns) = ns ≡ []

printed :
    (lines : List Text)
    → IsMenu lines (sort (collect [] lines))
      × All (λ l. IsCovered (sort (collect [] lines)) (three_parts l)) lines
printed lines =
    (sorted-IsMenu lines, all-IsCovered (collect [] lines) lines (collect-IsSeen [] lines))

-- A scan gives the networks of the list that `nmcli` prints: each name of a line, once, but a blank
-- one or that of the node's own hotspot. Each network has the signal and the security of a line with
-- its name, and the strongest signals come first. Where the list fails there is none.
pub scan_networks-IsScanned : (rescan listed : Ran) → IsScanned listed (scan_networks rescan listed)
unfolding scan_networks
scan_networks-IsScanned hangs listed = tt
scan_networks-IsScanned fails hangs = tt
scan_networks-IsScanned fails fails = refl
scan_networks-IsScanned fails (prints out) = printed (splitlines out)
scan_networks-IsScanned (prints o) hangs = tt
scan_networks-IsScanned (prints o) fails = refl
scan_networks-IsScanned (prints o) (prints out) = printed (splitlines out)
