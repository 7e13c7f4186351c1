-- ===== src/Setup/Wifi/Sorting.antt =====
-- The sort of the networks (`scan_networks` of agent/wifi_provision.py), and what it keeps.
use hadcd_agent.Base.{
  ◌≤◌, ◌≡◌, refl, ap, ◌∙◌, inl, inr, Bool, false, ◌||◌, List, [], ◌∷◌, All, arith, Bool-cases, any,
  leb,
}
use hadcd_agent.Base.Text.{Text, text_eq, text_eq_sym}
use hadcd_agent.Setup.Wifi.Scan.{Network, hotspot_ssid, strength, insert, sort}

-- A name that is not blank, and not that of the node's own hotspot.
abbrev pub IsOffered : Network → Type 0
IsOffered n = (text_eq n.ssid [] ≡ false) × (text_eq n.ssid hotspot_ssid ≡ false)

-- Names that differ, with the strongest signals first.
abbrev pub IsApart : Network → Network → Type 0
IsApart n m = text_eq n.ssid m.ssid ≡ false

abbrev pub AreDistinct : List Network → Type 0
AreDistinct [] = Unit
AreDistinct (n ∷ ns) = All (IsApart n) ns × AreDistinct ns

abbrev pub IsDescending : List Network → Type 0
IsDescending [] = Unit
IsDescending (n ∷ ns) = All (λ m. strength m ≤ strength n) ns × IsDescending ns

insert-All :
    (P : Network → Type 0) (n : Network) (ns : List Network) → P n → All P ns → All P (insert n ns)
unfolding insert
insert-All P n [] p h = (p, tt)
insert-All P n (m ∷ ms) p (q, h) = elim (Bool-cases (leb (strength m) (strength n))) [
  | inl first ↦ rw (insert, first) (p, (q, h))
  | inr later ↦ rw (insert, later) (q, insert-All P n ms p h)
]

pub insert-AreDistinct :
    (n : Network) (ns : List Network)
    → All (IsApart n) ns
    → AreDistinct ns
    → AreDistinct (insert n ns)
unfolding insert
insert-AreDistinct n [] a d = (tt, tt)
insert-AreDistinct n (m ∷ ms) (a, rest) (b, d) = elim (Bool-cases (leb (strength m) (strength n))) [
  | inl first ↦ rw (insert, first) ((a, rest), (b, d))
  | inr later ↦
      rw (insert, later)
        (
          insert-All (IsApart m) n ms (text_eq_sym m.ssid n.ssid ∙ a) b,
          insert-AreDistinct n ms rest d,
        )
]

below :
    (n m : Network) (ms : List Network)
    → strength m ≤ strength n
    → All (λ k. strength k ≤ strength m) ms
    → All (λ k. strength k ≤ strength n) ms
below n m [] h a = tt
below n m (k ∷ ms) h (a, rest) = (omega arith, below n m ms h rest)

pub insert-IsDescending :
    (n : Network) (ns : List Network) → IsDescending ns → IsDescending (insert n ns)
unfolding insert
insert-IsDescending n [] d = (tt, tt)
insert-IsDescending n (m ∷ ms) (b, d) = elim (Bool-cases (leb (strength m) (strength n))) [
  | inl first ↦
      let less : strength m ≤ strength n = ground arith in
      rw (insert, first) ((less, below n m ms less b), (b, d))
  | inr later ↦
      let more : strength n ≤ strength m = ground arith in
      rw (insert, later)
        (insert-All (λ k. strength k ≤ strength m) n ms more b, insert-IsDescending n ms d)
]

pub sort-All : (P : Network → Type 0) (ns : List Network) → All P ns → All P (sort ns)
unfolding sort
sort-All P [] h = tt
sort-All P (n ∷ ns) (p, h) = insert-All P n (sort ns) p (sort-All P ns h)

pub sort-AreDistinct : (ns : List Network) → AreDistinct ns → AreDistinct (sort ns)
unfolding sort
sort-AreDistinct [] d = tt
sort-AreDistinct (n ∷ ns) (a, d) =
    insert-AreDistinct n (sort ns) (sort-All (IsApart n) ns a) (sort-AreDistinct ns d)

pub sort-IsDescending : (ns : List Network) → IsDescending (sort ns)
unfolding sort
sort-IsDescending [] = tt
sort-IsDescending (n ∷ ns) = insert-IsDescending n (sort ns) (sort-IsDescending ns)

-- The name is one of the networks.
abbrev pub is_among : Text → List Network → Bool
is_among name ns = any (λ n. text_eq name n.ssid) ns

insert-among :
    (name : Text) (n : Network) (ns : List Network)
    → is_among name (insert n ns) ≡ is_among name (n ∷ ns)
unfolding insert
insert-among name n [] = refl
insert-among name n (m ∷ ms) = elim (Bool-cases (leb (strength m) (strength n))) [
  | inl first ↦ rw (insert, first) refl
  | inr later ↦ rw (insert, later) (ground (arith, insert-among name n ms))
]

pub sort-among : (name : Text) (ns : List Network) → is_among name (sort ns) ≡ is_among name ns
unfolding sort
sort-among name [] = refl
sort-among name (n ∷ ns) =
    insert-among name n (sort ns) ∙ ap (λ b. text_eq name n.ssid || b) (sort-among name ns)
