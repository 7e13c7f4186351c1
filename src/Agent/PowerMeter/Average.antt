-- ===== src/Agent/PowerMeter/Average.antt =====
-- That the average lies between the samples, and that the meter keeps a bounded number of them.
use hadcd_agent.Base.{
  ℕ, zero, suc, ◌+◌, ◌-◌, ◌*◌, ◌≤◌, String, ◌≡◌, refl, sym, ap, ◌∙◌, inl, inr, false, Option, none,
  some, List, [], ◌∷◌, ◌++◌, All, All-append, arith, Bool-cases, Option-cases, ltb, leb, length,
  drop, length-append,
}
use mathlib.Core.Path.{subst}
use mathlib.Core.Option.{some-ne-none}
use native.Mathlib.Nat.{mul-add, mul-le-mul_right}
use hadcd_agent.Agent.PowerMeter.{
  Sample, Meter, Ratio, in_window, doubled_energy, total_sec, last_of, average, average_watts_since,
  Plug, raises, reports, enabled, push, record_sample, poll, window_max,
}

module _ (lo hi : ℕ) where
  abbrev pub IsWithin : ℕ → Type 0
  IsWithin w = (lo ≤ w) × (w ≤ hi)

  abbrev pub AllWithin : List Sample → Type 0
  AllWithin ss = All (λ s. IsWithin s.watts) ss

  -- The quotient lies between `lo` and `hi`.
  abbrev pub IsBetween : Ratio → Type 0
  IsBetween r = (lo * r.denominator ≤ r.numerator) × (r.numerator ≤ hi * r.denominator)

  window-AllWithin : (since : ℕ) (ss : List Sample) → AllWithin ss → AllWithin (in_window since ss)
  unfolding in_window
  window-AllWithin since [] h = tt
  window-AllWithin since (s ∷ ss) (p, h) = elim (Bool-cases (leb since s.time)) [
    | inl e ↦ rw e (p, window-AllWithin since ss h)
    | inr e ↦ rw e (window-AllWithin since ss h)
  ]

  last-IsWithin :
      (s : Sample) (ss : List Sample) → AllWithin (s ∷ ss) → IsWithin (last_of s ss).watts
  unfolding last_of
  last-IsWithin s [] (p, h) = p
  last-IsWithin s (t ∷ ts) (p, h) = last-IsWithin t ts h

  energy-IsBetween :
      (s : Sample) (ss : List Sample)
      → AllWithin (s ∷ ss)
      → ((lo + lo) * total_sec s ss ≤ doubled_energy s ss)
        × (doubled_energy s ss ≤ (hi + hi) * total_sec s ss)
  unfolding doubled_energy total_sec
  energy-IsBetween s [] h = (ground arith, ground arith)
  energy-IsBetween s (t ∷ ts) (p, (q, h)) =
      let (below, above) = energy-IsBetween t ts (q, h) in
      let d = t.time - s.time in
      let low : (lo + lo) * d ≤ (s.watts + t.watts) * d = mul-le-mul_right d (ground arith) in
      let high : (s.watts + t.watts) * d ≤ (hi + hi) * d = mul-le-mul_right d (ground arith) in
      (
        omega (arith, below, low, mul-add (lo + lo) d (total_sec t ts)),
        omega (arith, above, high, mul-add (hi + hi) d (total_sec t ts)),
      )

  average-IsBetween :
      (ss : List Sample) (r : Ratio) → AllWithin ss → average ss ≡ some r → IsBetween r
  unfolding average
  average-IsBetween [] r h e = elim (some-ne-none r (sym e)) [ ]
  average-IsBetween (s ∷ ss) r h e = elim (Bool-cases (ltb 0 (total_sec s ss))) [
    | inl apart ↦
        let (below, above) = energy-IsBetween s ss h in
        subst IsBetween (ap (λ o. elim o [ none ↦ r | some x ↦ x ]) (rw (average, apart) at e))
          (omega (arith, below), omega (arith, above))
    | inr together ↦
        let (below, above) = last-IsWithin s ss h in
        subst IsBetween (ap (λ o. elim o [ none ↦ r | some x ↦ x ]) (rw (average, together) at e))
          (omega (arith, below), omega (arith, above))
  ]

  average_watts_since-IsBetween :
      (since : ℕ) (m : Meter)
      → AllWithin m.samples
      → ((w : ℕ) → m.last_watts ≡ some w → IsWithin w)
      → (r : Ratio) → average_watts_since since m ≡ some r
      → IsBetween r
  unfolding average_watts_since
  average_watts_since-IsBetween since m h last r e =
      elim (Option-cases (average (in_window since m.samples))) [
        | inr (a, sampled) ↦
            average-IsBetween (in_window since m.samples) r (window-AllWithin since m.samples h)
              (sampled ∙ (rw (average_watts_since, sampled) at e))
        | inl empty ↦ elim (Option-cases m.last_watts) [
          | inl never ↦
              elim (some-ne-none r (sym (rw (average_watts_since, empty, never) at e))) [ ]
          | inr (w, read) ↦
              let (below, above) = last w read in
              subst IsBetween
                (ap (λ o. elim o [ none ↦ r | some x ↦ x ])
                  (rw (average_watts_since, empty, read) at e))
                (omega (arith, below), omega (arith, above))
        ]
      ]

length-drop : (n : ℕ) (ss : List Sample) → length (drop n ss) ≡ length ss - n
length-drop zero ss = omega arith
length-drop (suc n) [] = omega arith
length-drop (suc n) (s ∷ ss) = omega (arith, length-drop n ss)

push-bounded :
    (s : Sample) (ss : List Sample) → length ss ≤ window_max → length (push s ss) ≤ window_max
unfolding push
push-bounded s ss h =
    let all = ss ++ (s ∷ []) in
    omega (arith, h, length-append ss (s ∷ []), length-drop (length all - window_max) all)

-- `__init__`
abbrev pub fresh : String → Meter
fresh ip = record { ip = ip; has_device = false; samples = []; last_watts = none; warned = false }

-- Successive polls, each at its time.
unfoldable pub polls : List (ℕ × Plug) → Meter → Meter
unfolding poll
polls [] m = m
polls ((now, plug) ∷ ps) m = polls ps (poll now plug m).0

module _ (lo hi : ℕ) where
  abbrev pub IsReported : ℕ × Plug → Type 0
  IsReported (now, raises) = Unit
  IsReported (now, reports none) = Unit
  IsReported (now, reports (some w)) = IsWithin lo hi w

  -- What polls keep.
  abbrev pub IsSound : Meter → Type 0
  IsSound m =
      AllWithin lo hi m.samples
      × ((w : ℕ) → m.last_watts ≡ some w → IsWithin lo hi w)
      × (length m.samples ≤ window_max)

  drop-AllWithin : (n : ℕ) (ss : List Sample) → AllWithin lo hi ss → AllWithin lo hi (drop n ss)
  drop-AllWithin zero ss h = h
  drop-AllWithin (suc n) [] h = tt
  drop-AllWithin (suc n) (s ∷ ss) (p, h) = drop-AllWithin n ss h

  push-AllWithin :
      (s : Sample) (ss : List Sample)
      → IsWithin lo hi s.watts
      → AllWithin lo hi ss
      → AllWithin lo hi (push s ss)
  unfolding push
  push-AllWithin s ss p h =
      drop-AllWithin (length (ss ++ (s ∷ [])) - window_max) (ss ++ (s ∷ []))
        (All-append (λ t. IsWithin lo hi t.watts) ss (s ∷ []) h (p, tt))

  record_sample-IsSound :
      (now : ℕ) (plug : Plug) (m : Meter)
      → IsReported (now, plug)
      → IsSound m
      → IsSound (record_sample now plug m).0
  unfolding record_sample
  record_sample-IsSound now raises m r h = h
  record_sample-IsSound now (reports none) m r h = h
  record_sample-IsSound now (reports (some w)) m r (a, b, c) =
      let s : Sample = record { time = now; watts = w } in
      (
        push-AllWithin s m.samples r a,
        (λ v e. subst (IsWithin lo hi) (ap (λ o. elim o [ none ↦ w | some x ↦ x ]) e) r),
        push-bounded s m.samples c,
      )

  poll-IsSound :
      (now : ℕ) (plug : Plug) (m : Meter)
      → IsReported (now, plug)
      → IsSound m
      → IsSound (poll now plug m).0
  unfolding poll
  poll-IsSound now plug m r h = elim (Bool-cases (enabled m)) [
    | inr off ↦ rw (poll, off) h
    | inl on ↦ rw (poll, on) (record_sample-IsSound now plug m r h)
  ]

  polls-IsSound :
      (ps : List (ℕ × Plug)) (m : Meter) → All IsReported ps → IsSound m → IsSound (polls ps m)
  unfolding polls
  polls-IsSound [] m r h = h
  polls-IsSound ((now, plug) ∷ ps) m (p, r) h =
      polls-IsSound ps (poll now plug m).0 r (poll-IsSound now plug m p h)

  -- The average, where there is one.
  abbrev pub AverageWithin : Option Ratio → Type 0
  AverageWithin none = Unit
  AverageWithin (some r) = IsBetween lo hi r

  AverageWithin-any :
      (o : Option Ratio) → ((r : Ratio) → o ≡ some r → IsBetween lo hi r) → AverageWithin o
  AverageWithin-any none h = tt
  AverageWithin-any (some r) h = h r refl

  -- After any polls of a fresh meter at most 180 samples are kept, and if all powers that the plug
  -- reported lie between two bounds, so does the average since any time that there is.
  pub polls-IsBetween :
      (ps : List (ℕ × Plug)) (ip : String) (since : ℕ)
      → All IsReported ps
      → (length (polls ps (fresh ip)).samples ≤ 180)
        × AverageWithin (average_watts_since since (polls ps (fresh ip)))
  polls-IsBetween ps ip since r =
      let m = polls ps (fresh ip) in
      let (a, b, c) =
        polls-IsSound ps (fresh ip) r
          (tt, (λ w e. elim (some-ne-none w (sym e)) [ ]), ground arith) in
      (
        c,
        AverageWithin-any (average_watts_since since m)
            (average_watts_since-IsBetween lo hi since m a b),
      )
