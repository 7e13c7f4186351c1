-- ===== src/Setup/Demand/Phases.antt =====
-- The phases of the cycle (`run_cycle` of agent/fake_demand.py) over the clock.
use hadcd_agent.Base.{
  ℕ, ◌+◌, ◌-◌, ◌≤◌, ◌<◌, ◌≡◌, refl, sym, ap, ◌∙◌, ◌⊎◌, inl, inr, Bool, true, false, not, some,
  arith, Bool-cases, if◌then◌else◌, ltb, ◌==◌,
}
use Prim.Native.Nat.{◌%◌}
use native.Mathlib.Nat.{mod-add-mod, mod-eq_of_lt, mod-lt, mod_self}
use hadcd_agent.Setup.Demand.{phase}

-- The phase at a remainder
at_remainder :
    (on_sec off_sec t r : ℕ)
    → 0 < on_sec + off_sec
    → t % (on_sec + off_sec) ≡ r
    → phase on_sec off_sec t
      ≡ (if ltb r on_sec then some (true, on_sec - r) else some (false, on_sec + off_sec - r))
unfolding phase
at_remainder on_sec off_sec t r h e =
    let new : ((on_sec + off_sec) == 0) ≡ false = ground arith in rw (phase, new, e) refl

-- The remainder after `d` seconds within the period
remainder_after : (t d p : ℕ) → t % p + d < p → (t + d) % p ≡ t % p + d
remainder_after t d p h = sym (mod-add-mod t p d) ∙ mod-eq_of_lt h

remainder_turn : (t d p : ℕ) → t % p + d ≡ p → (t + d) % p ≡ 0
remainder_turn t d p h = sym (mod-add-mod t p d) ∙ ap (λ x. x % p) h ∙ mod_self p

-- While `d` is below `left` the phase is on with that much less time left, and then it turns.
abbrev pub IsPhase : ℕ → ℕ → ℕ → Bool → ℕ → Type 0
IsPhase on_sec off_sec t heats left =
    (0 < left)
    × ((d : ℕ) → (left ≤ d) ⊎ (phase on_sec off_sec (t + d) ≡ some (heats, left - d)))
    × (phase on_sec off_sec (t + left) ≡ some (not heats, if heats then off_sec else on_sec))

module _ (on_sec off_sec t : ℕ) (a : 0 < on_sec) (b : 0 < off_sec) where
  heating :
      t % (on_sec + off_sec) < on_sec
      → IsPhase on_sec off_sec t true (on_sec - t % (on_sec + off_sec))
  heating h = (
    omega arith,
    λ d. elim (Bool-cases (ltb d (on_sec - t % (on_sec + off_sec)))) [
      | inr over ↦ inl (ground arith)
      | inl during ↦
          let inside : t % (on_sec + off_sec) + d < on_sec = ground arith in
          let first : ltb (t % (on_sec + off_sec) + d) on_sec ≡ true = ground arith in
          let less : on_sec - (t % (on_sec + off_sec) + d) ≡ on_sec - t % (on_sec + off_sec) - d =
            omega arith in
          inr (
            at_remainder on_sec off_sec (t + d) (t % (on_sec + off_sec) + d) (omega arith)
              (remainder_after t d (on_sec + off_sec) (omega arith))
            ∙ rw (first, less) refl)
    ],
    (let turn : t % (on_sec + off_sec) + (on_sec - t % (on_sec + off_sec)) ≡ on_sec = omega arith in
        let second : ltb on_sec on_sec ≡ false = ground arith in
        let full : on_sec + off_sec - on_sec ≡ off_sec = omega arith in
        at_remainder on_sec off_sec (t + (on_sec - t % (on_sec + off_sec))) on_sec (omega arith) (
          remainder_after t (on_sec - t % (on_sec + off_sec)) (on_sec + off_sec) (omega arith)
          ∙ turn)
        ∙ rw (second, full) refl),
  )

  idle :
      on_sec ≤ t % (on_sec + off_sec)
      → t % (on_sec + off_sec) < on_sec + off_sec
      → IsPhase on_sec off_sec t false (on_sec + off_sec - t % (on_sec + off_sec))
  idle h k = (
    omega arith,
    λ d. elim (Bool-cases (ltb d (on_sec + off_sec - t % (on_sec + off_sec)))) [
      | inr over ↦ inl (ground arith)
      | inl during ↦
          let inside : t % (on_sec + off_sec) + d < on_sec + off_sec = ground arith in
          let second : ltb (t % (on_sec + off_sec) + d) on_sec ≡ false = ground arith in
          let less : on_sec + off_sec - (t % (on_sec + off_sec) + d)
              ≡ on_sec + off_sec - t % (on_sec + off_sec) - d =
            omega arith in
          inr (
            at_remainder on_sec off_sec (t + d) (t % (on_sec + off_sec) + d) (omega arith)
              (remainder_after t d (on_sec + off_sec) inside)
            ∙ rw (second, less) refl)
    ],
    (let first : ltb 0 on_sec ≡ true = ground arith in
        let full : on_sec - 0 ≡ on_sec = omega arith in
        at_remainder on_sec off_sec (t + (on_sec + off_sec - t % (on_sec + off_sec))) 0
          (omega arith)
          (remainder_turn t (on_sec + off_sec - t % (on_sec + off_sec)) (on_sec + off_sec)
            (omega arith))
        ∙ rw (first, full) refl),
  )

  -- With both phases longer than zero, at any time one of them is on, with some time left: it is on
  -- for that time, which counts down, and then the other begins, at its full length.
  phase-IsPhase : (heats : Bool) × (left : ℕ) × IsPhase on_sec off_sec t heats left
  phase-IsPhase = elim (Bool-cases (ltb (t % (on_sec + off_sec)) on_sec)) [
    | inl first ↦ (true, on_sec - t % (on_sec + off_sec), heating (ground arith))
    | inr second ↦ (
      false,
      on_sec + off_sec - t % (on_sec + off_sec),
      idle (ground arith) (mod-lt t (omega arith)),
    )
  ]
