-- ===== src/Workloads/Mining/Pauses.antt =====
-- What the GPU miner's pauses add up to (`run_gpu_mining_fill` of hadcd_workloads/gpu_mining_fill.py).
use hadcd_agent.Base.{
  ℕ, ◌+◌, ◌-◌, ◌≤◌, ◌≡◌, refl, sym, ap, ◌∙◌, Bool, true, false, List, [], ◌∷◌, All, arith,
  if◌then◌else◌, ltb,
}
use mathlib.Core.Path.{subst}
use hadcd_agent.Workloads.Mining.{Pass, Pause, no_pause, has_pressure, yield_gpu, gpu_loop}

-- The seconds of a pause that has not ended by `now`.
abbrev pub open_pause : Pause → ℕ → ℕ
open_pause s now = if s.paused then now - s.pause_start else 0

-- A pass that the loop goes through: before the deadline, with a miner that runs on.
abbrev pub Goes : ℕ → Pass → Type 0
Goes deadline p =
    (ltb p.checked deadline ≡ true) × (ltb deadline p.sleeps_at ≡ false) × (p.has_exited ≡ false)

-- The clock does not go back.
abbrev pub Ascends : ℕ → List Pass → Type 0
Ascends t [] = Unit
Ascends t (p ∷ ps) = (t ≤ p.woke_at) × Ascends p.woke_at ps

-- The time under pressure: from each pass that sees other processes to the next one.
abbrev pub held : ℕ → ℕ → Bool → List Pass → ℕ
held own t pressed [] = 0
held own t pressed (p ∷ ps) =
    (if pressed then p.woke_at - t else 0) + held own p.woke_at (has_pressure own p) ps

abbrev pub last_time : ℕ → List Pass → ℕ
last_time t [] = t
last_time t (p ∷ ps) = last_time p.woke_at ps

abbrev pub last_pressure : ℕ → Bool → List Pass → Bool
last_pressure own pressed [] = pressed
last_pressure own pressed (p ∷ ps) = last_pressure own (has_pressure own p) ps

yield-steps :
    (pressure : Bool) (t now : ℕ) (s : Pause)
    → t ≤ now
    → s.pause_start ≤ t
    → ((yield_gpu pressure now s).0.paused ≡ pressure)
      × ((yield_gpu pressure now s).0.pause_start ≤ now)
      × ((yield_gpu pressure now s).0.total_paused + open_pause (yield_gpu pressure now s).0 now
          ≡ s.total_paused + open_pause s t + (if s.paused then now - t else 0))
unfolding yield_gpu
yield-steps pressure t now s later began = ground arith

-- The loop's pass, as one step.
loop-step :
    (own deadline : ℕ) (p : Pass) (ps : List Pass) (s : Pause)
    → Goes deadline p
    → (gpu_loop own deadline (p ∷ ps) s).state
      ≡ (gpu_loop own deadline ps (yield_gpu (has_pressure own p) p.woke_at s).0).state
unfolding gpu_loop
loop-step own deadline p ps s (early, in_time, lives) = rw (gpu_loop, early, in_time, lives) refl

-- What a run adds to a state's pauses.
abbrev IsCounted : ℕ → ℕ → List Pass → Pause → Pause → Type 0
IsCounted own t ps s f =
    (f.paused ≡ last_pressure own s.paused ps)
    × (f.total_paused + open_pause f (last_time t ps)
        ≡ s.total_paused + open_pause s t + held own t s.paused ps)

loop-IsCounted :
    (own deadline t : ℕ) (ps : List Pass) (s : Pause)
    → All (Goes deadline) ps
    → Ascends t ps
    → s.pause_start ≤ t
    → IsCounted own t ps s (gpu_loop own deadline ps s).state
unfolding gpu_loop
loop-IsCounted own deadline t [] s g a began = (refl, omega arith)
loop-IsCounted own deadline t (p ∷ ps) s (g, gs) (later, a) began =
    let next : Pause = (yield_gpu (has_pressure own p) p.woke_at s).0 in
    let (same, start, sum) = yield-steps (has_pressure own p) t p.woke_at s later began in
    let (x, y) = loop-IsCounted own deadline p.woke_at ps next gs a start in
    let rest : held own p.woke_at next.paused ps ≡ held own p.woke_at (has_pressure own p) ps =
      ap (λ b. held own p.woke_at b ps) same in
    subst (IsCounted own t (p ∷ ps) s) (sym (loop-step own deadline p ps s g))
      (x ∙ ap (λ b. last_pressure own b ps) same, omega (arith, y, sum, rest))

-- While the clock does not go back and the miner runs on, it is suspended after a pass exactly if
-- that pass saw another process; and what is counted as paused is all the time under pressure, less
-- the pause that is open at the end.
loop_counts :
    (own deadline t : ℕ) (ps : List Pass)
    → All (Goes deadline) ps
    → Ascends t ps
    → ((gpu_loop own deadline ps no_pause).state.paused ≡ last_pressure own false ps)
      × ((gpu_loop own deadline ps no_pause).state.total_paused
            + open_pause (gpu_loop own deadline ps no_pause).state (last_time t ps)
          ≡ held own t false ps)
loop_counts own deadline t ps g a =
    let (x, y) = loop-IsCounted own deadline t ps no_pause g a (ground arith) in
    (x, omega (arith, y))
