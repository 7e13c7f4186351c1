-- ===== src/Agent/Miner/Heater.antt =====
-- The heater over a whole run of the loop.
use hadcd_agent.Base.{
  ◌≡◌, refl, Bool, true, false, not, ◌&&◌, some, List, [], ◌∷◌, ap, if◌then◌else◌,
}
use hadcd_agent.Agent.Miner.{
  Chunk, Pass, Effect, turn_on, turn_off, mined, synthetic, slept, held, Status, finished, running,
  is_skipped, demanded, finish, before, idle, fallback, body, loop,
}

-- A run of calls, `on` the last one's: turned on only after off and where it is configured, turned off
-- only after on, held only while on, off whenever the loop waits for demand, and the synthetic load
-- only where no heater is configured. It is off at the end, and as the loop has it while that runs.
abbrev pub IsBalanced : Bool → Bool → List Effect → Status → Type 0
IsBalanced ha on [] finished = on ≡ false
IsBalanced ha on [] (running heater_on) = on ≡ heater_on
IsBalanced ha on (turn_on ∷ es) st = (on ≡ false) × (ha ≡ true) × IsBalanced ha true es st
IsBalanced ha on (turn_off ∷ es) st = (on ≡ true) × IsBalanced ha false es st
IsBalanced ha on (held ∷ es) st = (on ≡ true) × IsBalanced ha on es st
IsBalanced ha on (synthetic ∷ es) st = (ha ≡ false) × IsBalanced ha on es st
IsBalanced ha on (mined ∷ es) st = IsBalanced ha on es st
IsBalanced ha on (slept ∷ es) st = (on ≡ false) × IsBalanced ha on es st

finish-IsBalanced : (ha on : Bool) → IsBalanced ha on (finish on).0 (finish on).1
unfolding finish
finish-IsBalanced ha true = (refl, refl)
finish-IsBalanced ha false = refl

module _ (ha : Bool) (rest : Bool → List Effect × Status)
    (ok : (on : Bool) → IsBalanced ha on (rest on).0 (rest on).1) where
  stop-IsBalanced :
      (on stops : Bool)
      → IsBalanced ha on
          (if stops then finish on else rest on).0
          (if stops then finish on else rest on).1
  stop-IsBalanced on true = finish-IsBalanced ha on
  stop-IsBalanced on false = ok on

  idle-IsBalanced :
      (on stops : Bool) → IsBalanced ha on (idle on stops rest).0 (idle on stops rest).1
  unfolding idle before
  idle-IsBalanced true stops = (refl, (refl, stop-IsBalanced false stops))
  idle-IsBalanced false stops = (refl, stop-IsBalanced false stops)

  fallback-IsBalanced :
      (b on stops : Bool)
      → ha ≡ b
      → IsBalanced ha on (fallback b on stops rest).0 (fallback b on stops rest).1
  unfolding fallback before
  fallback-IsBalanced true true stops e = (refl, stop-IsBalanced true stops)
  fallback-IsBalanced true false stops e = (refl, e, (refl, stop-IsBalanced true stops))
  fallback-IsBalanced false on stops e = (e, ok on)

  body-IsBalanced :
      (on stop skips wants stops : Bool)
      → IsBalanced ha on
          (if stop
            then finish on
            else if not wants
            then idle on stops rest
            else if skips
            then fallback ha on stops rest
            else before (mined ∷ []) (rest on)).0
          (if stop
            then finish on
            else if not wants
            then idle on stops rest
            else if skips
            then fallback ha on stops rest
            else before (mined ∷ []) (rest on)).1
  unfolding before
  body-IsBalanced on true skips wants stops = finish-IsBalanced ha on
  body-IsBalanced on false skips false stops = idle-IsBalanced on stops
  body-IsBalanced on false true true stops = fallback-IsBalanced ha on stops refl
  body-IsBalanced on false false true stops = ok on

-- Over any run of the loop, from any state of the heater: it is asked to turn on only where it was
-- last asked to be off, and the other way round; it was last asked to be off whenever the loop waits
-- for demand and when the task has ended, and to be on while a chunk is held for it; and the
-- synthetic load only stands in where no heater is configured.
pub loop-IsBalanced :
    (ha on : Bool) (ps : List Pass) → IsBalanced ha on (loop ha on ps).0 (loop ha on ps).1
unfolding loop body
loop-IsBalanced ha on [] = refl
loop-IsBalanced ha on (p ∷ ps) =
    body-IsBalanced ha (λ h. loop ha h ps) (λ h. loop-IsBalanced ha h ps) on p.stop_first
      (is_skipped p.gpu && is_skipped p.cpu) (demanded p.demand) p.stop_waiting

-- Passes that are not stopped, where heat is demanded and the GPU handler fails.
abbrev pub IsFailing : List Pass → Type 0
IsFailing [] = Unit
IsFailing (p ∷ ps) =
    (p.stop_first ≡ false) × (p.demand ≡ some true) × (p.gpu ≡ Chunk.failed) × IsFailing ps

abbrev pub chunks : List Pass → List Effect
chunks [] = []
chunks (p ∷ ps) = mined ∷ chunks ps

-- However many such passes come, each one asks the handlers for a chunk and goes straight on to the
-- next: no fallback gives heat, and nothing waits.
failing_spins :
    (ha on : Bool) (ps : List Pass) → IsFailing ps → loop ha on ps ≡ (chunks ps, running on)
unfolding loop body before is_skipped demanded
failing_spins ha on [] f = refl
failing_spins ha on (p ∷ ps) (go, wants, failed, f) =
    rw (go, wants, failed) (ap (λ r. before (mined ∷ []) r) (failing_spins ha on ps f))
