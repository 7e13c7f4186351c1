-- ===== src/Agent/Miner.antt =====
-- `AutonomousMiner._loop` (agent/autonomous_mode.py): mining by the thermostat, with the space heater
-- and the synthetic load as fallbacks. A pass of the loop holds what it meets; cancellation of the
-- task is left out.
pub mod Heater
use hadcd_agent.Base.{
  Bool, true, false, not, ◌&&◌, ◌||◌, Option, none, some, List, [], ◌∷◌, ◌++◌, if◌then◌else◌,
}

-- What a handler's future gives: a result, one with "skipped", one with "error", or an exception.
pub data Chunk : Type 0 where
  ran skipped failed raised : Chunk

-- `demand` is `measured_kw > 0`, and none where the read raises. `stop_first` and `stop_waiting` say
-- whether the stop event is set at the head of the loop, and before a wait has timed out.
pub record Pass : Type 0 where
  pub stop_first : Bool
  pub demand : Option Bool
  pub gpu : Chunk
  pub cpu : Chunk
  pub stop_waiting : Bool

-- `turn_on` and `turn_off` are calls of `_heater_service`, which swallows a failure, so that the loop
-- takes the heater as switched; `slept` is a wait for the next poll, `held` one for a chunk with the
-- heater on.
pub data Effect : Type 0 where
  turn_on turn_off mined synthetic slept held : Effect

-- Whether the task has ended; if not, the local `heater_on`.
pub data Status : Type 0 where
  finished : Status
  running : Bool → Status

unfoldable pub is_skipped : Chunk → Bool
is_skipped skipped = true
is_skipped raised = true
is_skipped ran = false
is_skipped failed = false

unfoldable pub demanded : Option Bool → Bool
demanded none = false
demanded (some d) = d

-- The `finally` block.
unfoldable pub finish : Bool → List Effect × Status
finish heater_on = (if heater_on then turn_off ∷ [] else [], finished)

-- A body's effects before what follows.
unfoldable pub before : List Effect → List Effect × Status → List Effect × Status
before es r = (es ++ r.0, r.1)

-- The branches of the body, with the rest of the loop by the heater's state.
unfoldable pub idle : Bool → Bool → (Bool → List Effect × Status) → List Effect × Status
unfolding before finish
idle heater_on stops rest =
    before (if heater_on then turn_off ∷ slept ∷ [] else slept ∷ [])
      (if stops then finish false else rest false)

unfoldable pub fallback : Bool → Bool → Bool → (Bool → List Effect × Status) → List Effect × Status
unfolding before finish
fallback ha_configured heater_on stops rest =
    if ha_configured
    then before (if heater_on then mined ∷ held ∷ [] else mined ∷ turn_on ∷ held ∷ [])
        (if stops then finish true else rest true)
    else before (mined ∷ synthetic ∷ []) (rest heater_on)

unfoldable pub body : Bool → Bool → Pass → (Bool → List Effect × Status) → List Effect × Status
unfolding finish idle fallback is_skipped demanded before
body ha_configured heater_on p rest =
    if p.stop_first
    then finish heater_on
    else if not (demanded p.demand)
    then idle heater_on p.stop_waiting rest
    else if is_skipped p.gpu && is_skipped p.cpu
    then fallback ha_configured heater_on p.stop_waiting rest
    else before (mined ∷ []) (rest heater_on)

unfoldable pub loop : Bool → Bool → List Pass → List Effect × Status
unfolding body
loop ha_configured heater_on [] = ([], running heater_on)
loop ha_configured heater_on (p ∷ ps) =
    body ha_configured heater_on p (λ h. loop ha_configured h ps)
