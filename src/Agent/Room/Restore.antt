-- ===== src/Agent/Room/Restore.antt =====
-- Whether the thermostat gets back the setpoint from before the vacancy.
use hadcd_agent.Base.{String, ◌≡◌, true, false, Option, none, some, List, [], ◌∷◌, arith}
use hadcd_agent.Agent.Room.{Room, Env, smooth, is_setback, apply_heat_override, restart}

-- A heartbeat response with its override and its setback temperature, or a restart of the agent.
pub data Event (T : Type 0) : Type 0 where
  poll : Env → Option String → Option T → Event T
  restarted : Event T

module _ {T : Type 0} where
  -- Every call succeeds, and a restart is followed by a response that the room is vacant.
  abbrev pub IsAttended : List (Event T) → Type 0
  IsAttended [] = Unit
  IsAttended (poll e o s ∷ evs) = (e ≡ smooth) × IsAttended evs
  IsAttended (restarted ∷ poll e o s ∷ evs) = (e ≡ smooth) × (is_setback o ≡ true) × IsAttended evs
  IsAttended (restarted ∷ _) = ⊥

  -- The room is in use at the setpoint `t`, or vacant with `t` saved in memory and on disk.
  pub data IsKept (t : T) (r : Room T) : Type 0 where
    in_use : r.active ≡ false → r.saved ≡ none → r.stored ≡ none → r.thermostat ≡ t → IsKept t r
    vacant : r.active ≡ true → r.saved ≡ some t → r.stored ≡ some t → IsKept t r

module _ {T : Type 0} (default : T) where
  unfoldable pub step : Event T → Room T → Room T
  step (poll e override setback) r = apply_heat_override e default override setback r
  step restarted r = restart r

  unfoldable pub run : List (Event T) → Room T → Room T
  unfolding step
  run [] r = r
  run (ev ∷ evs) r = run evs (step ev r)

  poll-IsKept :
      (t : T) (o : Option String) (s : Option T) (r : Room T)
      → IsKept t r
      → IsKept t (apply_heat_override smooth default o s r)
  unfolding apply_heat_override
  poll-IsKept t o s r k = grind (arith, in_use, vacant)

  restart-poll-IsKept :
      (t : T) (o : Option String) (s : Option T) (r : Room T)
      → IsKept t r
      → is_setback o ≡ true
      → IsKept t (apply_heat_override smooth default o s (restart r))
  unfolding apply_heat_override restart
  restart-poll-IsKept t o s r k sb = grind (arith, in_use, vacant)

  -- While every call succeeds, and each restart is followed by a response that the room is still
  -- vacant, the setpoint `t` from before a vacancy is never lost: after any sequence of responses
  -- and restarts the room is in use at `t`, or vacant with `t` saved in memory and on disk.
  pub run-IsKept :
      (t : T) (evs : List (Event T)) (r : Room T)
      → IsAttended evs
      → IsKept t r
      → IsKept t (run evs r)
  unfolding run step
  run-IsKept t [] r a k = k
  run-IsKept t (poll e o s ∷ evs) r (ok, a) k = run-IsKept t evs _ a (rw ok (poll-IsKept t o s r k))
  run-IsKept t (restarted ∷ []) r a k = elim a [ ]
  run-IsKept t (restarted ∷ restarted ∷ evs) r a k = elim a [ ]
  run-IsKept t (restarted ∷ poll e o s ∷ evs) r (ok, sb, a) k =
      run-IsKept t evs _ a (rw ok (restart-poll-IsKept t o s r k sb))

  -- Where the room is reopened and the thermostat refuses the write, the saved setpoint is dropped
  -- from memory and disk all the same: the thermostat stays where it was, and no later response
  -- that leaves the room open moves it, with any outcome of the calls it makes.
  lost_setpoint :
      (e e' : Env) (o o' : Option String) (s s' : Option T) (r : Room T)
      → r.active ≡ true
      → is_setback o ≡ false
      → is_setback o' ≡ false
      → e.writes ≡ false
      → e.saves ≡ true
      → apply_heat_override e' default o' s' (apply_heat_override e default o s r) ≡ record r {
        active = false;
        saved = elim r.saved [ none ↦ none | some t ↦ none ];
        stored = elim r.saved [ none ↦ r.stored | some t ↦ none ];
      }
  unfolding apply_heat_override
  lost_setpoint e e' o o' s s' r a n n' w sv = ground arith

  -- Where a room is reopened while the agent restarts, responses that leave the room open never
  -- write the thermostat: it keeps the setback temperature, and the saved setpoint stays unused.
  reopened_during_restart :
      (e : Env) (o : Option String) (s : Option T) (r : Room T)
      → is_setback o ≡ false
      → apply_heat_override e default o s (restart r) ≡ restart r
  unfolding apply_heat_override restart
  reopened_during_restart e o s r n = ground arith
