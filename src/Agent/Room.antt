-- ===== src/Agent/Room.antt =====
-- The vacancy override: `_apply_heat_override` with the saved setpoint of `AgentState`, and what
-- `_demand_loop` reports meanwhile. The thermostat and the state file are part of the state.
pub mod Restore
pub mod Demand
use hadcd_agent.Base.{
  String, Bool, true, false, not, Option, none, some, str_eq, is_some, if◌then◌else◌,
}

-- `active` is `_heat_override_active`, `saved` is `state.saved_setpoint_c`, `stored` is that field
-- in the state file.
pub record Room (T : Type 0) : Type 0 where
  pub active : Bool
  pub saved : Option T
  pub stored : Option T
  pub thermostat : T

-- How `heat_source.read()` ends: with the thermostat's setpoint, without one, or by an exception.
pub data ReadOutcome : Type 0 where
  reads silent fails : ReadOutcome

-- What a call meets: `saves` is false where `state.save()` raises, `writes` is what `set_setpoint`
-- returns.
pub record Env : Type 0 where
  pub read : ReadOutcome
  pub saves : Bool
  pub writes : Bool

abbrev pub smooth : Env
smooth = record { read = reads; saves = true; writes = true }

unfoldable pub is_setback : Option String → Bool
is_setback none = false
is_setback (some o) = str_eq o "setback"

module _ {T : Type 0} where
  save : Env → Room T → Room T
  save e r = if e.saves then record r { stored = r.saved } else r

  -- `if self.state.saved_setpoint_c is None: ...`, in its `try`.
  capture : Env → Option T → Room T → Room T
  unfolding save
  capture e (some t) r = r
  capture e none r = elim e.read [
    | reads ↦ save e (record r { saved = some r.thermostat })
    | silent ↦ r
    | fails ↦ r
  ]

  write : Env → T → Room T → Room T
  write e t r = if e.writes then record r { thermostat = t } else r

  vacate : Env → T → Room T → Room T
  unfolding capture write
  vacate e target r = write e target (capture e r.saved r)

  -- The saved setpoint goes, whether or not it could be written.
  reopen : Env → Option T → Room T → Room T
  unfolding save write
  reopen e none r = r
  reopen e (some t) r = save e (record (write e t r) { saved = none })

  target_of : Option T → T → T
  target_of none default = default
  target_of (some t) default = t

  -- The calls by the active flag before and after.
  switch : Bool → Bool → Env → T → Room T → Room T
  unfolding vacate reopen
  switch true true e target r = r
  switch false false e target r = r
  switch false true e target r = vacate e target (record r { active = true })
  switch true false e target r = reopen e r.saved (record r { active = false })

  unfoldable pub apply_heat_override : Env → T → Option String → Option T → Room T → Room T
  unfolding switch is_setback target_of
  apply_heat_override e default override setback r =
      switch r.active (is_setback override) e (target_of setback default) r

  -- A new process: the flag is down, and the saved setpoint comes from the state file.
  unfoldable pub restart : Room T → Room T
  restart r = record r { active = false; saved = r.stored }
