-- ===== src/Agent/Room/Demand.antt =====
-- What `_demand_loop` posts and keeps for the heartbeat. Temperatures and powers are the source's
-- floats in thousandths, and a power is not negative.
use hadcd_agent.Base.{
  ℕ, String, ◌≡◌, Bool, true, false, Option, none, List, [], ◌∷◌, All, arith, str_eq, ltb,
  if◌then◌else◌,
}
use hadcd_agent.Base.Int.{ℤ}
use hadcd_agent.Agent.Room.{Room, Env, is_setback, apply_heat_override}

pub record HeatReading : Type 0 where
  pub measured_kw : ℕ
  pub setpoint_c : Option ℤ
  pub room_temp_c : Option ℤ
  pub expected_window_sec : Option ℕ

-- `dataclasses.replace` while the room is vacant.
unfoldable pub report : Bool → HeatReading → HeatReading
report active reading =
    if active then record reading { measured_kw = 0; expected_window_sec = none } else reading

-- `_needs_heat` after the pass, which an always-on node leaves as it was.
unfoldable pub needs_heat : String → Bool → HeatReading → Bool
needs_heat node_role before posted =
    if str_eq node_role "always_on" then before else ltb 0 posted.measured_kw

-- Two loops share the flag: a heartbeat response sets it, a pass of the demand loop reads it.
pub data Event : Type 0 where
  responded : Env → Option String → Option ℤ → Event
  measured : HeatReading → Event

-- What one pass posted: the override of the last response before it, the reading, and the post.
pub record Post : Type 0 where
  pub override : Option String
  pub reading : HeatReading
  pub posted : HeatReading
  pub heats : Bool

unfoldable pub posts : ℤ → String → Option String → Room ℤ → Bool → List Event → List Post
unfolding report needs_heat
posts default role last r heats [] = []
posts default role last r heats (responded e o s ∷ evs) =
    posts default role o (apply_heat_override e default o s r) heats evs
posts default role last r heats (measured reading ∷ evs) =
    let posted = report r.active reading in
    let next = needs_heat role heats posted in
    record { override = last; reading = reading; posted = posted; heats = next }
    ∷ posts default role last r next evs

-- A post by the override of the last response: a vacant room asks for no heat and a standard node
-- does not need any; a room in use is reported as it was read; temperatures are always as read.
abbrev pub IsHonest : String → Post → Type 0
IsHonest role p =
    (is_setback p.override ≡ true → p.posted.measured_kw ≡ 0)
    × (is_setback p.override ≡ true → str_eq role "always_on" ≡ false → p.heats ≡ false)
    × (is_setback p.override ≡ false → p.posted ≡ p.reading)
    × (p.posted.setpoint_c ≡ p.reading.setpoint_c)
    × (p.posted.room_temp_c ≡ p.reading.room_temp_c)

override-active :
    (e : Env) (default : ℤ) (o : Option String) (s : Option ℤ) (r : Room ℤ)
    → (apply_heat_override e default o s r).active ≡ is_setback o
unfolding apply_heat_override
override-active e default o s r = ground arith

pass-IsHonest :
    (role : String) (last : Option String) (r : Room ℤ) (heats : Bool) (reading : HeatReading)
    → r.active ≡ is_setback last
    → IsHonest role (record {
      override = last;
      reading = reading;
      posted = report r.active reading;
      heats = needs_heat role heats (report r.active reading);
    })
unfolding report needs_heat
pass-IsHonest role last r heats reading same = ground arith

-- Whatever heartbeat responses and passes of the demand loop come in whatever order, from a state
-- whose flag agrees with the last response, every post is honest: zero demand exactly while the
-- last response says the room is vacant, the room's temperatures as they were read.
pub posts-IsHonest :
    (default : ℤ) (role : String) (last : Option String) (r : Room ℤ) (heats : Bool)
    (evs : List Event)
    → r.active ≡ is_setback last
    → All (IsHonest role) (posts default role last r heats evs)
unfolding posts
posts-IsHonest default role last r heats [] same = tt
posts-IsHonest default role last r heats (responded e o s ∷ evs) same =
    posts-IsHonest default role o _ heats evs (override-active e default o s r)
posts-IsHonest default role last r heats (measured reading ∷ evs) same =
    (pass-IsHonest role last r heats reading same, posts-IsHonest default role last r _ evs same)
