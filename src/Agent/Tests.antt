-- ===== src/Agent/Tests.antt =====
-- The agent's loops at concrete inputs: the theorems where their hypotheses hold.
use hadcd_agent.Base.{ℕ, ◌≡◌, refl, true, false, none, some, List, [], ◌∷◌, All, arith}
use hadcd_agent.Base.Int.{ℤ, pos}
use hadcd_agent.Base.Json.{null}
use hadcd_agent.Vast.Monad.{World, naive, not_found}
use hadcd_agent.Vast.Provider.{Schedule, init}
use hadcd_agent.Agent.VastLoop.{Cache}
use hadcd_agent.Agent.VastLoop.Staleness.{Tick}
use hadcd_agent.Agent.Room.{Room, Env, smooth, reads, is_setback, apply_heat_override, restart}
use hadcd_agent.Agent.Room.Restore.{
  Event, poll, restarted, run as run_room, IsKept, in_use, run-IsKept,
}
use hadcd_agent.Agent.Room.Demand as Demand
use hadcd_agent.Agent.Heartbeat.{
  unreachable, answered, Response, Input, Settings, Node, beat, hb_ok, vast_renting,
}
use hadcd_agent.Agent.Heartbeat.Fallback as Fallback
use hadcd_agent.Agent.Heartbeat.Outage as Outage
use hadcd_agent.Agent.Miner as Miner
use hadcd_agent.Agent.Miner.Heater.{IsBalanced, loop-IsBalanced}
use hadcd_agent.Agent.State.{State, enrolled, load, save, loaded, contains}
use hadcd_agent.Agent.State.Persistence.{load-save}
use hadcd_agent.Agent.Rentals as Rentals
use hadcd_agent.Agent.Blobs as Blobs
use hadcd_agent.Agent.EnvFile as EnvFile
use hadcd_agent.Base.Text.{Text, strip, is_space}
use hadcd_agent.Agent.Rentals.Guards.{IsSound, run-IsSound, count, IsGuarded, AreGuarded}

abbrev mild : Schedule
mild = record { should_list = true; next_window_start = none }

abbrev cached : Cache
cached = record { schedule = some mild; age = some 0 }

abbrev online : List Tick
online =
    record { backend = some mild; local = none } ∷ record { backend = some mild; local = none } ∷ []

-- A clock at 7 hours UTC, where every stamp reads as 2 hours with no zone.
abbrev west : World
west = record {
  run = λ args. not_found;
  now = 25200;
  event_loop = false;
  loads = λ s. none;
  str_of = λ v. "";
  float_of = λ s. none;
  fromisoformat = λ s. some (naive 7200);
}

abbrev warm : Room ℕ
warm = record { active = false; saved = none; stored = none; thermostat = 21 }

-- Vacant, restarted, still vacant, reopened.
abbrev stay : List (Event ℕ)
stay =
    poll smooth (some "setback") (some 12)
    ∷ restarted
    ∷ poll smooth (some "setback") none
    ∷ poll smooth none none
    ∷ []

stay_restores : run_room 15 stay warm ≡ warm
unfolding run_room apply_heat_override restart
stay_restores = refl

run-IsKept_example : IsKept 21 (run_room 15 stay warm)
unfolding is_setback
run-IsKept_example =
    run-IsKept 15 21 stay warm (refl, (refl, refl, (refl, tt))) (in_use refl refl refl refl)

abbrev vacated : Room ℕ
vacated = record { active = true; saved = some 21; stored = some 21; thermostat = 12 }

abbrev no_writes : Env
no_writes = record { read = reads; saves = true; writes = false }

abbrev cool : Demand.HeatReading
cool = record {
  measured_kw = 1500;
  setpoint_c = some (pos 21000);
  room_temp_c = some (pos 18000);
  expected_window_sec = some 600;
}

abbrev cool_room : Room ℤ
cool_room = record { active = false; saved = none; stored = none; thermostat = pos 21000 }

abbrev readings : List Demand.Event
readings =
    Demand.measured cool ∷ Demand.responded smooth (some "setback") none ∷ Demand.measured cool ∷ []

posts-IsHonest_example :
    All
      (Demand.IsHonest "standard")
      (Demand.posts (pos 12000) "standard" none cool_room false readings)
unfolding is_setback
posts-IsHonest_example =
    Demand.posts-IsHonest (pos 12000) "standard" none cool_room false readings refl

abbrev settings : Settings
settings = record { setback_temp_c = pos 12000; autonomous_fallback_after_sec = 60 }

abbrev node : Node
node = record {
  provider = init none 600 "" false;
  room = cool_room;
  config_applied = false;
  media_applied = false;
  offline_since = none;
  miner = false;
  dep_check_counter = 0;
  cached_models = [];
}

abbrev missed : ℕ → Input
missed now = record { reply = unreachable; env = smooth; seen = now; checked = now; scanned = none }

abbrev vacancy : Response
vacancy = record {
  vast_override = none;
  heat_override = some "setback";
  setback_temp_c = none;
  pending_config = null;
  pending_media_models = null;
  sessions = null;
}

abbrev replied : ℕ → Input
replied now = record {
  reply = answered vacancy;
  env = smooth;
  seen = now;
  checked = now;
  scanned = none;
}

abbrev outage : List Fallback.Event
outage = Fallback.beats (missed 10) ∷ Fallback.beats (missed 70) ∷ Fallback.beats (replied 80) ∷ []

passes-IsExclusive_example : All Fallback.IsExclusive (Fallback.passes settings none node outage)
passes-IsExclusive_example = Fallback.passes-IsExclusive settings none node outage (λ m. refl)

passes-IsPatient_example :
    All (Fallback.IsPatient settings) (Fallback.passes settings none node outage)
passes-IsPatient_example =
    Fallback.passes-IsPatient settings 0 none node outage
      (omega arith, omega arith, (omega arith, omega arith, (omega arith, omega arith, tt))) tt

outage_mines_example :
    (beat settings (missed 75) (
      Outage.run settings
        (beat settings (missed 10) node).0
        (Fallback.beats (missed 40) ∷ []))).0.miner
    ≡ true
unfolding hb_ok vast_renting
outage_mines_example =
    Outage.outage_mines settings node (missed 10) (missed 75) (Fallback.beats (missed 40) ∷ []) refl
      refl refl refl (refl, tt) refl (omega arith)

abbrev burn : Miner.Chunk → Miner.Pass
burn c = record {
  stop_first = false;
  demand = some true;
  gpu = c;
  cpu = Miner.skipped;
  stop_waiting = false;
}

loop-IsBalanced_example :
    IsBalanced true false
      (Miner.loop true false
        (burn Miner.skipped ∷ (record (burn Miner.skipped) { stop_first = true }) ∷ [])).0
      (Miner.loop true false
        (burn Miner.skipped ∷ (record (burn Miner.skipped) { stop_first = true }) ∷ [])).1
loop-IsBalanced_example =
    loop-IsBalanced true false
      (burn Miner.skipped ∷ (record (burn Miner.skipped) { stop_first = true }) ∷ [])

abbrev enrolled_state : State
enrolled_state = record {
  node_id = some "n-1";
  node_token = some "secret";
  saved_setpoint_c = some (record { mantissa = pos 215; scale = 1 });
  cached_models = "llama3" ∷ [];
}

load-save_example : load (save enrolled_state) ≡ loaded enrolled_state
unfolding enrolled
load-save_example = load-save enrolled_state refl

abbrev idle : Rentals.Handler
idle = record {
  active = [];
  reconciling = [];
  stopping = [];
  starts = [];
  reconciles = [];
  losing = [];
  stops = [];
  posting = [];
}

abbrev closing : Rentals.Entry
closing = record { session_id = "s-1"; status = "stopping" }

abbrev opening : Rentals.Entry
opening = record { session_id = "s-2"; status = "starting" }

abbrev overlap : List Rentals.Event
overlap =
    Rentals.beat (closing ∷ [])
    ∷ Rentals.beat (closing ∷ [])
    ∷ Rentals.ended "s-1"
    ∷ Rentals.beat (closing ∷ [])
    ∷ Rentals.told_stopped "s-1"
    ∷ []

run-IsSound_example : IsSound (Rentals.run overlap idle)
unfolding count contains IsGuarded AreGuarded
run-IsSound_example = run-IsSound overlap idle ((λ s. refl), (λ s. refl))

-- `a\b` and `..`
abbrev odd_name : Text
odd_name = 97 ∷ 92 ∷ 98 ∷ []

abbrev dots : Text
dots = 46 ∷ 46 ∷ []

odd_name_is_cut : Blobs.safe_blob_name (some odd_name) dots ≡ 98 ∷ []
unfolding Blobs.safe_blob_name strip is_space
odd_name_is_cut = refl

abbrev specs : List Blobs.Spec
specs =
    record { blob_id = dots; filename = some odd_name }
    ∷ record { blob_id = odd_name; filename = none }
    ∷ []

-- `A=1` over the lines `A=0` and `B=0`.
abbrev pushed : EnvFile.Config
pushed = (65 ∷ [], 49 ∷ []) ∷ []

abbrev env_lines : List Text
env_lines = (65 ∷ 61 ∷ 48 ∷ []) ∷ (66 ∷ 61 ∷ 48 ∷ []) ∷ []

pushed_file :
    EnvFile.apply_pending_config pushed env_lines ≡ (65 ∷ 61 ∷ 49 ∷ []) ∷ (66 ∷ 61 ∷ 48 ∷ []) ∷ []
unfolding EnvFile.apply_pending_config EnvFile.assigned EnvFile.find EnvFile.is_updated strip
    is_space
pushed_file = refl
