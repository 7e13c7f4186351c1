-- ===== src/Workloads/Mining.antt =====
-- The miners that fill idle time: `run_gpu_mining_fill` (hadcd_workloads/gpu_mining_fill.py) and
-- `run_p2pool_fill` (hadcd_workloads/p2pool_fill.py). Times are readings of a clock in microseconds.
mod Pauses
mod Process
mod Tests
use hadcd_agent.Base.{
  ℕ, ◌+◌, ◌-◌, String, Bool, true, false, not, ◌&&◌, Option, none, some, List, [], ◌∷◌, ◌++◌,
  if◌then◌else◌, ltb, ◌==◌, str_eq, length,
}

-- What one pass of the loop meets: the clock at the test of the loop, at the sleep, and after it; the
-- PIDs that nvidia-smi lists; whether the miner has exited.
pub record Pass : Type 0 where
  pub checked : ℕ
  pub sleeps_at : ℕ
  pub woke_at : ℕ
  pub pids : List ℕ
  pub has_exited : Bool

-- `_compute_pids_excluding`
unfoldable pub compute_pids_excluding : ℕ → List ℕ → List ℕ
compute_pids_excluding own [] = []
compute_pids_excluding own (p ∷ ps) =
    let rest = compute_pids_excluding own ps in if p == own then rest else p ∷ rest

pub record Pause : Type 0 where
  pub paused : Bool
  pub total_paused : ℕ
  pub pause_start : ℕ

abbrev pub no_pause : Pause
no_pause = record { paused = false; total_paused = 0; pause_start = 0 }

-- The effects on the miner's process.
pub data Effect : Type 0 where
  starts suspends resumes terminates kills : Effect

unfoldable pub has_pressure : ℕ → Pass → Bool
unfolding compute_pids_excluding
has_pressure own p = ltb 0 (length (compute_pids_excluding own p.pids))

-- The two branches of a pass.
unfoldable pub yield_gpu : Bool → ℕ → Pause → Pause × List Effect
yield_gpu pressure now s =
    if pressure && not s.paused
    then (record s { paused = true; pause_start = now }, suspends ∷ [])
    else (if not pressure && s.paused
        then (
          record s { paused = false; total_paused = s.total_paused + (now - s.pause_start) },
          resumes ∷ [],
        )
        else (s, []))

-- How the loop ends: by the deadline or the miner's exit, or by the ValueError of a negative sleep.
pub record Ended : Type 0 where
  pub state : Pause
  pub effects : List Effect
  pub has_exited : Bool
  pub is_raised : Bool

abbrev pub after : List Effect → Ended → Ended
after es e = record e { effects = es ++ e.effects }

-- The loop; the passes are those that the clock allows, and a miner that runs on is alive.
unfoldable pub gpu_loop : ℕ → ℕ → List Pass → Pause → Ended
unfolding has_pressure yield_gpu
gpu_loop own deadline [] s = record {
  state = s;
  effects = [];
  has_exited = false;
  is_raised = false;
}
gpu_loop own deadline (p ∷ ps) s =
    let (next, effects) = yield_gpu (has_pressure own p) p.woke_at s in
    let rest = gpu_loop own deadline ps next in
    if not (ltb p.checked deadline)
    then record { state = s; effects = []; has_exited = false; is_raised = false }
    else (if ltb deadline p.sleeps_at
        then record { state = s; effects = []; has_exited = false; is_raised = true }
        else (if p.has_exited
            then record { state = next; effects = effects; has_exited = true; is_raised = false }
            else after effects rest))

unfoldable pub cpu_loop : ℕ → List Pass → Ended
cpu_loop deadline [] = record {
  state = no_pause;
  effects = [];
  has_exited = false;
  is_raised = false;
}
cpu_loop deadline (p ∷ ps) =
    let rest = cpu_loop deadline ps in
    if not (ltb p.checked deadline)
    then record { state = no_pause; effects = []; has_exited = false; is_raised = false }
    else (if ltb deadline p.sleeps_at
        then record { state = no_pause; effects = []; has_exited = false; is_raised = true }
        else (if p.has_exited
            then record { state = no_pause; effects = []; has_exited = true; is_raised = false }
            else rest))

-- The `finally`; `obeys` says that the process ends within ten seconds of being asked to.
unfoldable pub stop_process : Bool → Bool → List Effect
stop_process obeys has_exited =
    if has_exited then [] else terminates ∷ (if obeys then [] else kills ∷ [])

-- The settings of a miner, read from the environment.
pub record Settings : Type 0 where
  pub path : String
  pub wallet : String
  pub is_file : Bool

pub data Skip : Type 0 where
  no_path no_wallet no_binary : Skip

unfoldable pub skip_reason : Settings → Option Skip
skip_reason s =
    if str_eq s.path ""
    then some no_path
    else (if str_eq s.wallet ""
        then some no_wallet
        else (if s.is_file then none else some no_binary))

-- The end of a handler: skipped, an exception, or the seconds that it reports.
pub data Report : Type 0 where
  skipped : Skip → Report
  raised : Report
  mined : ℕ → ℕ → Report

-- `start` and `end` are the wall clock around the loop; the active and the paused time.
unfoldable pub run_gpu_mining_fill :
    Settings → ℕ → ℕ → Bool → List Pass → ℕ → ℕ → List Effect × Report
unfolding skip_reason gpu_loop stop_process
run_gpu_mining_fill c own deadline obeys ps start finish =
    let e = gpu_loop own deadline ps no_pause in
    elim (skip_reason c) [
      | some why ↦ ([], skipped why)
      | none ↦ (
        starts ∷ (e.effects ++ stop_process obeys e.has_exited),
        (if e.is_raised
            then raised
            else mined ((finish - start) - e.state.total_paused) e.state.total_paused),
      )
    ]

unfoldable pub run_p2pool_fill : Settings → ℕ → Bool → List Pass → ℕ → ℕ → List Effect × Report
unfolding skip_reason cpu_loop stop_process
run_p2pool_fill c deadline obeys ps start finish =
    let e = cpu_loop deadline ps in
    elim (skip_reason c) [
      | some why ↦ ([], skipped why)
      | none ↦ (
        starts ∷ (e.effects ++ stop_process obeys e.has_exited),
        (if e.is_raised then raised else mined (finish - start) 0),
      )
    ]

-- `_default_threads` of the number of cores, if that is known, and the setting over it.
unfoldable pub default_threads : Option ℕ → ℕ
default_threads none = 1
default_threads (some cores) = if ltb 1 (cores - 1) then cores - 1 else 1

unfoldable pub threads_of : ℕ → Option ℕ → ℕ
unfolding default_threads
threads_of setting cores = if ltb 0 setting then setting else default_threads cores
