-- ===== src/Workloads/Mining/Tests.antt =====
-- Runs of the miners' models at concrete passes.
use hadcd_agent.Base.{ℕ, ◌+◌, ◌≡◌, refl, true, false, not, ◌&&◌, List, [], ◌∷◌}
use hadcd_agent.Workloads.Mining.{
  Pass, no_pause, starts, suspends, resumes, terminates, compute_pids_excluding, has_pressure,
  yield_gpu, gpu_loop, cpu_loop, stop_process, Settings, skip_reason, mined, raised,
  run_gpu_mining_fill, run_p2pool_fill,
}
use hadcd_agent.Workloads.Mining.Process.{is_running, miners_stop}

-- The miner's PID is 7; from 20 to 30 and from 40 on, 8 is there as well.
abbrev pass_at : ℕ → List ℕ → Pass
pass_at t pids = record {
  checked = t;
  sleeps_at = t;
  woke_at = t + 10;
  pids = pids;
  has_exited = false;
}

abbrev series : List Pass
series =
    pass_at 0 (7 ∷ [])
    ∷ pass_at 10 (7 ∷ 8 ∷ [])
    ∷ pass_at 20 (7 ∷ [])
    ∷ pass_at 30 (8 ∷ [])
    ∷ pass_at 40 (8 ∷ [])
    ∷ []

abbrev settings : Settings
settings = record { path = "/opt/t-rex"; wallet = "w"; is_file = true }

miners_stop_example :
    ((is_running false false (run_gpu_mining_fill settings 7 60 false series 0 60).0
        && not (gpu_loop 7 60 series no_pause).has_exited)
      ≡ false)
    × ((is_running false false (run_p2pool_fill settings 60 false series 0 60).0
          && not (cpu_loop 60 series).has_exited)
        ≡ false)
miners_stop_example = miners_stop settings 7 60 false series 0 60

-- The pause that is open at the end is reported as active time.
open_pause_lost :
    run_gpu_mining_fill settings 7 60 true series 0 50
    ≡ (starts ∷ suspends ∷ resumes ∷ suspends ∷ terminates ∷ [], mined 40 10)
unfolding run_gpu_mining_fill skip_reason gpu_loop has_pressure compute_pids_excluding yield_gpu
    stop_process
open_pause_lost = refl

-- A clock that passes the deadline before the sleep ends the handler by an exception.
late_sleep :
    run_p2pool_fill settings 60 true
      (record { checked = 59; sleeps_at = 61; woke_at = 61; pids = []; has_exited = false } ∷ [])
      0
      61
    ≡ (starts ∷ terminates ∷ [], raised)
unfolding run_p2pool_fill skip_reason cpu_loop stop_process
late_sleep = refl
