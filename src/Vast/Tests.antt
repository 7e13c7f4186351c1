-- ===== src/Vast/Tests.antt =====
-- The provider at concrete worlds: runs of the source's scenarios, and the theorems at inputs that
-- meet their hypotheses.
use hadcd_agent.Base.{
  ℕ, ◌≡◌, ◌≢◌, ◌⊎◌, Any, refl, true, false, none, some, List, [], ◌∷◌, All, arith, str_eq,
  if◌then◌else◌,
}
use hadcd_agent.Base.Int.{pos}
use hadcd_agent.Base.Json.{null, arr, obj, nil, end, cons}
use hadcd_agent.Vast.Monad.{
  RunOutcome, exited, not_found, World, unlisted, listing, unlisting, Cli, Provider,
}
use hadcd_agent.Vast.Cli.{
  list_machine, unlist_machine, active_rental_count, count_instances, get_listing_price, breaks,
  reply,
}
use hadcd_agent.Vast.Provider.{
  Schedule, init, want_listed, is_near_window, do_list, do_unlist, drain, close_session,
  report_session, update, after, dispatch,
}
use hadcd_agent.Vast.Provider.Transitions.{Edge, update-Edge}
use hadcd_agent.Vast.Provider.Commands.{IsAllowed, update-IsAllowed}
use hadcd_agent.Vast.Provider.Sessions.{
  Event, tick, run, sessions, IsChronological, run-IsChronological,
}
use hadcd_agent.Vast.Provider.Invariant.{IsConsistent, IsBroken, run-IsConsistent}

abbrev cli : Cli
cli = record { machine_id = "7"; cmd = "vastai" }

-- A thread with no event loop, at time `now`; every command answers `reply`; "null" is the only
-- text that parses as JSON besides "[]" and "[{}]".
abbrev world : RunOutcome → ℕ → World
world reply now = record {
  run = λ args. reply;
  now = now;
  event_loop = false;
  loads = λ s.
      if str_eq s "[]"
      then some (arr nil)
      else if str_eq s "[{}]"
      then some (arr (cons (obj end) nil))
      else if str_eq s "null"
      then some null
      else none;
  str_of = λ v. "7";
  float_of = λ s. none;
  fromisoformat = λ s. none;
}

abbrev empty_reply : RunOutcome
empty_reply = exited (pos 0) "[]" ""

abbrev one_rental : RunOutcome
one_rental = exited (pos 0) "[{}]" ""

abbrev mild : Schedule
mild = record { should_list = true; next_window_start = none }

abbrev cold : Schedule
cold = record { should_list = false; next_window_start = none }

abbrev fresh : Provider
fresh = init (some cli) 600 "/log.csv" true

abbrev draining : Provider
draining = record fresh { state = unlisting; listed_at = some 5 }

-- Listed at 10, unlisted from 20 on, a renter until 40, the row written at 50.
abbrev night : List Event
night =
    tick mild (world empty_reply 10)
    ∷ tick cold (world empty_reply 20)
    ∷ tick cold (world one_rental 30)
    ∷ tick cold (world not_found 40)
    ∷ tick cold (world empty_reply 50)
    ∷ []

night_log :
    sessions (run night fresh).1
    ≡ record { machine_id = "7"; listed_at = 10; unlisted_at = 50; price = none } ∷ []
unfolding run update dispatch do_list do_unlist drain close_session report_session list_machine
    unlist_machine active_rental_count get_listing_price want_listed is_near_window count_instances
night_log = refl

update-Edge_example : Edge false true unlisted (after mild (world empty_reply 10) fresh).state
unfolding want_listed breaks
update-Edge_example = update-Edge mild (world empty_reply 10) fresh {cli = cli} refl

update-IsAllowed_example :
    All (IsAllowed cli false false) (update cold (world empty_reply 50) draining).2
unfolding want_listed is_near_window
update-IsAllowed_example =
    update-IsAllowed cold (world empty_reply 50) draining {cli = cli} refl (ground arith)

run-IsChronological_example : IsChronological 0 (sessions (run night fresh).1)
run-IsChronological_example = run-IsChronological night (some cli) 600 "/log.csv" true (omega arith)

run-IsConsistent_example :
    IsConsistent (run night fresh).0 × (((run night fresh).0.state ≢ listing) ⊎ Any IsBroken night)
run-IsConsistent_example = run-IsConsistent night (some cli) 600 "/log.csv" true
