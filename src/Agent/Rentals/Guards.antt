-- ===== src/Agent/Rentals/Guards.antt =====
-- No session is torn down or reconciled twice at once, however heartbeats and tasks overlap.
use hadcd_agent.Base.{
  ℕ, zero, suc, ◌+◌, ◌≡◌, ap, ◌∙◌, String, Bool, true, false, not, ◌&&◌, List, [], ◌∷◌, ◌++◌, arith,
  inl, inr, Bool-cases, str_eq, str_eq_iff, str_eq_refl,
}
use mathlib.Core.Bool.{false≢true}
use hadcd_agent.Agent.State.{contains}
use hadcd_agent.Agent.Rentals.{
  Handler, Entry, discard, handle_entry, handle_sessions, land, start_session, stop_session, Found,
  is_running, is_absent, unknown, reconcile_active_session, finish_lost, finish_stop, Event, beat,
  started, ended, told_stopped, told_lost, reconciled, step, run,
}

one : Bool → ℕ
one true = 1
one false = 0

-- How many tasks are in flight for a session.
unfoldable pub count : String → List String → ℕ
unfolding one
count s [] = 0
count s (j ∷ js) = one (str_eq j s) + count s js

-- For every session: one task in flight if it is in the set, and none if not.
unfoldable pub IsGuarded : List String → List String → Type 0
unfolding one
IsGuarded flight set = (s : String) → count s flight ≡ one (contains s set)

count-append :
    (s k : String) (js : List String) → count s (js ++ (k ∷ [])) ≡ count s js + one (str_eq k s)
unfolding count one
count-append s k [] = ground arith
count-append s k (j ∷ js) = grind (arith, count-append s k js)

same_as : (j k s : String) → str_eq j k ≡ true → str_eq j s ≡ str_eq k s
same_as j k s e = ap (λ x. str_eq x s) ((str_eq_iff j k).0 e)

same_to : (j k s : String) → str_eq k s ≡ true → str_eq j k ≡ str_eq j s
same_to j k s e = ap (λ x. str_eq j x) ((str_eq_iff k s).0 e)

contains-same :
    (j k : String) (js : List String) → str_eq j k ≡ true → contains j js ≡ contains k js
contains-same j k js e = ap (λ x. contains x js) ((str_eq_iff j k).0 e)

launch-at :
    (s k : String) (flight set : List String)
    → contains k set ≡ false
    → count s flight ≡ one (contains s set)
    → count s (flight ++ (k ∷ [])) ≡ one (contains s (k ∷ set))
unfolding contains one
launch-at s k flight set new g = grind (arith, count-append s k flight, contains-same k s set)

contains-discard :
    (s k : String) (js : List String)
    → contains s (discard k js) ≡ (not (str_eq k s) && contains s js)
unfolding contains discard
contains-discard s k [] = ground arith
contains-discard s k (j ∷ js) = grind (arith, same_as j k s, same_to j k s, contains-discard s k js)

count-land :
    (s k : String) (js : List String)
    → contains k js ≡ true
    → count s js ≡ one (str_eq k s) + count s (land k js)
unfolding contains land count one
count-land s k [] c = elim (false≢true c) [ ]
count-land s k (j ∷ js) c = grind (arith, same_as j k s, count-land s k js)

launch-IsGuarded :
    (k : String) (flight set : List String)
    → contains k set ≡ false
    → IsGuarded flight set
    → IsGuarded (flight ++ (k ∷ [])) (k ∷ set)
unfolding IsGuarded
launch-IsGuarded k flight set new g s = launch-at s k flight set new (g s)

land-at :
    (s k : String) (flight set : List String)
    → contains k flight ≡ true
    → count s flight ≡ one (contains s set)
    → count s (land k flight) ≡ one (contains s (discard k set))
unfolding one
land-at s k flight set flies g =
    grind (arith, contains-discard s k set, count-land s k flight flies)

land-IsGuarded :
    (k : String) (flight set : List String)
    → contains k flight ≡ true
    → IsGuarded flight set
    → IsGuarded (land k flight) (discard k set)
unfolding IsGuarded
land-IsGuarded k flight set flies g s = land-at s k flight set flies (g s)

-- The same for tasks in two stages.
unfoldable pub AreGuarded : List String → List String → List String → Type 0
unfolding one
AreGuarded flight later set = (s : String) → count s flight + count s later ≡ one (contains s set)

launch-AreGuarded :
    (k : String) (flight later set : List String)
    → contains k set ≡ false
    → AreGuarded flight later set
    → AreGuarded (flight ++ (k ∷ [])) later (k ∷ set)
unfolding AreGuarded contains one
launch-AreGuarded k flight later set new g s =
    grind (arith, g s, count-append s k flight, contains-same k s set)

first-AreGuarded :
    (k : String) (flight later set : List String)
    → contains k flight ≡ true
    → AreGuarded flight later set
    → AreGuarded (land k flight) later (discard k set)
unfolding AreGuarded one
first-AreGuarded k flight later set flies g s =
    grind (arith, g s, contains-discard s k set, count-land s k flight flies)

second-AreGuarded :
    (k : String) (flight later set : List String)
    → contains k later ≡ true
    → AreGuarded flight later set
    → AreGuarded flight (land k later) (discard k set)
unfolding AreGuarded one
second-AreGuarded k flight later set flies g s =
    grind (arith, g s, contains-discard s k set, count-land s k later flies)

move-AreGuarded :
    (k : String) (flight later set : List String)
    → contains k flight ≡ true
    → AreGuarded flight later set
    → AreGuarded (land k flight) (k ∷ later) set
unfolding AreGuarded count one
move-AreGuarded k flight later set flies g s = grind (arith, g s, count-land s k flight flies)

-- Teardowns up to their post, and reconciliations in both of their stages, are guarded.
abbrev pub IsSound : Handler → Type 0
IsSound h = IsGuarded h.stops h.stopping × AreGuarded h.reconciles h.losing h.reconciling

handle_entry-IsSound : (e : Entry) (h : Handler) → IsSound h → IsSound (handle_entry e h)
unfolding handle_entry
handle_entry-IsSound e h (st, rc) = grind (
  arith,
  launch-IsGuarded e.session_id h.stops h.stopping,
  launch-AreGuarded e.session_id h.reconciles h.losing h.reconciling,
)

handle_sessions-IsSound :
    (es : List Entry) (h : Handler) → IsSound h → IsSound (handle_sessions es h)
unfolding handle_sessions
handle_sessions-IsSound [] h ok = ok
handle_sessions-IsSound (e ∷ es) h ok =
    handle_sessions-IsSound es (handle_entry e h) (handle_entry-IsSound e h ok)

reconcile-IsSound :
    (f : Found) (sid : String) (h : Handler)
    → contains sid h.reconciles ≡ true
    → IsSound h
    → IsSound (reconcile_active_session f sid h).0
unfolding reconcile_active_session
reconcile-IsSound is_running sid h flies (st, rc) =
    (st, first-AreGuarded sid h.reconciles h.losing h.reconciling flies rc)
reconcile-IsSound is_absent sid h flies (st, rc) =
    (st, move-AreGuarded sid h.reconciles h.losing h.reconciling flies rc)
reconcile-IsSound unknown sid h flies (st, rc) =
    (st, first-AreGuarded sid h.reconciles h.losing h.reconciling flies rc)

step-IsSound : (ev : Event) (h : Handler) → IsSound h → IsSound (step ev h).0
unfolding step start_session stop_session finish_lost finish_stop
step-IsSound (beat es) h ok = handle_sessions-IsSound es h ok
step-IsSound (started up sid) h (st, rc) = ground arith
step-IsSound (ended sid) h (st, rc) = grind (arith, land-IsGuarded sid h.stops h.stopping)
step-IsSound (told_stopped sid) h (st, rc) = ground arith
step-IsSound (told_lost sid) h (st, rc) =
    grind (arith, second-AreGuarded sid h.reconciles h.losing h.reconciling)
step-IsSound (reconciled f sid) h ok = elim (Bool-cases (contains sid h.reconciles)) [
  | inl flies ↦ rw (step, flies) (reconcile-IsSound f sid h flies ok)
  | inr landed ↦ rw (step, landed) ok
]

-- From a handler with guarded tasks, over any run of heartbeats and of tasks that go on in any order:
-- for every session at most one teardown that has not done with Docker yet (one that only awaits its
-- post to the dispatcher is not counted) and at most one reconciliation are in flight, one exactly
-- while the session is in the set that guards it.
pub run-IsSound : (evs : List Event) (h : Handler) → IsSound h → IsSound (run evs h)
unfolding run
run-IsSound [] h ok = ok
run-IsSound (ev ∷ evs) h ok = run-IsSound evs (step ev h).0 (step-IsSound ev h ok)

-- `n` heartbeats with the same list.
unfoldable pub repeat : ℕ → List Entry → List Event
repeat zero es = []
repeat (suc n) es = beat es ∷ repeat n es

unguarded_entry :
    (e : Entry) (h : Handler)
    → str_eq e.status "starting" ≡ true
    → contains e.session_id h.active ≡ false
    → (count e.session_id (handle_entry e h).starts ≡ count e.session_id h.starts + 1)
      × ((handle_entry e h).active ≡ h.active)
unfolding handle_entry one
unguarded_entry e h st new =
    grind (arith, count-append e.session_id e.session_id h.starts, str_eq_refl e.session_id)

-- A start is not guarded so: a session that is to start and is not active yet gets one more start
-- task from every heartbeat that comes before the first one ends.
starts_pile_up :
    (n : ℕ) (e : Entry) (h : Handler)
    → str_eq e.status "starting" ≡ true
    → contains e.session_id h.active ≡ false
    → count e.session_id (run (repeat n (e ∷ [])) h).starts ≡ count e.session_id h.starts + n
unfolding run repeat step handle_sessions
starts_pile_up zero e h st new = ground arith
starts_pile_up (suc n) e h st new =
    let (more, same) = unguarded_entry e h st new in
    starts_pile_up n e (handle_entry e h) st (rw same new) ∙ rw more (ground arith)
