-- ===== src/Agent/Rentals.antt =====
-- `RentalSessionHandler` (agent/rental_session_handler.py): which tasks a heartbeat's session list
-- starts, and what each does to the handler when it ends. Tasks of several heartbeats overlap.
pub mod Guards
pub mod Start
use hadcd_agent.Base.{
  String, Bool, true, false, not, ◌&&◌, Option, none, some, List, [], ◌∷◌, ◌++◌, str_eq,
  if◌then◌else◌,
}
use hadcd_agent.Agent.State.{contains}

-- The keys of `_active`, whose values no code reads, and the two sets; then the tasks in flight, in the
-- order they were made: starts and teardowns that have not done with Docker, `posting` the teardowns
-- that await `_post_stopped`, reconciliations that await the search, and `losing` those that await
-- `_post_lost`.
pub record Handler : Type 0 where
  pub active : List String
  pub reconciling : List String
  pub stopping : List String
  pub starts : List String
  pub reconciles : List String
  pub losing : List String
  pub stops : List String
  pub posting : List String

-- `session_id` as `str` gives it, and `status`.
pub record Entry : Type 0 where
  pub session_id : String
  pub status : String

-- `set.discard`, `dict.pop`
unfoldable pub discard : String → List String → List String
discard k [] = []
discard k (j ∷ js) = elim (str_eq j k) [ true ↦ discard k js | false ↦ j ∷ discard k js ]

unfoldable pub insert : String → List String → List String
insert k js = if contains k js then js else k ∷ js

-- The body of the loop in `handle_sessions`.
unfoldable pub handle_entry : Entry → Handler → Handler
handle_entry e h =
    if str_eq e.status "starting" && not (contains e.session_id h.active)
    then record h { starts = h.starts ++ (e.session_id ∷ []) }
    else if str_eq e.status "active" && not (contains e.session_id h.reconciling)
    then record h {
      reconciling = e.session_id ∷ h.reconciling;
      reconciles = h.reconciles ++ (e.session_id ∷ []);
    }
    else if str_eq e.status "stopping" && not (contains e.session_id h.stopping)
    then record h { stopping = e.session_id ∷ h.stopping; stops = h.stops ++ (e.session_id ∷ []) }
    else h

unfoldable pub handle_sessions : List Entry → Handler → Handler
unfolding handle_entry
handle_sessions [] h = h
handle_sessions (e ∷ es) h = handle_sessions es (handle_entry e h)

-- One task leaves a list of those in flight.
unfoldable pub land : String → List String → List String
land k [] = []
land k (j ∷ js) = elim (str_eq j k) [ true ↦ js | false ↦ j ∷ land k js ]

-- What the handler posts to the dispatcher.
pub data Post : Type 0 where
  activate stopped lost : String → Post

-- Whether the container came up; the post is the last thing that the task does.
unfoldable pub start_session : Bool → String → Handler → Handler × List Post
unfolding insert land
start_session up sid h =
    let flown = record h { starts = land sid h.starts } in
    if up
    then (record flown { active = insert sid flown.active }, activate sid ∷ [])
    else (flown, [])

-- Up to the post, which the task then awaits; the same whatever Docker answers.
unfoldable pub stop_session : String → Handler → Handler × List Post
unfolding discard land
stop_session sid h = (
  record h {
    active = discard sid h.active;
    stopping = discard sid h.stopping;
    stops = land sid h.stops;
    posting = h.posting ++ (sid ∷ []);
  },
  stopped sid ∷ [],
)

-- What the search for a running container of the session's name comes to.
pub data Found : Type 0 where
  is_running is_absent unknown : Found

-- An absent container is posted as lost, and the set keeps the session until the post is answered.
unfoldable pub reconcile_active_session : Found → String → Handler → Handler × List Post
unfolding discard insert land
reconcile_active_session is_running sid h = (
  record h {
    active = insert sid h.active;
    reconciling = discard sid h.reconciling;
    reconciles = land sid h.reconciles;
  },
  [],
)
reconcile_active_session is_absent sid h = (
  record h {
    active = discard sid h.active;
    reconciles = land sid h.reconciles;
    losing = sid ∷ h.losing;
  },
  lost sid ∷ [],
)
reconcile_active_session unknown sid h =
    (record h { reconciling = discard sid h.reconciling; reconciles = land sid h.reconciles }, [])

-- The `finally` block after `_post_lost`.
unfoldable pub finish_lost : String → Handler → Handler
unfolding discard land
finish_lost sid h = record h { reconciling = discard sid h.reconciling; losing = land sid h.losing }

unfoldable pub finish_stop : String → Handler → Handler
unfolding land
finish_stop sid h = record h { posting = land sid h.posting }

-- A heartbeat; what Docker comes to in a task; a post that has been answered, or has failed.
pub data Event : Type 0 where
  beat : List Entry → Event
  started : Bool → String → Event
  ended told_stopped told_lost : String → Event
  reconciled : Found → String → Event

-- A task goes on only while it is in flight; any other event is no event.
unfoldable pub step : Event → Handler → Handler × List Post
unfolding handle_sessions start_session stop_session reconcile_active_session finish_lost
    finish_stop
step (beat es) h = (handle_sessions es h, [])
step (started up sid) h = if contains sid h.starts then start_session up sid h else (h, [])
step (ended sid) h = if contains sid h.stops then stop_session sid h else (h, [])
step (told_stopped sid) h = (if contains sid h.posting then finish_stop sid h else h, [])
step (told_lost sid) h = (if contains sid h.losing then finish_lost sid h else h, [])
step (reconciled f sid) h =
    if contains sid h.reconciles then reconcile_active_session f sid h else (h, [])

unfoldable pub run : List Event → Handler → Handler
unfolding step
run [] h = h
run (ev ∷ evs) h = run evs (step ev h).0
