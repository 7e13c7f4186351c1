-- ===== src/Agent/Work.antt =====
-- One offloaded task (`_run_assignment`, `_post_result` and `_post_heat_session` of agent/agent.py,
-- `run` of agent/executor.py): what is downloaded, mounted, run, uploaded, removed and posted.
mod Results
mod Names
mod Cleanup
mod Tests
unfoldable pub use Results.*
use hadcd_agent.Base.{
  ℕ, ◌*◌, String, Bool, true, false, not, ◌&&◌, ◌||◌, Option, none, some, List, [], ◌∷◌, ◌++◌,
  if◌then◌else◌, is_some, str_eq,
}
use hadcd_agent.Base.Json.{
  Decimal, Value, null, bool, num, str, arr, obj, Items, nil, cons, Fields, end, field, lookup,
  get_or, truthy,
}
use hadcd_agent.Base.Int.{pos}
use hadcd_agent.Base.Text.{Text, text_eq, codes}
use hadcd_agent.Agent.Blobs.{Spec, slash, safe_blob_name, name_of}
use hadcd_agent.Agent.Work.Results.{
  TaskOutcome, Handled, handled, failed, cancelled, run, Result, HeatSession, set_key, with_blobs,
  is_fill, heat_session,
}

-- A bind mount of the container; `base` is the path of the directory that is mounted from.
pub record Volume : Type 0 where
  pub host_path : Text
  pub container_path : Text
  pub read_only : Bool

-- A spec with its `container_path`, if it names one.
pub record Input : Type 0 where
  pub spec : Spec
  pub container_path : Option Text

-- `assignment["payload"]`: the type, `input_blobs`, whether `output_paths` is set, the volumes, and
-- the estimated power. A power is a number of watts.
pub record Task : Type 0 where
  pub task_type : Option String
  pub inputs : List Input
  pub wants_output : Bool
  pub volumes : List Volume
  pub estimated_power_w : ℕ

-- What a client call does: it returns, raises BlobClientError, or raises something else (or the task
-- is cancelled).
pub data Reply (A : Type 0) : Type 0 where
  gives : A → Reply A
  blob_error : Reply A
  raises : Reply A

-- What a task meets from `mkdtemp` on. Each flag says that a step does not raise: the two `mkdir`, the
-- list of the volumes, and the wait for `_post_result` that refuses the task, which a cancellation
-- ends. A cancellation in the posts after the `finally` is left out.
pub record World : Type 0 where
  pub makes_input : Bool
  pub download : Reply (Unit {0})
  pub lists_volumes : Bool
  pub makes_output : Bool
  pub is_refused : Bool
  pub handler : Handled
  pub upload : Reply (List Value)
  pub average_watts : Option ℕ

-- `removes_dir` is the call `rmtree(…, ignore_errors=True)`, and a post is the call that sends it.
pub data Effect : Type 0 where
  makes_dir : Effect
  downloads : List Spec → Effect
  runs : List Volume → Bool → Effect
  uploads : Effect
  removes_dir : Effect
  posts : Result → Effect
  posts_session : HeatSession → Effect
  collects : Effect

-- What was done, and whether an exception leaves the method.
pub record Trace : Type 0 where
  pub effects : List Effect
  pub is_raised : Bool

abbrev pub after : List Effect → Trace → Trace
after es t = record t { effects = es ++ t.effects }

-- `spec["filename"] = safe_blob_name(spec.get("filename"), str(spec.get("blob_id")))`
unfoldable pub normalise : Input → Input
normalise i = record i { spec = record i.spec { filename = some (name_of i.spec) } }

unfoldable pub normalise_all : List Input → List Input
unfolding normalise
normalise_all [] = []
normalise_all (i ∷ is) = normalise i ∷ normalise_all is

abbrev pub specs_of : List Input → List Spec
specs_of [] = []
specs_of (i ∷ is) = i.spec ∷ specs_of is

-- `spec.get("filename") or spec["blob_id"]`
unfoldable pub blob_filename : Spec → Text
blob_filename s = elim s.filename [
  | none ↦ s.blob_id
  | some name ↦ if text_eq name [] then s.blob_id else name
]

unfoldable pub volume_of : Text → Input → Volume
unfolding blob_filename
volume_of input_dir i = record {
  host_path = input_dir ++ (slash ∷ blob_filename i.spec);
  container_path = elim i.container_path [
    | none ↦ codes "/input/" ++ blob_filename i.spec
    | some path ↦ path
  ];
  read_only = true;
}

unfoldable pub volumes_of : Text → List Input → List Volume
unfolding volume_of
volumes_of input_dir [] = []
volumes_of input_dir (i ∷ is) = volume_of input_dir i ∷ volumes_of input_dir is

-- The measured average stands in for the estimate where there is one.
unfoldable pub power_of : Task → World → ℕ
power_of task w = elim w.average_watts [ none ↦ task.estimated_power_w | some p ↦ p ]

abbrev pub energy_of : World → TaskOutcome → Option ℕ
energy_of w o = elim w.average_watts [ none ↦ none | some p ↦ some (p * o.duration_sec) ]

-- The session of a fill task that succeeded and whose result has a start and an end.
unfoldable pub session_of : Task → World → TaskOutcome → List Effect
unfolding heat_session
session_of task w o = elim task.task_type [
  | none ↦ []
  | some t ↦ elim o.result [
    | none ↦ []
    | some fs ↦
        if o.success
          && is_fill (some t)
          && is_some (lookup "session_start" fs)
          && is_some (lookup "session_end" fs)
        then posts_session (heat_session t fs (energy_of w o)) ∷ []
        else []
  ]
]

-- From the result's payload on.
unfoldable pub report : Task → World → TaskOutcome → List Value → List Effect
unfolding power_of with_blobs session_of
report task w o blobs =
    posts (record {
      power_w = power_of task w;
      duration_sec = o.duration_sec;
      success = o.success;
      result = if o.success then with_blobs blobs o.result else none;
      error = if o.success then none else o.error;
    })
    ∷ (session_of task w o ++ (collects ∷ []))

abbrev pub ends : List Effect → Trace
ends es = record { effects = es; is_raised = false }

abbrev pub raised : List Effect → Trace
raised es = record { effects = es; is_raised = true }

-- The `finally`: the directory is removed where there is one.
abbrev pub removal : Bool → List Effect
removal has_dir = if has_dir then removes_dir ∷ [] else []

-- After the reply to the upload.
unfoldable pub finish_upload : Task → World → Bool → TaskOutcome → Reply (List Value) → Trace
unfolding report
finish_upload task w has_dir o (gives ids) =
    ends (uploads ∷ (removal has_dir ++ report task w o ids))
finish_upload task w has_dir o blob_error = ends (uploads ∷ (removal has_dir ++ report task w o []))
finish_upload task w has_dir o raises = raised (uploads ∷ removal has_dir)

-- After the handler: an outcome, or none for a cancellation.
unfoldable pub finish_handler : Task → World → Bool → Bool → Option TaskOutcome → Trace
unfolding finish_upload report
finish_handler task w has_dir has_output none = raised (removal has_dir)
finish_handler task w has_dir has_output (some o) =
    if has_output && o.success
    then finish_upload task w has_dir o w.upload
    else ends (removal has_dir ++ report task w o [])

-- `has_output` says that there is a directory for outputs.
unfoldable pub run_handler : Task → World → Bool → Bool → List Volume → Trace
unfolding run finish_handler
run_handler task w has_dir has_output volumes =
    after (runs volumes has_output ∷ []) (finish_handler task w has_dir has_output (run w.handler))

abbrev pub refusal : Task → Result
refusal task = record {
  power_w = task.estimated_power_w;
  duration_sec = 0;
  success = false;
  result = none;
  error = some "blob download failed";
}

unfoldable pub refuse : Task → World → Trace
refuse task w =
    if w.is_refused
    then ends (posts (refusal task) ∷ removes_dir ∷ [])
    else raised (posts (refusal task) ∷ [])

-- The directory for outputs, where the task wants one, in the directory that is there.
unfoldable pub prepare_output : Task → World → List Volume → Trace
unfolding run_handler
prepare_output task w volumes =
    if task.wants_output
    then (if w.makes_output then run_handler task w true true volumes else raised [])
    else run_handler task w true false volumes

-- After the reply to the downloads.
unfoldable pub finish_download : Task → World → Text → List Input → Reply (Unit {0}) → Trace
unfolding refuse prepare_output volumes_of
finish_download task w input_dir inputs (gives u) =
    if w.lists_volumes
    then prepare_output task w (task.volumes ++ volumes_of input_dir inputs)
    else raised []
finish_download task w input_dir inputs blob_error = refuse task w
finish_download task w input_dir inputs raises = raised []

abbrev pub is_container : Option String → Bool
is_container none = false
is_container (some t) = str_eq t "container"

-- What is prepared for a container: nothing, a directory, or a directory with the inputs.
unfoldable pub prepare : Task → World → Text → List Input → Trace
unfolding finish_download prepare_output run_handler
prepare task w input_dir [] =
    if task.wants_output
    then after (makes_dir ∷ []) (prepare_output task w task.volumes)
    else run_handler task w false false task.volumes
prepare task w input_dir (i ∷ is) =
    if w.makes_input
    then after (makes_dir ∷ downloads (specs_of (i ∷ is)) ∷ [])
        (finish_download task w input_dir (i ∷ is) w.download)
    else raised (makes_dir ∷ [])

-- `input_dir` is the path of the directory for inputs.
unfoldable pub run_assignment : Task → World → Text → Trace
unfolding prepare run_handler normalise_all
run_assignment task w input_dir = elim (is_container task.task_type) [
  | true ↦ prepare task w input_dir (normalise_all task.inputs)
  | false ↦ run_handler task w false false task.volumes
]
