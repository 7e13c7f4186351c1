-- ===== src/Agent/Work/Cleanup.antt =====
-- That a task's directory is removed and its result posted (`_run_assignment` of agent/agent.py).
use hadcd_agent.Base.{
  ℕ, suc, ◌≡◌, refl, sym, ap, inl, inr, String, Bool, true, false, ◌&&◌, Option, none, some, List,
  [], ◌∷◌, ◌++◌, Bool-cases, Option-cases, if◌then◌else◌, is_some,
}
use mathlib.Core.Path.{subst}
use hadcd_agent.Base.Json.{Value, Fields, lookup}
use hadcd_agent.Base.Text.{Text}
use hadcd_agent.Agent.Work.{
  Task, TaskOutcome, World, Input, Volume, Reply, gives, blob_error, raises, run, Effect, makes_dir,
  downloads, runs, uploads, removes_dir, posts, posts_session, collects, Trace, normalise_all,
  after, session_of, report, ends, removal, finish_upload, finish_handler, run_handler, refuse,
  prepare_output, finish_download, is_container, is_fill, prepare, run_assignment, volumes_of,
}

-- Whether there is a directory that was not given to `rmtree`, and how many results are posted.
abbrev pub is_left : Bool → List Effect → Bool
is_left has_dir [] = has_dir
is_left has_dir (makes_dir ∷ es) = is_left true es
is_left has_dir (removes_dir ∷ es) = is_left false es
is_left has_dir (downloads s ∷ es) = is_left has_dir es
is_left has_dir (runs v o ∷ es) = is_left has_dir es
is_left has_dir (uploads ∷ es) = is_left has_dir es
is_left has_dir (posts r ∷ es) = is_left has_dir es
is_left has_dir (posts_session s ∷ es) = is_left has_dir es
is_left has_dir (collects ∷ es) = is_left has_dir es

abbrev pub results : List Effect → ℕ
results [] = 0
results (posts r ∷ es) = suc (results es)
results (makes_dir ∷ es) = results es
results (removes_dir ∷ es) = results es
results (downloads s ∷ es) = results es
results (runs v o ∷ es) = results es
results (uploads ∷ es) = results es
results (posts_session s ∷ es) = results es
results (collects ∷ es) = results es

-- From a directory that is there or not: none is left, and one result is posted unless it raises.
abbrev pub IsTidy : Bool → Trace → Type 0
IsTidy has_dir t =
    (is_left has_dir t.effects ≡ false) × (results t.effects ≡ (if t.is_raised then 0 else 1))

abbrev is_session : String → Fields → TaskOutcome → Bool
is_session t fs o =
    o.success
    && is_fill (some t)
    && is_some (lookup "session_start" fs)
    && is_some (lookup "session_end" fs)

session-IsQuiet :
    (task : Task) (w : World) (o : TaskOutcome) (es : List Effect)
    → (is_left false (session_of task w o ++ es) ≡ is_left false es)
      × (results (session_of task w o ++ es) ≡ results es)
unfolding session_of
session-IsQuiet task w o es = elim (Option-cases task.task_type) [
  | inl no_type ↦ rw (session_of, no_type) (refl, refl)
  | inr (t, typed) ↦ elim (Option-cases o.result) [
    | inl no_result ↦ rw (session_of, typed, no_result) (refl, refl)
    | inr (fs, has) ↦ elim (Bool-cases (is_session t fs o)) [
      | inl posted ↦ rw (session_of, typed, has, posted) (refl, refl)
      | inr none_posted ↦ rw (session_of, typed, has, none_posted) (refl, refl)
    ]
  ]
]

report-IsTidy :
    (has_dir : Bool) (task : Task) (w : World) (o : TaskOutcome) (blobs : List Value)
    → IsTidy has_dir (ends (removal has_dir ++ report task w o blobs))
unfolding report
report-IsTidy true task w o blobs =
    let (a, b) = session-IsQuiet task w o (collects ∷ []) in (a, ap suc b)
report-IsTidy false task w o blobs =
    let (a, b) = session-IsQuiet task w o (collects ∷ []) in (a, ap suc b)

upload-IsTidy :
    (has_dir : Bool) (task : Task) (w : World) (o : TaskOutcome) (reply : Reply (List Value))
    → IsTidy has_dir (finish_upload task w has_dir o reply)
unfolding finish_upload
upload-IsTidy has_dir task w o (gives ids) = report-IsTidy has_dir task w o ids
upload-IsTidy has_dir task w o blob_error = report-IsTidy has_dir task w o []
upload-IsTidy true task w o raises = (refl, refl)
upload-IsTidy false task w o raises = (refl, refl)

handler-IsTidy :
    (has_dir has_output : Bool) (task : Task) (w : World) (outcome : Option TaskOutcome)
    → IsTidy has_dir (finish_handler task w has_dir has_output outcome)
unfolding finish_handler
handler-IsTidy true has_output task w none = (refl, refl)
handler-IsTidy false has_output task w none = (refl, refl)
handler-IsTidy has_dir has_output task w (some o) = elim (Bool-cases (has_output && o.success)) [
  | inl sends ↦ rw (finish_handler, sends) (upload-IsTidy has_dir task w o w.upload)
  | inr keeps ↦ rw (finish_handler, keeps) (report-IsTidy has_dir task w o [])
]

run-IsTidy :
    (has_dir has_output : Bool) (task : Task) (w : World) (volumes : List Volume)
    → IsTidy has_dir (run_handler task w has_dir has_output volumes)
unfolding run_handler
run-IsTidy has_dir has_output task w volumes =
    handler-IsTidy has_dir has_output task w (run w.handler)

-- Every exception of the download is a BlobClientError.
abbrev pub IsPlainReply : Reply (Unit {0}) → Type 0
IsPlainReply (gives u) = Unit
IsPlainReply blob_error = Unit
IsPlainReply raises = ⊥

-- What stands between the making of the directory and the `try` that removes it does not raise, but
-- for a BlobClientError of the download.
abbrev pub IsSteady : World → Type 0
IsSteady w =
    IsPlainReply w.download
    × (w.makes_input ≡ true)
    × (w.lists_volumes ≡ true)
    × (w.makes_output ≡ true)
    × (w.is_refused ≡ true)

output-IsTidy :
    (task : Task) (w : World) (volumes : List Volume)
    → w.makes_output ≡ true
    → IsTidy true (prepare_output task w volumes)
unfolding prepare_output
output-IsTidy task w volumes made = elim (Bool-cases task.wants_output) [
  | inl out ↦ rw (prepare_output, out, made) (run-IsTidy true true task w volumes)
  | inr nothing ↦ rw (prepare_output, nothing) (run-IsTidy true false task w volumes)
]

download-IsTidy :
    (task : Task) (w : World) (input_dir : Text) (is : List Input) (reply : Reply (Unit {0}))
    → IsPlainReply reply
    → w.lists_volumes ≡ true
    → w.makes_output ≡ true
    → w.is_refused ≡ true
    → IsTidy true (finish_download task w input_dir is reply)
unfolding finish_download refuse
download-IsTidy task w input_dir is (gives u) p lists made sent =
    rw (finish_download, lists)
      (output-IsTidy task w (task.volumes ++ volumes_of input_dir is) made)
download-IsTidy task w input_dir is blob_error p lists made sent =
    rw (finish_download, refuse, sent) (refl, refl)
download-IsTidy task w input_dir is raises p lists made sent = elim p [ ]

prepare-IsTidy :
    (task : Task) (w : World) (input_dir : Text) (is : List Input)
    → IsSteady w
    → IsTidy false (prepare task w input_dir is)
unfolding prepare
prepare-IsTidy task w input_dir [] (p, input, lists, made, sent) =
    elim (Bool-cases task.wants_output) [
      | inl out ↦
          let whole : Trace = after (makes_dir ∷ []) (prepare_output task w task.volumes) in
          let bare : Trace = run_handler task w false false task.volumes in
          let end : prepare task w input_dir [] ≡ whole = ap (λ b. if b then whole else bare) out in
          subst (IsTidy false) (sym end) (output-IsTidy task w task.volumes made)
      | inr nothing ↦ rw (prepare, nothing) (run-IsTidy false false task w task.volumes)
    ]
prepare-IsTidy task w input_dir (i ∷ is) (p, input, lists, made, sent) =
    rw (prepare, input) (download-IsTidy task w input_dir (i ∷ is) w.download p lists made sent)

-- Let nothing between the making of the directory and the `try` raise but a BlobClientError of the
-- download: neither another exception of the download, nor one of the two `mkdir`, nor the list of
-- the volumes, nor a cancellation while the refusal of the task is posted. Then a task gives its
-- directory to `rmtree`, on success, on failure and on cancellation, and posts exactly one result, or
-- none where an exception ends it.
pub run_assignment-IsTidy :
    (task : Task) (w : World) (input_dir : Text)
    → IsSteady w
    → IsTidy false (run_assignment task w input_dir)
unfolding run_assignment
run_assignment-IsTidy task w input_dir p = elim (Bool-cases (is_container task.task_type)) [
  | inl inside ↦
      rw (run_assignment, inside) (prepare-IsTidy task w input_dir (normalise_all task.inputs) p)
  | inr outside ↦ rw (run_assignment, outside) (run-IsTidy false false task w task.volumes)
]

-- A download that raises something else (a cancellation, or a spec without its id) leaves the
-- directory there and posts no result.
download_raises_leaks :
    (task : Task) (w : World) (input_dir : Text) (i : Input) (is : List Input)
    → is_container task.task_type ≡ true
    → task.inputs ≡ i ∷ is
    → w.makes_input ≡ true
    → w.download ≡ raises
    → (is_left false (run_assignment task w input_dir).effects ≡ true)
      × (results (run_assignment task w input_dir).effects ≡ 0)
unfolding run_assignment prepare finish_download normalise_all
download_raises_leaks task w input_dir i is inside some_e input bad =
    rw (run_assignment, inside, some_e, normalise_all, prepare, input, bad) (refl, refl)

-- A cancellation while the refusal is posted leaves it there too.
refusal_cancelled_leaks :
    (task : Task) (w : World) (input_dir : Text) (i : Input) (is : List Input)
    → is_container task.task_type ≡ true
    → task.inputs ≡ i ∷ is
    → w.makes_input ≡ true
    → w.download ≡ blob_error
    → w.is_refused ≡ false
    → is_left false (run_assignment task w input_dir).effects ≡ true
unfolding run_assignment prepare finish_download refuse normalise_all
refusal_cancelled_leaks task w input_dir i is inside some_e input bad ends_early =
    rw (run_assignment, inside, some_e, normalise_all, prepare, input, bad, refuse, ends_early) refl
