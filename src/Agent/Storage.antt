-- ===== src/Agent/Storage.antt =====
-- The storage pool (`_service_transfer_job`, `_fetch_from_peer`, `_storage_gc_loop` of
-- agent/agent.py): a directory of files named by the hash of what they hold, filled by transfers
-- from a peer or through the relay, and swept. The modules below prove what holds of it.
mod Pool
mod Files
mod Transfer
mod Reports
mod Fallback
mod Collection
mod Server
mod Tests
unfoldable pub use Pool.*
use hadcd_agent.Base.{
  ℕ, zero, suc, Bool, true, false, not, ◌&&◌, ◌||◌, Option, none, some, List, [], ◌∷◌, ◌++◌,
  if◌then◌else◌, ◌==◌, length, is_some, any,
}
use hadcd_agent.Base.Text.{Text, text_eq}
use hadcd_agent.Agent.Storage.Pool.{
  Bytes, File, Sweep, staging_of, content_of, exists, unlink, write, rename, sweep, collect,
}

-- A request or a write that raises, or a status with what came.
pub data Answer : Type 0 where
  raises : Answer
  reply : ℕ → Bytes → Answer

-- What a transfer awaits: the sweep that runs meanwhile, if one does, and the answer.
pub record Chunk : Type 0 where
  pub meanwhile : Option Sweep
  pub answer : Answer

unfoldable pub await : Option Sweep → List File → List File
unfolding sweep
await none fs = fs
await (some s) fs = sweep s fs

unfoldable pub data_of : Answer → Option Bytes
data_of raises = none
data_of (reply status bytes) = if status == 200 then some bytes else none

-- What the open handle has written shows under the staging name, unless that was unlinked.
unfoldable pub flush : Text → Bytes → List File → List File
unfolding content_of write
flush tmp written fs = if exists tmp fs then write tmp written fs else fs

-- The loop that writes the chunks as they come: all of it, or none for an exception.
unfoldable pub receive : Text → List Chunk → Bytes → List File → List File × Option Bytes
unfolding await data_of flush
receive tmp [] written fs = (fs, some written)
receive tmp (c ∷ cs) written fs = elim (data_of c.answer) [
  | none ↦ (await c.meanwhile fs, none)
  | some bytes ↦
      receive tmp cs (written ++ bytes) (flush tmp (written ++ bytes) (await c.meanwhile fs))
]

-- `seq in range(chunks_total)`
unfoldable pub requests : (ℕ → Chunk) → ℕ → ℕ → List Chunk
requests chunk zero seq = []
requests chunk (suc left) seq = chunk seq ∷ requests chunk left (suc seq)

pub record Job : Type 0 where
  pub sha256 : Text
  pub chunks_total : Option ℕ
  pub source_ip : Option Text

-- `int(job.get("chunks_total") or 1)`
unfoldable pub total_of : Option ℕ → ℕ
total_of none = 1
total_of (some n) = if n == 0 then 1 else n

-- `source_ip and source_ip != own_ts_ip`
unfoldable pub is_peer : Option Text → Option Text → Bool
is_peer none own = false
is_peer (some ip) none = not (text_eq ip [])
is_peer (some ip) (some own) = not (text_eq ip []) && not (text_eq ip own)

-- What the job meets: whether the directory is there, the peer's status (none: it raises) and its
-- stream, the relay's chunks, and whether each acknowledgement is sent without an exception.
pub record World : Type 0 where
  pub is_made : Bool
  pub own_ip : Option Text
  pub peer_status : Option ℕ
  pub pieces : List Chunk
  pub chunk : ℕ → Chunk
  pub is_peer_acked : Bool
  pub is_acked : Bool

pub data Post : Type 0 where
  ack : Post
  error : Post

-- A request to the backend, with the directory at that moment.
pub record Report : Type 0 where
  pub post : Post
  pub pool : List File

abbrev pub Outcome : Type 0
Outcome = List File × List Report

abbrev pub acked : List File → Report
acked fs = record { post = ack; pool = fs }

abbrev pub failed : List File → Report
failed fs = record { post = error; pool = fs }

-- `some` of what it returns, or none where it raises.
abbrev pub returned : List File × Bool → List File × Option Bool
returned (fs, true) = (fs, some true)
returned (fs, false) = (fs, none)

abbrev pub after_report : Report → Outcome → Outcome
after_report r (fs, reports) = (fs, r ∷ reports)

-- One body of either loop; a poll has the status of its response, or none for an exception.
pub data Pass : Type 0 where
  transfers : Option ℕ → List (Option (Bool × Job × World)) → Pass
  collection : Option ℕ → Sweep → Pass

-- `hash` is the hexadecimal SHA-256 of what was written.
module _ (hash : Bytes → Text) where
  -- The comparison and the rename; whether the file is stored, `false` for an exception.
  unfoldable pub settle : Text → List File × Option Bytes → List File × Bool
  unfolding rename
  settle sha256 (fs, none) = (fs, false)
  settle sha256 (fs, some written) = elim (text_eq (hash written) sha256) [
    | true ↦ elim (rename (staging_of sha256) sha256 fs) [
      | none ↦ (fs, false)
      | some moved ↦ (moved, true)
    ]
    | false ↦ (fs, false)
  ]

  unfoldable pub download : Text → List Chunk → List File → List File × Bool
  unfolding settle receive write
  download sha256 chunks fs =
      settle sha256 (receive (staging_of sha256) chunks [] (write (staging_of sha256) [] fs))

  unfoldable pub fetch_from_peer :
      Text → Option ℕ → List Chunk → List File → List File × Option Bool
  unfolding download
  fetch_from_peer sha256 none pieces fs = (fs, none)
  fetch_from_peer sha256 (some status) pieces fs = elim (status == 200) [
    | true ↦ returned (download sha256 pieces fs)
    | false ↦ (fs, some false)
  ]

  -- The relay's part, its handler included.
  unfoldable pub finish_relay : Text → Bool → List File × Bool → Outcome
  unfolding unlink
  finish_relay sha256 acks (fs, true) = elim acks [
    | true ↦ (fs, acked fs ∷ [])
    | false ↦
        (unlink (staging_of sha256) fs, acked fs ∷ failed (unlink (staging_of sha256) fs) ∷ [])
  ]
  finish_relay sha256 acks (fs, false) =
      (unlink (staging_of sha256) fs, failed (unlink (staging_of sha256) fs) ∷ [])

  unfoldable pub relay : Job → World → List File → Outcome
  unfolding finish_relay download requests
  relay job w fs =
      finish_relay job.sha256 w.is_acked
        (download job.sha256 (requests w.chunk (total_of job.chunks_total) 0) fs)

  -- What follows the peer's part: an end, or the relay.
  unfoldable pub continue_from : Job → World → List File × Option Bool → Outcome
  unfolding relay unlink
  continue_from job w (fs, none) = relay job w (unlink (staging_of job.sha256) fs)
  continue_from job w (fs, some false) = relay job w fs
  continue_from job w (fs, some true) = elim w.is_peer_acked [
    | true ↦ (fs, acked fs ∷ [])
    | false ↦ after_report (acked fs) (relay job w (unlink (staging_of job.sha256) fs))
  ]

  unfoldable pub service_transfer_job : Job → World → List File → Outcome
  unfolding continue_from fetch_from_peer
  service_transfer_job job w fs = elim w.is_made [
    | false ↦ (fs, [])
    | true ↦ elim (exists job.sha256 fs) [
      | true ↦ (fs, acked fs ∷ [])
      | false ↦ elim (is_peer job.source_ip w.own_ip) [
        | true ↦ continue_from job w (fetch_from_peer job.sha256 w.peer_status w.pieces fs)
        | false ↦ relay job w fs
      ]
    ]
  ]

  -- The jobs of one poll: `none` is one whose keys or numbers raise, which ends the poll; the flag is
  -- the stop event before the job.
  unfoldable pub service_all : List (Option (Bool × Job × World)) → List File → Outcome
  unfolding service_transfer_job
  service_all [] fs = (fs, [])
  service_all (none ∷ js) fs = (fs, [])
  service_all (some (true, job, w) ∷ js) fs = (fs, [])
  service_all (some (false, job, w) ∷ js) fs =
      let done = service_transfer_job job w fs in
      let rest = service_all js done.0 in (rest.0, done.1 ++ rest.1)

  unfoldable pub pass : Pass → List File → List File
  unfolding service_all collect
  pass (transfers none jobs) fs = fs
  pass (transfers (some status) jobs) fs = elim (status == 200) [
    | true ↦ (service_all jobs fs).0
    | false ↦ fs
  ]
  pass (collection status s) fs = collect status s fs

  unfoldable pub passes : List Pass → List File → List File
  unfolding pass
  passes [] fs = fs
  passes (p ∷ ps) fs = passes ps (pass p fs)
