-- ===== src/Agent/Storage/Fallback.antt =====
-- The relay stands in for the peer: what a relay that serves all chunks guarantees.
use hadcd_agent.Base.{
  ℕ, zero, suc, ◌≡◌, refl, sym, inl, inr, Bool, true, false, Option, none, some, List, [], ◌++◌,
  All, Bool-cases,
}
use mathlib.Core.List.{append_assoc, append-nil}
use hadcd_agent.Base.Text.{Text, text_eq_refl}
use hadcd_agent.Agent.Storage.{
  Bytes, File, staging_of, content_of, unlink, write, reply, await, Chunk, data_of, flush, receive,
  requests, Job, total_of, is_peer, World, ack, Outcome, acked, settle, download, fetch_from_peer,
  finish_relay, relay, after_report, continue_from, service_transfer_job,
}
use hadcd_agent.Agent.Storage.Files.{content_of-write, rename-moves}
use hadcd_agent.Agent.Storage.Transfer.{IsSound}
use hadcd_agent.Agent.Storage.Reports.{IsFetched, fetch-IsFetched}

-- A relay that answers each chunk with its part, while no sweep runs.
abbrev pub serving : (ℕ → Bytes) → ℕ → Chunk
serving part seq = record { meanwhile = none; answer = reply 200 (part seq) }

abbrev pub joined : (ℕ → Bytes) → ℕ → ℕ → Bytes
joined part zero seq = []
joined part (suc left) seq = part seq ++ joined part left (suc seq)

abbrev Received : Text → Bytes → List File × Option Bytes → Type 0
Received tmp all r = (r.1 ≡ some all) × (content_of tmp r.0 ≡ some all)

flush-here :
    (tmp : Text) (old b : Bytes) (fs : List File)
    → content_of tmp fs ≡ some old
    → content_of tmp (flush tmp b fs) ≡ some b
unfolding flush
flush-here tmp old b fs here = rw here (content_of-write tmp b fs)

receive-serving :
    (tmp : Text) (part : ℕ → Bytes) (left seq : ℕ) (written : Bytes) (fs : List File)
    → content_of tmp fs ≡ some written
    → Received tmp
        (written ++ joined part left seq)
        (receive tmp (requests (serving part) left seq) written fs)
unfolding receive requests data_of await
receive-serving tmp part zero seq written fs here = rw (append-nil written) (refl, here)
receive-serving tmp part (suc left) seq written fs here =
    rw (sym (append_assoc written (part seq) (joined part left (suc seq)))) (
      receive-serving tmp part left (suc seq) (written ++ part seq)
        (flush tmp (written ++ part seq) fs) (flush-here tmp written (written ++ part seq) fs here))

module _ (hash : Bytes → Text) where
  -- The file is in the pool with content of its hash, and nothing but acknowledgements was sent.
  abbrev pub IsStored : Text → Outcome → Type 0
  IsStored sha256 (fs, reports) =
      ((b : Bytes) × (content_of sha256 fs ≡ some b) × (hash b ≡ sha256))
      × All (λ r. r.post ≡ ack) reports

  settle-serving :
      (sha256 : Text) (all : Bytes) (r : List File × Option Bytes)
      → hash all ≡ sha256
      → Received (staging_of sha256) all r
      → settle hash sha256 r ≡ (write sha256 all (unlink (staging_of sha256) r.0), true)
  unfolding settle
  settle-serving sha256 all (fs, o) own (e, here) =
      rw (e, settle, own, text_eq_refl sha256, rename-moves (staging_of sha256) sha256 all fs here)
        refl

  pub download-serving :
      (sha256 : Text) (part : ℕ → Bytes) (n : ℕ) (fs : List File)
      → hash (joined part n 0) ≡ sha256
      → ((download hash sha256 (requests (serving part) n 0) fs).1 ≡ true)
        × (content_of sha256 (download hash sha256 (requests (serving part) n 0) fs).0
            ≡ some (joined part n 0))
  unfolding download
  download-serving sha256 part n fs own =
      let tmp = staging_of sha256 in
      let all = joined part n 0 in
      let got = receive tmp (requests (serving part) n 0) [] (write tmp [] fs) in
      let came : Received tmp all got =
        receive-serving tmp part n 0 [] (write tmp [] fs) (content_of-write tmp [] fs) in
      rw (settle-serving sha256 all got own came)
        (refl, content_of-write sha256 all (unlink tmp got.0))

  relay-IsStored :
      (job : Job) (w : World) (part : ℕ → Bytes) (fs : List File)
      → w.chunk ≡ serving part
      → w.is_acked ≡ true
      → hash (joined part (total_of job.chunks_total) 0) ≡ job.sha256
      → IsStored job.sha256 (relay hash job w fs)
  unfolding relay download finish_relay
  relay-IsStored job w part fs serves acks own =
      let tmp = staging_of job.sha256 in
      let n = total_of job.chunks_total in
      let all = joined part n 0 in
      let got = receive tmp (requests (serving part) n 0) [] (write tmp [] fs) in
      let came : Received tmp all got =
        receive-serving tmp part n 0 [] (write tmp [] fs) (content_of-write tmp [] fs) in
      rw (serves, acks, settle-serving job.sha256 all got own came)
        ((all, content_of-write job.sha256 all (unlink tmp got.0), own), (refl, tt))

  after_report-IsStored :
      (sha256 : Text) (fs : List File) (o : Outcome)
      → IsStored sha256 o
      → IsStored sha256 (after_report (acked fs) o)
  after_report-IsStored sha256 fs (gs, reports) (here, acks) = (here, (refl, acks))

  continue_from-IsStored :
      (job : Job) (w : World) (part : ℕ → Bytes) (r : List File × Option Bool)
      → w.chunk ≡ serving part
      → w.is_acked ≡ true
      → hash (joined part (total_of job.chunks_total) 0) ≡ job.sha256
      → IsFetched hash job.sha256 r
      → IsStored job.sha256 (continue_from hash job w r)
  unfolding continue_from
  continue_from-IsStored job w part (fs, none) serves acks own h =
      relay-IsStored job w part (unlink (staging_of job.sha256) fs) serves acks own
  continue_from-IsStored job w part (fs, some false) serves acks own h =
      relay-IsStored job w part fs serves acks own
  continue_from-IsStored job w part (fs, some true) serves acks own (s, held, clean) =
      elim (Bool-cases w.is_peer_acked) [
        | inl sent ↦ rw (continue_from, sent) (held, (refl, tt))
        | inr lost ↦
            rw (continue_from, lost)
              (let rest = unlink (staging_of job.sha256) fs in
                after_report-IsStored job.sha256 fs (relay hash job w rest)
                  (relay-IsStored job w part rest serves acks own))
      ]

  -- Into a sound pool that has not the file, and whose directory is there: where the relay serves every
  -- chunk, of a file of the job's hash, no sweep runs meanwhile and its acknowledgement is sent, the
  -- file is stored and no error is posted, whatever the peer does: not there, another status, a
  -- broken stream, other content, a lost acknowledgement.
  pub relay_stores :
      (job : Job) (w : World) (part : ℕ → Bytes) (fs : List File)
      → w.is_made ≡ true
      → IsSound hash fs
      → content_of job.sha256 fs ≡ none
      → w.chunk ≡ serving part
      → w.is_acked ≡ true
      → hash (joined part (total_of job.chunks_total) 0) ≡ job.sha256
      → IsStored job.sha256 (service_transfer_job hash job w fs)
  unfolding service_transfer_job
  relay_stores job w part fs made s new serves acks own =
      elim (Bool-cases (is_peer job.source_ip w.own_ip)) [
        | inl peer ↦
            rw (service_transfer_job, made, new, peer)
              (continue_from-IsStored job w part
                (fetch_from_peer hash job.sha256 w.peer_status w.pieces fs) serves acks own
                (fetch-IsFetched hash job.sha256 w.peer_status w.pieces fs s))
        | inr alone ↦
            rw (service_transfer_job, made, new, alone)
              (relay-IsStored job w part fs serves acks own)
      ]
