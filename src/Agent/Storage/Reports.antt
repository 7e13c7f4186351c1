-- ===== src/Agent/Storage/Reports.antt =====
-- What a job tells the backend is so, and what it leaves; the pool over any run of both loops.
use hadcd_agent.Base.{
  ℕ, ◌≡◌, refl, ◌⊎◌, inl, inr, Bool, true, false, Option, none, some, List, [], ◌∷◌, All,
  Bool-cases, Option-cases, ◌==◌,
}
use hadcd_agent.Base.Text.{Text}
use hadcd_agent.Agent.Storage.{
  Bytes, File, is_staging, staging_of, content_of, unlink, Sweep, collect, Chunk, requests, Job,
  total_of, is_peer, World, error, Report, Outcome, acked, download, returned, fetch_from_peer,
  finish_relay, relay, after_report, continue_from, service_transfer_job, service_all, Pass,
  transfers, collection, pass, passes,
}
use hadcd_agent.Agent.Storage.Transfer.{
  IsSound, IsSettled, content_of-IsNamed, unlink-IsSound, sweep-IsSound, download-IsSettled,
}
use hadcd_agent.Agent.Storage.Files.{content_of-unlink}

module _ (hash : Bytes → Text) where
  -- What is reported: an acknowledged file is there, under the name that is its hash.
  abbrev pub IsTrue : Text → Report → Type 0
  IsTrue sha256 r =
      (r.post ≡ error)
      ⊎ ((b : Bytes) × (content_of sha256 r.pool ≡ some b)
          × ((is_staging sha256 ≡ true) ⊎ (hash b ≡ sha256)))

  abbrev pub IsReported : Text → Outcome → Type 0
  IsReported sha256 (fs, reports) = IsSound hash fs × All (IsTrue sha256) reports

  -- The same, and no staging file is left.
  abbrev IsFinished : Text → Outcome → Type 0
  IsFinished sha256 (fs, reports) =
      IsReported sha256 (fs, reports) × (content_of (staging_of sha256) fs ≡ none)

  finish_relay-IsFinished :
      (sha256 : Text) (acks : Bool) (r : List File × Bool)
      → IsSettled hash sha256 r
      → IsFinished sha256 (finish_relay hash sha256 acks r)
  unfolding finish_relay
  finish_relay-IsFinished sha256 acks (fs, false) s = (
    (unlink-IsSound hash (staging_of sha256) fs s, (inl refl, tt)),
    content_of-unlink (staging_of sha256) fs,
  )
  finish_relay-IsFinished sha256 true (fs, true) (s, (b, here, own), clean) =
      ((s, (inr (b, here, inr own), tt)), clean)
  finish_relay-IsFinished sha256 false (fs, true) (s, (b, here, own), clean) = (
    (unlink-IsSound hash (staging_of sha256) fs s, (inr (b, here, inr own), (inl refl, tt))),
    content_of-unlink (staging_of sha256) fs,
  )

  relay-IsFinished :
      (job : Job) (w : World) (fs : List File)
      → IsSound hash fs
      → IsFinished job.sha256 (relay hash job w fs)
  unfolding relay
  relay-IsFinished job w fs s =
      let cs = requests w.chunk (total_of job.chunks_total) 0 in
      finish_relay-IsFinished job.sha256 w.is_acked (download hash job.sha256 cs fs)
        (download-IsSettled hash job.sha256 cs fs s)

  -- What the peer's part leaves.
  abbrev pub IsFetched : Text → List File × Option Bool → Type 0
  IsFetched sha256 (fs, none) = IsSound hash fs
  IsFetched sha256 (fs, some false) = IsSound hash fs
  IsFetched sha256 (fs, some true) = IsSettled hash sha256 (fs, true)

  returned-IsFetched :
      (sha256 : Text) (r : List File × Bool)
      → IsSettled hash sha256 r
      → IsFetched sha256 (returned r)
  returned-IsFetched sha256 (fs, true) s = s
  returned-IsFetched sha256 (fs, false) s = s

  pub fetch-IsFetched :
      (sha256 : Text) (status : Option ℕ) (cs : List Chunk) (fs : List File)
      → IsSound hash fs
      → IsFetched sha256 (fetch_from_peer hash sha256 status cs fs)
  unfolding fetch_from_peer
  fetch-IsFetched sha256 none cs fs s = s
  fetch-IsFetched sha256 (some status) cs fs s = elim (Bool-cases (status == 200)) [
    | inl ok ↦
        rw (fetch_from_peer, ok)
          (returned-IsFetched sha256 (download hash sha256 cs fs)
            (download-IsSettled hash sha256 cs fs s))
    | inr refused ↦ rw (fetch_from_peer, refused) s
  ]

  after_report-IsFinished :
      (sha256 : Text) (r : Report) (o : Outcome)
      → IsTrue sha256 r
      → IsFinished sha256 o
      → IsFinished sha256 (after_report r o)
  after_report-IsFinished sha256 r (fs, reports) t ((s, ts), clean) = ((s, (t, ts)), clean)

  continue_from-IsFinished :
      (job : Job) (w : World) (r : List File × Option Bool)
      → IsFetched job.sha256 r
      → IsFinished job.sha256 (continue_from hash job w r)
  unfolding continue_from
  continue_from-IsFinished job w (fs, none) s =
      relay-IsFinished job w (unlink (staging_of job.sha256) fs)
        (unlink-IsSound hash (staging_of job.sha256) fs s)
  continue_from-IsFinished job w (fs, some false) s = relay-IsFinished job w fs s
  continue_from-IsFinished job w (fs, some true) (s, (b, here, own), clean) =
      let t : IsTrue job.sha256 (acked fs) = inr (b, here, inr own) in
      elim (Bool-cases w.is_peer_acked) [
        | inl sent ↦ rw (continue_from, sent) ((s, (t, tt)), clean)
        | inr lost ↦
            rw (continue_from, lost)
              (let rest = unlink (staging_of job.sha256) fs in
                after_report-IsFinished job.sha256 (acked fs) (relay hash job w rest) t
                  (relay-IsFinished job w rest (unlink-IsSound hash (staging_of job.sha256) fs s)))
      ]

  fetched-IsFinished :
      (job : Job) (w : World) (fs : List File)
      → w.is_made ≡ true
      → content_of job.sha256 fs ≡ none
      → IsSound hash fs
      → IsFinished job.sha256 (service_transfer_job hash job w fs)
  unfolding service_transfer_job
  fetched-IsFinished job w fs made new s = elim (Bool-cases (is_peer job.source_ip w.own_ip)) [
    | inl peer ↦
        rw (service_transfer_job, made, new, peer)
          (continue_from-IsFinished job w
            (fetch_from_peer hash job.sha256 w.peer_status w.pieces fs)
            (fetch-IsFetched job.sha256 w.peer_status w.pieces fs s))
    | inr alone ↦ rw (service_transfer_job, made, new, alone) (relay-IsFinished job w fs s)
  ]

  -- Whatever the peer, the relay and the sweeps in between do, a job keeps every file of the pool
  -- named by its hash, and acknowledges only a file that is then in the pool.
  pub service-IsReported :
      (job : Job) (w : World) (fs : List File)
      → IsSound hash fs
      → IsReported job.sha256 (service_transfer_job hash job w fs)
  unfolding service_transfer_job
  service-IsReported job w fs s = elim (Bool-cases w.is_made) [
    | inr barred ↦ rw (service_transfer_job, barred) (s, tt)
    | inl made ↦ elim (Option-cases (content_of job.sha256 fs)) [
      | inl new ↦ (fetched-IsFinished job w fs made new s).0
      | inr (b, here) ↦
          rw (service_transfer_job, made, here)
            (s, (inr (b, here, content_of-IsNamed hash job.sha256 fs b s here), tt))
    ]
  ]

  -- A job that had to fetch its file leaves no staging file, however it ends.
  service_cleans :
      (job : Job) (w : World) (fs : List File)
      → w.is_made ≡ true
      → content_of job.sha256 fs ≡ none
      → IsSound hash fs
      → content_of (staging_of job.sha256) (service_transfer_job hash job w fs).0 ≡ none
  service_cleans job w fs made new s = (fetched-IsFinished job w fs made new s).1

  service_all-IsSound :
      (js : List (Option (Bool × Job × World))) (fs : List File)
      → IsSound hash fs
      → IsSound hash (service_all hash js fs).0
  unfolding service_all
  service_all-IsSound [] fs s = s
  service_all-IsSound (none ∷ js) fs s = s
  service_all-IsSound (some (true, job, w) ∷ js) fs s = s
  service_all-IsSound (some (false, job, w) ∷ js) fs s =
      service_all-IsSound js (service_transfer_job hash job w fs).0
        (service-IsReported job w fs s).0

  collect-IsSound :
      (status : Option ℕ) (w : Sweep) (fs : List File)
      → IsSound hash fs
      → IsSound hash (collect status w fs)
  unfolding collect
  collect-IsSound none w fs s = s
  collect-IsSound (some status) w fs s = elim (Bool-cases (status == 200)) [
    | inl ok ↦ rw (collect, ok) (sweep-IsSound hash w fs s)
    | inr other ↦ rw (collect, other) s
  ]

  -- Over any run of both loops, whatever the backend and the peers answer, a file of the pool that
  -- is not a staging file stays named by the hash of what it holds.
  pub passes-IsSound :
      (ps : List Pass) (fs : List File) → IsSound hash fs → IsSound hash (passes hash ps fs)
  unfolding passes pass
  passes-IsSound [] fs s = s
  passes-IsSound (transfers none jobs ∷ ps) fs s = passes-IsSound ps fs s
  passes-IsSound (transfers (some status) jobs ∷ ps) fs s = elim (Bool-cases (status == 200)) [
    | inl ok ↦
        rw (passes, pass, ok)
          (passes-IsSound ps (service_all hash jobs fs).0 (service_all-IsSound jobs fs s))
    | inr other ↦ rw (passes, pass, other) (passes-IsSound ps fs s)
  ]
  passes-IsSound (collection status w ∷ ps) fs s =
      passes-IsSound ps (collect status w fs) (collect-IsSound status w fs s)
