-- ===== src/Agent/Storage/Collection.antt =====
-- What a sweep (`_storage_gc_loop`) does to a transfer that is under way.
use hadcd_agent.Base.{
  ◌≡◌, refl, ◌∙◌, ◌⊎◌, inl, inr, Bool, true, false, Option, none, some, List, [], ◌∷◌, ◌++◌, Any,
  Bool-cases, Option-cases,
}
use mathlib.Core.Bool.{true≢false}
use mathlib.Core.Option.{some-ne-none}
use hadcd_agent.Base.Text.{Text, text_eq}
use hadcd_agent.Agent.Storage.{
  Bytes, File, staging_of, content_of, unlink, write, is_stale, sweep, Sweep, await, Chunk, data_of,
  flush, receive, requests, Job, total_of, is_peer, World, failed, settle, download, finish_relay,
  relay, service_transfer_job,
}
use hadcd_agent.Agent.Storage.Files.{
  staging_of-IsStaging, content_of-sweep, sweep-gone, rename-fails,
}

-- A chunk during which a sweep runs that may remove the file.
abbrev pub IsSwept : Text → Chunk → Type 0
IsSwept tmp c = (s : Sweep) × (c.meanwhile ≡ some s) × (s.removable tmp ≡ true)

-- The loop raised, or its file is gone.
abbrev IsLost : Text → List File × Option Bytes → Type 0
IsLost tmp r = (r.1 ≡ none) ⊎ (content_of tmp r.0 ≡ none)

sweep-staging :
    (s : Sweep) (name : Text) (fs : List File)
    → s.removable (staging_of name) ≡ true
    → content_of (staging_of name) (sweep s fs) ≡ none
unfolding is_stale
sweep-staging s name fs lets =
    content_of-sweep s (staging_of name) fs ∙ rw (staging_of-IsStaging name, lets) refl

await-gone :
    (m : Option Sweep) (tmp : Text) (fs : List File)
    → content_of tmp fs ≡ none
    → content_of tmp (await m fs) ≡ none
unfolding await
await-gone none tmp fs gone = gone
await-gone (some s) tmp fs gone = sweep-gone s tmp fs gone

flush-gone :
    (tmp : Text) (b : Bytes) (fs : List File)
    → content_of tmp fs ≡ none
    → content_of tmp (flush tmp b fs) ≡ none
unfolding flush
flush-gone tmp b fs gone = rw gone gone

receive-gone :
    (tmp : Text) (cs : List Chunk) (written : Bytes) (fs : List File)
    → content_of tmp fs ≡ none
    → IsLost tmp (receive tmp cs written fs)
unfolding receive
receive-gone tmp [] written fs gone = inr gone
receive-gone tmp (c ∷ cs) written fs gone = elim (Option-cases (data_of c.answer)) [
  | inl fails ↦ rw (receive, fails) (inl refl)
  | inr (b, comes) ↦
      rw (receive, comes)
        (receive-gone tmp cs (written ++ b) (flush tmp (written ++ b) (await c.meanwhile fs)) (
          flush-gone tmp (written ++ b) (await c.meanwhile fs)
            (await-gone c.meanwhile tmp fs gone)))
]

receive-swept :
    (name : Text) (cs : List Chunk) (written : Bytes) (fs : List File)
    → Any (IsSwept (staging_of name)) cs
    → IsLost (staging_of name) (receive (staging_of name) cs written fs)
unfolding receive await
receive-swept name [] written fs swept = elim swept [ ]
receive-swept name (c ∷ cs) written fs swept =
    let tmp = staging_of name in
    elim (Option-cases (data_of c.answer)) [
      | inl fails ↦ rw (receive, fails) (inl refl)
      | inr (b, comes) ↦ elim swept [
        | inl (s, here, lets) ↦
            rw (receive, comes)
              (receive-gone tmp cs (written ++ b) (flush tmp (written ++ b) (await c.meanwhile fs))
                (flush-gone tmp (written ++ b) (await c.meanwhile fs)
                  (rw (here, await) (sweep-staging s name fs lets))))
        | inr later ↦
            rw (receive, comes)
              (receive-swept name cs (written ++ b)
                (flush tmp (written ++ b) (await c.meanwhile fs)) later)
      ]
    ]

module _ (hash : Bytes → Text) where
  settle-lost :
      (sha256 : Text) (r : List File × Option Bytes)
      → IsLost (staging_of sha256) r
      → (settle hash sha256 r).1 ≡ false
  unfolding settle
  settle-lost sha256 (fs, none) h = refl
  settle-lost sha256 (fs, some all) (inl bad) = elim (some-ne-none all bad) [ ]
  settle-lost sha256 (fs, some all) (inr gone) = elim (Bool-cases (text_eq (hash all) sha256)) [
    | inl same ↦ rw (settle, same, rename-fails (staging_of sha256) sha256 fs gone) refl
    | inr other ↦ rw (settle, other) refl
  ]

  finish_relay-failed :
      (sha256 : Text) (acks : Bool) (r : List File × Bool)
      → r.1 ≡ false
      → (finish_relay hash sha256 acks r).1 ≡ failed (unlink (staging_of sha256) r.0) ∷ []
  unfolding finish_relay
  finish_relay-failed sha256 acks (fs, true) bad = elim (true≢false bad) [ ]
  finish_relay-failed sha256 acks (fs, false) e = refl

  -- Where the pool's directory is there without the file, and no peer is tried, a sweep that may remove the staging file,
  -- and that runs while the relay awaits any one of its chunks, fails the transfer: whatever the
  -- relay serves, the one thing posted is an error.
  pub swept_transfer_fails :
      (job : Job) (w : World) (fs : List File)
      → w.is_made ≡ true
      → content_of job.sha256 fs ≡ none
      → is_peer job.source_ip w.own_ip ≡ false
      → Any (IsSwept (staging_of job.sha256)) (requests w.chunk (total_of job.chunks_total) 0)
      → (left : List File) × ((service_transfer_job hash job w fs).1 ≡ failed left ∷ [])
  unfolding service_transfer_job relay download
  swept_transfer_fails job w fs made new alone swept =
      let tmp = staging_of job.sha256 in
      let cs = requests w.chunk (total_of job.chunks_total) 0 in
      let got = receive tmp cs [] (write tmp [] fs) in
      rw (service_transfer_job, made, new, alone)
        (
          unlink tmp (settle hash job.sha256 got).0,
          finish_relay-failed job.sha256 w.is_acked (settle hash job.sha256 got)
              (settle-lost job.sha256 got (receive-swept job.sha256 cs [] (write tmp [] fs) swept)),
        )
