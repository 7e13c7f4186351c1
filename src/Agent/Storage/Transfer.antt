-- ===== src/Agent/Storage/Transfer.antt =====
-- What every transfer keeps of the pool, and what a job reports of it.
use hadcd_agent.Base.{
  ◌≡◌, sym, ap, ◌∙◌, ◌⊎◌, inl, inr, Bool, true, false, ◌&&◌, Option, none, some, List, [], ◌∷◌,
  ◌++◌, All, Bool-cases, Option-cases,
}
use mathlib.Core.Option.{some-ne-none}
use hadcd_agent.Base.Text.{Text, text_eq, text_eq_sound, text_eq_sym}
use hadcd_agent.Agent.Storage.{
  Bytes, File, is_staging, staging_of, content_of, unlink, write, is_stale, sweep, Sweep, await,
  Chunk, data_of, flush, receive, settle, download,
}
use hadcd_agent.Agent.Storage.Files.{
  staging_of-IsStaging, staging_of-other, content_of-write, content_of-write_other,
  content_of-unlink, rename-moves, rename-fails,
}

module _ (hash : Bytes → Text) where
  -- A staging file, or a file that is named by the hash of what it holds.
  abbrev pub IsNamed : File → Type 0
  IsNamed f = (is_staging f.name ≡ true) ⊎ (hash f.content ≡ f.name)

  abbrev pub IsSound : List File → Type 0
  IsSound fs = All IsNamed fs

  pub content_of-IsNamed :
      (name : Text) (fs : List File) (b : Bytes)
      → IsSound fs
      → content_of name fs ≡ some b
      → (is_staging name ≡ true) ⊎ (hash b ≡ name)
  unfolding content_of
  content_of-IsNamed name [] b s e = elim (some-ne-none b (sym e)) [ ]
  content_of-IsNamed name (f ∷ fs) b (n, s) e = elim (Bool-cases (text_eq f.name name)) [
    | inl same ↦
        let held : f.content ≡ b =
          ap (λ o. elim o [ none ↦ b | some c ↦ c ]) (rw (content_of, same) at e) in
        rw (sym (text_eq_sound f.name name same), sym held) n
    | inr other ↦ content_of-IsNamed name fs b s (rw (content_of, other) at e)
  ]

  pub unlink-IsSound : (name : Text) (fs : List File) → IsSound fs → IsSound (unlink name fs)
  unfolding unlink
  unlink-IsSound name [] s = tt
  unlink-IsSound name (f ∷ fs) (n, s) = elim (Bool-cases (text_eq f.name name)) [
    | inl e ↦ rw e (unlink-IsSound name fs s)
    | inr e ↦ rw e (n, unlink-IsSound name fs s)
  ]

  write-IsSound :
      (name : Text) (b : Bytes) (fs : List File)
      → (is_staging name ≡ true) ⊎ (hash b ≡ name)
      → IsSound fs
      → IsSound (write name b fs)
  unfolding write
  write-IsSound name b fs h s = (h, unlink-IsSound name fs s)

  pub sweep-IsSound : (w : Sweep) (fs : List File) → IsSound fs → IsSound (sweep w fs)
  unfolding sweep
  sweep-IsSound w [] s = tt
  sweep-IsSound w (f ∷ fs) (n, s) =
      elim (Bool-cases (is_stale w.active f.name && w.removable f.name)) [
        | inl d ↦ rw d (sweep-IsSound w fs s)
        | inr d ↦ rw d (n, sweep-IsSound w fs s)
      ]

  await-IsSound : (m : Option Sweep) (fs : List File) → IsSound fs → IsSound (await m fs)
  unfolding await
  await-IsSound none fs s = s
  await-IsSound (some w) fs s = sweep-IsSound w fs s

  -- While a staging file is written it holds what was written, unless it is gone.
  abbrev Follows : Text → Bytes → List File → Type 0
  Follows tmp written fs = (content_of tmp fs ≡ none) ⊎ (content_of tmp fs ≡ some written)

  flush-Follows : (tmp : Text) (b : Bytes) (fs : List File) → Follows tmp b (flush tmp b fs)
  unfolding flush
  flush-Follows tmp b fs = elim (Option-cases (content_of tmp fs)) [
    | inl gone ↦ rw gone (inl gone)
    | inr (c, here) ↦ rw here (inr (content_of-write tmp b fs))
  ]

  flush-IsSound :
      (name : Text) (b : Bytes) (fs : List File)
      → IsSound fs
      → IsSound (flush (staging_of name) b fs)
  unfolding flush
  flush-IsSound name b fs s = elim (Option-cases (content_of (staging_of name) fs)) [
    | inl gone ↦ rw gone s
    | inr (c, here) ↦
        rw here (write-IsSound (staging_of name) b fs (inl (staging_of-IsStaging name)) s)
  ]

  -- What a loop over chunks leaves.
  abbrev IsReceived : Text → List File × Option Bytes → Type 0
  IsReceived name (fs, none) = IsSound fs
  IsReceived name (fs, some written) = IsSound fs × Follows (staging_of name) written fs

  receive-IsReceived :
      (name : Text) (cs : List Chunk) (written : Bytes) (fs : List File)
      → IsSound fs
      → Follows (staging_of name) written fs
      → IsReceived name (receive (staging_of name) cs written fs)
  unfolding receive
  receive-IsReceived name [] written fs s f = (s, f)
  receive-IsReceived name (c ∷ cs) written fs s f = elim (Option-cases (data_of c.answer)) [
    | inl fails ↦ rw (receive, fails) (await-IsSound c.meanwhile fs s)
    | inr (b, comes) ↦
        rw (receive, comes)
          (receive-IsReceived name cs (written ++ b)
            (flush (staging_of name) (written ++ b) (await c.meanwhile fs))
            (flush-IsSound name (written ++ b) (await c.meanwhile fs)
              (await-IsSound c.meanwhile fs s))
            (flush-Follows (staging_of name) (written ++ b) (await c.meanwhile fs)))
  ]

  -- A file that is stored is there, with content of its hash.
  abbrev pub IsSettled : Text → List File × Bool → Type 0
  IsSettled sha256 (fs, false) = IsSound fs
  IsSettled sha256 (fs, true) =
      IsSound fs
      × ((b : Bytes) × (content_of sha256 fs ≡ some b) × (hash b ≡ sha256))
      × (content_of (staging_of sha256) fs ≡ none)

  rename-IsSettled :
      (sha256 : Text) (written : Bytes) (fs : List File)
      → IsSound fs
      → Follows (staging_of sha256) written fs
      → IsSettled sha256 (settle hash sha256 (fs, some written))
  unfolding settle
  rename-IsSettled sha256 written fs s f = elim (Bool-cases (text_eq (hash written) sha256)) [
    | inr other ↦ rw (settle, other) s
    | inl same ↦ elim f [
      | inl gone ↦ rw (settle, same, rename-fails (staging_of sha256) sha256 fs gone) s
      | inr here ↦
          let own = text_eq_sound (hash written) sha256 same in
          let left = unlink (staging_of sha256) fs in
          rw (settle, same, rename-moves (staging_of sha256) sha256 written fs here)
            (
              write-IsSound sha256 written left (inr own) (unlink-IsSound (staging_of sha256) fs s),
              (written, content_of-write sha256 written left, own),
              content_of-write_other (staging_of sha256) sha256 written left
                    (text_eq_sym sha256 (staging_of sha256) ∙ staging_of-other sha256)
                  ∙ content_of-unlink (staging_of sha256) fs,
            )
    ]
  ]

  settle-IsSettled :
      (sha256 : Text) (r : List File × Option Bytes)
      → IsReceived sha256 r
      → IsSettled sha256 (settle hash sha256 r)
  unfolding settle
  settle-IsSettled sha256 (fs, none) s = s
  settle-IsSettled sha256 (fs, some written) (s, f) = rename-IsSettled sha256 written fs s f

  pub download-IsSettled :
      (sha256 : Text) (cs : List Chunk) (fs : List File)
      → IsSound fs
      → IsSettled sha256 (download hash sha256 cs fs)
  unfolding download
  download-IsSettled sha256 cs fs s =
      let tmp = staging_of sha256 in
      settle-IsSettled sha256 (receive tmp cs [] (write tmp [] fs)) (
        receive-IsReceived sha256 cs [] (write tmp [] fs)
          (write-IsSound tmp [] fs (inl (staging_of-IsStaging sha256)) s)
          (inr (content_of-write tmp [] fs)))
