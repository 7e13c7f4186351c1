-- ===== src/Agent/MediaSync/Containment.antt =====
-- Where the queue of media models can write (`_sync_media_models` of agent/agent.py).
use hadcd_agent.Base.{
  ◌≡◌, refl, sym, ap, ◌∙◌, ◌⊎◌, inl, inr, Bool, true, false, ◌&&◌, ◌||◌, none, some, List, [], ◌∷◌,
  arith, Bool-cases,
}
use mathlib.Core.Bool.{false≢true}
use hadcd_agent.Base.Text.{Text, text_eq, text_eq_sound, strip, drop_while}
use hadcd_agent.Agent.MediaSync.{
  Segments, is_within, part_of, Bytes, Spec, Fetch, no_directory, download_fails, downloads, Files,
  path_eq, content_of, remove, write, Sync, fetch, is_present, is_slash, unless_raised, place,
  sync_spec, sync_all, sync_media_models,
}

and-false : (a : Bool) → (a && false) ≡ true → false ≡ true
and-false true e = e
and-false false e = e

-- The part file of a destination below the root lies below it too, but for the root itself.
part-within :
    (root dest : Segments)
    → is_within root dest ≡ true
    → (dest ≡ root) ⊎ (is_within root (part_of dest) ≡ true)
unfolding is_within part_of
part-within [] [] w = inl refl
part-within [] (b ∷ path) w = inr refl
part-within (a ∷ root) [] w = absurd (false≢true w)
part-within (a ∷ []) (b ∷ []) w =
    let same : text_eq a b ≡ true = ground arith in
    inl (ap (λ x. x ∷ []) (sym (text_eq_sound a b same)))
part-within (a ∷ c ∷ root) (b ∷ []) w = absurd (false≢true (and-false (text_eq a b) w))
part-within (a ∷ root) (b ∷ c ∷ path) w =
    let same : text_eq a b ≡ true = ground arith in
    let below : is_within root (c ∷ path) ≡ true = ground arith in
    elim (part-within root (c ∷ path) below) [
      | inl e ↦ inl (ap (λ x. x ∷ c ∷ path) (sym (text_eq_sound a b same)) ∙ ap (λ q. a ∷ q) e)
      | inr w ↦ inr (rw (same, w) refl)
    ]

path_eq_sound : (p q : Segments) → path_eq p q ≡ true → p ≡ q
unfolding path_eq
path_eq_sound [] [] e = refl
path_eq_sound [] (b ∷ q) e = absurd (false≢true e)
path_eq_sound (a ∷ p) [] e = absurd (false≢true e)
path_eq_sound (a ∷ p) (b ∷ q) e =
    let first : text_eq a b ≡ true = ground arith in
    let rest : path_eq p q ≡ true = ground arith in
    ap (λ x. x ∷ p) (text_eq_sound a b first) ∙ ap (λ r. b ∷ r) (path_eq_sound p q rest)

content_of-remove_other :
    (p q : Segments) (files : Files)
    → path_eq q p ≡ false
    → content_of p (remove q files) ≡ content_of p files
unfolding content_of remove
content_of-remove_other p q [] h = refl
content_of-remove_other p q ((r, n) ∷ files) h = elim (Bool-cases (path_eq r q)) [
  | inl gone ↦
      let apart : path_eq r p ≡ false = rw (path_eq_sound r q gone) h in
      rw (gone, content_of, apart) (content_of-remove_other p q files h)
  | inr kept ↦ elim (Bool-cases (path_eq r p)) [
    | inl here ↦ rw (kept, content_of, here) refl
    | inr there ↦ rw (kept, content_of, there) (content_of-remove_other p q files h)
  ]
]

content_of-write_other :
    (p q : Segments) (b : Bytes) (files : Files)
    → path_eq q p ≡ false
    → content_of p (write q b files) ≡ content_of p files
unfolding content_of write
content_of-write_other p q b files h = rw (content_of, h) (content_of-remove_other p q files h)

-- `plain` says that no part file below the root, or of the root, is a link.
module _ (resolve : Text → Segments) (follow : Segments → Segments) (root p : Segments)
    (plain : (q : Segments) → is_within root q ≡ true → follow (part_of q) ≡ part_of q)
    (outside : is_within root p ≡ false) (other : path_eq (part_of root) p ≡ false) where
  -- A path below the root is not `p`.
  below_apart : (q : Segments) → is_within root q ≡ true → path_eq q p ≡ false
  below_apart q w = elim (Bool-cases (path_eq q p)) [
    | inl same ↦
        absurd (false≢true (sym outside ∙ ap (is_within root) (sym (path_eq_sound q p same)) ∙ w))
    | inr apart ↦ apart
  ]

  part_apart : (dest : Segments) → is_within root dest ≡ true → path_eq (part_of dest) p ≡ false
  part_apart dest w = elim (part-within root dest w) [
    | inl e ↦ rw e other
    | inr below ↦ below_apart (part_of dest) below
  ]

  content_of-part :
      (dest : Segments) (b : Bytes) (files : Files)
      → is_within root dest ≡ true
      → content_of p (remove (part_of dest) (write (follow (part_of dest)) b files))
        ≡ content_of p files
  content_of-part dest b files w =
      content_of-remove_other p (part_of dest) (write (follow (part_of dest)) b files)
        (part_apart dest w)
      ∙ content_of-write_other p (follow (part_of dest)) b files
          (ap (λ q. path_eq q p) (plain dest w) ∙ part_apart dest w)

  content_of-fetch :
      (dest : Segments) (answer : Fetch) (s : Sync)
      → is_within root dest ≡ true
      → content_of p (fetch follow dest answer s).files ≡ content_of p s.files
  unfolding fetch
  content_of-fetch dest no_directory s w = refl
  content_of-fetch dest (download_fails none) s w =
      content_of-remove_other p (part_of dest) s.files (part_apart dest w)
  content_of-fetch dest (download_fails (some b)) s w = content_of-part dest b s.files w
  content_of-fetch dest (downloads b) s w =
      let rest = remove (part_of dest) (write (follow (part_of dest)) b s.files) in
      content_of-write_other p dest b rest (below_apart dest w) ∙ content_of-part dest b s.files w

  content_of-place :
      (dest : Segments) (answer : Fetch) (s : Sync)
      → content_of p (place resolve follow root dest answer s).files ≡ content_of p s.files
  unfolding place
  content_of-place dest answer s = elim (Bool-cases (is_within root dest)) [
    | inr out ↦ rw (place, out) refl
    | inl within ↦ elim (Bool-cases (is_present (content_of dest s.files))) [
      | inl present ↦ rw (place, within, present) refl
      | inr absent ↦ rw (place, within, absent) (content_of-fetch dest answer s within)
    ]
  ]

  content_of-sync_spec :
      (spec : Spec) (answer : Fetch) (s : Sync)
      → content_of p (sync_spec resolve follow root spec answer s).files ≡ content_of p s.files
  unfolding sync_spec
  content_of-sync_spec none answer s = refl
  content_of-sync_spec (some (url, rel_path)) answer s =
      elim (Bool-cases
        (text_eq (strip url) [] || text_eq (drop_while is_slash (strip rel_path)) [])) [
          | inl blank ↦ rw (sync_spec, blank) refl
          | inr filled ↦
              rw (sync_spec, filled)
                (content_of-place (resolve (drop_while is_slash (strip rel_path))) answer s)
        ]

  content_of-unless :
      (b : Bool) (s next : Sync)
      → content_of p next.files ≡ content_of p s.files
      → content_of p (unless_raised b s next).files ≡ content_of p s.files
  unfolding unless_raised
  content_of-unless true s next e = refl
  content_of-unless false s next e = e

  content_of-sync_all :
      (queue : List (Spec × Fetch)) (s : Sync)
      → content_of p (sync_all resolve follow root queue s).files ≡ content_of p s.files
  unfolding sync_all
  content_of-sync_all [] s = refl
  content_of-sync_all ((spec, answer) ∷ queue) s =
      content_of-unless s.has_raised s
        (sync_all resolve follow root queue (sync_spec resolve follow root spec answer s))
        (content_of-sync_all queue (sync_spec resolve follow root spec answer s)
          ∙ content_of-sync_spec spec answer s)

  -- Whatever the queue names, wherever its names resolve, and however the downloads end: a file that
  -- is neither below the directory for the models nor that directory's own part file keeps what it
  -- holds, if none of the part files is a symbolic link.
  pub sync-IsContained :
      (setting : Text) (queue : List (Spec × Fetch)) (files : Files)
      → content_of p (sync_media_models resolve follow setting root queue files).files
        ≡ content_of p files
  unfolding sync_media_models
  sync-IsContained setting queue files = elim (Bool-cases (text_eq (strip setting) [])) [
    | inl unset ↦ rw (sync_media_models, unset) refl
    | inr named ↦
        rw (sync_media_models, named)
          (content_of-sync_all queue (record { files = files; has_raised = false }))
  ]
