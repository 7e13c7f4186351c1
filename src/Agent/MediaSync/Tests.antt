-- ===== src/Agent/MediaSync/Tests.antt =====
-- A queue of two models, one of which climbs out of the directory; names resolve as they are split.
use hadcd_agent.Base.{◌≡◌, refl, some, List, [], ◌∷◌}
use hadcd_agent.Base.Text.{Text, codes, strip, is_space}
use hadcd_agent.Agent.MediaSync.{
  Segments, is_within, part_of, Spec, Fetch, downloads, Files, path_eq, content_of,
  sync_media_models,
}
use hadcd_agent.Agent.MediaSync.Containment.{sync-IsContained}

-- `x` is below the root, anything else is the file `/p`.
abbrev resolves : Text → Segments
resolves [] = codes "p" ∷ []
resolves (c ∷ []) = codes "m" ∷ (c ∷ []) ∷ []
resolves (c ∷ d ∷ s) = codes "p" ∷ []

-- No part file is a link.
abbrev unlinked : Segments → Segments
unlinked p = p

abbrev model_queue : List (Spec × Fetch)
model_queue =
    (some (codes "u", codes "/x"), downloads (codes "a"))
    ∷ (some (codes "u", codes "../p"), downloads (codes "b"))
    ∷ []

abbrev model_files : Files
model_files = (codes "p" ∷ [], codes "c") ∷ []

sync-IsContained_example :
    content_of
      (codes "p" ∷ [])
      (sync_media_models resolves unlinked
        (codes "/m")
        (codes "m" ∷ [])
        model_queue
        model_files).files
    ≡ content_of (codes "p" ∷ []) model_files
unfolding is_within path_eq part_of
sync-IsContained_example =
    sync-IsContained resolves unlinked (codes "m" ∷ []) (codes "p" ∷ []) (λ q w. refl) refl refl
      (codes "/m") model_queue model_files

synced :
    (sync_media_models resolves unlinked
      (codes "/m")
      (codes "m" ∷ [])
      model_queue
      model_files).files
    ≡ (codes "m" ∷ codes "x" ∷ [], codes "a") ∷ (codes "p" ∷ [], codes "c") ∷ []
unfolding sync_media_models is_within path_eq part_of content_of strip is_space
synced = refl
