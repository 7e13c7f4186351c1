-- ===== src/Agent/ImageCache/Tests.antt =====
-- Runs of the image cache's model; a daemon is the bytes that its images take.
use hadcd_agent.Base.{
  ℕ, ◌-◌, ◌≡◌, refl, Bool, true, false, Option, none, some, List, [], ◌∷◌, if◌then◌else◌,
}
use hadcd_agent.Base.Text.{codes, is_space, split_commas, strip, stripped}
use hadcd_agent.Agent.ImageCache.{
  ImageCache, init, build_image_cache, prepull_all, pulls, present_image_tags, total_image_bytes,
  sum_sizes, is_done, prune_unused, maybe_gc,
}

abbrev sizes : ℕ → Option (List (Option ℕ))
sizes d = some (some d ∷ none ∷ [])

-- The dangling images are 10 bytes; all unused ones go.
abbrev prune : Bool → ℕ → Option ℕ
prune dangling d = some (if dangling then d - 10 else 0)

abbrev cache : ImageCache
cache = record { prepull = []; budget_bytes = 50 }

all_pruned : maybe_gc ℕ sizes sizes prune cache true 80 ≡ (0, true ∷ false ∷ [])
unfolding maybe_gc is_done total_image_bytes sum_sizes prune_unused
all_pruned = refl

missing_pulled :
    prepull_all
      (build_image_cache (λ n. n) (codes " a:1, b:2 ,,") 0)
      (some (some (codes "a:1" ∷ []) ∷ none ∷ []))
    ≡ codes "b:2" ∷ []
unfolding prepull_all build_image_cache init stripped split_commas pulls present_image_tags strip
    is_space
missing_pulled = refl
