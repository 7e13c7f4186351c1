-- ===== src/Agent/ImageCache.antt =====
-- The image cache (agent/image_cache.py): the images pulled at the start, and the prunes that keep
-- the disk use within its budget. The Docker client is a parameter.
mod Budget
mod Tests
use hadcd_agent.Base.{
  ℕ, ◌+◌, ◌*◌, Bool, true, false, not, Option, none, some, List, [], ◌∷◌, ◌++◌, if◌then◌else◌, ◌==◌,
  leb, any,
}
use hadcd_agent.Base.Text.{Text, text_eq, split_commas, stripped}

pub record ImageCache : Type 0 where
  pub prepull : List Text
  pub budget_bytes : ℕ

-- `budget_gb` in hundredths of a GiB; `int` cuts the fraction off, and `floor` is that division.
abbrev pub gib : ℕ
gib = 1073741824

unfoldable pub init : (ℕ → ℕ) → List Text → ℕ → ImageCache
unfolding stripped
init floor images budget_gb = record {
  prepull = stripped images;
  budget_bytes = if budget_gb == 0 then 0 else floor (budget_gb * gib);
}

unfoldable pub build_image_cache : (ℕ → ℕ) → Text → ℕ → ImageCache
unfolding init split_commas stripped
build_image_cache floor images budget_gb = init floor (stripped (split_commas [] images)) budget_gb

-- `sum(img.get("Size", 0) …)`
unfoldable pub sum_sizes : List (Option ℕ) → ℕ
sum_sizes [] = 0
sum_sizes (none ∷ ss) = sum_sizes ss
sum_sizes (some n ∷ ss) = n + sum_sizes ss

-- The tags that were read before the listing ended or raised; an image may have none.
unfoldable pub present_image_tags : List (Option (List Text)) → List Text
present_image_tags [] = []
present_image_tags (none ∷ is) = present_image_tags is
present_image_tags (some tags ∷ is) = tags ++ present_image_tags is

-- The pulls that are asked for; what each gives is logged and no more.
unfoldable pub pulls : List Text → List Text → List Text
pulls present [] = []
pulls present (i ∷ is) =
    let rest = pulls present is in if any (text_eq i) present then rest else i ∷ rest

-- `listing` is none without the library or its daemon.
unfoldable pub prepull_all : ImageCache → Option (List (Option (List Text))) → List Text
unfolding pulls present_image_tags
prepull_all cache none = []
prepull_all cache (some listing) = pulls (present_image_tags listing) cache.prepull

-- `usage <= self._budget_bytes`, or a measure that raised: no further prune.
unfoldable pub is_done : ℕ → Option ℕ → Bool
is_done budget none = true
is_done budget (some usage) = leb usage budget

-- The daemon afterwards, with the prunes asked for.
abbrev pub Gc : Type 0 → Type 0
Gc D = D × List Bool

-- A daemon's state; the sizes that `df` and `images.list` give and a prune of the dangling (`true`)
-- or the unused images, each none for an exception.
module _ (D : Type 0) (df listed : D → Option (List (Option ℕ))) (prune : Bool → D → Option D) where
  unfoldable pub total_image_bytes : D → Option ℕ
  unfolding sum_sizes
  total_image_bytes d = elim (df d) [
    | some sizes ↦ some (sum_sizes sizes)
    | none ↦ elim (listed d) [ none ↦ none | some sizes ↦ some (sum_sizes sizes) ]
  ]

  unfoldable pub prune_unused : ℕ → D → Gc D
  unfolding total_image_bytes is_done
  prune_unused budget d = elim (is_done budget (total_image_bytes d)) [
    | true ↦ (d, true ∷ [])
    | false ↦ elim (prune false d) [
      | none ↦ (d, true ∷ false ∷ [])
      | some after ↦ (after, true ∷ false ∷ [])
    ]
  ]

  -- `is_reachable`: the library and its daemon are there.
  unfoldable pub maybe_gc : ImageCache → Bool → D → Gc D
  unfolding prune_unused total_image_bytes is_done
  maybe_gc cache is_reachable d = elim (cache.budget_bytes == 0) [
    | true ↦ (d, [])
    | false ↦ elim is_reachable [
      | false ↦ (d, [])
      | true ↦ elim (is_done cache.budget_bytes (total_image_bytes d)) [
        | true ↦ (d, [])
        | false ↦ elim (prune true d) [
          | none ↦ (d, true ∷ [])
          | some after ↦ prune_unused cache.budget_bytes after
        ]
      ]
    ]
  ]
