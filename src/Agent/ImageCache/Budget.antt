-- ===== src/Agent/ImageCache/Budget.antt =====
-- When the collection of images prunes, and that it does what it can.
use hadcd_agent.Base.{
  ℕ, ◌<◌, ◌≡◌, refl, sym, ap, ◌⊎◌, inl, inr, Bool, true, false, Option, none, some, List, [], ◌∷◌,
  arith, Bool-cases, Option-cases, ◌==◌, leb,
}
use mathlib.Core.Path.{subst}
use mathlib.Core.Bool.{true≢false}
use mathlib.Core.Option.{some-ne-none}
use hadcd_agent.Agent.ImageCache.{
  ImageCache, total_image_bytes, is_done, Gc, prune_unused, maybe_gc,
}

-- A measure that the code acts on.
abbrev pub IsOver : ℕ → Option ℕ → Type 0
IsOver budget measured = (usage : ℕ) × (measured ≡ some usage) × (budget < usage)

is_done-false : (budget : ℕ) (m : Option ℕ) → is_done budget m ≡ false → IsOver budget m
unfolding is_done
is_done-false budget none h = elim (true≢false h) [ ]
is_done-false budget (some usage) h = (usage, refl, ground arith)

is_done-true : (budget : ℕ) (m : Option ℕ) → is_done budget m ≡ true → IsOver budget m → ⊥
unfolding is_done
is_done-true budget none h (usage, e, o) = some-ne-none usage (sym e)
is_done-true budget (some n) h (usage, e, o) =
    let same : n ≡ usage = ap (λ m. elim m [ none ↦ usage | some k ↦ k ]) e in ground arith

module _ (D : Type 0) (df listed : D → Option (List (Option ℕ))) (prune : Bool → D → Option D) where
  abbrev pub IsLarge : ℕ → D → Type 0
  IsLarge budget d = IsOver budget (total_image_bytes D df listed prune d)

  -- No prune, where the daemon's images are not measured as too large; or the dangling images alone;
  -- or these, and then the unused ones, where too much is left.
  abbrev pub IsFrugal : ImageCache → D → Gc D → Type 0
  IsFrugal cache d (after, prunes) =
      ((prunes ≡ []) × (after ≡ d))
      ⊎ (((prunes ≡ true ∷ [])
            × IsLarge cache.budget_bytes d
            × ((prune true d ≡ none)
                ⊎ ((prune true d ≡ some after) × ¬ (IsLarge cache.budget_bytes after))))
          ⊎ ((prunes ≡ true ∷ false ∷ [])
              × IsLarge cache.budget_bytes d
              × ((e : D) × (prune true d ≡ some e)
                  × IsLarge cache.budget_bytes e
                  × ((prune false e ≡ some after) ⊎ (prune false e ≡ none)))))

  prune_unused-IsFrugal :
      (cache : ImageCache) (d e : D)
      → IsLarge cache.budget_bytes d
      → prune true d ≡ some e
      → IsFrugal cache d (prune_unused D df listed prune cache.budget_bytes e)
  unfolding prune_unused
  prune_unused-IsFrugal cache d e large pruned =
      let m = total_image_bytes D df listed prune e in
      elim (Bool-cases (is_done cache.budget_bytes m)) [
        | inl done ↦
            rw (prune_unused, done)
              (inr (inl (refl, large, inr (pruned, is_done-true cache.budget_bytes m done))))
        | inr more ↦
            let still = is_done-false cache.budget_bytes m more in
            elim (Option-cases (prune false e)) [
              | inl fails ↦
                  let end : prune_unused D df listed prune cache.budget_bytes e
                      ≡ (e, true ∷ false ∷ []) =
                    rw (prune_unused, more, fails) refl in
                  subst (IsFrugal cache d) (sym end)
                    (inr (inr (refl, large, (e, pruned, still, inr fails))))
              | inr (after, works) ↦
                  let end : prune_unused D df listed prune cache.budget_bytes e
                      ≡ (after, true ∷ false ∷ []) =
                    rw (prune_unused, more, works) refl in
                  subst (IsFrugal cache d) (sym end)
                    (inr (inr (refl, large, (e, pruned, still, inl works))))
            ]
      ]

  -- Images are pruned only when more than the budget is measured: first those that are dangling, and
  -- the unused ones only when that prune works and more than the budget is measured again; with no
  -- prune the daemon is left as it is, and one prune alone means it failed or no excess was measured
  -- after it.
  maybe_gc-IsFrugal :
      (cache : ImageCache) (is_reachable : Bool) (d : D)
      → IsFrugal cache d (maybe_gc D df listed prune cache is_reachable d)
  unfolding maybe_gc
  maybe_gc-IsFrugal cache is_reachable d =
      let m = total_image_bytes D df listed prune d in
      elim (Bool-cases (cache.budget_bytes == 0)) [
        | inl off ↦ rw (maybe_gc, off) (inl (refl, refl))
        | inr on ↦ elim (Bool-cases is_reachable) [
          | inr away ↦ rw (maybe_gc, on, away) (inl (refl, refl))
          | inl here ↦ elim (Bool-cases (is_done cache.budget_bytes m)) [
            | inl done ↦ rw (maybe_gc, on, here, done) (inl (refl, refl))
            | inr over ↦
                let large = is_done-false cache.budget_bytes m over in
                elim (Option-cases (prune true d)) [
                  | inl fails ↦
                      let end : maybe_gc D df listed prune cache true d ≡ (d, true ∷ []) =
                        rw (maybe_gc, on, over, fails) refl in
                      rw here
                        (subst (IsFrugal cache d) (sym end) (inr (inl (refl, large, inl fails))))
                  | inr (e, works) ↦
                      let end : maybe_gc D df listed prune cache true d
                          ≡ prune_unused D df listed prune cache.budget_bytes e =
                        rw (maybe_gc, on, over, works) refl in
                      rw here (
                        subst (IsFrugal cache d) (sym end)
                          (prune_unused-IsFrugal cache d e large works))
                ]
          ]
        ]
      ]

  -- Where too much is measured again and again and every prune works, both prunes are made.
  maybe_gc_exhausts :
      (cache : ImageCache) (d e after : D)
      → (cache.budget_bytes == 0) ≡ false
      → IsLarge cache.budget_bytes d
      → prune true d ≡ some e
      → IsLarge cache.budget_bytes e
      → prune false e ≡ some after
      → maybe_gc D df listed prune cache true d ≡ (after, true ∷ false ∷ [])
  unfolding maybe_gc prune_unused is_done
  maybe_gc_exhausts cache d e after on (u, eu, ou) first (v, ev, ov) second =
      let a : leb u cache.budget_bytes ≡ false = ground arith in
      let b : leb v cache.budget_bytes ≡ false = ground arith in
      rw (maybe_gc, on, eu, a, first, prune_unused, ev, b, second) refl
