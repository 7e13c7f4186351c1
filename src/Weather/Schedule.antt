-- ===== src/Weather/Schedule.antt =====
-- `build_vast_schedule`: list only outside the cold and the hot windows, and announce the next one.
pub mod Next
pub mod Listing
use hadcd_agent.Base.{
  ℕ, ◌+◌, ◌≤◌, ◌<◌, ◌≡◌, ◌≢◌, ◌⊎◌, inl, inr, refl, ap, Bool, true, false, not, ◌&&◌, Option, none,
  some, List, [], ◌∷◌, ◌++◌, All, Any, any, arith, Bool-cases, leb, ltb, if◌then◌else◌, String,
}
use mathlib.Core.Option
use hadcd_agent.Weather.Windows.{Floats, Hour, Window, cold_windows, hot_windows}

-- The dict that is returned; the stamps are those that `isoformat` writes.
pub record Decision : Type 0 where
  pub should_list : Bool
  pub next_window_start : Option ℕ
  pub next_window_end : Option ℕ

module _ {F : Type 0} where
  abbrev pub holds_at : ℕ → Window F → Bool
  holds_at now w = leb w.start now && leb now w.end_

  abbrev pub upcoming : ℕ → List (Window F) → List (Window F)
  upcoming now [] = []
  upcoming now (w ∷ ws) = if ltb now w.start then w ∷ upcoming now ws else upcoming now ws

  -- `sorted(..., key=lambda w: w.start)`: stable, by insertion.
  abbrev pub insert : Window F → List (Window F) → List (Window F)
  insert w [] = w ∷ []
  insert w (v ∷ vs) = if leb w.start v.start then w ∷ v ∷ vs else v ∷ insert w vs

  abbrev pub sort : List (Window F) → List (Window F)
  sort [] = []
  sort (w ∷ ws) = insert w (sort ws)

  abbrev pub next_of : List (Window F) → Option (Window F)
  next_of [] = none
  next_of (w ∷ ws) = some w

  -- The decision from the two lists of windows.
  unfoldable pub decide_listing : ℕ → List (Window F) → List (Window F) → Decision
  decide_listing now cold hot =
      let next = next_of (sort (upcoming now cold ++ upcoming now hot)) in
      record {
        should_list = not (any (holds_at now) cold) && not (any (holds_at now) hot);
        next_window_start = Option.map (λ w. w.start) next;
        next_window_end = Option.map (λ w. w.end_) next;
      }

combine : {F : Type 0} → ℕ → Option (List (Window F)) → Option (List (Window F)) → Option Decision
combine now none hot = none
combine now (some cold) none = none
combine now (some cold) (some hot) = some (decide_listing now cold hot)

module _ {F : Type 0} (fl : Floats F) where
  -- A `hot_threshold` of `none` sets no upper bound.
  abbrev pub hot_windows? : Option F → ℕ → List (Hour F) → Option (List (Window F))
  hot_windows? none min_length pairs = some []
  hot_windows? (some threshold) min_length pairs = hot_windows fl threshold min_length pairs

  -- `none` is the `IndexError` of an empty run.
  unfoldable pub build_vast_schedule : F → Option F → ℕ → ℕ → List (Hour F) → Option Decision
  unfolding decide_listing cold_windows hot_windows combine
  build_vast_schedule threshold hot_threshold min_length now pairs =
      combine now (cold_windows fl threshold min_length pairs)
        (hot_windows? hot_threshold min_length pairs)
