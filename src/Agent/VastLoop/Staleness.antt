-- ===== src/Agent/VastLoop/Staleness.antt =====
-- Which schedule a tick acts on, and how old it may be.
use mathlib.Core.Option.{some-ne-none}
use hadcd_agent.Base.{
  sym, ℕ, ◌+◌, ◌≤◌, ◌<◌, ◌≡◌, ◌≢◌, ◌⊎◌, inl, inr, refl, false, Option, none, some, List, [], ◌∷◌,
  arith, String, Option-cases,
}
use hadcd_agent.Vast.Monad.{World, naive}
use hadcd_agent.Vast.Provider.{Schedule, is_near_window}
use hadcd_agent.Agent.VastLoop.{Cache, choose}

-- The ticks of the loop: what the backend answered, and what a local fetch would return.
pub record Tick : Type 0 where
  pub backend : Option Schedule
  pub local : Option Schedule

unfoldable pub run : ℕ → ℕ → Cache → List Tick → Cache
run interval refresh c [] = c
run interval refresh c (t ∷ ts) =
    run interval refresh (choose interval refresh c t.backend t.local).0 ts

abbrev pub AllOnline : List Tick → Type 0
AllOnline [] = Unit
AllOnline (t ∷ ts) = (t.backend ≢ none) × AllOnline ts

-- A recorded age below the refresh period.
abbrev pub IsYoung : ℕ → Option ℕ → Type 0
IsYoung refresh none = ⊥
IsYoung refresh (some a) = a < refresh

module _ (interval refresh : ℕ) where
  online_keeps : (c : Cache) (ts : List Tick) → AllOnline ts → run interval refresh c ts ≡ c
  unfolding run choose
  online_keeps c [] h = refl
  online_keeps c (t ∷ ts) h = elim (Option-cases t.backend) [
    | inl e ↦ absurd (h.0 e)
    | inr (s, e) ↦ rw (e, choose) (online_keeps c ts h.1)
  ]

  -- A tick acts on the schedule of the backend, and then leaves the cache alone. Without one it
  -- acts on the cached schedule, whose recorded age is below the refresh period, or on a fetch that
  -- it has just made.
  choose_fresh :
      (c : Cache) (backend local : Option Schedule)
      → let (c', acts_on) = choose interval refresh c backend local in
        ((s : Schedule) → backend ≡ some s → (acts_on ≡ some s) × (c' ≡ c))
        × (backend ≡ none
            → (acts_on ≡ c'.schedule)
              × (((acts_on ≡ local) × (c'.age ≡ some 0))
                  ⊎ ((acts_on ≡ c.schedule) × IsYoung refresh c'.age)))
  unfolding choose
  choose_fresh c (some s) local = (λ s' e. (e, refl), λ e. absurd (some-ne-none s e))
  choose_fresh c none local = (λ s e. absurd (some-ne-none s (sym e)), λ e. ground arith)

  -- The recorded age counts only the ticks without the backend: however many ticks with it went by
  -- since the fetch, the first tick without it still acts on the old schedule.
  stale_schedule :
      (c : Cache) (ts : List Tick) (s : Schedule) (a : ℕ) (local : Option Schedule)
      → c.schedule ≡ some s
      → c.age ≡ some a
      → AllOnline ts
      → a + interval < refresh
      → (choose interval refresh (run interval refresh c ts) none local).1 ≡ some s
  unfolding choose
  stale_schedule c ts s a local cached old online young = ground (arith, online_keeps c ts online)

-- `is_near_window` reads a stamp with no zone as UTC, and the local forecast has local stamps. West
-- of Greenwich, by more than the lead time, the window of a local schedule is never near while the
-- local clock is within the lead time before it.
local_window_missed :
    (w : World) (pre_list start now_local offset : ℕ) (raw : String)
    → w.fromisoformat raw ≡ some (naive start)
    → w.now ≡ now_local + offset
    → pre_list < offset
    → now_local ≤ start
    → start ≤ now_local + pre_list
    → is_near_window w pre_list (some raw) ≡ false
unfolding is_near_window
local_window_missed w pre_list start now_local offset raw parsed utc west soon near = ground arith
