-- ===== src/Agent/Heartbeat/Fallback.antt =====
-- When the miner may run: the matrix in the comment of `_heartbeat_loop`, over any run.
use hadcd_agent.Base.{
  ℕ, ◌-◌, ◌≤◌, ◌≡◌, refl, Bool, true, false, Option, none, some, List, [], ◌∷◌, All, arith,
  Bool-cases, inl, inr, sym, ap, ◌∙◌,
}
use mathlib.Core.Bool.{true≢false}
use hadcd_agent.Vast.Monad.{Provider}
use hadcd_agent.Agent.Heartbeat.{
  Input, Settings, Node, hb_ok, vast_renting, receive, refresh, fall_back, beat,
}

-- Between two passes the loop of the provider may leave any provider state.
pub data Event : Type 0 where
  beats : Input → Event
  vast_moved : Provider → Event

-- One pass: `since` is when the dispatcher was first missed, with no answer up to this pass.
pub record Pass : Type 0 where
  pub input : Input
  pub since : Option ℕ
  pub before : Node
  pub after : Node

unfoldable pub missed_since : Input → Option ℕ → Option ℕ
missed_since i since = elim (hb_ok i.reply) [
  | true ↦ none
  | false ↦ elim since [ none ↦ some i.seen | some t ↦ some t ]
]

unfoldable pub passes : Settings → Option ℕ → Node → List Event → List Pass
unfolding missed_since
passes s since n [] = []
passes s since n (vast_moved p ∷ evs) = passes s since (record n { provider = p }) evs
passes s since n (beats i ∷ evs) =
    let now_since = missed_since i since in
    let n' = (beat s i n).0 in
    record { input = i; since = now_since; before = n; after = n' } ∷ passes s now_since n' evs

-- The miner runs after a pass only if the dispatcher did not answer, the provider is neither listed
-- nor listing, and the room is not vacant.
abbrev pub IsExclusive : Pass → Type 0
IsExclusive p =
    p.after.miner ≡ true
    → (hb_ok p.input.reply ≡ false)
      × (vast_renting p.after.provider ≡ false)
      × (p.after.room.active ≡ false)

-- The dispatcher has been missed since a time at least `wait` before `now`.
abbrev pub HasWaited : ℕ → ℕ → Option ℕ → Type 0
HasWaited wait now none = ⊥
HasWaited wait now (some t) = wait ≤ now - t

-- The miner starts in a pass only if the dispatcher has been missed for the time in the settings.
abbrev pub IsPatient : Settings → Pass → Type 0
IsPatient s p =
    p.before.miner ≡ false
    → p.after.miner ≡ true
    → HasWaited s.autonomous_fallback_after_sec p.input.checked p.since

abbrev pub IsFree : Node → Type 0
IsFree n = n.miner ≡ true → n.room.active ≡ false

unanswered : (s : Settings) (i : Input) (n : Node) → hb_ok i.reply ≡ false → (receive s i n).0 ≡ n
unfolding receive hb_ok
unanswered s i n bad = ground arith

answered_stops : (s : Settings) (i : Input) (n : Node) → (fall_back s true i n).miner ≡ false
unfolding fall_back refresh
answered_stops s i n = refl

fall_back-exclusive :
    (s : Settings) (i : Input) (n : Node)
    → IsFree n
    → (fall_back s false i (refresh i n).0).miner ≡ true
    → (vast_renting n.provider ≡ false) × (n.room.active ≡ false)
unfolding fall_back refresh
fall_back-exclusive s i n free m = ground arith

fall_back-keeps :
    (s : Settings) (b : Bool) (i : Input) (n : Node)
    → ((fall_back s b i n).provider ≡ n.provider) × ((fall_back s b i n).room ≡ n.room)
unfolding fall_back refresh
fall_back-keeps s b i n = ground arith

beat_answered :
    (s : Settings) (i : Input) (n : Node)
    → hb_ok i.reply ≡ true
    → ((beat s i n).0.miner ≡ false) × ((beat s i n).0.offline_since ≡ none)
unfolding beat fall_back refresh
beat_answered s i n ok = ground arith

pub beat_missed :
    (s : Settings) (i : Input) (n : Node)
    → hb_ok i.reply ≡ false
    → (beat s i n).0 ≡ fall_back s false i (refresh i n).0
unfolding beat
beat_missed s i n bad = rw (bad, unanswered s i n bad) refl

fall_back-safe :
    (s : Settings) (i : Input) (n : Node)
    → hb_ok i.reply ≡ false
    → IsFree n
    → (fall_back s false i (refresh i n).0).miner ≡ true
    → (hb_ok i.reply ≡ false)
      × (vast_renting (fall_back s false i (refresh i n).0).provider ≡ false)
      × ((fall_back s false i (refresh i n).0).room.active ≡ false)
unfolding fall_back refresh
fall_back-safe s i n bad free m = ground arith

beat-exclusive :
    (s : Settings) (i : Input) (n : Node)
    → IsFree n
    → (beat s i n).0.miner ≡ true
    → (hb_ok i.reply ≡ false)
      × (vast_renting (beat s i n).0.provider ≡ false)
      × ((beat s i n).0.room.active ≡ false)
beat-exclusive s i n free m = elim (Bool-cases (hb_ok i.reply)) [
  | inl ok ↦ elim (true≢false (sym m ∙ (beat_answered s i n ok).0)) [ ]
  | inr bad ↦
      rw (beat_missed s i n bad)
        (fall_back-safe s i n bad free (sym (ap (λ n'. n'.miner) (beat_missed s i n bad)) ∙ m))
]

-- From a state in which no vacant room is mined for, over any run of replies and of moves of the
-- provider: after each pass the miner runs only if the dispatcher did not answer, the provider is
-- neither listed nor listing, and the room is not vacant.
pub passes-IsExclusive :
    (s : Settings) (since : Option ℕ) (n : Node) (evs : List Event)
    → IsFree n
    → All IsExclusive (passes s since n evs)
unfolding passes
passes-IsExclusive s since n [] free = tt
passes-IsExclusive s since n (vast_moved p ∷ evs) free = passes-IsExclusive s since _ evs free
passes-IsExclusive s since n (beats i ∷ evs) free = (
  beat-exclusive s i n free,
  passes-IsExclusive s (missed_since i since) _ evs (λ m. (beat-exclusive s i n free m).2),
)

-- The clock does not run back, in a pass or from one pass to the next.
abbrev pub IsMonotone : ℕ → List Event → Type 0
IsMonotone last [] = Unit
IsMonotone last (vast_moved p ∷ evs) = IsMonotone last evs
IsMonotone last (beats i ∷ evs) = (last ≤ i.seen) × (i.seen ≤ i.checked) × IsMonotone i.checked evs

-- `_offline_since` is no earlier than the first missed pass, which the clock has passed.
abbrev pub IsTracked : ℕ → Option ℕ → Option ℕ → Type 0
IsTracked last none none = Unit
IsTracked last (some t') none = t' ≤ last
IsTracked last none (some t) = ⊥
IsTracked last (some t') (some t) = (t' ≤ t) × (t' ≤ last)

missed-tracks :
    (s : Settings) (i : Input) (n : Node) (since : Option ℕ) (last : ℕ)
    → hb_ok i.reply ≡ false
    → last ≤ i.seen
    → i.seen ≤ i.checked
    → IsTracked last since n.offline_since
    → IsTracked i.checked (missed_since i since) (fall_back s false i (refresh i n).0).offline_since
unfolding fall_back refresh missed_since
missed-tracks s i n since last bad le le' at = ground arith

missed-patient :
    (s : Settings) (i : Input) (n : Node) (since : Option ℕ) (last : ℕ)
    → hb_ok i.reply ≡ false
    → last ≤ i.seen
    → i.seen ≤ i.checked
    → IsTracked last since n.offline_since
    → n.miner ≡ false
    → (fall_back s false i (refresh i n).0).miner ≡ true
    → HasWaited s.autonomous_fallback_after_sec i.checked (missed_since i since)
unfolding fall_back refresh missed_since
missed-patient s i n since last bad le le' at off m = ground arith

answered-tracks :
    (i : Input) (since : Option ℕ)
    → hb_ok i.reply ≡ true
    → IsTracked i.checked (missed_since i since) none
unfolding missed_since
answered-tracks i since ok = ground arith

beat-tracks :
    (s : Settings) (i : Input) (n : Node) (since : Option ℕ) (last : ℕ)
    → last ≤ i.seen
    → i.seen ≤ i.checked
    → IsTracked last since n.offline_since
    → IsTracked i.checked (missed_since i since) (beat s i n).0.offline_since
beat-tracks s i n since last le le' at = elim (Bool-cases (hb_ok i.reply)) [
  | inl ok ↦ rw (beat_answered s i n ok).1 (answered-tracks i since ok)
  | inr bad ↦ rw (beat_missed s i n bad) (missed-tracks s i n since last bad le le' at)
]

beat-patient :
    (s : Settings) (i : Input) (n : Node) (since : Option ℕ) (last : ℕ)
    → last ≤ i.seen
    → i.seen ≤ i.checked
    → IsTracked last since n.offline_since
    → n.miner ≡ false
    → (beat s i n).0.miner ≡ true
    → HasWaited s.autonomous_fallback_after_sec i.checked (missed_since i since)
beat-patient s i n since last le le' at off m = elim (Bool-cases (hb_ok i.reply)) [
  | inl ok ↦ elim (true≢false (sym m ∙ (beat_answered s i n ok).0)) [ ]
  | inr bad ↦
      missed-patient s i n since last bad le le' at off
        (sym (ap (λ n'. n'.miner) (beat_missed s i n bad)) ∙ m)
]

-- Where the clock does not run back, over any run of replies and of moves of the provider: a pass
-- that starts the miner comes after a stretch of passes with no answer whose first one is at least
-- the time of the settings ago.
pub passes-IsPatient :
    (s : Settings) (last : ℕ) (since : Option ℕ) (n : Node) (evs : List Event)
    → IsMonotone last evs
    → IsTracked last since n.offline_since
    → All (IsPatient s) (passes s since n evs)
unfolding passes
passes-IsPatient s last since n [] mono at = tt
passes-IsPatient s last since n (vast_moved p ∷ evs) mono at =
    passes-IsPatient s last since _ evs mono at
passes-IsPatient s last since n (beats i ∷ evs) (le, le', mono) at = (
  beat-patient s i n since last le le' at,
  passes-IsPatient s i.checked (missed_since i since) _ evs mono
      (beat-tracks s i n since last le le' at),
)
