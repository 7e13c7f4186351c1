-- ===== src/Agent/Heartbeat/Outage.antt =====
-- The fallback does come: an outage that lasts long enough ends with the miner at work.
use hadcd_agent.Base.{ℕ, ◌+◌, ◌≤◌, ◌≡◌, true, false, none, some, List, [], ◌∷◌, arith}
use hadcd_agent.Agent.Heartbeat.{
  Input, Settings, Node, hb_ok, vast_renting, refresh, fall_back, beat,
}
use hadcd_agent.Agent.Heartbeat.Fallback.{Event, beats, vast_moved, beat_missed}

unfoldable pub run : Settings → Node → List Event → Node
run s n [] = n
run s n (vast_moved p ∷ evs) = run s (record n { provider = p }) evs
run s n (beats i ∷ evs) = run s (beat s i n).0 evs

-- No pass is answered, and the provider never has nor seeks a renter.
abbrev pub IsOutage : List Event → Type 0
IsOutage [] = Unit
IsOutage (vast_moved p ∷ evs) = (vast_renting p ≡ false) × IsOutage evs
IsOutage (beats i ∷ evs) = (hb_ok i.reply ≡ false) × IsOutage evs

-- The dispatcher has been away since `t`, and nothing but the time keeps the miner from starting.
abbrev pub IsWaiting : ℕ → Node → Type 0
IsWaiting t n =
    (n.offline_since ≡ some t) × (vast_renting n.provider ≡ false) × (n.room.active ≡ false)

first-IsWaiting :
    (s : Settings) (i : Input) (n : Node)
    → n.offline_since ≡ none
    → vast_renting n.provider ≡ false
    → n.room.active ≡ false
    → IsWaiting i.seen (fall_back s false i (refresh i n).0)
unfolding fall_back refresh
first-IsWaiting s i n off free here = ground arith

fall_back-IsWaiting :
    (s : Settings) (i : Input) (n : Node) (t : ℕ)
    → IsWaiting t n
    → IsWaiting t (fall_back s false i (refresh i n).0)
unfolding fall_back refresh
fall_back-IsWaiting s i n t w = ground arith

run-IsWaiting :
    (s : Settings) (t : ℕ) (n : Node) (evs : List Event)
    → IsOutage evs
    → IsWaiting t n
    → IsWaiting t (run s n evs)
unfolding run
run-IsWaiting s t n [] o w = w
run-IsWaiting s t n (vast_moved p ∷ evs) (free, o) (off, was, here) =
    run-IsWaiting s t _ evs o (off, free, here)
run-IsWaiting s t n (beats i ∷ evs) (bad, o) w =
    run-IsWaiting s t (beat s i n).0 evs o
      (rw (beat_missed s i n bad) (fall_back-IsWaiting s i n t w))

due-mines :
    (s : Settings) (j : Input) (n : Node) (t : ℕ)
    → IsWaiting t n
    → t + s.autonomous_fallback_after_sec ≤ j.checked
    → (fall_back s false j (refresh j n).0).miner ≡ true
unfolding fall_back refresh
due-mines s j n t w due = ground arith

-- From a node that is in use, without a renter and last answered, an outage of any length: the
-- first missed pass `i`, any missed passes and moves between unlisted provider states, and a missed
-- pass `j` that comes at least the time of the settings after `i`. The miner then runs.
pub outage_mines :
    (s : Settings) (n : Node) (i j : Input) (evs : List Event)
    → n.offline_since ≡ none
    → vast_renting n.provider ≡ false
    → n.room.active ≡ false
    → hb_ok i.reply ≡ false
    → IsOutage evs
    → hb_ok j.reply ≡ false
    → i.seen + s.autonomous_fallback_after_sec ≤ j.checked
    → (beat s j (run s (beat s i n).0 evs)).0.miner ≡ true
outage_mines s n i j evs off free here bad o bad' due =
    rw (beat_missed s j (run s (beat s i n).0 evs) bad') (
      due-mines s j _ i.seen
        (run-IsWaiting s i.seen _ evs o
          (rw (beat_missed s i n bad) (first-IsWaiting s i n off free here)))
        due)
