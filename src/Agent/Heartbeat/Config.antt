-- ===== src/Agent/Heartbeat/Config.antt =====
-- The handshake of a pushed configuration: written, acknowledged, confirmed, restarted.
use hadcd_agent.Base.{◌≡◌, refl, ◌∙◌, Bool, true, false, List, [], ◌∷◌, ◌++◌, arith}
use hadcd_agent.Agent.Room.{Env}
use hadcd_agent.Agent.Heartbeat.{
  Input, Settings, Node, Response, Effect, applied_config, synced_media, handed_sessions,
  restart_scheduled, checked_deps, refresh, hb_ok, config_push, media_push, session_push, respond,
  receive, beat, fall_back,
}

-- A restart is scheduled only while an applied configuration awaits it.
abbrev pub IsHandshake : Bool → List Effect → Type 0
IsHandshake waiting [] = Unit
IsHandshake waiting (applied_config v ∷ es) = IsHandshake true es
IsHandshake waiting (restart_scheduled ∷ es) = (waiting ≡ true) × IsHandshake false es
IsHandshake waiting (synced_media v ∷ es) = IsHandshake waiting es
IsHandshake waiting (handed_sessions v ∷ es) = IsHandshake waiting es
IsHandshake waiting (checked_deps ∷ es) = IsHandshake waiting es

-- Whether one awaits it after these effects.
abbrev pub waits : Bool → List Effect → Bool
waits waiting [] = waiting
waits waiting (applied_config v ∷ es) = waits true es
waits waiting (restart_scheduled ∷ es) = waits false es
waits waiting (synced_media v ∷ es) = waits waiting es
waits waiting (handed_sessions v ∷ es) = waits waiting es
waits waiting (checked_deps ∷ es) = waits waiting es

unfoldable pub effects : Settings → Node → List Input → List Effect
effects s n [] = []
effects s n (i ∷ inputs) = (beat s i n).1 ++ effects s (beat s i n).0 inputs

IsHandshake-append :
    (w : Bool) (es fs : List Effect)
    → IsHandshake w es
    → IsHandshake (waits w es) fs
    → IsHandshake w (es ++ fs)
IsHandshake-append w [] fs h h' = h'
IsHandshake-append w (applied_config v ∷ es) fs h h' = IsHandshake-append true es fs h h'
IsHandshake-append w (restart_scheduled ∷ es) fs (e, h) h' =
    (e, IsHandshake-append false es fs h h')
IsHandshake-append w (synced_media v ∷ es) fs h h' = IsHandshake-append w es fs h h'
IsHandshake-append w (handed_sessions v ∷ es) fs h h' = IsHandshake-append w es fs h h'
IsHandshake-append w (checked_deps ∷ es) fs h h' = IsHandshake-append w es fs h h'

respond-IsHandshake :
    (s : Settings) (e : Env) (d : Response) (n : Node)
    → IsHandshake n.config_applied (respond s e d n).1
      × (waits n.config_applied (respond s e d n).1 ≡ (respond s e d n).0.config_applied)
unfolding respond config_push media_push session_push
respond-IsHandshake s e d n = ground arith

waits-append : (w : Bool) (es fs : List Effect) → waits w (es ++ fs) ≡ waits (waits w es) fs
waits-append w [] fs = refl
waits-append w (applied_config v ∷ es) fs = waits-append true es fs
waits-append w (restart_scheduled ∷ es) fs = waits-append false es fs
waits-append w (synced_media v ∷ es) fs = waits-append w es fs
waits-append w (handed_sessions v ∷ es) fs = waits-append w es fs
waits-append w (checked_deps ∷ es) fs = waits-append w es fs

receive-IsHandshake :
    (s : Settings) (i : Input) (n : Node)
    → IsHandshake n.config_applied (receive s i n).1
      × (waits n.config_applied (receive s i n).1 ≡ (receive s i n).0.config_applied)
unfolding receive
receive-IsHandshake s i n = grind (arith, respond-IsHandshake)

refresh-IsHandshake :
    (s : Settings) (b : Bool) (i : Input) (n : Node) (w : Bool)
    → w ≡ n.config_applied
    → IsHandshake w (refresh i n).1
      × (waits w (refresh i n).1 ≡ (fall_back s b i (refresh i n).0).config_applied)
unfolding refresh fall_back
refresh-IsHandshake s b i n w e = ground arith

beat-IsHandshake :
    (s : Settings) (i : Input) (n : Node)
    → IsHandshake n.config_applied (beat s i n).1
      × (waits n.config_applied (beat s i n).1 ≡ (beat s i n).0.config_applied)
unfolding beat
beat-IsHandshake s i n =
    let (good, same) = receive-IsHandshake s i n in
    let (good', same') = refresh-IsHandshake s (hb_ok i.reply) i (receive s i n).0 _ same in
    (
      IsHandshake-append n.config_applied (receive s i n).1 _ good good',
      waits-append n.config_applied (receive s i n).1 _ ∙ same',
    )

-- Over any run of heartbeats, the agent schedules a restart only after it has applied a pushed
-- configuration for which it has not restarted yet.
effects-IsHandshake :
    (s : Settings) (n : Node) (inputs : List Input)
    → IsHandshake n.config_applied (effects s n inputs)
unfolding effects
effects-IsHandshake s n [] = tt
effects-IsHandshake s n (i ∷ inputs) =
    IsHandshake-append n.config_applied (beat s i n).1 _ (beat-IsHandshake s i n).0
      (rw (beat-IsHandshake s i n).1 (effects-IsHandshake s (beat s i n).0 inputs))
