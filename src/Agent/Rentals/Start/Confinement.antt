-- ===== src/Agent/Rentals/Start/Confinement.antt =====
-- How the containers of rental sessions are confined (agent/rental_session_handler.py).
use hadcd_agent.Base.{◌≡◌, ◌⊎◌, ◌&&◌, Bool, true, false, List, [], ◌∷◌, ◌++◌, All, str_eq, take}
use hadcd_agent.Base.Text.{Text, codes}
use hadcd_agent.Agent.Rentals.Start.{
  Settings, Container, SessionType, ssh, media, api_endpoint, World, session_network,
  ollama_models_volume, Effect, runs, caches, activates, unheard, no_new_privileges,
}

-- No capability and no new privileges, and nothing of the host's files.
abbrev pub IsHardened : Container → Type 0
IsHardened k =
    (k.cap_drop ≡ "ALL" ∷ [])
    × (k.security_opt ≡ no_new_privileges)
    × ((k.volumes ≡ []) ⊎ (k.volumes ≡ (ollama_models_volume, "/root/.ollama") ∷ []))

-- Only a media session may be without the floor, with the operator's models as its one volume.
abbrev pub IsAllowed : Settings → SessionType → Container → Type 0
IsAllowed c ssh k = IsHardened k
IsAllowed c media k =
    (str_eq c.media_models_path "" ≡ false)
    × (k.volumes ≡ (c.media_models_path, "/opt/ComfyUI/models") ∷ [])
IsAllowed c api_endpoint k = IsHardened k

-- What the start of a session may do.
abbrev pub IsConfined : Settings → World → SessionType → Text → Effect → Type 0
IsConfined c w t sid (runs k) =
    (k.network ≡ session_network)
    × (k.host ≡ c.publish_host)
    × (k.port ≡ w.port)
    × (k.name ≡ codes "hadcd-session-" ++ take 8 sid)
    × IsAllowed c t k
IsConfined c w t sid (caches model) = t ≡ api_endpoint
IsConfined c w t sid (activates info) = (info.port ≡ w.port) × (info.secret ≡ w.secret)
IsConfined c w t sid (unheard info) = w.is_posted ≡ false

-- Whether the dispatcher hears of an active session.
abbrev pub is_told : List Effect → Bool
is_told [] = false
is_told (runs k ∷ es) = is_told es
is_told (caches m ∷ es) = is_told es
is_told (activates i ∷ es) = true
is_told (unheard i ∷ es) = is_told es

-- Confined effects, and a dispatcher that hears of the session if it is active and the post arrives.
abbrev pub IsStarted : Settings → World → SessionType → Text → List Effect × Bool → Type 0
IsStarted c w t sid (es, is_active) =
    All (IsConfined c w t sid) es × (is_told es ≡ (is_active && w.is_posted))
