-- ===== src/Agent/Rentals/Start/Tests.antt =====
-- The start of a session at concrete settings.
use hadcd_agent.Base.{◌≡◌, refl, true, false, none, []}
use hadcd_agent.Base.Text.{codes}
use hadcd_agent.Agent.Rentals.Start.{
  Settings, World, session_type, start_session, started, container_of,
}

abbrev settings : Settings
settings = record {
  publish_host = "100.64.0.7";
  media_models_path = "";
  comfyui_image = "comfyui";
  ollama_image = "ollama";
}

abbrev world : World
world = record {
  has_sdk = true;
  port = 52007;
  secret = "s";
  has_gpus = true;
  connects = true;
  is_run = true;
  is_posted = true;
  tailscale_ip = "100.64.0.7";
}

-- A media session on a node without the models does nothing.
unserved : start_session settings world "media" none (codes "0") ≡ ([], false)
unfolding start_session session_type container_of started
unserved = refl
