-- ===== src/Agent/Rentals/Start.antt =====
-- `_start_session` (agent/rental_session_handler.py): the container of each type of session, what the
-- dispatcher is told, and how the start fails.
mod Confinement
mod Tests
use hadcd_agent.Base.{
  ℕ, String, Bool, true, false, not, Option, none, some, List, [], ◌∷◌, ◌++◌, if◌then◌else◌, str_eq,
  take,
}
use hadcd_agent.Base.Text.{Text, codes}

abbrev pub session_network : String
session_network = "hadcd-rental-bridge"

abbrev pub ollama_models_volume : String
ollama_models_volume = "hadcd-ollama-models"

abbrev pub comfyui_internal_port : ℕ
comfyui_internal_port = 18188

pub record Settings : Type 0 where
  pub publish_host : String
  pub media_models_path : String
  pub comfyui_image : String
  pub ollama_image : String

-- The arguments of `containers.run`: one port is published; a volume is its source and its bind.
pub record Container : Type 0 where
  pub image : String
  pub name : Text
  pub network : String
  pub internal_port : ℕ
  pub host : String
  pub port : ℕ
  pub cap_drop : List String
  pub security_opt : List String
  pub environment : List (String × String)
  pub volumes : List (String × String)
  pub has_gpus : Bool

-- What the dispatcher gets: the address, the secret, and the model of an endpoint.
pub record ConnectionInfo : Type 0 where
  pub host : String
  pub port : ℕ
  pub secret : String
  pub model : Option String

pub data SessionType : Type 0 where
  ssh media api_endpoint : SessionType

-- The tests of `stype`.
unfoldable pub session_type : String → SessionType
session_type s = if str_eq s "ssh" then ssh else (if str_eq s "media" then media else api_endpoint)

-- The random draws, Docker's runtimes, the node's address; each flag says that a step does not raise,
-- `is_posted` that the dispatcher answers the post of the activation with 200.
pub record World : Type 0 where
  pub has_sdk : Bool
  pub port : ℕ
  pub secret : String
  pub has_gpus : Bool
  pub connects : Bool
  pub is_run : Bool
  pub is_posted : Bool
  pub tailscale_ip : String

-- `f"hadcd-session-{session_id[:8]}"`
unfoldable pub container_name : Text → Text
container_name session_id = codes "hadcd-session-" ++ take 8 session_id

abbrev pub no_new_privileges : List String
no_new_privileges = "no-new-privileges:true" ∷ []

unfoldable pub ssh_container : Settings → World → Text → Container
unfolding container_name
ssh_container c w sid = record {
  image = "hadcd/ssh-gpu:latest";
  name = container_name sid;
  network = session_network;
  internal_port = 22;
  host = c.publish_host;
  port = w.port;
  cap_drop = "ALL" ∷ [];
  security_opt = no_new_privileges;
  environment = ("SSH_PASSWORD", w.secret) ∷ [];
  volumes = [];
  has_gpus = w.has_gpus;
}

unfoldable pub media_container : Settings → World → Text → Container
unfolding container_name
media_container c w sid = record {
  image = c.comfyui_image;
  name = container_name sid;
  network = session_network;
  internal_port = comfyui_internal_port;
  host = c.publish_host;
  port = w.port;
  cap_drop = [];
  security_opt = [];
  environment =
      ("DIRECT_ADDRESS", "0.0.0.0")
      ∷ ("DIRECT_ADDRESS_PORT", "18188")
      ∷ ("HADCD_SESSION_TOKEN", w.secret)
      ∷ [];
  volumes = (c.media_models_path, "/opt/ComfyUI/models") ∷ [];
  has_gpus = w.has_gpus;
}

unfoldable pub endpoint_container : Settings → World → Text → Container
unfolding container_name
endpoint_container c w sid = record {
  image = c.ollama_image;
  name = container_name sid;
  network = session_network;
  internal_port = 11434;
  host = c.publish_host;
  port = w.port;
  cap_drop = "ALL" ∷ [];
  security_opt = no_new_privileges;
  environment = ("OLLAMA_HOST", "0.0.0.0") ∷ ("HADCD_SESSION_TOKEN", w.secret) ∷ [];
  volumes = (ollama_models_volume, "/root/.ollama") ∷ [];
  has_gpus = w.has_gpus;
}

-- None for a media session on a node without a path for its models.
unfoldable pub container_of : Settings → World → SessionType → Text → Option Container
unfolding ssh_container media_container endpoint_container
container_of c w ssh sid = some (ssh_container c w sid)
container_of c w media sid =
    if str_eq c.media_models_path "" then none else some (media_container c w sid)
container_of c w api_endpoint sid = some (endpoint_container c w sid)

-- `model or "llama3"`
unfoldable pub model_name : Option String → String
model_name none = "llama3"
model_name (some m) = if str_eq m "" then "llama3" else m

unfoldable pub connection_info : World → SessionType → Option String → ConnectionInfo
unfolding model_name
connection_info w t model = record {
  host = w.tailscale_ip;
  port = w.port;
  secret = w.secret;
  model = elim t [ ssh ↦ none | media ↦ none | api_endpoint ↦ some (model_name model) ];
}

-- A container is asked for; a model is reported as cached; the dispatcher takes the activation, or the
-- post for it fails or is refused, which is only logged.
pub data Effect : Type 0 where
  runs : Container → Effect
  caches : String → Effect
  activates unheard : ConnectionInfo → Effect

unfoldable pub cached : SessionType → Option String → List Effect
unfolding model_name
cached ssh model = []
cached media model = []
cached api_endpoint model = caches (model_name model) ∷ []

-- `_post_activate`
unfoldable pub activation : World → ConnectionInfo → Effect
activation w info = if w.is_posted then activates info else unheard info

-- After `containers.run`, which a failing run does not get past. The last flag: the session is active.
unfoldable pub started : World → SessionType → Option String → Option Container → List Effect × Bool
unfolding connection_info cached activation
started w t model none = ([], false)
started w t model (some container) =
    if w.is_run
    then (
      runs container ∷ (cached t model ++ (activation w (connection_info w t model) ∷ [])),
      true,
    )
    else (runs container ∷ [], false)

unfoldable pub start_session : Settings → World → String → Option String → Text → List Effect × Bool
unfolding session_type container_of started
start_session c w stype model sid =
    if w.has_sdk
    then (if w.connects
        then started w (session_type stype) model (container_of c w (session_type stype) sid)
        else ([], false))
    else ([], false)
