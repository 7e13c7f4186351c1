-- ===== src/Setup/Provisioner/Server.antt =====
-- The server of the wizard (agent/provisioner.py): `do_POST`, the loop of `_serve`, and `provision`.
use hadcd_agent.Base.{
  ℕ, suc, Bool, true, false, not, ◌&&◌, Option, none, some, List, [], ◌∷◌, if◌then◌else◌, ltb, any,
}
use hadcd_agent.Base.Int.{ℤ, pos, negsuc}
use hadcd_agent.Base.Text.{Text, text_eq, strip, codes}
use hadcd_agent.Agent.EnvFile.{Config, find}
use hadcd_agent.Setup.EnvText.{env_text}
use hadcd_agent.Setup.Provisioner.{Form, text_of, collect_updates, is_configured}

-- The environment file's text, how often the agent was restarted, and the event `_done`.
pub record Node : Type 0 where
  pub env : Option Text
  pub restarts : ℕ
  pub is_done : Bool

-- How a save ends: `_write_env` raises before the file is replaced, or after it; or the restart of the
-- agent cannot be launched; or it is launched, and the reply cannot be sent, or is sent.
pub data Write : Type 0 where
  refused replaced stuck unanswered written : Write

-- The `Content-Length` header, none where `int` raises; the path without its slash at the end; the
-- form; and how a write would end.
pub record Post : Type 0 where
  pub length : Option ℤ
  pub path : Text
  pub form : Form
  pub write : Write

-- `dropped`: the handler raised, and the server closes the connection.
pub data Reply : Type 0 where
  bad_length too_large not_found wrong_code bad_value write_failed success dropped : Reply

-- `MAX_BODY_BYTES`
abbrev pub max_body_bytes : ℕ
max_body_bytes = 65536

unfoldable pub is_oversized : ℤ → Bool
is_oversized (pos n) = ltb max_body_bytes n
is_oversized (negsuc n) = true

unfoldable pub is_ascii : Text → Bool
is_ascii s = not (any (λ c. ltb 127 c) s)

-- `secrets.compare_digest` raises on a text that is not ASCII.
pub data Gate : Type 0 where
  opens refuses raises : Gate

unfoldable pub check_code : Option Text → Form → Gate
unfolding is_ascii
check_code none form = opens
check_code (some code) form =
    let supplied = strip (text_of (find (codes "setup_code") form)) in
    if is_ascii supplied && is_ascii code
    then (if text_eq supplied code then opens else refuses)
    else raises

-- `ENV_FILE if ENV_FILE.exists() else ENV_EXAMPLE`
abbrev pub source_of : Option Text → Option Text → Option Text
source_of template none = template
source_of template (some text) = some text

unfoldable pub finish_save : Option Text → Write → Config → Node → Reply × Node
finish_save template refused updates node = (write_failed, node)
finish_save template replaced updates node =
    (write_failed, record node { env = some (env_text updates (source_of template node.env)) })
finish_save template stuck updates node =
    (dropped, record node { env = some (env_text updates (source_of template node.env)) })
finish_save template unanswered updates node = (
  dropped,
  record node {
    env = some (env_text updates (source_of template node.env));
    restarts = suc node.restarts;
  },
)
finish_save template written updates node = (
  success,
  record {
    env = some (env_text updates (source_of template node.env));
    restarts = suc node.restarts;
    is_done = true;
  },
)

unfoldable pub save : Option Text → Post → Node → Reply × Node
unfolding finish_save
save template post node = elim (collect_updates post.form) [
  | none ↦ (bad_value, node)
  | some updates ↦ finish_save template post.write updates node
]

unfoldable pub pass_gate : Gate → Option Text → Post → Node → Reply × Node
unfolding save
pass_gate raises template post node = (dropped, node)
pass_gate refuses template post node = (wrong_code, node)
pass_gate opens template post node = save template post node

-- After the header: the path decides.
unfoldable pub route : Option Text → Option Text → Post → Node → Reply × Node
unfolding check_code pass_gate
route code template post node =
    if text_eq post.path (codes "/save")
    then pass_gate (check_code code post.form) template post node
    else (not_found, node)

unfoldable pub admit : Option ℤ → Option Text → Option Text → Post → Node → Reply × Node
unfolding is_oversized route
admit none code template post node = (bad_length, node)
admit (some n) code template post node =
    if is_oversized n then (too_large, node) else route code template post node

unfoldable pub do_post : Option Text → Option Text → Post → Node → Reply × Node
unfolding admit
do_post code template post node = admit post.length code template post node

-- One round of the loop: nothing within two seconds, a GET, which changes nothing, or a POST.
pub data Round : Type 0 where
  silence get : Round
  receives : Post → Round

abbrev pub handle : Option Text → Option Text → Round → Node → Node
handle code template silence node = node
handle code template get node = node
handle code template (receives post) node = (do_post code template post node).1

-- The rounds that begin before the deadline.
unfoldable pub serve : Option Text → Option Text → List Round → Node → Node
unfolding do_post
serve code template [] node = node
serve code template (r ∷ rs) node =
    let rest = serve code template rs (handle code template r node) in
    if node.is_done then node else rest

-- The node afterwards, and whether the port was open at all.
unfoldable pub provision : Option Text → Option Text → List Round → Node → Node × Bool
unfolding serve
provision code template rounds node =
    if is_configured node.env then (node, false) else (serve code template rounds node, true)
