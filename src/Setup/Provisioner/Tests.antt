-- ===== src/Setup/Provisioner/Tests.antt =====
-- A run of the wizard's models on a small form, and one with a line separator in a value.
use hadcd_agent.Base.{◌≡◌, refl, ap, Bool, true, false, none, some, [], ◌∷◌, ◌++◌, ◌==◌}
use mathlib.Core.Bool.{true≢false}
use hadcd_agent.Base.Int.{pos}
use hadcd_agent.Base.Text.{Text, codes, strip, is_space}
use hadcd_agent.Agent.EnvFile.{Config, find, assigned, rewrite_all, remainder}
use hadcd_agent.Setup.Provisioner.Form.{IsPlainForm}
use hadcd_agent.Setup.EnvText.{put, is_break, read_env, env_text}
use hadcd_agent.Setup.Provisioner.{Form, field_value, clean_env_value, is_control, collect_updates}
use hadcd_agent.Setup.Provisioner.Server.{
  Node, written, Post, receives, silence, success, is_oversized, check_code, is_ascii, do_post,
  serve, provision,
}
use hadcd_agent.Setup.Provisioner.Gate.{IsStep, do_post-IsStep, serve-stranger}
use hadcd_agent.Setup.Provisioner.Complete.{saved_configures}

abbrev form : Form
form =
    (codes "hadcd_api", codes "h")
    ∷ (codes "enrollment_tokens", codes "e")
    ∷ (codes "node_name", codes " n ")
    ∷ (codes "ha_token", codes "t")
    ∷ (codes "ha_entity_id", codes "c")
    ∷ (codes "setup_code", codes "12")
    ∷ []

abbrev old_file : Text
old_file = codes "NODE_NAME=old" ++ (10 ∷ codes "X=1") ++ (10 ∷ [])

abbrev node : Node
node = record { env = some old_file; restarts = 0; is_done = false }

abbrev post : Post
post = record { length = some (pos 90); path = codes "/save"; form = form; write = written }

abbrev submitted : Config
submitted =
    (codes "HADCD_API", codes "h")
    ∷ (codes "ENROLLMENT_TOKENS", codes "e")
    ∷ (codes "NODE_NAME", codes "n")
    ∷ (codes "BMS_SOURCE", codes "homeassistant")
    ∷ (codes "HA_TOKEN", codes "t")
    ∷ (codes "HA_ENTITY_ID", codes "c")
    ∷ []

collected : collect_updates form ≡ some submitted
unfolding collect_updates strip is_space find put
collected = refl

plain_form : IsPlainForm form
plain_form = (
  (refl, tt),
  ((refl, tt), ((refl, (refl, (refl, tt))), ((refl, tt), ((refl, tt), ((refl, (refl, tt)), tt))))),
)

do_post-IsStep_example :
    IsStep (some (codes "12")) none form node (do_post (some (codes "12")) none post node).1
do_post-IsStep_example = do_post-IsStep (some (codes "12")) none post node plain_form

saved_configures_example :
    ((do_post (some (codes "12")) none post node).0 ≡ success)
    × ((do_post (some (codes "12")) none post node).1.is_done ≡ true)
    × (provision (some (codes "12")) none [] (do_post (some (codes "12")) none post node).1
        ≡ ((do_post (some (codes "12")) none post node).1, false))
unfolding field_value find strip is_space is_oversized check_code is_ascii
saved_configures_example =
    saved_configures (some (codes "12")) none post node submitted [] plain_form
      (
        (codes "h", refl, refl),
        (codes "e", refl, refl),
        (codes "n", refl, refl),
        (codes "t", refl, refl),
        (codes "c", refl, refl),
      )
      (refl, refl, refl, collected, refl)

abbrev starts_with_one : Text → Bool
starts_with_one [] = false
starts_with_one (c ∷ s) = c == 49

serve-stranger_example : serve (some (codes "99")) none (receives post ∷ silence ∷ []) node ≡ node
unfolding find strip is_space
serve-stranger_example =
    serve-stranger (codes "99") none (receives post ∷ silence ∷ []) node
      ((λ e. true≢false (ap starts_with_one e)), (tt, tt))

-- The line that is kept, and the key that is added.
saved_file :
    find (codes "X") (read_env (some (env_text submitted (some old_file)))) ≡ some (codes "1")
unfolding find read_env env_text strip is_space is_break assigned put rewrite_all remainder
saved_file = refl

-- A line separator passes the check of a value, and what follows it is read as a key of its own.
accepted :
    clean_env_value (97 ∷ 0x2028 ∷ codes "XMRIG_PATH=/tmp/x")
    ≡ some (97 ∷ 0x2028 ∷ codes "XMRIG_PATH=/tmp/x")
unfolding clean_env_value strip is_space is_control
accepted = refl

injected :
    find (codes "XMRIG_PATH") (
      read_env
        (some (env_text ((codes "ZONE_NAME", 97 ∷ 0x2028 ∷ codes "XMRIG_PATH=/tmp/x") ∷ []) none)))
    ≡ some (codes "/tmp/x")
unfolding find read_env env_text strip is_space is_break assigned put rewrite_all remainder
injected = refl
