-- ===== src/Agent/Enrollment.antt =====
-- How a node gets its identity: `ensure_enrolled` (agent/agent.py), with the token that `AgentSettings`
-- (agent/config.py) takes from its list.
mod Resume
mod Tests
use hadcd_agent.Base.{
  ℕ, suc, String, Bool, true, false, Option, none, some, List, [], ◌∷◌, if◌then◌else◌,
}
use hadcd_agent.Base.Json.{Value}
use hadcd_agent.Base.Text.{Text, text_eq, strip, split_commas}
use hadcd_agent.Agent.State.{State, enrolled, save}

unfoldable pub first_token : List Text → Text
first_token [] = []
first_token (p ∷ ps) = let rest = first_token ps in if text_eq (strip p) [] then rest else strip p

unfoldable pub enrollment_token : Text → Text
unfolding first_token split_commas
enrollment_token tokens = first_token (split_commas [] tokens)

-- The answer to the registration: an exception of the request, of its status or of its body; or the
-- values of `id` and `token`, none where the key is missing.
pub data Answer : Type 0 where
  fails : Answer
  gives : Option String → Option String → Answer

-- The state in memory, the file, the tokens that were sent with registrations, and whether an
-- exception has left the function.
pub record Enrollment : Type 0 where
  pub state : State
  pub file : Option Value
  pub sent : List Text
  pub has_raised : Bool

-- After the identity is set: the file takes the state, or its write raises.
unfoldable pub keep : Bool → Enrollment → Enrollment
keep is_saved e =
    if is_saved then record e { file = save e.state } else record e { has_raised = true }

unfoldable pub take_identity : Bool → Option String → Option String → Enrollment → Enrollment
unfolding keep
take_identity is_saved none token e = record e { has_raised = true }
take_identity is_saved (some i) none e = record e {
  state = record e.state { node_id = some i };
  has_raised = true;
}
take_identity is_saved (some i) (some t) e =
    keep is_saved (record e { state = record e.state { node_id = some i; node_token = some t } })

unfoldable pub register : Bool → Answer → Enrollment → Enrollment
unfolding take_identity
register is_saved fails e = record e { has_raised = true }
register is_saved (gives i t) e = take_identity is_saved i t e

-- Without an identity: the token must not be empty.
unfoldable pub enroll : Text → Bool → Answer → State → Option Value → Enrollment
unfolding register
enroll token is_saved answer s file =
    if text_eq token []
    then record { state = s; file = file; sent = []; has_raised = true }
    else register is_saved answer
        (record { state = s; file = file; sent = token ∷ []; has_raised = false })

unfoldable pub resume : State → Option Value → Enrollment
resume s file = record { state = s; file = file; sent = []; has_raised = false }

unfoldable pub ensure_enrolled : Text → Bool → Answer → State → Option Value → Enrollment
unfolding enrollment_token enroll resume
ensure_enrolled tokens is_saved answer s file =
    if enrolled s then resume s file else enroll (enrollment_token tokens) is_saved answer s file
