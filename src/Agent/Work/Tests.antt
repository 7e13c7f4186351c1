-- ===== src/Agent/Work/Tests.antt =====
-- Runs of a task at concrete payloads.
use hadcd_agent.Base.{◌≡◌, refl, true, false, none, some, [], ◌∷◌}
use hadcd_agent.Base.Json.{str, end, field}
use hadcd_agent.Base.Text.{codes, is_space, strip}
use hadcd_agent.Agent.Blobs.{to_slashes, last_segment, base_of, is_unusable, names_of}
use hadcd_agent.Agent.Work.{
  Task, World, Input, gives, blob_error, handled, normalise_all, specs_of, run_assignment,
}
use hadcd_agent.Agent.Work.Names.{IsBare, mounted, mounted-names}
use hadcd_agent.Agent.Work.Cleanup.{IsTidy, run_assignment-IsTidy}

-- A blob "7" whose file is called "../x".
abbrev escaping : Input
escaping = record {
  spec = record { blob_id = codes "7"; filename = some (codes "../x") };
  container_path = none;
}

abbrev task : Task
task = record {
  task_type = some "container";
  inputs = escaping ∷ [];
  wants_output = true;
  volumes = [];
  estimated_power_w = 300;
}

abbrev world : World
world = record {
  makes_input = true;
  lists_volumes = true;
  makes_output = true;
  is_refused = true;
  download = gives tt;
  handler = handled (field "value" (str "done") end) 12;
  upload = blob_error;
  average_watts = none;
}

run_assignment-IsTidy_example : IsTidy false (run_assignment task world (codes "/tmp/in"))
run_assignment-IsTidy_example =
    run_assignment-IsTidy task world (codes "/tmp/in") (tt, refl, refl, refl, refl)

abbrev plain_id : IsBare (codes "7")
unfolding base_of is_unusable to_slashes last_segment strip is_space
plain_id = (refl, refl)

mounted-names_example :
    mounted (normalise_all (escaping ∷ [])) ≡ names_of (specs_of (normalise_all (escaping ∷ [])))
mounted-names_example = mounted-names (escaping ∷ []) (plain_id, tt)
