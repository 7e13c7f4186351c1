-- ===== src/Container/Tests.antt =====
-- Tasks at concrete hosts: the theorems where their hypotheses hold.
use hadcd_agent.Base.{◌≡◌, refl, true, false, ◌||◌, some, [], ◌∷◌, str_eq, none, some}
use hadcd_agent.Base.Json.{Value, null, bool, str, arr, obj, Items, nil, cons, end, field, truthy}
use hadcd_agent.Container.{Returns, returns}
use hadcd_agent.Container.Security as Security
use hadcd_agent.Container.Security.Floor.{IsConfined, build_security_kwargs-IsConfined}
use hadcd_agent.Base.Int.{pos}
use hadcd_agent.Container.Run as Run
use hadcd_agent.Container.Run.Lifecycle.{IsCareful, container-IsCareful}
use hadcd_agent.Container.Mounts as Mounts
use hadcd_agent.Container.Mounts.Segments.{render}
use hadcd_agent.Container.Mounts.Policy.{staged_under, listed_entry, check_mount_allowed-components}
use hadcd_agent.Container.Volumes.{path_of, build_mounts}

abbrev docker : Security.Host
docker = record {
  exists = λ n. Security.missing;
  creates = λ n. true;
  appeared = λ n. false;
  repr = λ v. "";
  require_hardened = false;
}

abbrev loosening : Items
loosening = cons (str "no-new-privileges:false") nil

abbrev task : Security.Args
task = record {
  hardened = bool true;
  cap_drop = null;
  security_opts = arr loosening;
  security_opt = null;
  network_mode = str "bridge";
}

build_security_kwargs-IsConfined_example :
    Returns (IsConfined docker task) (Security.build_security_kwargs docker task)
build_security_kwargs-IsConfined_example = build_security_kwargs-IsConfined docker task

-- Every path resolves to /a, and the allowlist is "/a".
abbrev one_dir : Mounts.Host
one_dir = record {
  realpath = λ p. render ((97 ∷ []) ∷ []);
  tempdir = 47 ∷ 116 ∷ [];
  allowlist = 47 ∷ 97 ∷ [];
}

check_mount_allowed-components_example : Mounts.check_mount_allowed one_dir (47 ∷ 97 ∷ []) ≡ (
    staged_under ((97 ∷ []) ∷ []) ((97 ∷ []) ∷ [])
    || listed_entry (λ p. (97 ∷ []) ∷ []) (47 ∷ 97 ∷ []) (Mounts.split Mounts.colon (47 ∷ 97 ∷ [])))
check_mount_allowed-components_example =
    check_mount_allowed-components one_dir (λ p. (97 ∷ []) ∷ []) (λ p. refl) (λ p. ((refl, tt), tt))
      (47 ∷ 97 ∷ [])

abbrev volume : Value
volume = obj (field "host_path" (str "/data") (field "container_path" (str "/input") end))

abbrev host : Run.Docker
host = record {
  sdk = true;
  float_of = λ v. none;
  allowed = λ p. str_eq p "/data";
  connects = true;
  security = docker;
  start = Run.started;
  wait = some (some (pos 0));
  logs_of = Run.logs (104 ∷ []) [];
  files = λ p. [];
}

abbrev job : Run.Args
job = record {
  image = str "busybox:latest";
  command = null;
  env = null;
  timeout_sec = none;
  gpu_request = null;
  volumes = arr (cons volume nil);
  output_dir = null;
  profile = task;
}

container-IsCareful_example : IsCareful host job (Run.container host job)
container-IsCareful_example = container-IsCareful host job

-- The busybox job goes through: it is run confined with its volume, awaited, read and removed.
container_returns : Run.container host job ≡ (
  returns (record {
    exit_code = pos 0;
    stdout = 104 ∷ [];
    stderr = [];
    image = "busybox:latest";
    output_files = [];
  }),
  Run.ran
        (record {
          privileged = some false;
          cap_drop = some (str "ALL" ∷ []);
          security_opt = some (str "no-new-privileges:false" ∷ []);
          network = some "bridge";
        })
        (record { host_path = "/data"; container_path = "/input"; mode = "ro" } ∷ [])
        false
      ∷ Run.waited
      ∷ Run.read_logs
      ∷ Run.removed
      ∷ [],
)
unfolding Run.container path_of build_mounts truthy Security.build_security_kwargs
    Security.has_no_new_privileges Security.text_of Security.ensure_network
container_returns = refl
