-- ===== src/Container/Run.antt =====
-- `_container`: a task's arguments are checked, one container is run, awaited, read and removed. A
-- call that changes Docker's state, or reads from it, is an entry of the trace.
pub mod Lifecycle
use hadcd_agent.Base.{
  ltb, leb, ◌&&◌, ◌*◌, ℕ, String, Bool, true, false, ◌||◌, Option, none, some, List, [], ◌∷◌, ◌++◌,
  take, if◌then◌else◌,
}
use hadcd_agent.Base.Int.{ℤ, pos, negsuc}
use Prim.Native.Nat.{◌^◌}
use hadcd_agent.Base.Json.{Decimal, Value, null, bool, num, str, arr, obj, truthy}
use hadcd_agent.Container.{Result, returns, value_error, execution_error, api_error, bind}
use hadcd_agent.Container.Security as Security
use hadcd_agent.Container.Volumes.{Mount, path_of, build_mounts}

abbrev pub max_log_bytes : ℕ
max_log_bytes = 1_048_576

-- The task's arguments; a missing one is null, but for the timeout, which has a default.
pub record Args : Type 0 where
  pub image : Value
  pub command : Value
  pub env : Value
  pub timeout_sec : Option Value
  pub gpu_request : Value
  pub volumes : Value
  pub output_dir : Value
  pub profile : Security.Args

-- How `containers.run` and `logs` end.
pub data Start : Type 0 where
  started image_not_found start_failed : Start

pub data Logs : Type 0 where
  logs : List ℕ → List ℕ → Logs
  logs_failed logs_broken : Logs

-- What `float` reads.
pub data Float : Type 0 where
  finite : Decimal → Float
  nan infinite : Float

-- Docker and the host as one task meets them. `float_of` is Python's `float`, and none where it
-- raises. `wait` is none where it raises, which a timeout does, and otherwise the status code, if
-- there is one. `files` are the files in the output directory.
pub record Docker : Type 0 where
  pub sdk : Bool
  pub float_of : Value → Option Float
  pub allowed : String → Bool
  pub connects : Bool
  pub security : Security.Host
  pub start : Start
  pub wait : Option (Option ℤ)
  pub logs_of : Logs
  pub files : String → List String

pub data Call : Type 0 where
  ran : Security.Kwargs → List Mount → Bool → Call
  waited killed read_logs removed : Call

pub record Output : Type 0 where
  pub exit_code : ℤ
  pub stdout : List ℕ
  pub stderr : List ℕ
  pub image : String
  pub output_files : List String

unfoldable pub check_command : Value → Result Unit
check_command null = returns tt
check_command (str s) = returns tt
check_command (arr xs) = returns tt
check_command (bool b) = value_error
check_command (num d) = value_error
check_command (obj fs) = value_error

unfoldable pub check_env : Value → Result Unit
check_env (obj fs) = returns tt
check_env null = returns tt
check_env (bool b) = if b then value_error else returns tt
check_env (num d) = if truthy (num d) then value_error else returns tt
check_env (str s) = if truthy (str s) then value_error else returns tt
check_env (arr xs) = if truthy (arr xs) then value_error else returns tt

abbrev pub max_timeout_sec : ℕ
max_timeout_sec = 86_400

-- Not `<= 0`, and not above the maximum; no comparison with a NaN holds.
unfoldable pub in_range : Float → Bool
in_range nan = true
in_range infinite = false
in_range (finite d) = elim d.mantissa [
  | pos m ↦ ltb 0 m && leb m (max_timeout_sec * 10 ^ d.scale)
  | negsuc m ↦ false
]

-- Without a timeout, the default stands.
unfoldable pub check_timeout : Docker → Option Value → Result Unit
unfolding in_range
check_timeout d none = returns tt
check_timeout d (some v) = elim (d.float_of v) [
  | none ↦ value_error
  | some x ↦ if in_range x then returns tt else value_error
]

-- `-1` where the reply has no status code.
unfoldable pub status : Option ℤ → ℤ
status none = negsuc 0
status (some c) = c

unfoldable pub output_files : Docker → Value → List String
output_files d (str s) = if truthy (str s) then d.files s else []
output_files d null = []
output_files d (bool b) = []
output_files d (num n) = []
output_files d (arr xs) = []
output_files d (obj fs) = []

unfoldable pub output_of : Docker → Args → String → ℤ → List ℕ → List ℕ → Output
unfolding output_files
output_of d args image code out err = record {
  exit_code = code;
  stdout = take max_log_bytes out;
  stderr = take max_log_bytes err;
  image = image;
  output_files = output_files d args.output_dir;
}

-- The result by what the logs give; an error of the API leaves them empty.
unfoldable pub collect : Docker → Args → String → ℤ → Logs → Result Output
unfolding output_of
collect d args image code (logs out err) = returns (output_of d args image code out err)
collect d args image code logs_failed = returns (output_of d args image code [] [])
collect d args image code logs_broken = api_error

-- From the wait on, with the removal of the `finally` block.
unfoldable pub supervise : Docker → Args → String → Option (Option ℤ) → Result Output × List Call
unfolding collect status
supervise d args image none = (execution_error, waited ∷ killed ∷ removed ∷ [])
supervise d args image (some c) =
    (collect d args image (status c) d.logs_of, waited ∷ read_logs ∷ removed ∷ [])

unfoldable pub launch : Docker → Args → String → Start → Call → Result Output × List Call
unfolding supervise
launch d args image started call =
    let (r, calls) = supervise d args image d.wait in (r, call ∷ calls)
launch d args image image_not_found call = (execution_error, call ∷ [])
launch d args image start_failed call = (execution_error, call ∷ [])

-- Goes on with a value; an exception ends the handler before any call.
unfoldable pub or_fail :
    {A : Type 0} → Result A → (A → Result Output × List Call) → Result Output × List Call
or_fail (returns a) k = k a
or_fail value_error k = (value_error, [])
or_fail execution_error k = (execution_error, [])
or_fail api_error k = (api_error, [])

-- An import or a connection that may fail.
unfoldable pub need : Bool → Result Unit
need ok = if ok then returns tt else execution_error

unfoldable pub container : Docker → Args → Result Output × List Call
unfolding check_command check_env check_timeout launch or_fail need
container d args = or_fail (need d.sdk) (λ _. or_fail (path_of args.image) (λ image.
    or_fail (check_command args.command) (λ _. or_fail (check_env args.env) (λ _.
      or_fail (check_timeout d args.timeout_sec) (λ _.
        or_fail (build_mounts d.allowed args.volumes args.output_dir) (λ mounts.
          or_fail (need d.connects) (λ _.
            or_fail (Security.build_security_kwargs d.security args.profile)
              (λ k. launch d args image d.start (ran k mounts (truthy args.gpu_request))))))))))
