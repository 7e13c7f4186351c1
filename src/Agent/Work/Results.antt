-- ===== src/Agent/Work/Results.antt =====
-- What a task comes to: the executor's outcome (agent/executor.py), the result and the heat session
-- that are posted (`_post_result`, `_post_heat_session` of agent/agent.py).
use hadcd_agent.Base.{
  ℕ, String, Bool, true, false, ◌||◌, Option, none, some, List, [], ◌∷◌, if◌then◌else◌, str_eq,
}
use hadcd_agent.Base.Json.{
  Decimal, Value, null, num, arr, Items, nil, cons, Fields, end, field, lookup, get_or, truthy,
}
use hadcd_agent.Base.Int.{pos}

pub record TaskOutcome : Type 0 where
  pub success : Bool
  pub duration_sec : ℕ
  pub result : Option Fields
  pub error : Option String

-- The executor turns every exception of a handler into an outcome; a cancellation is none.
pub data Handled : Type 0 where
  handled : Fields → ℕ → Handled
  failed : String → ℕ → Handled
  cancelled : Handled

unfoldable pub run : Handled → Option TaskOutcome
run (handled result d) =
    some (record { success = true; duration_sec = d; result = some result; error = none })
run (failed e d) =
    some (record { success = false; duration_sec = d; result = none; error = some e })
run cancelled = none

pub record Result : Type 0 where
  pub power_w : ℕ
  pub duration_sec : ℕ
  pub success : Bool
  pub result : Option Fields
  pub error : Option String

-- The body of a heat session; the numbers stand as the result has them. `measured` is the average
-- power times the seconds, which the code divides by 3,600,000.
pub record HeatSession : Type 0 where
  pub source : String
  pub session_start : Value
  pub session_end : Value
  pub duration_sec : Value
  pub measured : Option ℕ
  pub active_sec : Option Value
  pub worker : Option Value
  pub gpu_model : Option Value
  pub threads : Option Value
  pub gpu_burn_active : Option Value

-- `{**result, **extra}` for the one key `output_blob_ids`
unfoldable pub set_key : String → Value → Fields → Fields
set_key k v end = field k v end
set_key k v (field j w fs) =
    let rest = set_key k v fs in if str_eq j k then field j v fs else field j w rest

abbrev pub to_items : List Value → Items
to_items [] = nil
to_items (v ∷ vs) = cons v (to_items vs)

-- The result with the uploaded blobs, where there are any.
unfoldable pub with_blobs : List Value → Option Fields → Option Fields
unfolding set_key
with_blobs [] result = result
with_blobs (v ∷ vs) none = some (field "output_blob_ids" (arr (to_items (v ∷ vs))) end)
with_blobs (v ∷ vs) (some fs) = some (set_key "output_blob_ids" (arr (to_items (v ∷ vs))) fs)

abbrev pub is_fill : Option String → Bool
is_fill none = false
is_fill (some t) =
    str_eq t "gpu_mining_fill" || str_eq t "p2pool_fill" || str_eq t "synthetic_heat_fill"

abbrev zero_number : Decimal
zero_number = record { mantissa = pos 0; scale = 0 }

-- `a or b`
abbrev pub or_else : Value → Value → Value
or_else a b = if truthy a then a else b

unfoldable pub heat_session : String → Fields → Option ℕ → HeatSession
unfolding truthy
heat_session source fs measured = record {
  source = source;
  session_start = get_or "session_start" null fs;
  session_end = get_or "session_end" null fs;
  duration_sec =
      or_else (get_or "actual_sec" null fs)
        (or_else (get_or "duration_requested_sec" null fs) (num zero_number));
  measured = measured;
  active_sec = lookup "active_mining_sec" fs;
  worker = lookup "worker" fs;
  gpu_model = lookup "gpu_model" fs;
  threads = lookup "threads" fs;
  gpu_burn_active = lookup "gpu_burn_active" fs;
}
