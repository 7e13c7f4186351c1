-- ===== src/Workloads/Registry.antt =====
-- The registry of handlers (hadcd_workloads/registry.py). A handler is a function; it may raise.
use hadcd_agent.Base.{
  String, Option, none, some, List, [], ◌∷◌, ◌++◌, if◌then◌else◌, str_eq, is_some,
}
use hadcd_agent.Base.Json.{Value, null, bool, num, str, arr, obj, Fields, end, field}

-- What a handler returns, or none for an exception.
abbrev pub Handler : Type 0
Handler = Fields → Option Value

abbrev pub Registry : Type 0
Registry = List (String × Handler)

unfoldable pub find : String → Registry → Option Handler
find name [] = none
find name ((k, h) ∷ r) = if str_eq k name then some h else find name r

-- None for the ValueError of a name that is taken.
unfoldable pub register : String → Handler → Registry → Option Registry
unfolding find
register name h r = if is_some (find name r) then none else some (r ++ ((name, h) ∷ []))

pub data Run : Type 0 where
  unknown_task_type : Run
  raised : Run
  returned : Fields → Run

-- `isinstance(result, dict)`, or `{"value": result}`
unfoldable pub as_dict : Value → Fields
as_dict null = field "value" null end
as_dict (bool b) = field "value" (bool b) end
as_dict (num d) = field "value" (num d) end
as_dict (str s) = field "value" (str s) end
as_dict (arr xs) = field "value" (arr xs) end
as_dict (obj fs) = fs

unfoldable pub ran : Option Value → Run
unfolding as_dict
ran none = raised
ran (some v) = returned (as_dict v)

unfoldable pub run_found : Option Fields → Option Handler → Run
unfolding ran
run_found args none = unknown_task_type
run_found none (some h) = ran (h end)
run_found (some fs) (some h) = ran (h fs)

-- `task_type` and `args` may be None.
unfoldable pub run_registered : Registry → Option String → Option Fields → Run
unfolding find run_found
run_registered r none args = unknown_task_type
run_registered r (some t) args =
    if str_eq t "" then unknown_task_type else run_found args (find t r)
