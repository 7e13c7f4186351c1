-- ===== src/Vast/Cli.antt =====
-- `VastAiCli`: the commands that it runs, and how it reads their replies.
use hadcd_agent.Base.{
  String, ◌≡◌, ◌⊎◌, inl, inr, Option-cases, Bool, true, false, Option, none, some, List, [], ◌∷◌,
  arith, not, is_some, str_eq, length, if◌then◌else◌,
}
use hadcd_agent.Base.Int.{ℤ, pos, negsuc, is_zero}
use hadcd_agent.Base.Json.{
  Value, null, bool, num, str, arr, obj, Decimal, Fields, truthy, lookup, get_or, items, keys,
  characters, iterate, nil,
}
use hadcd_agent.Vast.Monad.{
  RunOutcome, exited, not_found, timed_out, failed, World, Cli, Provider, ran, ok, raised, Action,
  pure, raise, ◌>>=◌, ◌>>◌, asks, emit,
}

unfoldable pub reply : RunOutcome → Option (ℤ × String × String)
reply (exited code out err) = some (code, out, err)
reply not_found = some (negsuc 0, "", "command not found")
reply timed_out = some (negsuc 0, "", "vastai CLI timed out (30 s)")
reply failed = none

-- An exception that nothing catches, or a value.
unfoldable pub or_raise : {A : Type 0} → Option A → Action A
or_raise none = raise
or_raise (some a) = pure a

-- `_exec`; the text of a failure is only logged.
unfoldable pub exec : Cli → List String → Action (ℤ × String × String)
unfolding reply or_raise
exec cli args = do
  emit (ran (cli.cmd ∷ args))
  answered ← asks (λ w. reply (w.run args))
  or_raise answered

abbrev pub set_args : Cli → String → List String
set_args cli flag = "set" ∷ "machine" ∷ cli.machine_id ∷ flag ∷ []

abbrev pub machines_args : List String
machines_args = "show" ∷ "machines" ∷ "--raw" ∷ []

abbrev pub instances_args : Cli → List String
instances_args cli = "show" ∷ "instances" ∷ "--owner" ∷ "me" ∷ "--machine_id" ∷ cli.machine_id ∷ []

unfoldable pub list_machine : Cli → Action Bool
unfolding exec
list_machine cli = do (code, out, err) ← exec cli (set_args cli "listed=true"); pure (is_zero code)

unfoldable pub unlist_machine : Cli → Action Bool
unfolding exec
unlist_machine cli = do
  (code, out, err) ← exec cli (set_args cli "listed=false")
  pure (is_zero code)

-- `len(v)`; `none` is a `TypeError`.
len : Value → Option ℤ
len (str s) = some (pos (length (characters s)))
len (arr xs) = some (pos (length (items xs)))
len (obj fs) = some (pos (length (keys fs)))
len _ = none

-- The count in a parsed reply of `show instances`; -1 stands for "unknown".
unfoldable pub count_instances : Option Value → ℤ
unfolding len
count_instances none = negsuc 0
count_instances (some (arr xs)) = pos (length (items xs))
count_instances (some (obj fs)) = elim (lookup "instances" fs) [
  | none ↦ pos 0
  | some v ↦ elim (len v) [ none ↦ negsuc 0 | some n ↦ n ]
]
count_instances (some _) = pos 0

unfoldable pub active_rental_count : Cli → Action ℤ
unfolding exec
active_rental_count cli = do
  (code, out, err) ← exec cli (instances_args cli)
  parsed ← asks (λ w. w.loads out)
  pure (if is_zero code then count_instances parsed else negsuc 0)

-- `float(v)`; `none` is a `TypeError` or a `ValueError`.
float_value : World → Value → Option Decimal
float_value w (bool true) = some (record { mantissa = pos 1; scale = 0 })
float_value w (bool false) = some (record { mantissa = pos 0; scale = 0 })
float_value w (num d) = some d
float_value w (str s) = w.float_of s
float_value w _ = none

-- The price of one entry: an answer, "go on with the next one", or an `AttributeError`.
pub data Entry : Type 0 where
  answer : Option Decimal → Entry
  next attribute_error : Entry

-- `m.get("dph_base") or m.get("min_bid")`
price_value : Fields → Value
price_value fs =
    let base = get_or "dph_base" null fs in if truthy base then base else get_or "min_bid" null fs

entry_price : World → Cli → Value → Entry
unfolding price_value float_value truthy
entry_price w cli (obj fs) =
    if str_eq (w.str_of (get_or "id" (str "") fs)) (w.str_of (str cli.machine_id))
    then elim (price_value fs) [ null ↦ next | v ↦ answer (float_value w v) ]
    else next
entry_price w cli _ = attribute_error

-- The loop over the machines; the outer `none` is an `AttributeError`, which nothing catches.
find_price : World → Cli → List Value → Option (Option Decimal)
unfolding entry_price
find_price w cli [] = some none
find_price w cli (m ∷ ms) = elim (entry_price w cli m) [
  | answer price ↦ some price
  | next ↦ find_price w cli ms
  | attribute_error ↦ none
]

-- `data if isinstance(data, list) else data.get("machines", [])`; `none` is an `AttributeError`.
machines_of : Value → Option Value
machines_of (arr xs) = some (arr xs)
machines_of (obj fs) = some (get_or "machines" (arr nil) fs)
machines_of _ = none

unfoldable pub read_price : World → Cli → Option Value → Option (Option Decimal)
unfolding find_price machines_of
read_price w cli none = some none
read_price w cli (some parsed) = elim (machines_of parsed) [
  | none ↦ none
  | some v ↦ elim (iterate v) [ none ↦ some none | some ms ↦ find_price w cli ms ]
]

unfoldable pub get_listing_price : Cli → Action (Option Decimal)
unfolding exec or_raise read_price
get_listing_price cli = do
  (code, out, err) ← exec cli machines_args
  price ← asks (λ w. read_price w cli (w.loads out))
  if is_zero code then or_raise price else pure none

-- Whether a command exits with status 0.
unfoldable pub exits_ok : World → List String → Bool
unfolding reply
exits_ok w args = elim (reply (w.run args)) [ none ↦ false | some (code, out, err) ↦ is_zero code ]

-- Whether a command raises what `_exec` does not catch.
unfoldable pub breaks : World → List String → Bool
unfolding reply
breaks w args = not (is_some (reply (w.run args)))

-- The number of rentals that a tick reads, and -1 also where it reads none.
unfoldable pub rental_count : World → Cli → ℤ
unfolding reply
rental_count w cli = elim (reply (w.run (instances_args cli))) [
  | none ↦ negsuc 0
  | some (code, out, err) ↦ if is_zero code then count_instances (w.loads out) else negsuc 0
]

module _ (cli : Cli) (w : World) (p : Provider) where
  -- Counting breaks, or gives the count.
  pub active_rental_count-cases :
      ((active_rental_count cli w p ≡ (raised, p, ran (cli.cmd ∷ instances_args cli) ∷ []))
        × (rental_count w cli ≡ negsuc 0))
      ⊎ (active_rental_count cli w p
          ≡ (ok (rental_count w cli), p, ran (cli.cmd ∷ instances_args cli) ∷ []))
  unfolding active_rental_count rental_count
  active_rental_count-cases = elim (Option-cases (reply (w.run (instances_args cli)))) [
    | inl none_back ↦ inl (ground arith)
    | inr (r, back) ↦ inr (ground arith)
  ]

  -- It runs its one command and leaves the provider alone.
  pub get_listing_price_keeps : (get_listing_price cli w p).1 ≡ p
  unfolding get_listing_price
  get_listing_price_keeps = ground arith

  pub get_listing_price_runs : (get_listing_price cli w p).2 ≡ ran (cli.cmd ∷ machines_args) ∷ []
  unfolding get_listing_price
  get_listing_price_runs = ground arith
