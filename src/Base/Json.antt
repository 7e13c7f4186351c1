-- ===== src/Base/Json.antt =====
-- The values of `json.loads`, as Python sees them: truth, `isinstance`, `dict.get`, `len`, `for`.
use Prim.Native.Nat.{ℕ}
use Prim.Native.String.{String}
use mathlib.Core.Bool.{Bool, true, false, not}
use mathlib.Core.List.{List, [], ◌∷◌}
use mathlib.Core.Option.{Option, none, some}
use text.Mathlib.Text.{◌==◌ as str_eq}
use hadcd_agent.Base.Tests.{if◌then◌else◌}
use hadcd_agent.Base.Int.{ℤ, is_zero}

-- A number as it is written: the mantissa, and how many of its digits are decimals.
pub record Decimal : Type 0 where
  pub mantissa : ℤ
  pub scale : ℕ

mutual
  pub data Value : Type 0 where
    null : Value
    bool : Bool → Value
    num : Decimal → Value
    str : String → Value
    arr : Items → Value
    obj : Fields → Value

  pub data Fields : Type 0 where
    end : Fields
    field : String → Value → Fields → Fields

  pub data Items : Type 0 where
    nil : Items
    cons : Value → Items → Items

-- `bool(v)`
unfoldable pub truthy : Value → Bool
truthy null = false
truthy (bool b) = b
truthy (num d) = not (is_zero d.mantissa)
truthy (str s) = not (str_eq s "")
truthy (arr nil) = false
truthy (arr (cons x xs)) = true
truthy (obj end) = false
truthy (obj (field k v fs)) = true

-- `d.get(key)` on a dict
abbrev pub lookup : String → Fields → Option Value
lookup k end = none
lookup k (field j v fs) = if str_eq j k then some v else lookup k fs

-- `d.get(key, default)`
abbrev pub get_or : String → Value → Fields → Value
get_or k d fs = elim (lookup k fs) [ none ↦ d | some v ↦ v ]

abbrev pub items : Items → List Value
items nil = []
items (cons x xs) = x ∷ items xs

abbrev pub keys : Fields → List Value
keys end = []
keys (field k v fs) = str k ∷ keys fs

abbrev pub characters : String → List Value
characters String.[] = []
characters (String.◌∷◌ c s) = str (String.◌∷◌ c String.[]) ∷ characters s

-- What `for x in v` goes through; `none` is a `TypeError`.
abbrev pub iterate : Value → Option (List Value)
iterate null = none
iterate (bool b) = none
iterate (num d) = none
iterate (str s) = some (characters s)
iterate (arr xs) = some (items xs)
iterate (obj fs) = some (keys fs)
