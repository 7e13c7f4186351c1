-- ===== src/Agent/EnvFile.antt =====
-- `_apply_pending_config` (agent/agent.py) on the lines of the environment file. A configuration is
-- a list of keys with their values, as texts.
pub mod Push
use hadcd_agent.Base.{
  ℕ, ◌≡◌, refl, sym, ap, ◌∙◌, ◌⊎◌, inl, inr, Bool, true, false, not, ◌&&◌, ◌||◌, Option, none, some,
  List, [], ◌∷◌, ◌++◌, All, arith, if◌then◌else◌, ◌==◌, ==_iff, Bool-cases,
}
use hadcd_agent.Base.Text.{Text, text_eq, strip}

-- `=` and `#`
abbrev pub equals : ℕ
equals = 61

abbrev pub hash : ℕ
hash = 35

abbrev pub Config : Type 0
Config = List (Text × Text)

unfoldable pub cons_fst : ℕ → Option (Text × Text) → Option (Text × Text)
cons_fst c none = none
cons_fst c (some (a, b)) = some (c ∷ a, b)

-- `s.split("=", 1)`, where there is a "=".
unfoldable pub split_once : Text → Option (Text × Text)
unfolding cons_fst
split_once [] = none
split_once (c ∷ s) = if c == equals then some ([], s) else cons_fst c (split_once s)

unfoldable pub is_skipped : Text → Bool
is_skipped [] = true
is_skipped (c ∷ s) = c == hash

unfoldable pub strip_key : Option (Text × Text) → Option (Text × Text)
strip_key none = none
strip_key (some (a, b)) = some (strip a, b)

-- The key that a line assigns, with what comes after the first "=".
unfoldable pub assigned : Text → Option (Text × Text)
unfolding is_skipped split_once strip_key
assigned line = if is_skipped (strip line) then none else strip_key (split_once (strip line))

unfoldable pub find : Text → Config → Option Text
find k [] = none
find k ((j, v) ∷ config) = if text_eq j k then some v else find k config

abbrev pub entry : Text → Text → Text
entry k v = k ++ (equals ∷ v)

-- The value that a line is to get, if its key is configured.
unfoldable pub new_value : Config → Option (Text × Text) → Option (Text × Text)
unfolding find
new_value config none = none
new_value config (some (k, old)) = elim (find k config) [ none ↦ none | some v ↦ some (k, v) ]

unfoldable pub rewrite : Option (Text × Text) → Text → Text
rewrite none line = line
rewrite (some (k, v)) line = entry k v

unfoldable pub rewrite_all : Config → List Text → List Text
unfolding rewrite new_value
rewrite_all config [] = []
rewrite_all config (line ∷ lines) =
    rewrite (new_value config (assigned line)) line ∷ rewrite_all config lines

-- Whether `k` is among `updated`.
unfoldable pub has_key : Text → Option (Text × Text) → Bool
has_key k none = false
has_key k (some (j, v)) = text_eq j k

unfoldable pub is_updated : Config → Text → List Text → Bool
unfolding has_key new_value
is_updated config k [] = false
is_updated config k (line ∷ lines) =
    has_key k (new_value config (assigned line)) || is_updated config k lines

-- The lines of `remainder`, for the entries of `config` that are still to come.
unfoldable pub remainder : Config → List Text → Config → List Text
unfolding is_updated
remainder config lines [] = []
remainder config lines ((k, v) ∷ rest) =
    if is_updated config k lines
    then remainder config lines rest
    else entry k v ∷ remainder config lines rest

-- `# --- set by HADCD remote config push ---`
abbrev pub marker : Text
marker =
    35 ∷ 32 ∷ 45 ∷ 45 ∷ 45 ∷ 32 ∷ 115 ∷ 101 ∷ 116 ∷ 32 ∷ 98 ∷ 121 ∷ 32 ∷ 72 ∷ 65 ∷ 68 ∷ 67 ∷ 68 ∷ 32
    ∷ 114 ∷ 101 ∷ 109 ∷ 111 ∷ 116 ∷ 101 ∷ 32 ∷ 99 ∷ 111 ∷ 110 ∷ 102 ∷ 105 ∷ 103 ∷ 32 ∷ 112 ∷ 117
    ∷ 115 ∷ 104 ∷ 32 ∷ 45 ∷ 45 ∷ 45 ∷ []

unfoldable pub appended : List Text → List Text
appended [] = []
appended (l ∷ ls) = [] ∷ marker ∷ l ∷ ls

unfoldable pub apply_pending_config : Config → List Text → List Text
unfolding rewrite_all remainder appended
apply_pending_config config lines =
    rewrite_all config lines ++ appended (remainder config lines config)
