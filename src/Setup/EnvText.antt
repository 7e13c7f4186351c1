-- ===== src/Setup/EnvText.antt =====
-- The environment file as a text: `_read_env` and `_write_env` (agent/provisioner.py). The lines of a
-- file are rewritten as `_apply_pending_config` of agent/agent.py rewrites them (Agent.EnvFile).
pub mod Lines
pub mod Dictionary
pub mod Updates
use hadcd_agent.Base.{
  ℕ, Bool, true, false, ◌&&◌, ◌||◌, Option, none, some, List, [], ◌∷◌, ◌++◌, if◌then◌else◌, ◌==◌,
  leb,
}
use hadcd_agent.Base.Text.{Text, text_eq, strip, codes}
use hadcd_agent.Agent.EnvFile.{Config, assigned, rewrite_all, remainder}

-- The characters at which `str.splitlines` breaks a text.
unfoldable pub is_break : ℕ → Bool
is_break c =
    leb 0xa c && leb c 0xd || leb 0x1c c && leb c 0x1e || c == 0x85 || c == 0x2028 || c == 0x2029

-- What follows the last break is a line if it is not empty.
unfoldable pub last_line : Text → List Text
last_line [] = []
last_line (c ∷ word) = (c ∷ word) ∷ []

-- The lines of a text after `word`, the characters since the last break. A carriage return with the
-- newline after it is one break, as `read_text` makes it; `after_cr` says that one has just passed.
unfoldable pub lines_from : Bool → Text → Text → List Text
unfolding is_break last_line
lines_from after_cr word [] = last_line word
lines_from after_cr word (c ∷ s) = elim (after_cr && c == 0xa) [
  | true ↦ lines_from false word s
  | false ↦ elim (is_break c) [
    | true ↦ word ∷ lines_from (c == 0xd) [] s
    | false ↦ lines_from false (word ++ (c ∷ [])) s
  ]
]

unfoldable pub splitlines : Text → List Text
unfolding lines_from
splitlines s = lines_from false [] s

-- `"\n".join(lines)`
unfoldable pub join : List Text → Text
join [] = []
join (l ∷ []) = l
join (l ∷ m ∷ ls) = l ++ (0xa ∷ join (m ∷ ls))

-- `result[k] = v` on a dict
unfoldable pub put : Text → Text → Config → Config
put k v [] = (k, v) ∷ []
put k v ((j, w) ∷ rest) = if text_eq j k then (j, v) ∷ rest else (j, w) ∷ put k v rest

unfoldable pub read_line : Option (Text × Text) → Config → Config
unfolding put
read_line none config = config
read_line (some (k, v)) config = put k (strip v) config

unfoldable pub read_lines : List Text → Config → Config
unfolding read_line
read_lines [] config = config
read_lines (line ∷ lines) config = read_lines lines (read_line (assigned line) config)

-- `_read_env` of a file's text, none for a file that is not there.
unfoldable pub read_env : Option Text → Config
unfolding read_lines splitlines
read_env none = []
read_env (some text) = read_lines (splitlines text) []

-- `# --- set by HADCD provisioner ---`
abbrev pub setup_marker : Text
setup_marker = codes "# --- set by HADCD provisioner ---"

unfoldable pub with_marker : List Text → List Text
with_marker [] = []
with_marker (l ∷ ls) = [] ∷ setup_marker ∷ l ∷ ls

unfoldable pub new_lines : Config → List Text → List Text
unfolding with_marker
new_lines updates lines = rewrite_all updates lines ++ with_marker (remainder updates lines updates)

-- The text that `_write_env` writes, from that of the file, or of the template, or from nothing.
unfoldable pub env_text : Config → Option Text → Text
unfolding new_lines splitlines join
env_text updates none = join (new_lines updates []) ++ (0xa ∷ [])
env_text updates (some source) = join (new_lines updates (splitlines source)) ++ (0xa ∷ [])
