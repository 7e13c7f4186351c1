-- ===== src/Agent/Storage/Pool.antt =====
-- The directory of the storage pool, as the list of its files, and one sweep of it
-- (`_storage_gc_loop` of agent/agent.py). A name is one segment of a path; the paths of a job whose
-- `sha256` is empty, is "..", or has a slash are left out.
use hadcd_agent.Base.{
  ℕ, Bool, true, false, not, ◌&&◌, ◌||◌, Option, none, some, List, [], ◌∷◌, ◌++◌, if◌then◌else◌,
  ◌==◌, length, is_some, any,
}
use hadcd_agent.Base.Text.{Text, text_eq}

abbrev pub Bytes : Type 0
Bytes = List ℕ

pub record File : Type 0 where
  pub name : Text
  pub content : Bytes

-- `.tmp`
abbrev pub suffix : Text
suffix = 46 ∷ 116 ∷ 109 ∷ 112 ∷ []

-- `name.endswith(".tmp")`
abbrev pub ends_with : Text → Text → Bool
ends_with s [] = text_eq [] s
ends_with s (c ∷ t) = text_eq (c ∷ t) s || ends_with s t

unfoldable pub is_staging : Text → Bool
is_staging name = ends_with suffix name

unfoldable pub staging_of : Text → Text
staging_of sha256 = sha256 ++ suffix

-- The directory: `read`, `exists`, `unlink(missing_ok=True)`, a write, and `rename`, which replaces
-- its target and fails where there is no source.
unfoldable pub content_of : Text → List File → Option Bytes
content_of name [] = none
content_of name (f ∷ fs) = elim (text_eq f.name name) [
  | true ↦ some f.content
  | false ↦ content_of name fs
]

abbrev pub exists : Text → List File → Bool
exists name fs = is_some (content_of name fs)

unfoldable pub unlink : Text → List File → List File
unlink name [] = []
unlink name (f ∷ fs) = let rest = unlink name fs in if text_eq f.name name then rest else f ∷ rest

unfoldable pub write : Text → Bytes → List File → List File
unfolding unlink
write name bytes fs = record { name = name; content = bytes } ∷ unlink name fs

unfoldable pub rename : Text → Text → List File → Option (List File)
unfolding content_of write
rename source target fs = elim (content_of source fs) [
  | none ↦ none
  | some bytes ↦ some (write target bytes (unlink source fs))
]

-- One sweep: the active hashes of the manifest, and the names that the system lets go.
pub record Sweep : Type 0 where
  pub active : List Text
  pub removable : Text → Bool

-- The two tests of the loop over `iterdir()`.
unfoldable pub is_stale : List Text → Text → Bool
unfolding is_staging
is_stale active name =
    if is_staging name then true else length name == 64 && not (any (text_eq name) active)

unfoldable pub sweep : Sweep → List File → List File
unfolding is_stale
sweep s [] = []
sweep s (f ∷ fs) =
    let rest = sweep s fs in
    if is_stale s.active f.name && s.removable f.name then rest else f ∷ rest

-- One body of `_storage_gc_loop`: the status of the manifest's response, or none for an exception.
unfoldable pub collect : Option ℕ → Sweep → List File → List File
unfolding sweep
collect none s fs = fs
collect (some status) s fs = if status == 200 then sweep s fs else fs
