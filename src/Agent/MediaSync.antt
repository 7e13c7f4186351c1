-- ===== src/Agent/MediaSync.antt =====
-- `_sync_media_models` (agent/agent.py): the queue of model files for the media container. A path is
-- the list of its components; `Path.resolve` is the parameter `resolve`, from the text below the root,
-- and `follow` gives what `open` writes at a path: the path itself, unless it is a symbolic link.
mod Containment
mod Tests
use hadcd_agent.Base.{
  ℕ, zero, suc, ◌<◌, Bool, true, false, not, ◌&&◌, ◌||◌, Option, none, some, List, [], ◌∷◌, ◌++◌,
  if◌then◌else◌, ltb, ◌==◌,
}
use hadcd_agent.Base.Text.{Text, text_eq, strip, drop_while, codes}

abbrev pub Segments : Type 0
Segments = List Text

-- `dest.relative_to(root)` does not raise.
unfoldable pub is_within : Segments → Segments → Bool
is_within [] path = true
is_within (a ∷ root) [] = false
is_within (a ∷ root) (b ∷ path) = text_eq a b && is_within root path

-- `dest.with_suffix(dest.suffix + ".part")`
unfoldable pub part_of : Segments → Segments
part_of [] = []
part_of (name ∷ []) = (name ++ codes ".part") ∷ []
part_of (a ∷ b ∷ path) = a ∷ part_of (b ∷ path)

-- One item of the queue: none for what is no dictionary, or the texts of `url` and `rel_path`.
abbrev pub Spec : Type 0
Spec = Option (Text × Text)

abbrev pub Bytes : Type 0
Bytes = List ℕ

-- The answer for a file: the directory cannot be made; the download fails, before the part file is
-- opened or after these bytes; or it gives these.
pub data Fetch : Type 0 where
  no_directory : Fetch
  download_fails : Option Bytes → Fetch
  downloads : Bytes → Fetch

-- The files that are no links, with what they hold
abbrev pub Files : Type 0
Files = List (Segments × Bytes)

unfoldable pub path_eq : Segments → Segments → Bool
path_eq [] [] = true
path_eq [] (b ∷ q) = false
path_eq (a ∷ p) [] = false
path_eq (a ∷ p) (b ∷ q) = text_eq a b && path_eq p q

unfoldable pub content_of : Segments → Files → Option Bytes
unfolding path_eq
content_of p [] = none
content_of p ((q, b) ∷ files) = if path_eq q p then some b else content_of p files

unfoldable pub remove : Segments → Files → Files
unfolding path_eq
remove p [] = []
remove p ((q, n) ∷ files) = let rest = remove p files in if path_eq q p then rest else (q, n) ∷ rest

-- What is open for writing holds these bytes.
unfoldable pub write : Segments → Bytes → Files → Files
unfolding remove
write p b files = (p, b) ∷ remove p files

-- The files, and whether an exception has left the function.
pub record Sync : Type 0 where
  pub files : Files
  pub has_raised : Bool

-- The part file replaces the destination, or it is deleted.
unfoldable pub fetch : (Segments → Segments) → Segments → Fetch → Sync → Sync
unfolding write part_of
fetch follow dest no_directory s = record s { has_raised = true }
fetch follow dest (download_fails none) s = record s { files = remove (part_of dest) s.files }
fetch follow dest (download_fails (some b)) s = record s {
  files = remove (part_of dest) (write (follow (part_of dest)) b s.files);
}
fetch follow dest (downloads b) s = record s {
  files = write dest b (remove (part_of dest) (write (follow (part_of dest)) b s.files));
}

-- `dest.exists() and dest.stat().st_size > 0`
unfoldable pub is_present : Option Bytes → Bool
is_present none = false
is_present (some []) = false
is_present (some (c ∷ b)) = true

unfoldable pub is_slash : ℕ → Bool
is_slash c = c == 47 || c == 92

-- What follows an exception, or not.
unfoldable pub unless_raised : Bool → Sync → Sync → Sync
unless_raised true s next = s
unless_raised false s next = next

module _ (resolve : Text → Segments) (follow : Segments → Segments) (root : Segments) where
  unfoldable pub place : Segments → Fetch → Sync → Sync
  unfolding is_within is_present content_of fetch
  place dest answer s =
      if is_within root dest
      then (if is_present (content_of dest s.files) then s else fetch follow dest answer s)
      else s

  unfoldable pub sync_spec : Spec → Fetch → Sync → Sync
  unfolding place is_slash
  sync_spec none answer s = s
  sync_spec (some (url, rel_path)) answer s =
      let path = drop_while is_slash (strip rel_path) in
      if text_eq (strip url) [] || text_eq path [] then s else place (resolve path) answer s

  -- The queue, each item with the answer to its download.
  unfoldable pub sync_all : List (Spec × Fetch) → Sync → Sync
  unfolding sync_spec unless_raised
  sync_all [] s = s
  sync_all ((spec, answer) ∷ queue) s =
      unless_raised s.has_raised s (sync_all queue (sync_spec spec answer s))

-- Without a directory for the models nothing is downloaded; `root` is what the setting names.
unfoldable pub sync_media_models :
    (Text → Segments) → (Segments → Segments) → Text → Segments → List (Spec × Fetch) → Files → Sync
unfolding sync_all
sync_media_models resolve follow setting root queue files =
    let start : Sync = record { files = files; has_raised = false } in
    if text_eq (strip setting) [] then start else sync_all resolve follow root queue start
