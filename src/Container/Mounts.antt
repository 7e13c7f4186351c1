-- ===== src/Container/Mounts.antt =====
-- `_is_within`, `_check_mount_allowed` and the volumes of `_container`: which host paths a task may
-- mount. Paths are POSIX; `realpath` is Python's and the environment's values are given.
pub mod Segments
pub mod Policy
use hadcd_agent.Base.{
  ℕ, String, Bool, true, false, not, ◌&&◌, ◌||◌, Option, none, some, List, [], ◌∷◌, ◌++◌,
  if◌then◌else◌, ◌==◌, leb,
}
use hadcd_agent.Base.Text.{Text, text_eq, starts_with, strip, drop_end_while}
use hadcd_agent.Container.{Result, returns, value_error, bind}

-- `os.sep` and `os.pathsep`
abbrev pub slash : ℕ
slash = 47

abbrev pub colon : ℕ
colon = 58

-- `hadcd-blobs-`
abbrev pub blob_staging_prefix : Text
blob_staging_prefix = 104 ∷ 97 ∷ 100 ∷ 99 ∷ 100 ∷ 45 ∷ 98 ∷ 108 ∷ 111 ∷ 98 ∷ 115 ∷ 45 ∷ []

-- `os.path.realpath`, `tempfile.gettempdir()`, and HADCD_MOUNT_ALLOWLIST.
pub record Host : Type 0 where
  pub realpath : Text → Text
  pub tempdir : Text
  pub allowlist : Text

-- `s.split(sep)` for one character
split_on : ℕ → Text → Text × List Text
split_on sep [] = ([], [])
split_on sep (c ∷ s) =
    let (word, words) = split_on sep s in if c == sep then ([], word ∷ words) else (c ∷ word, words)

unfoldable pub split : ℕ → Text → List Text
unfolding split_on
split sep s = (split_on sep s).0 ∷ (split_on sep s).1

-- `path.rstrip(os.sep)`
unfoldable pub strip_slashes : Text → Text
strip_slashes p = drop_end_while (λ c. c == slash) p

-- `_is_within` of two resolved paths.
unfoldable pub lies_in : Text → Text → Bool
unfolding strip_slashes
lies_in path parent = text_eq path parent || starts_with (strip_slashes parent ++ (slash ∷ [])) path

unfoldable pub is_within : Host → Text → Text → Bool
unfolding lies_in
is_within h path parent = lies_in (h.realpath path) (h.realpath parent)

unfoldable pub is_staged : Host → Text → Bool
unfolding strip_slashes
is_staged h real =
    starts_with (strip_slashes (h.realpath h.tempdir) ++ (slash ∷ blob_staging_prefix)) real

unfoldable pub is_empty : Text → Bool
is_empty [] = true
is_empty (c ∷ s) = false

-- The loop over the entries of the allowlist.
unfoldable pub any_entry : Host → Text → List Text → Bool
unfolding is_empty is_within
any_entry h path [] = false
any_entry h path (entry ∷ entries) =
    not (is_empty (strip entry)) && is_within h path (strip entry) || any_entry h path entries

-- Whether `_check_mount_allowed` returns, and does not raise.
unfoldable pub check_mount_allowed : Host → Text → Bool
unfolding is_staged any_entry split
check_mount_allowed h path =
    is_staged h (h.realpath path) || any_entry h path (split colon h.allowlist)
