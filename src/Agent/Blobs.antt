-- ===== src/Agent/Blobs.antt =====
-- `safe_blob_name` and `download_all` (agent/blob_client.py): names from the server become names of
-- files in one directory.
use hadcd_agent.Base.{
  ℕ, ◌≡◌, refl, ap, Bool-cases, inl, inr, Bool, true, false, ◌||◌, Option, none, some, List, [],
  ◌∷◌, ◌++◌, All, arith, if◌then◌else◌, ◌==◌,
}
use hadcd_agent.Base.Strip.{strip-All}
use hadcd_agent.Base.Text.{Text, text_eq, strip}

-- `/`, `\` and `.`
abbrev pub slash : ℕ
slash = 47

abbrev pub backslash : ℕ
backslash = 92

abbrev pub dot : ℕ
dot = 46

-- `.replace("\\", "/")`
unfoldable pub to_slashes : Text → Text
to_slashes [] = []
to_slashes (c ∷ s) = (if c == backslash then slash else c) ∷ to_slashes s

-- `.split("/")[-1]`, with `word` the characters since the last slash.
unfoldable pub last_segment : Text → Text → Text
last_segment word [] = word
last_segment word (c ∷ s) = elim (c == slash) [
  | true ↦ last_segment [] s
  | false ↦ last_segment (word ++ (c ∷ [])) s
]

unfoldable pub base_of : Option Text → Text
unfolding to_slashes last_segment
base_of none = []
base_of (some name) = strip (last_segment [] (to_slashes name))

unfoldable pub is_unusable : Text → Bool
is_unusable base = text_eq base [] || text_eq base (dot ∷ []) || text_eq base (dot ∷ dot ∷ [])

unfoldable pub safe_blob_name : Option Text → Text → Text
unfolding base_of is_unusable
safe_blob_name name fallback = if is_unusable (base_of name) then fallback else base_of name

-- A character that separates no directories.
abbrev pub IsPlain : ℕ → Type 0
IsPlain c = ((c == slash) ≡ false) × ((c == backslash) ≡ false)

to_slashes-All : (s : Text) → All (λ c. (c == backslash) ≡ false) (to_slashes s)
unfolding to_slashes
to_slashes-All [] = tt
to_slashes-All (c ∷ s) = (ground arith, to_slashes-All s)

All-snoc : (P : ℕ → Type 0) (s : Text) (c : ℕ) → All P s → P c → All P (s ++ (c ∷ []))
All-snoc P [] c ps p = (p, tt)
All-snoc P (d ∷ s) c (q, ps) p = (q, All-snoc P s c ps p)

last_segment-All :
    (word s : Text)
    → All IsPlain word
    → All (λ c. (c == backslash) ≡ false) s
    → All IsPlain (last_segment word s)
unfolding last_segment
last_segment-All word [] w h = w
last_segment-All word (c ∷ s) w (n, h) = elim (Bool-cases (c == slash)) [
  | inl sep ↦ rw (sep, last_segment) (last_segment-All [] s tt h)
  | inr own ↦
      rw (own, last_segment)
        (last_segment-All (word ++ (c ∷ [])) s (All-snoc IsPlain word c w (own, n)) h)
]

pub base_of-All : (name : Option Text) → All IsPlain (base_of name)
unfolding base_of
base_of-All none = tt
base_of-All (some name) =
    strip-All IsPlain (last_segment [] (to_slashes name))
      (last_segment-All [] (to_slashes name) tt (to_slashes-All name))

-- The keys of a spec.
pub record Spec : Type 0 where
  pub blob_id : Text
  pub filename : Option Text

abbrev pub name_of : Spec → Text
name_of s = safe_blob_name s.filename s.blob_id

abbrev pub names_of : List Spec → List Text
names_of [] = []
names_of (s ∷ ss) = name_of s ∷ names_of ss

-- `inside` says whether a name, resolved in the directory, stays inside it; `arrives`, whether its
-- download succeeds. The names that are returned, or none for an exception, and those requested.
module _ (inside arrives : Text → Bool) where
  prepend : Text → Option (List Text) × List Text → Option (List Text) × List Text
  prepend name (none, asked) = (none, name ∷ asked)
  prepend name (some got, asked) = (some (name ∷ got), name ∷ asked)

  fetch : Text → Option (List Text) × List Text → Option (List Text) × List Text
  unfolding prepend
  fetch name rest =
      if inside name
      then (if arrives name then prepend name rest else (none, name ∷ []))
      else (none, [])

  unfoldable pub download_all : List Spec → Option (List Text) × List Text
  unfolding fetch
  download_all [] = (some [], [])
  download_all (s ∷ ss) = fetch (name_of s) (download_all ss)

  -- Every requested name stays inside; a result is the names of all specs, each requested in turn.
  abbrev pub IsContained : List Spec → Option (List Text) × List Text → Type 0
  IsContained ss (none, asked) = All (λ n. inside n ≡ true) asked
  IsContained ss (some got, asked) =
      All (λ n. inside n ≡ true) asked × (got ≡ names_of ss) × (asked ≡ names_of ss)

  prepend-IsContained :
      (s : Spec) (ss : List Spec) (r : Option (List Text) × List Text)
      → inside (name_of s) ≡ true
      → IsContained ss r
      → IsContained (s ∷ ss) (prepend (name_of s) r)
  unfolding prepend
  prepend-IsContained s ss (none, asked) ok h = (ok, h)
  prepend-IsContained s ss (some got, asked) ok (h, e, f) =
      ((ok, h), ap (λ l. name_of s ∷ l) e, ap (λ l. name_of s ∷ l) f)

  fetch-IsContained :
      (s : Spec) (ss : List Spec) (r : Option (List Text) × List Text)
      → IsContained ss r
      → IsContained (s ∷ ss) (fetch (name_of s) r)
  unfolding fetch
  fetch-IsContained s ss r h = elim (Bool-cases (inside (name_of s))) [
    | inl ok ↦ elim (Bool-cases (arrives (name_of s))) [
      | inl here ↦ rw (ok, here) (prepend-IsContained s ss r ok h)
      | inr gone ↦ rw (ok, gone) (ok, tt)
    ]
    | inr out ↦ rw out tt
  ]

  -- Whatever the server's names and the outcomes of the downloads, no name that leaves the directory
  -- is requested, and a result lists the names of all specs in their order, each of them requested.
  download_all-IsContained : (ss : List Spec) → IsContained ss (download_all ss)
  unfolding download_all
  download_all-IsContained [] = (tt, refl, refl)
  download_all-IsContained (s ∷ ss) =
      fetch-IsContained s ss (download_all ss) (download_all-IsContained ss)
