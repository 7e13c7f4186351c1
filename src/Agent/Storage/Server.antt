-- ===== src/Agent/Storage/Server.antt =====
-- The server of the pool for peers (`do_GET` of agent/storage_server.py), and that what it serves is
-- what a peer's transfer accepts.
use hadcd_agent.Base.{
  ℕ, ◌≡◌, refl, sym, ap, ◌∙◌, ◌⊎◌, inl, inr, Bool, true, false, ◌&&◌, ◌||◌, Option, none, some,
  List, [], ◌∷◌, arith, Bool-cases, Option-cases, if◌then◌else◌, ◌==◌, leb, length,
}
use mathlib.Core.Path.{subst}
use mathlib.Core.Bool.{true≢false, false≢true}
use mathlib.Core.Option.{some-ne-none}
use hadcd_agent.Base.Text.{Text, codes}
use hadcd_agent.Agent.Storage.{
  Bytes, File, is_staging, content_of, requests, returned, download, fetch_from_peer,
}
use hadcd_agent.Agent.Storage.Fallback.{serving, joined, download-serving}
use hadcd_agent.Agent.Storage.Transfer.{IsSound, content_of-IsNamed}

-- `[0-9a-f]`
unfoldable pub is_hex : ℕ → Bool
is_hex c = leb 48 c && leb c 57 || leb 97 c && leb c 102

unfoldable pub all_hex : Text → Bool
unfolding is_hex
all_hex [] = true
all_hex (c ∷ s) = is_hex c && all_hex s

-- The part of the path behind a prefix.
unfoldable pub behind : Text → Text → Option Text
behind [] s = some s
behind (c ∷ p) [] = none
behind (c ∷ p) (d ∷ s) = if c == d then behind p s else none

-- The match of `^/pool/([0-9a-f]{64})$`; a request's path has no line end.
unfoldable pub requested : Text → Option Text
unfolding behind all_hex
requested path = elim (behind (codes "/pool/") path) [
  | none ↦ none
  | some name ↦ if length name == 64 && all_hex name then some name else none
]

pub data Response : Type 0 where
  not_found stat_failed : Response
  serves : Text → Bytes → Response

-- `has_stat` says that the file's size can be read.
unfoldable pub serve : Text → Bool → List File → Response
unfolding requested content_of
serve path has_stat fs = elim (requested path) [
  | none ↦ not_found
  | some sha256 ↦ elim (content_of sha256 fs) [
    | none ↦ not_found
    | some bytes ↦ if has_stat then serves sha256 bytes else stat_failed
  ]
]

hex-IsNotStaging : (name : Text) → all_hex name ≡ true → is_staging name ≡ false
unfolding all_hex is_hex is_staging
hex-IsNotStaging [] h = refl
hex-IsNotStaging (c ∷ s) h = let rest = hex-IsNotStaging s (ground arith) in ground (arith, rest)

last_true : (a b : Bool) → (a && b) ≡ true → b ≡ true
last_true true b e = e
last_true false b e = elim (false≢true e) [ ]

requested-hex : (path sha256 : Text) → requested path ≡ some sha256 → all_hex sha256 ≡ true
unfolding requested
requested-hex path sha256 e = elim (Option-cases (behind (codes "/pool/") path)) [
  | inl outside ↦ elim (some-ne-none sha256 (sym (rw (requested, outside) at e))) [ ]
  | inr (name, inside) ↦ elim (Bool-cases (length name == 64 && all_hex name)) [
    | inr other ↦ elim (some-ne-none sha256 (sym (rw (requested, inside, other) at e))) [ ]
    | inl fits ↦
        let same : name ≡ sha256 =
          ap (λ o. elim o [ none ↦ name | some x ↦ x ]) (rw (requested, inside, fits) at e) in
        rw (sym same) (last_true (length name == 64) (all_hex name) fits)
  ]
]

abbrev Served : (Bytes → Text) → Response → Type 0
Served hash not_found = Unit
Served hash stat_failed = Unit
Served hash (serves sha256 bytes) = hash bytes ≡ sha256

-- A fetch that returned True, with the content in the pool under the name.
abbrev pub IsTaken : Text → Bytes → List File × Option Bool → Type 0
IsTaken sha256 all r = (r.1 ≡ some true) × (content_of sha256 r.0 ≡ some all)

returned-IsTaken :
    (sha256 : Text) (all : Bytes) (r : List File × Bool)
    → (r.1 ≡ true) × (content_of sha256 r.0 ≡ some all)
    → IsTaken sha256 all (returned r)
returned-IsTaken sha256 all (fs, true) (e, held) = (refl, held)
returned-IsTaken sha256 all (fs, false) (e, held) = elim (false≢true e) [ ]

module _ (hash : Bytes → Text) where
  not-staging :
      (sha256 : Text) (bytes : Bytes)
      → all_hex sha256 ≡ true
      → (is_staging sha256 ≡ true) ⊎ (hash bytes ≡ sha256)
      → hash bytes ≡ sha256
  not-staging sha256 bytes hex (inl staging) =
      elim (true≢false (sym staging ∙ hex-IsNotStaging sha256 hex)) [ ]
  not-staging sha256 bytes hex (inr own) = own

  serve-Served :
      (path : Text) (has_stat : Bool) (fs : List File)
      → IsSound hash fs
      → Served hash (serve path has_stat fs)
  unfolding serve
  serve-Served path has_stat fs sound = elim (Option-cases (requested path)) [
    | inl outside ↦ rw (serve, outside) tt
    | inr (sha256, asked) ↦ elim (Option-cases (content_of sha256 fs)) [
      | inl gone ↦ rw (serve, asked, gone) tt
      | inr (bytes, here) ↦ elim (Bool-cases has_stat) [
        | inr fails ↦ rw (serve, asked, here, fails) tt
        | inl works ↦
            rw (serve, asked, here, works)
              (not-staging sha256 bytes (requested-hex path sha256 asked)
                (content_of-IsNamed hash sha256 fs bytes sound here))
      ]
    ]
  ]

  -- What a node with a sound pool serves to a request, in whatever chunks it arrives, a peer's
  -- transfer of that file accepts, if no sweep runs meanwhile: it returns True, and its pool then
  -- has the file with just the content that was served.
  pub served_is_accepted :
      (path sha256 : Text) (has_stat : Bool) (theirs ours : List File) (part : ℕ → Bytes) (n : ℕ)
      → IsSound hash theirs
      → serve path has_stat theirs ≡ serves sha256 (joined part n 0)
      → IsTaken sha256
          (joined part n 0)
          (fetch_from_peer hash sha256 (some 200) (requests (serving part) n 0) ours)
  unfolding fetch_from_peer
  served_is_accepted path sha256 has_stat theirs ours part n sound answer =
      let own : hash (joined part n 0) ≡ sha256 =
        subst (Served hash) answer (serve-Served path has_stat theirs sound) in
      returned-IsTaken sha256 (joined part n 0)
        (download hash sha256 (requests (serving part) n 0) ours)
        (download-serving hash sha256 part n ours own)
