-- ===== src/Agent/EnvFile/Push.antt =====
-- What a pushed configuration does to the assignments of the file.
use hadcd_agent.Base.{
  ◌≡◌, refl, sym, ap, ◌∙◌, inl, inr, Bool, true, false, ◌||◌, Option, none, some, List, [], ◌∷◌,
  ◌++◌, All, All-append, arith, Bool-cases, Option-cases,
}
use mathlib.Core.Bool.{false≢true}
use mathlib.Core.Option.{some-ne-none}
use mathlib.Core.Path.{subst}
use hadcd_agent.Base.Text.{Text, text_eq, text_eq_sound, strip, is_space}
use hadcd_agent.Agent.EnvFile.{
  Config, assigned, find, entry, new_value, rewrite, rewrite_all, has_key, is_updated, remainder,
  appended, apply_pending_config,
}

-- A configuration whose entries read back as they are, with no key twice.
abbrev pub IsPlain : Config → Config → Type 0
IsPlain config [] = Unit
IsPlain config ((k, v) ∷ rest) =
    (assigned (entry k v) ≡ some (k, v)) × (find k config ≡ some v) × IsPlain config rest

find-plain :
    (config rest : Config) (k v : Text)
    → IsPlain config rest
    → find k rest ≡ some v
    → assigned (entry k v) ≡ some (k, v)
unfolding find
find-plain config [] k v p e = absurd (some-ne-none v (sym e))
find-plain config ((j, w) ∷ rest) k v (reads, own, p) e = elim (Bool-cases (text_eq j k)) [
  | inl same ↦
      (let g : some w ≡ some v = (rw same at e) in
        let f : w ≡ v = cc in
        subst (λ x. assigned (entry x v) ≡ some (x, v)) (text_eq_sound j k same)
          (subst (λ y. assigned (entry j y) ≡ some (j, y)) f reads))
  | inr other ↦ find-plain config rest k v p (rw other at e)
]

-- What a line assigns in the new file.
unfoldable pub after : Config → Option (Text × Text) → Option (Text × Text)
after config none = none
after config (some (j, old)) = elim (find j config) [ none ↦ some (j, old) | some w ↦ some (j, w) ]

pub rewritten :
    (config : Config) (line : Text) (a : Option (Text × Text))
    → IsPlain config config
    → assigned line ≡ a
    → assigned (rewrite (new_value config a) line) ≡ after config a
unfolding rewrite new_value after
rewritten config line none p e = e
rewritten config line (some (j, old)) p e = elim (Option-cases (find j config)) [
  | inl missing ↦ rw (missing, rewrite, after) e
  | inr (w, found) ↦ rw (found, rewrite, after) (find-plain config config j w p found)
]

-- A line that assigns `k`, if it does, assigns `v`.
abbrev pub IsValue : Text → Text → Option (Text × Text) → Type 0
IsValue k v none = Unit
IsValue k v (some (j, w)) = text_eq j k ≡ true → w ≡ v

-- Some line assigns `k`.
abbrev pub has : Text → List Text → Bool
has k [] = false
has k (line ∷ lines) = has_key k (assigned line) || has k lines

module _ (config : Config) (k v : Text) (found : find k config ≡ some v) where
  find-same : (j : Text) → text_eq j k ≡ true → find j config ≡ some v
  find-same j same = ap (λ x. find x config) (text_eq_sound j k same) ∙ found

  after-IsValue : (a : Option (Text × Text)) → IsValue k v (after config a)
  unfolding after
  after-IsValue none = tt
  after-IsValue (some (j, old)) = elim (Option-cases (find j config)) [
    | inl missing ↦
        rw (missing, IsValue) (λ same. absurd (some-ne-none v (sym (find-same j same) ∙ missing)))
    | inr (w, here) ↦
        rw (here, IsValue) (λ same. let g : some w ≡ some v = sym here ∙ find-same j same in cc)
  ]

  after-has :
      (a : Option (Text × Text))
      → has_key k (new_value config a) ≡ true
      → has_key k (after config a) ≡ true
  unfolding after new_value has_key
  after-has none h = h
  after-has (some (j, old)) h = elim (Option-cases (find j config)) [
    | inl missing ↦ absurd (false≢true (rw (missing, has_key) at h))
    | inr (w, here) ↦ rw (here, has_key) (rw (here, has_key) at h)
  ]

  pub updated-has :
      (lines : List Text)
      → IsPlain config config
      → is_updated config k lines ≡ true
      → has k (rewrite_all config lines) ≡ true
  unfolding is_updated rewrite_all
  updated-has [] p u = u
  updated-has (line ∷ lines) p u =
      rw (rewritten config line (assigned line) p refl)
        (ground (arith, after-has (assigned line), updated-has lines p))

  pub remainder-has :
      (lines : List Text) (rest : Config)
      → IsPlain config rest
      → find k rest ≡ some v
      → is_updated config k lines ≡ false
      → has k (remainder config lines rest) ≡ true
  unfolding remainder find
  remainder-has lines [] p f u = absurd (some-ne-none v (sym f))
  remainder-has lines ((j, w) ∷ rest) (reads, own, p) f u = elim (Bool-cases (text_eq j k)) [
    | inl same ↦
        rw (ap (λ x. is_updated config x lines) (text_eq_sound j k same) ∙ u, reads, has_key)
          (rw same refl)
    | inr other ↦ elim (Bool-cases (is_updated config j lines)) [
      | inl there ↦ rw there (remainder-has lines rest p (rw other at f) u)
      | inr new ↦ rw (new, reads, has_key) (rw other (remainder-has lines rest p (rw other at f) u))
    ]
  ]

  pub rewrite_all-IsValue :
      (lines : List Text)
      → IsPlain config config
      → All (λ l. IsValue k v (assigned l)) (rewrite_all config lines)
  unfolding rewrite_all
  rewrite_all-IsValue [] p = tt
  rewrite_all-IsValue (line ∷ lines) p = (
    rw (rewritten config line (assigned line) p refl) (after-IsValue (assigned line)),
    rewrite_all-IsValue lines p,
  )

  pub remainder-IsValue :
      (lines : List Text) (rest : Config)
      → IsPlain config rest
      → All (λ l. IsValue k v (assigned l)) (remainder config lines rest)
  unfolding remainder
  remainder-IsValue lines [] p = tt
  remainder-IsValue lines ((j, w) ∷ rest) (reads, own, p) =
      elim (Bool-cases (is_updated config j lines)) [
        | inl there ↦ rw there (remainder-IsValue lines rest p)
        | inr new ↦
            rw (new, reads, IsValue)
              (
                (λ same. let g : some w ≡ some v = sym own ∙ find-same j same in cc),
                remainder-IsValue lines rest p,
              )
      ]

  -- A blank line and the marker assign nothing.
  appended-IsValue :
      (ls : List Text)
      → All (λ l. IsValue k v (assigned l)) ls
      → All (λ l. IsValue k v (assigned l)) (appended ls)
  unfolding appended assigned strip is_space
  appended-IsValue [] h = tt
  appended-IsValue (l ∷ ls) h = (tt, (tt, h))

  appended-has : (ls : List Text) → has k ls ≡ true → has k (appended ls) ≡ true
  unfolding appended assigned has_key strip is_space
  appended-has [] h = h
  appended-has (l ∷ ls) h = h

  pub has-append : (xs ys : List Text) → has k (xs ++ ys) ≡ (has k xs || has k ys)
  has-append [] ys = refl
  has-append (x ∷ xs) ys = ground (arith, has-append xs ys)

pub or-true : (b : Bool) → (b || true) ≡ true
or-true true = refl
or-true false = refl

either-has :
    (config : Config) (lines : List Text) (k v : Text)
    → IsPlain config config
    → find k config ≡ some v
    → (has k (rewrite_all config lines) || has k (appended (remainder config lines config))) ≡ true
either-has config lines k v p found = elim (Bool-cases (is_updated config k lines)) [
  | inl there ↦ rw (updated-has config k v found lines p there) refl
  | inr new ↦
      rw
        (appended-has config k v found (remainder config lines config)
          (remainder-has config k v found lines config p found new))
        (or-true (has k (rewrite_all config lines)))
]

-- A pushed configuration whose entries read back as they are and with no key twice: in the new file
-- some line assigns each of its keys, and every line that does assigns the pushed value.
push-configures :
    (config : Config) (lines : List Text) (k v : Text)
    → IsPlain config config
    → find k config ≡ some v
    → All (λ l. IsValue k v (assigned l)) (apply_pending_config config lines)
      × (has k (apply_pending_config config lines) ≡ true)
unfolding apply_pending_config
push-configures config lines k v p found = (
  All-append (λ l. IsValue k v (assigned l)) (rewrite_all config lines)
      (appended (remainder config lines config)) (rewrite_all-IsValue config k v found lines p)
      (appended-IsValue config k v found (remainder config lines config)
        (remainder-IsValue config k v found lines config p)),
  has-append config k v found (rewrite_all config lines) (appended (remainder config lines config))
      ∙ either-has config lines k v p found,
)
