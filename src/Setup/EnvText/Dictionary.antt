-- ===== src/Setup/EnvText/Dictionary.antt =====
-- What `_write_env` does to the dictionary that `_read_env` reads.
use hadcd_agent.Base.{
  ◌≡◌, refl, sym, ap, ◌∙◌, inl, inr, ◌⊎◌, true, false, ◌||◌, Option, none, some, List, [], ◌∷◌,
  ◌++◌, All, All-append, Bool-cases, Option-cases, if◌then◌else◌,
}
use mathlib.Core.Option.{some-ne-none}
use mathlib.Core.Path.{subst}
use mathlib.Core.Bool.{false≢true}
use hadcd_agent.Base.Text.{Text, text_eq, text_eq_sound, text_eq_refl, strip, is_space}
use hadcd_agent.Agent.EnvFile.{Config, assigned, find, has_key, rewrite_all, is_updated, remainder}
use hadcd_agent.Agent.EnvFile.Push.{
  IsPlain, IsValue, has, after, rewritten, updated-has, remainder-has, has-append, or-true,
  rewrite_all-IsValue, remainder-IsValue,
}
use hadcd_agent.Setup.EnvText.{put, read_line, read_lines, with_marker, new_lines}

pub find-put : (k v : Text) (config : Config) → find k (put k v config) ≡ some v
unfolding find put
find-put k v [] = rw (find, text_eq_refl k) refl
find-put k v ((j, w) ∷ rest) = elim (Bool-cases (text_eq j k)) [
  | inl same ↦ rw (same, find, same) refl
  | inr other ↦ rw (other, find, other) (find-put k v rest)
]

pub find-put_other :
    (j k v : Text) (config : Config) → text_eq j k ≡ false → find k (put j v config) ≡ find k config
unfolding find put
find-put_other j k v [] h = rw (find, h) refl
find-put_other j k v ((i, w) ∷ rest) h = elim (Bool-cases (text_eq i j)) [
  | inl same ↦
      let apart : text_eq i k ≡ false = rw (text_eq_sound i j same) h in rw (same, find, apart) refl
  | inr other ↦ elim (Bool-cases (text_eq i k)) [
    | inl here ↦ rw (other, find, here) refl
    | inr there ↦ rw (other, find, there) (find-put_other j k v rest h)
  ]
]

-- The value of `k` after a line, and after lines.
unfoldable pub value_after : Text → Option (Text × Text) → Option Text → Option Text
value_after k none old = old
value_after k (some (j, v)) old = if text_eq j k then some (strip v) else old

unfoldable pub values : Text → List Text → Option Text → Option Text
unfolding value_after
values k [] old = old
values k (line ∷ lines) old = values k lines (value_after k (assigned line) old)

find-read_line :
    (k : Text) (a : Option (Text × Text)) (config : Config)
    → find k (read_line a config) ≡ value_after k a (find k config)
unfolding read_line value_after
find-read_line k none config = refl
find-read_line k (some (j, v)) config = elim (Bool-cases (text_eq j k)) [
  | inl same ↦ rw same (
      subst (λ i. find k (put i (strip v) config) ≡ some (strip v)) (sym (text_eq_sound j k same))
        (find-put k (strip v) config))
  | inr other ↦ rw other (find-put_other j k (strip v) config other)
]

pub find-read_lines :
    (k : Text) (lines : List Text) (config : Config)
    → find k (read_lines lines config) ≡ values k lines (find k config)
unfolding read_lines values
find-read_lines k [] config = refl
find-read_lines k (line ∷ lines) config =
    find-read_lines k lines (read_line (assigned line) config)
    ∙ ap (values k lines) (find-read_line k (assigned line) config)

values-append :
    (k : Text) (xs ys : List Text) (old : Option Text)
    → values k (xs ++ ys) old ≡ values k ys (values k xs old)
unfolding values
values-append k [] ys old = refl
values-append k (x ∷ xs) ys old = values-append k xs ys (value_after k (assigned x) old)

-- Lines that all give `k` the value `v`, one of which does, unless it has it before.
given :
    (k v : Text) (lines : List Text) (old : Option Text) (a : Option (Text × Text))
    → IsValue k v a
    → ((has_key k a || has k lines) ≡ true) ⊎ (old ≡ some (strip v))
    → (has k lines ≡ true) ⊎ (value_after k a old ≡ some (strip v))
unfolding has_key value_after
given k v lines old none i e = e
given k v lines old (some (j, w)) i e = elim (Bool-cases (text_eq j k)) [
  | inl same ↦ inr (rw (same, i same) refl)
  | inr other ↦ elim e [ inl h ↦ inl (rw other at h) | inr h ↦ inr (rw other h) ]
]

values-has :
    (k v : Text) (lines : List Text) (old : Option Text)
    → All (λ l. IsValue k v (assigned l)) lines
    → (has k lines ≡ true) ⊎ (old ≡ some (strip v))
    → values k lines old ≡ some (strip v)
unfolding values
values-has k v [] old h (inl e) = absurd (false≢true e)
values-has k v [] old h (inr e) = e
values-has k v (line ∷ lines) old (a, h) e =
    values-has k v lines (value_after k (assigned line) old) h
      (given k v lines old (assigned line) a e)

module _ (config : Config) (k : Text) (missing : find k config ≡ none) where
  -- An entry of the configuration has another key.
  other_key : (j w : Text) → find j config ≡ some w → text_eq j k ≡ false
  other_key j w own = elim (Bool-cases (text_eq j k)) [
    | inl same ↦
        absurd
          (some-ne-none w (sym own ∙ ap (λ i. find i config) (text_eq_sound j k same) ∙ missing))
    | inr other ↦ other
  ]

  after-value :
      (a : Option (Text × Text)) (old : Option Text)
      → value_after k (after config a) old ≡ value_after k a old
  unfolding after value_after
  after-value none old = refl
  after-value (some (j, w)) old = elim (Option-cases (find j config)) [
    | inl lacks ↦ rw (lacks, value_after) refl
    | inr (v, own) ↦ rw (own, value_after, other_key j v own) refl
  ]

  values-rewrite_all :
      (lines : List Text) (old : Option Text)
      → IsPlain config config
      → values k (rewrite_all config lines) old ≡ values k lines old
  unfolding values rewrite_all
  values-rewrite_all [] old p = refl
  values-rewrite_all (line ∷ lines) old p =
      ap (λ a. values k (rewrite_all config lines) (value_after k a old))
        (rewritten config line (assigned line) p refl)
      ∙ ap (values k (rewrite_all config lines)) (after-value (assigned line) old)
      ∙ values-rewrite_all lines (value_after k (assigned line) old) p

  values-remainder :
      (lines : List Text) (rest : Config) (old : Option Text)
      → IsPlain config rest
      → values k (remainder config lines rest) old ≡ old
  unfolding values remainder value_after
  values-remainder lines [] old p = refl
  values-remainder lines ((j, w) ∷ rest) old (reads, own, p) =
      elim (Bool-cases (is_updated config j lines)) [
        | inl there ↦ rw there (values-remainder lines rest old p)
        | inr new ↦
            rw (new, values, reads, value_after, other_key j w own)
              (values-remainder lines rest old p)
      ]

-- A blank line and the marker assign nothing.
values-marker :
    (k : Text) (ls : List Text) (old : Option Text)
    → values k (with_marker ls) old ≡ values k ls old
unfolding values with_marker value_after assigned strip is_space
values-marker k [] old = refl
values-marker k (l ∷ ls) old = refl

marker-has : (k : Text) (ls : List Text) → has k (with_marker ls) ≡ has k ls
unfolding with_marker assigned has_key strip is_space
marker-has k [] = refl
marker-has k (l ∷ ls) = refl

marker-IsValue :
    (k v : Text) (ls : List Text)
    → All (λ l. IsValue k v (assigned l)) ls
    → All (λ l. IsValue k v (assigned l)) (with_marker ls)
unfolding with_marker assigned strip is_space
marker-IsValue k v [] h = tt
marker-IsValue k v (l ∷ ls) h = (tt, (tt, h))

-- What a write makes of the value of `k`.
unfoldable pub written : Option Text → Option Text → Option Text
written none old = old
written (some v) old = some (strip v)

new_lines-has :
    (config : Config) (lines : List Text) (k v : Text)
    → IsPlain config config
    → find k config ≡ some v
    → has k (new_lines config lines) ≡ true
unfolding new_lines
new_lines-has config lines k v p found =
    has-append config k v found (rewrite_all config lines)
      (with_marker (remainder config lines config))
    ∙ ap (λ b. has k (rewrite_all config lines) || b) (marker-has k (remainder config lines config))
    ∙ elim (Bool-cases (is_updated config k lines)) [
      | inl there ↦ rw (updated-has config k v found lines p there) refl
      | inr new ↦
          rw (remainder-has config k v found lines config p found new)
            (or-true (has k (rewrite_all config lines)))
    ]

pub values-new_lines :
    (config : Config) (lines : List Text) (k : Text)
    → IsPlain config config
    → values k (new_lines config lines) none ≡ written (find k config) (values k lines none)
unfolding new_lines written
values-new_lines config lines k p = elim (Option-cases (find k config)) [
  | inl missing ↦
      rw (missing, written)
        (values-append k (rewrite_all config lines) (with_marker (remainder config lines config))
            none
          ∙ values-marker k (remainder config lines config)
              (values k (rewrite_all config lines) none)
          ∙ values-remainder config k missing lines config
              (values k (rewrite_all config lines) none) p
          ∙ values-rewrite_all config k missing lines none p)
  | inr (v, found) ↦
      rw (found, written)
        (values-has k v (new_lines config lines) none
          (All-append (λ l. IsValue k v (assigned l)) (rewrite_all config lines)
            (with_marker (remainder config lines config))
            (rewrite_all-IsValue config k v found lines p)
            (marker-IsValue k v (remainder config lines config)
              (remainder-IsValue config k v found lines config p)))
          (inl (new_lines-has config lines k v p found)))
]
