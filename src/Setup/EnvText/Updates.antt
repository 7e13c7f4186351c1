-- ===== src/Setup/EnvText/Updates.antt =====
-- A write of the environment file updates the dictionary that is read of it, and nothing else.
use hadcd_agent.Base.{
  ◌≡◌, refl, sym, ap, ◌∙◌, inl, inr, Option, none, some, List, [], ◌∷◌, ◌++◌, All, All-append,
  Bool-cases, Option-cases,
}
use mathlib.Core.Option.{some-ne-none}
use mathlib.Core.Path.{subst}
use hadcd_agent.Base.Text.{Text, text_eq, text_eq_sound, strip}
use hadcd_agent.Agent.EnvFile.{
  Config, assigned, find, entry, new_value, rewrite, rewrite_all, is_updated, remainder,
}
use hadcd_agent.Agent.EnvFile.Push.{IsPlain}
use hadcd_agent.Setup.EnvText.{
  is_break, last_line, lines_from, splitlines, join, read_lines, read_env, with_marker, new_lines,
  env_text, setup_marker,
}
use hadcd_agent.Setup.EnvText.Lines.{IsUnbroken, unbroken, splitlines-IsUnbroken, splitlines-join}
use hadcd_agent.Setup.EnvText.Dictionary.{
  values, value_after, written, find-read_lines, values-new_lines,
}

-- The value is stripped and on one line, and the entry reads back as it is.
abbrev pub IsEntry : Text → Text → Type 0
IsEntry k v = (assigned (entry k v) ≡ some (k, v)) × (strip v ≡ v) × IsUnbroken (entry k v)

-- The entries of `rest` are such entries, and none of their keys has another value in `updates`.
abbrev pub AreEntries : Config → Config → Type 0
AreEntries updates [] = Unit
AreEntries updates ((k, v) ∷ rest) =
    IsEntry k v × (find k updates ≡ some v) × AreEntries updates rest

plain : (updates rest : Config) → AreEntries updates rest → IsPlain updates rest
plain updates [] e = tt
plain updates ((k, v) ∷ rest) ((reads, same, line), own, e) = (reads, own, plain updates rest e)

found_entry :
    (updates rest : Config) (k v : Text)
    → AreEntries updates rest
    → find k rest ≡ some v
    → (strip v ≡ v) × IsUnbroken (entry k v)
unfolding find
found_entry updates [] k v e f = absurd (some-ne-none v (sym f))
found_entry updates ((j, w) ∷ rest) k v ((reads, strips, line), own, e) f =
    elim (Bool-cases (text_eq j k)) [
      | inl same ↦
          let g : some w ≡ some v = rw same at f in
          let h : w ≡ v = cc in
          subst (λ x. (strip v ≡ v) × IsUnbroken (entry x v)) (text_eq_sound j k same)
            (subst (λ y. (strip y ≡ y) × IsUnbroken (entry j y)) h (strips, line))
      | inr other ↦ found_entry updates rest k v e (rw other at f)
    ]

rewrite-IsUnbroken :
    (updates : Config) (line : Text) (a : Option (Text × Text))
    → AreEntries updates updates
    → IsUnbroken line
    → IsUnbroken (rewrite (new_value updates a) line)
unfolding rewrite new_value
rewrite-IsUnbroken updates line none e u = u
rewrite-IsUnbroken updates line (some (k, old)) e u = elim (Option-cases (find k updates)) [
  | inl missing ↦ rw (missing, rewrite) u
  | inr (v, found) ↦ rw (found, rewrite) (found_entry updates updates k v e found).1
]

rewrite_all-IsUnbroken :
    (updates : Config) (lines : List Text)
    → AreEntries updates updates
    → All IsUnbroken lines
    → All IsUnbroken (rewrite_all updates lines)
unfolding rewrite_all
rewrite_all-IsUnbroken updates [] e u = tt
rewrite_all-IsUnbroken updates (line ∷ lines) e (u, us) =
    (rewrite-IsUnbroken updates line (assigned line) e u, rewrite_all-IsUnbroken updates lines e us)

remainder-IsUnbroken :
    (updates : Config) (lines : List Text) (rest : Config)
    → AreEntries updates rest
    → All IsUnbroken (remainder updates lines rest)
unfolding remainder
remainder-IsUnbroken updates lines [] e = tt
remainder-IsUnbroken updates lines ((k, v) ∷ rest) ((reads, strips, line), own, e) =
    elim (Bool-cases (is_updated updates k lines)) [
      | inl there ↦ rw there (remainder-IsUnbroken updates lines rest e)
      | inr new ↦ rw new (line, remainder-IsUnbroken updates lines rest e)
    ]

marker-IsUnbroken : (ls : List Text) → All IsUnbroken ls → All IsUnbroken (with_marker ls)
unfolding with_marker is_break
marker-IsUnbroken [] u = tt
marker-IsUnbroken (l ∷ ls) u = (tt, (unbroken setup_marker refl, u))

new_lines-IsUnbroken :
    (updates : Config) (lines : List Text)
    → AreEntries updates updates
    → All IsUnbroken lines
    → All IsUnbroken (new_lines updates lines)
unfolding new_lines
new_lines-IsUnbroken updates lines e u =
    All-append IsUnbroken (rewrite_all updates lines)
      (with_marker (remainder updates lines updates)) (rewrite_all-IsUnbroken updates lines e u)
      (marker-IsUnbroken (remainder updates lines updates)
        (remainder-IsUnbroken updates lines updates e))

-- Without a line the text is a newline, which assigns nothing.
read-join :
    (k : Text) (lines : List Text)
    → All IsUnbroken lines
    → find k (read_lines (splitlines (join lines ++ (0xa ∷ []))) []) ≡ values k lines none
unfolding values value_after find splitlines join lines_from last_line is_break read_lines assigned
    strip
read-join k [] u = refl
read-join k (l ∷ ls) (u, us) = rw (splitlines-join l ls u us) (find-read_lines k (l ∷ ls) [])

-- The update of a dictionary.
abbrev pub overlay : Option Text → Option Text → Option Text
overlay none old = old
overlay (some v) old = some v

written-overlay :
    (updates : Config) (k : Text) (old : Option Text)
    → AreEntries updates updates
    → written (find k updates) old ≡ overlay (find k updates) old
unfolding written
written-overlay updates k old e = elim (Option-cases (find k updates)) [
  | inl missing ↦ rw (missing, written, overlay) refl
  | inr (v, found) ↦
      rw (found, written, overlay) (ap (λ x. some x) (found_entry updates updates k v e found).0)
]

-- Updates that are single stripped lines, whatever the old text holds or whether there is one: what
-- is read of the written text is the old dictionary, updated with them. So each submitted key has
-- the submitted value, and no other key changes, appears or is lost.
pub env_text-updates :
    (updates : Config) (source : Option Text) (k : Text)
    → AreEntries updates updates
    → find k (read_env (some (env_text updates source)))
      ≡ overlay (find k updates) (find k (read_env source))
unfolding env_text read_env find values
env_text-updates updates none k e =
    read-join k (new_lines updates []) (new_lines-IsUnbroken updates [] e tt)
    ∙ values-new_lines updates [] k (plain updates updates e)
    ∙ written-overlay updates k none e
env_text-updates updates (some source) k e =
    read-join k (new_lines updates (splitlines source))
      (new_lines-IsUnbroken updates (splitlines source) e (splitlines-IsUnbroken source))
    ∙ values-new_lines updates (splitlines source) k (plain updates updates e)
    ∙ ap (written (find k updates)) (sym (find-read_lines k (splitlines source) []))
    ∙ written-overlay updates k (find k (read_lines (splitlines source) [])) e
