-- ===== src/Setup/Provisioner/Entries.antt =====
-- Dictionaries without a key twice, whose entries read back as they are (agent/provisioner.py).
use hadcd_agent.Base.{◌≡◌, refl, sym, ap, ◌∙◌, inl, inr, none, some, [], ◌∷◌, All, Bool-cases}
use mathlib.Core.Option.{some-ne-none}
use mathlib.Core.Path.{subst}
use hadcd_agent.Base.Text.{Text, text_eq, text_eq_sound, text_eq_sym, text_eq_refl}
use hadcd_agent.Agent.EnvFile.{Config, find}
use hadcd_agent.Setup.EnvText.{put}
use hadcd_agent.Setup.EnvText.Dictionary.{find-put_other}
use hadcd_agent.Setup.EnvText.Updates.{IsEntry, AreEntries}
use hadcd_agent.Setup.Provisioner.Form.{IsLineValue, IsEnvKey, field-IsEntry}

-- No key twice.
abbrev pub IsDistinct : Config → Type 0
IsDistinct [] = Unit
IsDistinct ((k, v) ∷ rest) = (find k rest ≡ none) × IsDistinct rest

abbrev pub IsSound : Config → Type 0
IsSound c = All (λ e. IsEntry e.0 e.1) c × IsDistinct c

put-entries :
    (k v : Text) (c : Config)
    → IsEntry k v
    → All (λ e. IsEntry e.0 e.1) c
    → All (λ e. IsEntry e.0 e.1) (put k v c)
unfolding put
put-entries k v [] e h = (e, tt)
put-entries k v ((j, w) ∷ rest) e (g, h) = elim (Bool-cases (text_eq j k)) [
  | inl same ↦ rw same (subst (λ i. IsEntry i v) (sym (text_eq_sound j k same)) e, h)
  | inr other ↦ rw other (g, put-entries k v rest e h)
]

put-IsDistinct : (k v : Text) (c : Config) → IsDistinct c → IsDistinct (put k v c)
unfolding put find
put-IsDistinct k v [] d = (refl, tt)
put-IsDistinct k v ((j, w) ∷ rest) (new, d) = elim (Bool-cases (text_eq j k)) [
  | inl same ↦ rw same (new, d)
  | inr other ↦
      rw other
        (find-put_other k j v rest (text_eq_sym k j ∙ other) ∙ new, put-IsDistinct k v rest d)
]

pub put-IsSound :
    (k v : Text) (c : Config) → IsEnvKey k → IsLineValue v → IsSound c → IsSound (put k v c)
put-IsSound k v c key field (entries, d) =
    (put-entries k v c (field-IsEntry k v key field) entries, put-IsDistinct k v c d)

find_first : (k v : Text) (rest : Config) → find k ((k, v) ∷ rest) ≡ some v
unfolding find
find_first k v rest = rw (find, text_eq_refl k) refl

find_later :
    (k v j w : Text) (rest : Config)
    → find k rest ≡ none
    → find j rest ≡ some w
    → find j ((k, v) ∷ rest) ≡ some w
unfolding find
find_later k v j w rest new f = elim (Bool-cases (text_eq k j)) [
  | inl same ↦
      absurd (some-ne-none w (sym f ∙ ap (λ i. find i rest) (sym (text_eq_sound k j same)) ∙ new))
  | inr other ↦ rw (find, other) f
]

-- Each entry's value is the one found under its key.
pub sound-AreEntries :
    (updates rest : Config)
    → ((k v : Text) → find k rest ≡ some v → find k updates ≡ some v)
    → IsSound rest
    → AreEntries updates rest
sound-AreEntries updates [] below s = tt
sound-AreEntries updates ((k, v) ∷ rest) below ((e, entries), (new, d)) = (
  e,
  below k v (find_first k v rest),
  sound-AreEntries updates rest (λ j w f. below j w (find_later k v j w rest new f)) (entries, d),
)
