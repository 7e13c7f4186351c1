-- ===== src/Setup/Provisioner/Form.antt =====
-- The updates that the form gives (`_collect_updates` and `_clean_env_value` of
-- agent/provisioner.py) are single stripped lines under distinct keys.
use hadcd_agent.Base.{
  ℕ, ◌≡◌, refl, sym, ap, ◌∙◌, inl, inr, String, Bool, true, false, not, ◌&&◌, ◌||◌, Option, none,
  some, [], ◌∷◌, All, arith, Bool-cases, any, ◌==◌,
}
use mathlib.Core.Bool.{true≢false}
use hadcd_agent.Base.Strip.{strip-All, strip_end, strip_twice, drop_end-append}
use hadcd_agent.Base.Text.{
  Text, text_eq, text_eq_sound, strip, codes, is_space, drop_while, drop_end_while,
}
use hadcd_agent.Agent.EnvFile.{
  assigned, find, entry, equals, hash, is_skipped, split_once, strip_key, cons_fst,
}
use hadcd_agent.Setup.EnvText.{is_break}
use hadcd_agent.Setup.EnvText.Lines.{IsUnbroken, IsUnbroken-append, unbroken}
use hadcd_agent.Setup.EnvText.Updates.{IsEntry}
use hadcd_agent.Setup.Provisioner.{Form, text_of, is_control, clean_env_value, field_value}

-- The line breaks of Python that are no control characters of ASCII.
abbrev pub is_wide_break : ℕ → Bool
is_wide_break c = c == 0x85 || c == 0x2028 || c == 0x2029

-- No value of the form has one of them.
abbrev pub IsPlainForm : Form → Type 0
IsPlainForm form = All (λ f. All (λ c. is_wide_break c ≡ false) f.1) form

plain_field :
    (form : Form) (k : Text)
    → IsPlainForm form
    → All (λ c. is_wide_break c ≡ false) (text_of (find k form))
unfolding find
plain_field [] k h = tt
plain_field ((j, v) ∷ form) k (p, h) = elim (Bool-cases (text_eq j k)) [
  | inl same ↦ rw (same, text_of) p
  | inr other ↦ rw other (plain_field form k h)
]

no_break : (c : ℕ) → is_control c ≡ false → is_wide_break c ≡ false → is_break c ≡ false
unfolding is_control is_break
no_break c a b = ground arith

clean-IsUnbroken :
    (s : Text) → any is_control s ≡ false → All (λ c. is_wide_break c ≡ false) s → IsUnbroken s
clean-IsUnbroken [] e w = tt
clean-IsUnbroken (c ∷ s) e (b, w) = elim (Bool-cases (is_control c)) [
  | inl bad ↦ absurd (true≢false (rw bad at e))
  | inr fine ↦ (no_break c fine b, clean-IsUnbroken s (rw fine at e) w)
]

-- A value that makes an entry with every key below.
abbrev pub IsLineValue : Text → Type 0
IsLineValue v = (strip v ≡ v) × (drop_end_while is_space v ≡ v) × IsUnbroken v

stripped-IsLineValue :
    (raw : Text)
    → any is_control (strip raw) ≡ false
    → All (λ c. is_wide_break c ≡ false) raw
    → IsLineValue (strip raw)
stripped-IsLineValue raw e w = (
  strip_twice raw,
  strip_end raw,
  clean-IsUnbroken (strip raw) e (strip-All (λ c. is_wide_break c ≡ false) raw w),
)

-- The value of a field, if the form is accepted.
abbrev pub Holds {ℓ} : {A : Type ℓ} → (A → Type 0) → Option A → Type 0
Holds P none = Unit
Holds P (some a) = P a

clean-Holds :
    (raw : Text) → All (λ c. is_wide_break c ≡ false) raw → Holds IsLineValue (clean_env_value raw)
unfolding clean_env_value
clean-Holds raw w = elim (Bool-cases (any is_control (strip raw))) [
  | inl bad ↦ rw (clean_env_value, bad) tt
  | inr fine ↦ rw (clean_env_value, fine) (stripped-IsLineValue raw fine w)
]

pub field-Holds :
    (form : Form) (k : String) → IsPlainForm form → Holds IsLineValue (field_value form k)
unfolding field_value
field-Holds form k h = clean-Holds (text_of (find (codes k) form)) (plain_field form (codes k) h)

-- A key that reads back from its entry, whatever the value.
abbrev pub IsEnvKey : Text → Type 0
IsEnvKey k =
    ((v : Text) → drop_while is_space (entry k v) ≡ entry k v)
    × ((v : Text) → is_skipped (entry k v) ≡ false)
    × ((v : Text) → split_once (entry k v) ≡ some (k, v))
    × (strip k ≡ k)
    × IsUnbroken k

pub field-IsEntry : (k v : Text) → IsEnvKey k → IsLineValue v → IsEntry k v
unfolding assigned strip strip_key is_space is_break
field-IsEntry k v (starts, own, splits, trims, line) (strips, ends, inner) =
    let whole : strip (entry k v) ≡ entry k v =
      ap (drop_end_while is_space) (starts v)
      ∙ drop_end-append is_space k equals v refl
      ∙ ap (entry k) ends in
    (
      rw (assigned, whole, own v, splits v, strip_key, trims) refl,
      strips,
      IsUnbroken-append k (equals ∷ v) line (refl, inner),
    )

split-entry : (k v : Text) → any (λ c. c == equals) k ≡ false → split_once (entry k v) ≡ some (k, v)
unfolding split_once cons_fst
split-entry [] v e = refl
split-entry (c ∷ k) v e = elim (Bool-cases (c == equals)) [
  | inl here ↦ absurd (true≢false (rw here at e))
  | inr other ↦ rw (other, split-entry k v (rw other at e), cons_fst) refl
]

-- A test for such keys.
abbrev pub is_key : Text → Bool
is_key [] = false
is_key (c ∷ k) =
    not (is_space c)
    && not (c == hash)
    && not (any (λ d. d == equals) (c ∷ k))
    && text_eq (strip (c ∷ k)) (c ∷ k)
    && not (any is_break (c ∷ k))

pub is_key-IsEnvKey : (k : Text) → is_key k ≡ true → IsEnvKey k
unfolding is_skipped
is_key-IsEnvKey [] e = absurd (true≢false (sym e))
is_key-IsEnvKey (c ∷ k) e =
    let start : is_space c ≡ false = ground arith in
    let mark : (c == hash) ≡ false = ground arith in
    let single : any (λ d. d == equals) (c ∷ k) ≡ false = ground arith in
    let trims : text_eq (strip (c ∷ k)) (c ∷ k) ≡ true = ground arith in
    let line : any is_break (c ∷ k) ≡ false = ground arith in
    (
      λ v. rw (drop_while, start) refl,
      λ v. mark,
      λ v. split-entry (c ∷ k) v single,
      text_eq_sound (strip (c ∷ k)) (c ∷ k) trims,
      unbroken (c ∷ k) line,
    )
