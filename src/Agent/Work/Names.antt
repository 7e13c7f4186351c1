-- ===== src/Agent/Work/Names.antt =====
-- That a container is shown the file that was downloaded: the name that `_run_assignment`
-- (agent/agent.py) mounts is the one that `download_all` (agent/blob_client.py) writes.
use hadcd_agent.Base.{
  ℕ, ◌≡◌, refl, sym, ap, ◌∙◌, inl, inr, Bool, false, Option, none, some, List, [], ◌∷◌, ◌++◌, All,
  arith, Bool-cases,
}
use mathlib.Core.List.{
  reverse, reverse-cons, reverse-append, reverse-reverse, append_assoc, append-nil,
}
use mathlib.Core.Bool.{true≢false}
use hadcd_agent.Base.Text.{Text, text_eq, is_space, drop_while, drop_end_while, strip}
use hadcd_agent.Agent.Blobs.{
  Spec, to_slashes, last_segment, base_of, is_unusable, safe_blob_name, name_of, names_of, IsPlain,
  base_of-All,
}
use hadcd_agent.Agent.Work.{Input, normalise, normalise_all, specs_of, blob_filename}

to_slashes-plain : (s : Text) → All IsPlain s → to_slashes s ≡ s
unfolding to_slashes
to_slashes-plain [] h = refl
to_slashes-plain (c ∷ s) ((a, b), h) = rw (b, to_slashes-plain s h) refl

last_segment-plain : (word s : Text) → All IsPlain s → last_segment word s ≡ word ++ s
unfolding last_segment
last_segment-plain word [] h = sym (append-nil word)
last_segment-plain word (c ∷ s) ((a, b), h) =
    rw (last_segment, a) (last_segment-plain (word ++ (c ∷ [])) s h ∙ append_assoc word (c ∷ []) s)

-- The first character, if there is one, is kept by `p`.
abbrev Starts : (ℕ → Bool) → Text → Type 0
Starts p [] = Unit
Starts p (c ∷ s) = p c ≡ false

drop_while-Starts : (p : ℕ → Bool) (s : Text) → Starts p (drop_while p s)
drop_while-Starts p [] = tt
drop_while-Starts p (c ∷ s) = elim (Bool-cases (p c)) [
  | inl e ↦ rw (e, drop_while) (drop_while-Starts p s)
  | inr e ↦ rw (e, drop_while) e
]

drop_while-kept : (p : ℕ → Bool) (s : Text) → Starts p s → drop_while p s ≡ s
drop_while-kept p [] h = refl
drop_while-kept p (c ∷ s) h = rw (drop_while, h) refl

drop_while-snoc :
    (p : ℕ → Bool) (s : Text) (c : ℕ)
    → p c ≡ false
    → drop_while p (s ++ (c ∷ [])) ≡ drop_while p s ++ (c ∷ [])
drop_while-snoc p [] c e = rw (drop_while, e) refl
drop_while-snoc p (d ∷ s) c e = elim (Bool-cases (p d)) [
  | inl f ↦ rw (f, drop_while) (drop_while-snoc p s c e)
  | inr f ↦ rw (f, drop_while) refl
]

drop_end-Starts : (p : ℕ → Bool) (s : Text) → Starts p s → Starts p (drop_end_while p s)
drop_end-Starts p [] h = tt
drop_end-Starts p (c ∷ s) h =
    let same : drop_end_while p (c ∷ s) ≡ c ∷ drop_end_while p s =
      ap (λ x. reverse (drop_while p x)) (reverse-cons c s)
      ∙ ap (λ x. reverse x) (drop_while-snoc p (reverse s) c h)
      ∙ reverse-append (drop_while p (reverse s)) (c ∷ []) in
    rw same h

drop_end-idempotent :
    (p : ℕ → Bool) (s : Text) → drop_end_while p (drop_end_while p s) ≡ drop_end_while p s
drop_end-idempotent p s =
    let y = drop_while p (reverse s) in
    ap (λ x. reverse (drop_while p x)) (reverse-reverse y)
    ∙ ap (λ x. reverse x) (drop_while-kept p y (drop_while-Starts p (reverse s)))

strip-idempotent : (s : Text) → strip (strip s) ≡ strip s
unfolding strip
strip-idempotent s =
    let t = drop_while is_space s in
    ap (λ x. drop_end_while is_space x)
      (drop_while-kept is_space (drop_end_while is_space t)
        (drop_end-Starts is_space t (drop_while-Starts is_space s)))
    ∙ drop_end-idempotent is_space t

base_of-idempotent : (name : Text) → base_of (some (base_of (some name))) ≡ base_of (some name)
unfolding base_of
base_of-idempotent name =
    let b = base_of (some name) in
    let plain : All IsPlain b = base_of-All (some name) in
    ap (λ x. strip (last_segment [] x)) (to_slashes-plain b plain)
    ∙ ap (λ x. strip x) (last_segment-plain [] b plain)
    ∙ strip-idempotent (last_segment [] (to_slashes name))

-- A name that stands as it is: a UUID does.
abbrev pub IsBare : Text → Type 0
IsBare name = (base_of (some name) ≡ name) × (is_unusable name ≡ false)

bare-safe : (name fallback : Text) → IsBare name → safe_blob_name (some name) fallback ≡ name
unfolding safe_blob_name
bare-safe name fallback (same, fine) = rw (safe_blob_name, same, fine) refl

base-IsBare : (o : Option Text) → is_unusable (base_of o) ≡ false → IsBare (base_of o)
unfolding base_of is_unusable
base-IsBare none good = elim (true≢false good) [ ]
base-IsBare (some name) good = (base_of-idempotent name, good)

name_of-IsBare : (s : Spec) → IsBare s.blob_id → IsBare (name_of s)
unfolding safe_blob_name
name_of-IsBare s bare = elim (Bool-cases (is_unusable (base_of s.filename))) [
  | inl bad ↦ rw (safe_blob_name, bad) bare
  | inr good ↦ rw (safe_blob_name, good) (base-IsBare s.filename good)
]

-- The names that are mounted.
abbrev pub mounted : List Input → List Text
mounted [] = []
mounted (i ∷ is) = blob_filename i.spec ∷ mounted is

usable-nonempty : (name : Text) → is_unusable name ≡ false → text_eq name [] ≡ false
unfolding is_unusable
usable-nonempty name good = ground arith

normalise-agrees :
    (i : Input)
    → IsBare i.spec.blob_id
    → (name_of (normalise i).spec ≡ name_of i.spec)
      × (blob_filename (normalise i).spec ≡ name_of i.spec)
unfolding normalise blob_filename
normalise-agrees i bare =
    let n = name_of-IsBare i.spec bare in
    (bare-safe (name_of i.spec) i.spec.blob_id n, rw (usable-nonempty (name_of i.spec) n.1) refl)

-- Where the ids of the blobs are plain names, the names that are mounted for the container are those
-- under which the inputs are downloaded, in order, whatever the file names are.
pub mounted-names :
    (is : List Input)
    → All (λ i. IsBare i.spec.blob_id) is
    → mounted (normalise_all is) ≡ names_of (specs_of (normalise_all is))
unfolding normalise_all
mounted-names [] h = refl
mounted-names (i ∷ is) (bare, h) =
    let (a, b) = normalise-agrees i bare in
    ap (λ n. n ∷ mounted (normalise_all is)) (b ∙ sym a)
    ∙ ap (λ ns. name_of (normalise i).spec ∷ ns) (mounted-names is h)
