-- ===== src/Agent/Storage/Files.antt =====
-- What `unlink`, `write` and `rename` of the pool change, and the invariant they keep: a file that is
-- not a staging file is named by its hash.
use hadcd_agent.Base.{
  ◌≡◌, refl, ap, ◌∙◌, inl, inr, true, false, ◌&&◌, none, some, List, [], ◌∷◌, ◌++◌, arith,
  Bool-cases, if◌then◌else◌, length, length-append,
}
use hadcd_agent.Base.Text.{Text, text_eq, text_eq_sound, text_eq_refl}
use hadcd_agent.Agent.Storage.{
  Bytes, File, suffix, ends_with, is_staging, staging_of, content_of, unlink, write, rename,
  is_stale, sweep, Sweep,
}

ends_with-append : (s t : Text) → ends_with s (t ++ s) ≡ true
ends_with-append [] [] = refl
ends_with-append (c ∷ s) [] = rw (text_eq_refl (c ∷ s)) refl
ends_with-append s (c ∷ t) = elim (Bool-cases (text_eq (c ∷ t ++ s) s)) [
  | inl e ↦ rw e refl
  | inr e ↦ rw e (ends_with-append s t)
]

pub staging_of-IsStaging : (name : Text) → is_staging (staging_of name) ≡ true
unfolding is_staging staging_of
staging_of-IsStaging name = ends_with-append suffix name

-- A staging name is not the name it stages.
pub staging_of-other : (name : Text) → text_eq (staging_of name) name ≡ false
unfolding staging_of
staging_of-other name = elim (Bool-cases (text_eq (name ++ suffix) name)) [
  | inl e ↦
      let same : length (name ++ suffix) ≡ length name =
        ap length (text_eq_sound (name ++ suffix) name e) in
      let absurd : ⊥ = omega (arith, same, length-append name suffix) in elim absurd [ ]
  | inr e ↦ e
]

pub content_of-unlink : (name : Text) (fs : List File) → content_of name (unlink name fs) ≡ none
unfolding content_of unlink
content_of-unlink name [] = refl
content_of-unlink name (f ∷ fs) = elim (Bool-cases (text_eq f.name name)) [
  | inl e ↦ rw e (content_of-unlink name fs)
  | inr e ↦ rw (e, content_of, e) (content_of-unlink name fs)
]

pub content_of-unlink_other :
    (name other : Text) (fs : List File)
    → text_eq other name ≡ false
    → content_of name (unlink other fs) ≡ content_of name fs
unfolding content_of unlink
content_of-unlink_other name other [] h = refl
content_of-unlink_other name other (f ∷ fs) h = elim (Bool-cases (text_eq f.name other)) [
  | inl e ↦
      let apart : text_eq f.name name ≡ false = rw (text_eq_sound f.name other e) h in
      rw (e, content_of, apart) (content_of-unlink_other name other fs h)
  | inr e ↦ elim (Bool-cases (text_eq f.name name)) [
    | inl g ↦ rw (e, content_of, g) refl
    | inr g ↦ rw (e, content_of, g) (content_of-unlink_other name other fs h)
  ]
]

pub content_of-write :
    (name : Text) (b : Bytes) (fs : List File) → content_of name (write name b fs) ≡ some b
unfolding content_of write
content_of-write name b fs = rw (content_of, text_eq_refl name) refl

pub content_of-write_other :
    (name other : Text) (b : Bytes) (fs : List File)
    → text_eq other name ≡ false
    → content_of name (write other b fs) ≡ content_of name fs
unfolding content_of write
content_of-write_other name other b fs h =
    rw (content_of, h) (content_of-unlink_other name other fs h)

pub rename-moves :
    (a b : Text) (bytes : Bytes) (fs : List File)
    → content_of a fs ≡ some bytes
    → rename a b fs ≡ some (write b bytes (unlink a fs))
unfolding rename
rename-moves a b bytes fs held = rw (rename, held) refl

pub rename-fails : (a b : Text) (fs : List File) → content_of a fs ≡ none → rename a b fs ≡ none
unfolding rename
rename-fails a b fs gone = rw (rename, gone) refl

-- A sweep takes away every stale file that the system lets go, and leaves each other file, with
-- what it holds.
pub content_of-sweep :
    (s : Sweep) (name : Text) (fs : List File)
    → content_of name (sweep s fs)
      ≡ (if is_stale s.active name && s.removable name then none else content_of name fs)
unfolding sweep content_of
content_of-sweep s name [] = elim (Bool-cases (is_stale s.active name && s.removable name)) [
  | inl d ↦ rw d refl
  | inr d ↦ rw d refl
]
content_of-sweep s name (f ∷ fs) =
    let rest = content_of-sweep s name fs in
    elim (Bool-cases (text_eq f.name name)) [
      | inl e ↦
          let same : f.name ≡ name = text_eq_sound f.name name e in
          elim (Bool-cases (is_stale s.active name && s.removable name)) [
            | inl d ↦
                let taken : is_stale s.active f.name && s.removable f.name ≡ true = rw same d in
                rw (taken, d) (rest ∙ ap (λ b. if b then none else content_of name fs) d)
            | inr d ↦
                let left : is_stale s.active f.name && s.removable f.name ≡ false = rw same d in
                rw (left, d, content_of, e) refl
          ]
      | inr e ↦ elim (Bool-cases (is_stale s.active f.name && s.removable f.name)) [
        | inl d ↦ rw (d, content_of, e) rest
        | inr d ↦ rw (d, content_of, e) rest
      ]
    ]

pub sweep-gone :
    (s : Sweep) (name : Text) (fs : List File)
    → content_of name fs ≡ none
    → content_of name (sweep s fs) ≡ none
sweep-gone s name fs gone = elim (Bool-cases (is_stale s.active name && s.removable name)) [
  | inl d ↦ content_of-sweep s name fs ∙ ap (λ b. if b then none else content_of name fs) d
  | inr d ↦ content_of-sweep s name fs ∙ ap (λ b. if b then none else content_of name fs) d ∙ gone
]
