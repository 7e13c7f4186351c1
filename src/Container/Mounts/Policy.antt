-- ===== src/Container/Mounts/Policy.antt =====
-- What the local policy accepts, by the components of the resolved paths.
use hadcd_agent.Base.{
  ◌≡◌, refl, sym, ap, ◌∙◌, Bool, false, not, ◌&&◌, ◌||◌, List, [], ◌∷◌, ◌++◌, All, arith, ◌==◌,
}
use mathlib.Core.List.{append_assoc}
use hadcd_agent.Base.Text.{Text, text_eq, starts_with, strip}
use hadcd_agent.Container.Mounts.{
  Host, slash, colon, blob_staging_prefix, split, is_within, is_staged, is_empty, any_entry,
  check_mount_allowed,
}
use hadcd_agent.Container.Mounts.Segments.{
  body, render, IsFlat, IsSegment, IsSegment-IsFlat, is_prefix, lies_in-is_prefix,
  strip_slashes-render, starts_with-flat,
}

-- The components of the directory for temporary files, then one that begins with the prefix of the
-- staging directories.
abbrev pub staged_under : List Text → List Text → Bool
staged_under [] [] = false
staged_under [] (s ∷ ss) = starts_with blob_staging_prefix s
staged_under (t ∷ ts) [] = false
staged_under (t ∷ ts) (s ∷ ss) = text_eq t s && staged_under ts ss

abbrev pub listed_entry : (Text → List Text) → Text → List Text → Bool
listed_entry components path [] = false
listed_entry components path (entry ∷ entries) =
    not (is_empty (strip entry)) && is_prefix (components (strip entry)) (components path)
    || listed_entry components path entries

starts_with-component :
    (p s : Text) (ss : List Text) → IsFlat p → starts_with p (s ++ body ss) ≡ starts_with p s
starts_with-component [] s ss fp = refl
starts_with-component (c ∷ p) [] [] fp = refl
starts_with-component (c ∷ p) [] (u ∷ ss) (n, fp) = rw n refl
starts_with-component (c ∷ p) (d ∷ s) ss (n, fp) =
    ap (λ b. c == d && b) (starts_with-component p s ss fp)

prefix-IsFlat : IsFlat blob_staging_prefix
prefix-IsFlat = ground arith

body-more :
    (t : Text) (ts : List Text) (p : Text) → (x : Text) × (body ts ++ (slash ∷ p) ≡ slash ∷ x)
body-more t [] p = (p, refl)
body-more t (u ∷ ts) p = (_, refl)

staged-body :
    (ts ss : List Text)
    → All IsSegment ts
    → All IsSegment ss
    → starts_with (body ts ++ (slash ∷ blob_staging_prefix)) (body ss) ≡ staged_under ts ss
staged-body [] [] ht hs = refl
staged-body [] (s ∷ ss) ht hs = starts_with-component blob_staging_prefix s ss prefix-IsFlat
staged-body (t ∷ ts) [] ht hs = refl
staged-body (t ∷ ts) (s ∷ ss) (ht, hts) (hs, hss) =
    let (x, e) = body-more t ts blob_staging_prefix in
    ap (λ v. starts_with v (s ++ body ss))
      (append_assoc t (body ts) (slash ∷ blob_staging_prefix) ∙ ap (λ v. t ++ v) e)
    ∙ starts_with-flat t s x ss (IsSegment-IsFlat t ht) (IsSegment-IsFlat s hs)
    ∙ ap (λ v. text_eq t s && starts_with v (body ss)) (sym e)
    ∙ ap (λ b. text_eq t s && b) (staged-body ts ss hts hss)

staged-render :
    (ts ss : List Text)
    → All IsSegment ts
    → All IsSegment ss
    → starts_with (body ts ++ (slash ∷ blob_staging_prefix)) (render ss) ≡ staged_under ts ss
staged-render ts (s ∷ ss) ht hs = staged-body ts (s ∷ ss) ht hs
staged-render [] [] ht hs = refl
staged-render ((c ∷ t) ∷ ts) [] ht hs = refl
staged-render ([] ∷ ts) [] (ht, hts) hs = elim ht [ ]

-- `realpath` gives absolute paths with no empty component; `components` names them.
module _ (h : Host) (components : Text → List Text)
    (resolves : (p : Text) → h.realpath p ≡ render (components p))
    (segments : (p : Text) → All IsSegment (components p)) where
  any_entry-components :
      (path : Text) (entries : List Text)
      → any_entry h path entries ≡ listed_entry components path entries
  unfolding any_entry is_within
  any_entry-components path [] = refl
  any_entry-components path (entry ∷ entries) =
      rw
        (
          resolves path,
          resolves (strip entry),
          lies_in-is_prefix (components path) (components (strip entry)) (segments path)
              (segments (strip entry)),
          any_entry-components path entries,
        )
        refl

  is_staged-components :
      (path : Text)
      → is_staged h (h.realpath path) ≡ staged_under (components h.tempdir) (components path)
  unfolding is_staged
  is_staged-components path =
      rw
        (
          resolves path,
          resolves h.tempdir,
          strip_slashes-render (components h.tempdir) (segments h.tempdir),
        )
        (staged-render (components h.tempdir) (components path) (segments h.tempdir)
          (segments path))

  -- A bind-mount source is allowed exactly if its resolved path lies in a staging directory of the
  -- agent, or the components of an entry of the allowlist that is not blank come first among its
  -- own: a path that only begins with the same characters as an entry is refused.
  pub check_mount_allowed-components :
      (path : Text)
      → check_mount_allowed h path ≡ (
          staged_under (components h.tempdir) (components path)
          || listed_entry components path (split colon h.allowlist))
  unfolding check_mount_allowed
  check_mount_allowed-components path =
      rw (is_staged-components path, any_entry-components path (split colon h.allowlist)) refl
