-- ===== src/Confine/Join.antt =====
-- What a joined path may name: nothing outside the base.
use mathlib.Core.Option.{some-injective}
use mathlib.Core.Path.{subst₂}
use sy_se_ba.Prelude.{
  ℕ, ◌<◌, ◌≡◌, refl, ap, ◌∙◌, ◌↔◌, Bool, true, false, not, some, List, ◌∷◌, ◌++◌, length,
  Option-cases, bind-eq-some, guard-eq-some, inl, inr, arith, subst,
}
use sy_se_ba.Prelude.Text.{Text, copy_within}
use sy_se_ba.FilePath.{path_max, sep, path_real}
use sy_se_ba.FilePath.Canonical.{AllPlain, render, IsCanonical}
use sy_se_ba.FilePath.Real.{path_real-IsCanonical}
use sy_se_ba.Confine.{
  FileView, strip_separators, within_text, path_resolve_links, path_is_within, safe_join,
}
use sy_se_ba.Confine.Resolve.{path_resolve_links-IsCanonical}
use sy_se_ba.Confine.Within.{within_text_iff}

not-false : (b : Bool) → not b ≡ false → b ≡ true
not-false b h = ground arith

-- With all links resolved, the candidate's names begin with the base's.
pub record IsContained (v : FileView) (base candidate : Text) : Type 0 where
  pub names : List Text
  pub below : List Text
  pub plain : AllPlain names
  pub plain_all : AllPlain (names ++ below)
  pub base_at : path_resolve_links v base path_max ≡ some (render names)
  pub candidate_at : path_resolve_links v candidate path_max ≡ some (render (names ++ below))

module _ (v : FileView) where
  IsContained-of_texts :
      (base candidate b c : Text)
      → path_resolve_links v base path_max ≡ some b
      → path_resolve_links v candidate path_max ≡ some c
      → within_text b c ≡ true
      → IsContained v base candidate
  IsContained-of_texts base candidate b c eb ec inside =
      let cb = (path_resolve_links-IsCanonical v base b path_max eb).0 in
      let cd = (path_resolve_links-IsCanonical v candidate c path_max ec).0 in
      let (below, e) =
        (within_text_iff cb.parts cd.parts cb.plain cd.plain).0
          (subst₂ (λ s t. within_text s t ≡ true) cb.shape cd.shape inside) in
      record {
        names = cb.parts;
        below = below;
        plain = cb.plain;
        plain_all = subst AllPlain e cd.plain;
        base_at = eb ∙ ap some cb.shape;
        candidate_at = ec ∙ ap some (cd.shape ∙ ap render e);
      }

  IsContained-of_within :
      (base candidate : Text)
      → path_is_within v base candidate ≡ true
      → IsContained v base candidate
  unfolding path_is_within
  IsContained-of_within base candidate e =
      elim (Option-cases (path_resolve_links v base path_max)) [
        | inl bad ↦ cc (rw (bad, path_is_within) at e)
        | inr (b, eb) ↦ elim (Option-cases (path_resolve_links v candidate path_max)) [
          | inl bad ↦ cc (rw (eb, path_is_within, bad) at e)
          | inr (c, ec) ↦
              IsContained-of_texts base candidate b c eb ec (rw (eb, path_is_within, ec) at e)
        ]
      ]

  path_is_within-of_contained :
      (base candidate : Text)
      → IsContained v base candidate
      → path_is_within v base candidate ≡ true
  unfolding path_is_within
  path_is_within-of_contained base candidate k =
      rw (k.base_at, path_is_within, k.candidate_at)
        ((within_text_iff k.names (k.names ++ k.below) k.plain k.plain_all).1 (k.below, refl))

  -- syseba_path_is_within holds exactly if both paths resolve and the names of the resolved
  -- candidate begin with all names of the resolved base.
  pub path_is_within_iff :
      (base candidate : Text)
      → (path_is_within v base candidate ≡ true) ↔ IsContained v base candidate
  path_is_within_iff base candidate =
      (IsContained-of_within base candidate, path_is_within-of_contained base candidate)

  -- If syseba_safe_join succeeds, its output is a canonical absolute path that fits the buffer
  -- with its terminator, and with all links resolved its names begin with the names of the
  -- resolved base, whatever the relative path says.
  pub safe_join-IsContained :
      (base relative out : Text) (size : ℕ)
      → safe_join v base relative size ≡ some out
      → IsCanonical out × (length out < size) × IsContained v base out
  unfolding safe_join
  safe_join-IsContained base relative out size e =
      let (combined, _, rest) =
        bind-eq-some (copy_within path_max (base ++ sep ∷ strip_separators relative)) _ e in
      let (output, real, last) = bind-eq-some (path_real v.cwd combined size) _ rest in
      let (inside, same) = guard-eq-some (not (path_is_within v base output)) (some output) last in
      let (canonical, fit) = path_real-IsCanonical v.cwd combined out size (real ∙ same) in
      (
        canonical,
        fit,
        IsContained-of_within base out (
            subst (λ t. path_is_within v base t ≡ true) (some-injective output out same)
              (not-false (path_is_within v base output) inside)),
      )
