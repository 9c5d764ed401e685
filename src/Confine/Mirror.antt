-- ===== src/Confine/Mirror.antt =====
-- The path of a file below one directory, and the path of its copy below another.
use sy_se_ba.Prelude.{
  ℕ, ◌<◌, ◌≡◌, refl, ap, ap₂, ◌∙◌, sym, true, not, Option, none, some, List, [], ◌∷◌, ◌++◌, length,
  drop, if◌then◌else◌, and-split, drop-length_append, length-append, arith,
}
use sy_se_ba.Prelude.Text.{Text, streq_self, fits}
use sy_se_ba.FilePath.{path_max, sep, normalize_separators, path_real, absolute_path}
use sy_se_ba.FilePath.Canonical.{is_name_byte, IsPlain, AllPlain, joined, render}
use sy_se_ba.FilePath.Real.{parts_of, rebuild_lem, copy_within_short}
use sy_se_ba.FilePath.Fixed.{
  path_real-render, parts_of-render, parts_of-doubled, normalize-joined, normalize-append,
  normalize-name,
}
use sy_se_ba.Confine.{
  FileView, strip_separators, path_resolve_links, path_is_within, relative_copy, relative_path,
  safe_join,
}
use sy_se_ba.Confine.Within.{joined-append}
use sy_se_ba.Confine.Join.{path_is_within_iff}

-- `a/b` for the names a and b.
unfoldable pub slashed : List Text → Text
slashed [] = []
slashed (r ∷ rs) = r ++ joined rs

AllPlain-append : (xs ys : List Text) → AllPlain xs → AllPlain ys → AllPlain (xs ++ ys)
AllPlain-append [] ys h k = k
AllPlain-append (x ∷ xs) ys h k = (h.0, AllPlain-append xs ys h.1 k)

strip_separators-slashed :
    (r : Text) (rs : List Text) → IsPlain r → strip_separators (slashed (r ∷ rs)) ≡ slashed (r ∷ rs)
unfolding strip_separators slashed
strip_separators-slashed [] rs h = cc (h.some_byte, streq_self [])
strip_separators-slashed (c ∷ r) rs h =
    let (first, _) = and-split (is_name_byte c) _ h.bytes in ground arith

parts_of_combined :
    (bs : List Text) (r : Text) (rs : List Text)
    → AllPlain bs
    → AllPlain (r ∷ rs)
    → parts_of (render bs ++ joined (r ∷ rs)) ≡ bs ++ r ∷ rs
unfolding render
parts_of_combined [] r rs h k = parts_of-doubled (r ∷ rs) k
parts_of_combined (b ∷ bs) r rs h k =
    ap parts_of (sym (joined-append (b ∷ bs) (r ∷ rs)))
    ∙ parts_of-render (b ∷ (bs ++ r ∷ rs)) (AllPlain-append (b ∷ bs) (r ∷ rs) h k)

absolute_path-combined :
    (cwd : Option Text) (bs : List Text) (rest : Text)
    → length (render bs ++ rest) < path_max
    → absolute_path cwd (render bs ++ rest) ≡ some (render bs ++ rest)
unfolding absolute_path render joined
absolute_path-combined cwd [] rest h = copy_within_short path_max (sep ∷ rest) h
absolute_path-combined cwd (b ∷ bs) rest h =
    copy_within_short path_max (sep ∷ (b ++ joined bs ++ rest)) h

combined_shape :
    (bs : List Text) (r : Text) (rs : List Text)
    → IsPlain r
    → render bs ++ sep ∷ strip_separators (slashed (r ∷ rs)) ≡ render bs ++ joined (r ∷ rs)
unfolding joined slashed
combined_shape bs r rs h =
    ap (λ t. render bs ++ sep ∷ t) (unfold slashed in strip_separators-slashed r rs h)

copy_guarded :
    (size : ℕ) (t : Text) → length t < size → (if not (fits size t) then none else some t) ≡ some t
copy_guarded size t h = ground arith

below_render :
    (bs : List Text) (r : Text) (rs : List Text)
    → IsPlain r
    → strip_separators (drop (length (render bs)) (render (bs ++ r ∷ rs))) ≡ slashed (r ∷ rs)
unfolding render joined slashed strip_separators
below_render [] r rs h = strip_separators-slashed r rs h
below_render (b ∷ bs) r rs h =
    ap (λ t. strip_separators (drop (length (joined (b ∷ bs))) t)) (joined-append (b ∷ bs) (r ∷ rs))
    ∙ ap strip_separators (drop-length_append (joined (b ∷ bs)) (joined (r ∷ rs)))
    ∙ strip_separators-slashed r rs h

length-slashed :
    (bs : List Text) (r : Text) (rs : List Text)
    → length (slashed (r ∷ rs)) < length (render (bs ++ r ∷ rs))
unfolding render joined slashed
length-slashed [] r rs = omega arith
length-slashed (b ∷ bs) r rs = omega (
  arith,
  ap length (joined-append (b ∷ bs) (r ∷ rs)),
  length-append (joined (b ∷ bs)) (joined (r ∷ rs)),
)

normalize-slashed :
    (r : Text) (rs : List Text)
    → AllPlain (r ∷ rs)
    → normalize_separators (slashed (r ∷ rs)) ≡ slashed (r ∷ rs)
unfolding slashed
normalize-slashed r rs h =
    normalize-append r (joined rs) ∙ ap₂ ◌++◌ (normalize-name r h.0.bytes) (normalize-joined rs h.1)

module _ (v : FileView) (bs : List Text) (r : Text) (rs : List Text) (size : ℕ) where
  abbrev whole : List Text
  whole = bs ++ r ∷ rs

  -- The paths in question lead through no links, and fit their buffers.
  pub record IsUnlinked : Type 0 where
    pub plain : AllPlain bs
    pub plain_below : AllPlain (r ∷ rs)
    pub base_self : path_resolve_links v (render bs) path_max ≡ some (render bs)
    pub whole_self : path_resolve_links v (render whole) path_max ≡ some (render whole)
    pub combined_fits : length (render bs ++ joined (r ∷ rs)) < path_max
    pub whole_fits : length (render whole) < path_max
    pub size_fits : length (render whole) < size

  module _ (u : IsUnlinked) where
    whole-AllPlain : AllPlain whole
    whole-AllPlain = AllPlain-append bs (r ∷ rs) u.plain u.plain_below

    within_whole : path_is_within v (render bs) (render whole) ≡ true
    within_whole = (path_is_within_iff v (render bs) (render whole)).1 (record {
      names = bs;
      below = r ∷ rs;
      plain = u.plain;
      plain_all = whole-AllPlain;
      base_at = u.base_self;
      candidate_at = u.whole_self;
    })

    path_real-combined : path_real v.cwd (render bs ++ joined (r ∷ rs)) size ≡ some (render whole)
    unfolding path_real
    path_real-combined =
        rw (absolute_path-combined v.cwd bs (joined (r ∷ rs)) u.combined_fits, path_real)
          (rebuild_lem size (render bs ++ joined (r ∷ rs))
            ∙ rw (parts_of_combined bs r rs u.plain u.plain_below)
                (copy_within_short size (render whole) u.size_fits))

    -- For a base and names below it that lead through no links and fit their buffers,
    -- syseba_safe_join of the base and the names joined by slashes yields the path with these
    -- names below the base.
    pub safe_join-slashed : safe_join v (render bs) (slashed (r ∷ rs)) size ≡ some (render whole)
    unfolding safe_join
    safe_join-slashed =
        rw
          (
            combined_shape bs r rs u.plain_below.0,
            copy_within_short path_max (render bs ++ joined (r ∷ rs)) u.combined_fits,
            safe_join,
            path_real-combined,
            within_whole,
          )
          refl

    -- For a base and a path below it that lead through no links and fit their buffers,
    -- syseba_relative_path yields the names below the base, joined by slashes.
    pub relative_path-render :
        relative_path v (render bs) (render whole) size ≡ some (slashed (r ∷ rs))
    unfolding relative_path
    relative_path-render =
        rw
          (
            path_real-render v.cwd bs path_max u.plain base_fits base_fits,
            relative_path,
            path_real-render v.cwd whole path_max whole-AllPlain u.whole_fits u.whole_fits,
            relative_copy,
            within_whole,
            below_render bs r rs u.plain_below.0,
            normalize-slashed r rs u.plain_below,
          )
          (copy_guarded size (slashed (r ∷ rs))
            (omega (arith, length-slashed bs r rs, u.size_fits)))
      where
        base_fits : length (render bs) < path_max
        base_fits = omega (arith, length-append (render bs) (joined (r ∷ rs)), u.combined_fits)
