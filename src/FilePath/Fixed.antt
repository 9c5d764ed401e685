-- ===== src/FilePath/Fixed.antt =====
-- Canonical paths are the fixed points of `syseba_path_real`.
use mathlib.Core.List.{append_assoc, append-nil}
use sy_se_ba.Prelude.{
  ℕ, ◌≤◌, ◌<◌, ◌≡◌, refl, ap, ap₂, ◌∙◌, sym, subst, true, false, Option, some, List, [], ◌∷◌, ◌++◌,
  length, all, drop, ◌==◌, and-split, arith,
}
use sy_se_ba.Prelude.Text.{Text, streq_self}
use sy_se_ba.FilePath.{
  path_max, sep, normalize_byte, normalize_separators, flush, token_loop, add_part, collect_parts,
  absolute_path, reversed, path_real,
}
use sy_se_ba.FilePath.Canonical.{is_name_byte, IsPlain, AllPlain, joined, render}
use sy_se_ba.FilePath.Real.{parts_of, rebuild_lem, copy_within_short, path_real-IsCanonical}

name-not-sep : (c : ℕ) → is_name_byte c ≡ true → (c == sep ≡ false) × (normalize_byte c ≡ c)
unfolding normalize_byte
name-not-sep c h = ground arith

-- A name is read to its end.
token_loop-name :
    (p s current : Text)
    → all is_name_byte p ≡ true
    → token_loop current (p ++ s) ≡ token_loop (current ++ p) s
unfolding token_loop
token_loop-name [] s current h = rw append-nil refl
token_loop-name (c ∷ p) s current h =
    let (first, rest) = and-split (is_name_byte c) _ h in
    rw (name-not-sep c first).0 (
      token_loop-name p s (current ++ c ∷ []) rest
      ∙ ap (λ t. token_loop t s) (append_assoc current (c ∷ []) p))

flush-plain : (p : Text) (rest : List Text) → IsPlain p → flush p rest ≡ p ∷ rest
unfolding flush
flush-plain [] rest v = cc (v.some_byte, streq_self [])
flush-plain (c ∷ p) rest v = refl

token_loop-joined :
    (current : Text) (ps : List Text)
    → AllPlain ps
    → token_loop current (joined ps) ≡ flush current ps
unfolding joined token_loop
token_loop-joined current [] h = refl
token_loop-joined current (p ∷ ps) h =
    ap (flush current) (
      token_loop-name p (joined ps) [] h.0.bytes
      ∙ token_loop-joined p ps h.1
      ∙ flush-plain p ps h.0)

pub normalize-append :
    (s t : Text) → normalize_separators (s ++ t) ≡ normalize_separators s ++ normalize_separators t
unfolding normalize_separators
normalize-append [] t = refl
normalize-append (c ∷ s) t = ap (◌∷◌ (normalize_byte c)) (normalize-append s t)

pub normalize-name : (p : Text) → all is_name_byte p ≡ true → normalize_separators p ≡ p
unfolding normalize_separators
normalize-name [] h = refl
normalize-name (c ∷ p) h =
    let (first, rest) = and-split (is_name_byte c) _ h in
    cc ((name-not-sep c first).1, normalize-name p rest)

pub normalize-joined : (ps : List Text) → AllPlain ps → normalize_separators (joined ps) ≡ joined ps
unfolding joined normalize_separators normalize_byte
normalize-joined [] h = refl
normalize-joined (p ∷ ps) h = ap (◌∷◌ sep) (
    normalize-append p (joined ps)
    ∙ ap₂ ◌++◌ (normalize-name p h.0.bytes) (normalize-joined ps h.1))

collect_parts-plain :
    (acc ps out : List Text)
    → AllPlain ps
    → reversed (collect_parts acc ps) out ≡ reversed acc (ps ++ out)
unfolding collect_parts add_part
collect_parts-plain acc [] out h = refl
collect_parts-plain acc (p ∷ ps) out h =
    rw (h.0.not_dot, h.0.not_dots) (collect_parts-plain (p ∷ acc) ps out h.1)

-- The parts of a canonical path are the names it was built from.
pub parts_of-render : (ps : List Text) → AllPlain ps → parts_of (render ps) ≡ ps
unfolding parts_of render joined normalize_separators token_loop flush collect_parts
parts_of-render [] h = refl
parts_of-render (p ∷ ps) h =
    ap (λ t. reversed (collect_parts [] (token_loop [] (drop 1 t))) [])
      (normalize-joined (p ∷ ps) h)
    ∙ ap (λ ts. reversed (collect_parts [] ts) [])
        (token_loop-name p (joined ps) [] h.0.bytes
          ∙ token_loop-joined p ps h.1
          ∙ flush-plain p ps h.0)
    ∙ collect_parts-plain [] (p ∷ ps) [] h
    ∙ append-nil (p ∷ ps)

-- A doubled separator at the root is no name.
pub parts_of-doubled : (ps : List Text) → AllPlain ps → parts_of (sep ∷ joined ps) ≡ ps
unfolding parts_of normalize_separators normalize_byte flush
parts_of-doubled ps h =
    ap (λ t. reversed (collect_parts [] (token_loop [] t)) []) (normalize-joined ps h)
    ∙ ap (λ ts. reversed (collect_parts [] ts) []) (token_loop-joined [] ps h)
    ∙ collect_parts-plain [] ps [] h
    ∙ append-nil ps

absolute_path-render :
    (cwd : Option Text) (ps : List Text)
    → length (render ps) < path_max
    → absolute_path cwd (render ps) ≡ some (render ps)
unfolding absolute_path render joined
absolute_path-render cwd [] h = refl
absolute_path-render cwd (p ∷ ps) h = copy_within_short path_max (render (p ∷ ps)) h

-- A canonical path that fits is its own real path, whatever the working directory.
pub path_real-render :
    (cwd : Option Text) (ps : List Text) (size : ℕ)
    → AllPlain ps
    → length (render ps) < path_max
    → length (render ps) < size
    → path_real cwd (render ps) size ≡ some (render ps)
unfolding path_real
path_real-render cwd ps size h fit room =
    rw (absolute_path-render cwd ps fit, path_real)
      (rebuild_lem size (render ps)
        ∙ rw (parts_of-render ps h) (copy_within_short size (render ps) room))

-- For a buffer of at most SYSEBA_PATH_MAX bytes, syseba_path_real applied to its own output gives
-- this output again, from any working directory.
pub path_real_idem :
    (cwd cwd' : Option Text) (path out : Text) (size : ℕ)
    → size ≤ path_max
    → path_real cwd path size ≡ some out
    → path_real cwd' out size ≡ some out
path_real_idem cwd cwd' path out size fit e =
    let (canonical, room) = path_real-IsCanonical cwd path out size e in
    subst (λ t. path_real cwd' t size ≡ some t) (sym canonical.shape)
      (path_real-render cwd' canonical.parts size canonical.plain
        (omega (arith, ap length canonical.shape)) (omega (arith, ap length canonical.shape)))
