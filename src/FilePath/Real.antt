-- ===== src/FilePath/Real.antt =====
-- `syseba_path_real` gives canonical paths, and leaves those as they are.
use mathlib.Core.List.{append_assoc, append-nil}
use mathlib.Core.Option.{none-ne-some}
use sy_se_ba.Prelude.{
  ℕ, ◌+◌, ◌≤◌, ◌<◌, ◌≡◌, refl, ap, ◌∙◌, sym, true, false, Option, none, some, List, [], ◌∷◌, ◌++◌,
  length, all, All, drop, ltb, ltb→lt, ltb→le, leb, leb→le, if◌then◌else◌, Bool-cases, Option-cases,
  inl, inr, length-append, arith,
}
use sy_se_ba.Prelude.Text.{Text, codes, streq, streq_self, copy_within}
use sy_se_ba.FilePath.{
  sep, normalize_separators, token_loop, pop, add_part, collect_parts, ends_in_sep, separator,
  write_parts, absolute_path, reversed, rebuild, path_real,
}
use sy_se_ba.FilePath.Canonical.{is_name_byte, IsPlain, AllPlain, joined, render, IsCanonical}
use sy_se_ba.FilePath.Tokens.{IsToken, token_loop-tokens}

-- The parts that the output is built from, first one first.
unfoldable pub parts_of : Text → List Text
parts_of absolute =
    reversed (collect_parts [] (token_loop [] (drop 1 (normalize_separators absolute)))) []

pop-AllPlain : (parts : List Text) → AllPlain parts → AllPlain (pop parts)
unfolding pop
pop-AllPlain [] h = tt
pop-AllPlain (p ∷ parts) h = h.1

add_part-AllPlain :
    (parts : List Text) (t : Text) → AllPlain parts → IsToken t → AllPlain (add_part parts t)
unfolding add_part
add_part-AllPlain parts t h k = elim (Bool-cases (streq t (codes "."))) [
  | inl e ↦ rw e h
  | inr e ↦ elim (Bool-cases (streq t (codes ".."))) [
    | inl f ↦ rw (e, f) (pop-AllPlain parts h)
    | inr f ↦ rw (e, f) (record { some_byte = k.0; bytes = k.1; not_dot = e; not_dots = f }, h)
  ]
]

collect_parts-AllPlain :
    (parts ts : List Text) → AllPlain parts → All IsToken ts → AllPlain (collect_parts parts ts)
unfolding collect_parts
collect_parts-AllPlain parts [] h k = h
collect_parts-AllPlain parts (t ∷ ts) h k =
    collect_parts-AllPlain (add_part parts t) ts (add_part-AllPlain parts t h k.0) k.1

reversed-AllPlain : (ps out : List Text) → AllPlain ps → AllPlain out → AllPlain (reversed ps out)
reversed-AllPlain [] out h k = k
reversed-AllPlain (p ∷ ps) out h k = reversed-AllPlain ps (p ∷ out) h.1 (h.0, k)

drop-normalize : (s : Text) → drop 1 (normalize_separators s) ≡ normalize_separators (drop 1 s)
unfolding normalize_separators
drop-normalize [] = refl
drop-normalize (c ∷ s) = refl

parts_of-AllPlain : (absolute : Text) → AllPlain (parts_of absolute)
unfolding parts_of
parts_of-AllPlain absolute = rw (drop-normalize absolute) (
    reversed-AllPlain _ []
      (collect_parts-AllPlain [] _ tt (token_loop-tokens [] (drop 1 absolute) refl)) tt)

pub ends_in_sep-append :
    (s : Text) (c : ℕ) (t : Text) → ends_in_sep (s ++ c ∷ t) ≡ ends_in_sep (c ∷ t)
unfolding ends_in_sep
ends_in_sep-append [] c t = refl
ends_in_sep-append (d ∷ []) c t = refl
ends_in_sep-append (d ∷ e ∷ s) c t = ends_in_sep-append (e ∷ s) c t

ends_in_sep-name : (t : Text) → all is_name_byte t ≡ true → ends_in_sep t ≡ false
unfolding ends_in_sep
ends_in_sep-name [] h = refl
ends_in_sep-name (c ∷ []) h = ground arith
ends_in_sep-name (c ∷ d ∷ t) h = ground (arith, ends_in_sep-name (d ∷ t))

copy_within_long : (size : ℕ) (t : Text) → size ≤ length t → copy_within size t ≡ none
copy_within_long size t h = ground arith

pub copy_within_short : (size : ℕ) (t : Text) → length t < size → copy_within size t ≡ some t
copy_within_short size t h = ground arith

pub ends_in_sep-plain :
    (output p : Text) → IsPlain p → ends_in_sep (output ++ sep ∷ [] ++ p) ≡ false
ends_in_sep-plain output [] v = cc (v.some_byte, streq_self [])
ends_in_sep-plain output (c ∷ p) v =
    ends_in_sep-append (output ++ sep ∷ []) c p ∙ ends_in_sep-name (c ∷ p) v.bytes

regroup : (output p rest : Text) → (output ++ sep ∷ [] ++ p) ++ rest ≡ output ++ sep ∷ (p ++ rest)
regroup output p rest = simp append_assoc

-- Behind a text that ends in no separator each part takes one; the output either fits or fails.
write_parts_lem :
    (size : ℕ) (ps : List Text) (output : Text)
    → AllPlain ps
    → ends_in_sep output ≡ false
    → length output < size
    → write_parts size ps output ≡ copy_within size (output ++ joined ps)
unfolding write_parts joined separator
write_parts_lem size [] output h e fit = rw append-nil (sym (copy_within_short size output fit))
write_parts_lem size (p ∷ ps) output h e fit =
    elim (Bool-cases (ltb size (length output + 1 + length p + 1))) [
      | inl long ↦
          rw (e, long)
            (sym (
              copy_within_long size _ (
                omega (
                  arith,
                  ltb→lt _ _ long,
                  length-append output (sep ∷ (p ++ joined ps)),
                  length-append p (joined ps),
                ))))
      | inr short ↦
          rw (e, short)
            (write_parts_lem size ps (output ++ sep ∷ [] ++ p) h.1 (ends_in_sep-plain output p h.0)
                (omega (
                  arith,
                  ltb→le _ _ short,
                  length-append (output ++ sep ∷ []) p,
                  length-append output (sep ∷ []),
                ))
              ∙ ap (copy_within size) (regroup output p (joined ps)))
    ]

write_root :
    (size : ℕ) (ps : List Text)
    → AllPlain ps
    → (if leb size 1 then none else write_parts size ps (sep ∷ [])) ≡ copy_within size (render ps)
unfolding write_parts separator render joined
write_root size [] h = ground arith
write_root size (p ∷ ps) h = elim (Bool-cases (leb size 1)) [
  | inl tiny ↦
      rw tiny (sym (copy_within_long size (render (p ∷ ps)) (omega (arith, leb→le _ _ tiny))))
  | inr wide ↦ elim (Bool-cases (ltb size (1 + 0 + length p + 1))) [
    | inl long ↦
        rw (wide, long)
          (sym (
            copy_within_long size (render (p ∷ ps))
              (omega (arith, ltb→lt _ _ long, length-append p (joined ps)))))
    | inr short ↦
        rw (wide, short)
          (write_parts_lem size ps (sep ∷ p) h.1 (ends_in_sep-plain [] p h.0)
            (omega (arith, ltb→le _ _ short)))
  ]
]

-- The output is the canonical path of the parts, if it fits.
pub rebuild_lem :
    (size : ℕ) (absolute : Text)
    → rebuild size absolute ≡ copy_within size (render (parts_of absolute))
unfolding rebuild parts_of
rebuild_lem size absolute = write_root size (parts_of absolute) (parts_of-AllPlain absolute)

pub copy_within-eq-some :
    (size : ℕ) (t out : Text) → copy_within size t ≡ some out → (out ≡ t) × (length out < size)
copy_within-eq-some size t out e = ground arith

-- If syseba_path_real succeeds, its output is the root or a list of plain names behind slashes,
-- none empty, none a dot or two, none with a slash or a backslash, and it fits the buffer with
-- its terminator.
pub path_real-IsCanonical :
    (cwd : Option Text) (path out : Text) (size : ℕ)
    → path_real cwd path size ≡ some out
    → IsCanonical out × (length out < size)
unfolding path_real
path_real-IsCanonical cwd path out size e = elim (Option-cases (absolute_path cwd path)) [
  | inl bad ↦ absurd (none-ne-some out (rw (bad, path_real) at e))
  | inr (absolute, good) ↦
      let (shape, fit) =
        copy_within-eq-some size _ out
          (sym (rebuild_lem size absolute) ∙ (rw (good, path_real) at e)) in
      (record { parts = parts_of absolute; plain = parts_of-AllPlain absolute; shape = shape }, fit)
]
