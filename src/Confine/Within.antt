-- ===== src/Confine/Within.antt =====
-- On canonical paths the test is containment by names: no sibling that merely begins alike passes.
use mathlib.Core.List.{append-nil, append_assoc}
use sy_se_ba.Prelude.{
  ◌≡◌, refl, ap, ◌∙◌, sym, ◌↔◌, true, false, ◌&&◌, List, [], ◌∷◌, ◌++◌, length, all, drop, ◌==◌,
  and-split, drop-length_append, arith,
}
use sy_se_ba.Prelude.Text.{Text, streq_self, starts_with, starts_with-append}
use sy_se_ba.FilePath.{sep, ends_in_sep}
use sy_se_ba.FilePath.Canonical.{is_name_byte, IsPlain, AllPlain, joined, render}
use sy_se_ba.FilePath.Real.{ends_in_sep-append, ends_in_sep-plain}
use sy_se_ba.Confine.{at_boundary, within_text}

-- `x` begins `t`, and ends there at a boundary.
abbrev Begins : Text → Text → Type 0
Begins x t = (starts_with x t ≡ true) × (at_boundary (drop (length x) t) ≡ true)

pub joined-boundary : (ps : List Text) → at_boundary (joined ps) ≡ true
unfolding joined at_boundary
joined-boundary [] = refl
joined-boundary (p ∷ ps) = refl

-- Two names in front of canonical rests are the same name.
name-Begins :
    (b c : Text) (bs cs : List Text)
    → all is_name_byte b ≡ true
    → all is_name_byte c ≡ true
    → Begins (b ++ joined bs) (c ++ joined cs)
    → (b ≡ c) × Begins (joined bs) (joined cs)
unfolding starts_with joined at_boundary
name-Begins [] [] bs cs h k p = (refl, p)
name-Begins [] (d ∷ c) [] cs h k p = ground arith
name-Begins [] (d ∷ c) (b ∷ bs) cs h k p = ground arith
name-Begins (d ∷ b) [] bs [] h k p = ground arith
name-Begins (d ∷ b) [] bs (c ∷ cs) h k p = ground arith
name-Begins (d ∷ b) (e ∷ c) bs cs h k p =
    let (same, rest) = and-split (d == e) _ p.0 in
    let (eq, more) =
      name-Begins b c bs cs (and-split (is_name_byte d) _ h).1 (and-split (is_name_byte e) _ k).1
        (rest, p.1) in
    (ground arith, more)

joined-Begins :
    (bs cs : List Text)
    → AllPlain bs
    → AllPlain cs
    → Begins (joined bs) (joined cs)
    → (rest : List Text) × (cs ≡ bs ++ rest)
joined-Begins [] cs h k p = (cs, refl)
joined-Begins (b ∷ bs) [] h k p = unfold starts_with joined in ground arith
joined-Begins (b ∷ bs) (c ∷ cs) h k p =
    let (eq, more) = name-Begins b c bs cs h.0.bytes k.0.bytes (unfold joined starts_with in p) in
    let (rest, e) = joined-Begins bs cs h.1 k.1 more in (rest, cc)

pub joined-append : (bs rest : List Text) → joined (bs ++ rest) ≡ joined bs ++ joined rest
unfolding joined
joined-append [] rest = refl
joined-append (b ∷ bs) rest =
    ap (◌∷◌ sep)
      (ap (◌++◌ b) (joined-append bs rest) ∙ sym (append_assoc b (joined bs) (joined rest)))

ends_in_sep-joined :
    (p : Text) (ps : List Text) → AllPlain (p ∷ ps) → ends_in_sep (joined (p ∷ ps)) ≡ false
unfolding joined
ends_in_sep-joined p [] h = rw append-nil (ends_in_sep-plain [] p h.0)
ends_in_sep-joined p (q ∷ ps) h =
    ends_in_sep-append (sep ∷ p) sep (q ++ joined ps) ∙ ends_in_sep-joined q ps h.1

within_text-joined :
    (b : Text) (bs cs : List Text)
    → AllPlain (b ∷ bs)
    → within_text (joined (b ∷ bs)) (joined cs) ≡ (
        starts_with (joined (b ∷ bs)) (joined cs)
        && at_boundary (drop (length (joined (b ∷ bs))) (joined cs)))
unfolding within_text
within_text-joined b bs cs h = rw (ends_in_sep-joined b bs h) (ground arith)

render-joined : (c : Text) (cs : List Text) → render (c ∷ cs) ≡ joined (c ∷ cs)
unfolding render
render-joined c cs = refl

root_outside :
    (b : Text) (bs : List Text) → IsPlain b → within_text (render (b ∷ bs)) (render []) ≡ false
unfolding within_text render joined starts_with
root_outside [] bs h = cc (h.some_byte, streq_self [])
root_outside (d ∷ b) bs h = refl

-- For canonical texts, the comparison of syseba_path_is_within holds exactly if the names of the
-- candidate begin with the names of the base, so /ab is not within /a.
pub within_text_iff :
    (bs cs : List Text)
    → AllPlain bs
    → AllPlain cs
    → (within_text (render bs) (render cs) ≡ true) ↔ ((rest : List Text) × (cs ≡ bs ++ rest))
within_text_iff [] [] h k = (λ _. ([], refl), λ _. unfold within_text render starts_with in refl)
within_text_iff [] (c ∷ cs) h k =
    (λ _. (c ∷ cs, refl), λ _. unfold within_text render starts_with joined in refl)
within_text_iff (b ∷ bs) [] h k = (λ e. cc (root_outside b bs h.0), λ (rest, e). cc)
within_text_iff (b ∷ bs) (c ∷ cs) h k = (forth, back)
  where
    forth :
        within_text (render (b ∷ bs)) (render (c ∷ cs)) ≡ true
        → (rest : List Text) × (c ∷ cs ≡ (b ∷ bs) ++ rest)
    forth e = joined-Begins (b ∷ bs) (c ∷ cs) h k (
        and-split _ _ (
          sym (within_text-joined b bs (c ∷ cs) h)
          ∙ (rw (render-joined b bs, render-joined c cs) at e)))

    back :
        ((rest : List Text) × (c ∷ cs ≡ (b ∷ bs) ++ rest))
        → within_text (render (b ∷ bs)) (render (c ∷ cs)) ≡ true
    back (rest, e) =
        rw
          (
            render-joined b bs,
            render-joined c cs,
            within_text-joined b bs (c ∷ cs) h,
            e,
            joined-append (b ∷ bs) rest,
            starts_with-append,
            drop-length_append,
          )
          (joined-boundary rest)
