-- ===== src/Confine/Resolve.antt =====
-- The search for the deepest part of a path that exists ends, and what it finds.
use sy_se_ba.Prelude.{
  ℕ, zero, suc, ◌<◌, ◌≡◌, refl, ap, ◌⊎◌, inl, inr, true, false, none, some, [], ◌∷◌, ◌++◌, length,
  drop, Bool-cases, Option-cases, bind-eq-some, arith,
}
use sy_se_ba.Prelude.Text.{Text, streq, streq→eq, copy_within}
use sy_se_ba.FilePath.{path_max, sep, before_slash, parent_dir, path_real}
use sy_se_ba.FilePath.Canonical.{IsCanonical}
use sy_se_ba.FilePath.Real.{path_real-IsCanonical}
use sy_se_ba.Confine.{
  FileView, Probe, found, failed, out_of_fuel, probe_parent, probe_loop, append_suffix,
  path_resolve_links,
}

length-before_slash : (s front : Text) → before_slash s ≡ some front → length front < length s
unfolding before_slash
length-before_slash [] front e = cc
length-before_slash (c ∷ s) front e = elim (Option-cases (before_slash s)) [
  | inl none_here ↦ ground arith
  | inr (rest, here) ↦ ground (arith, length-before_slash s rest here)
]

-- The parent of a rooted path is rooted, and shorter but for the root itself.
rooted_parent :
    (t : Text)
    → suc (length t) < path_max
    → (t ≡ [])
      ⊎ ((u : Text) × (parent_dir (sep ∷ t) path_max ≡ some (sep ∷ u)) × (length u < length t))
unfolding parent_dir
rooted_parent [] h = inl refl
rooted_parent (c ∷ t) h = elim (Option-cases (before_slash (c ∷ t))) [
  | inl none_here ↦ inr ([], rw (none_here, parent_dir, before_slash), omega arith)
  | inr (front, here) ↦
      let shorter = length-before_slash (c ∷ t) front here in
      inr (front, rw (here, parent_dir, before_slash) (ground arith), shorter)
]

module _ (v : FileView) (root : v.exists (sep ∷ []) ≡ true) where
  streq_longer : (u t : Text) → length u < length t → streq u t ≡ false
  streq_longer u t h = elim (Bool-cases (streq u t)) [
    | inl e ↦ absurd (omega (arith, ap length (streq→eq u t e)))
    | inr e ↦ e
  ]

  -- If the root exists, the loop over the parents of an absolute path that fits its buffer ends
  -- with a path that exists, in no more rounds than the path has bytes.
  pub probe_loop_total :
      (fuel : ℕ) (t : Text)
      → length t < fuel
      → suc (length t) < path_max
      → (probe : Text) × (probe_loop v fuel (sep ∷ t) ≡ found probe) × (v.exists probe ≡ true)
  unfolding probe_loop
  probe_loop_total zero t h fit = absurd (omega arith)
  probe_loop_total (suc fuel) t h fit = elim (Bool-cases (v.exists (sep ∷ t))) [
    | inl here ↦ (sep ∷ t, rw (here, probe_loop), here)
    | inr absent ↦ elim (rooted_parent t fit) [
      | inl e ↦ cc (ap (λ u. v.exists (sep ∷ u)) e)
      | inr (u, e, shorter) ↦
          rw (absent, probe_loop, e, probe_parent, streq_longer (sep ∷ u) (sep ∷ t) (omega arith))
            (probe_loop_total fuel u (omega arith) (omega arith))
    ]
  ]

-- The links are resolved into a canonical path that fits the output.
pub path_resolve_links-IsCanonical :
    (v : FileView) (path out : Text) (size : ℕ)
    → path_resolve_links v path size ≡ some out
    → IsCanonical out × (length out < size)
unfolding path_resolve_links
path_resolve_links-IsCanonical v path out size e =
    let (normalized, _, rest) = bind-eq-some (path_real v.cwd path path_max) _ e in
    from_probe normalized (probe_loop v (suc (length normalized)) normalized) rest
  where
    from_probe :
        (normalized : Text) (p : Probe)
        → (elim p [
          | found probe ↦ append_suffix v normalized size probe
          | failed ↦ none
          | out_of_fuel ↦ none
        ])
          ≡ some out
        → IsCanonical out × (length out < size)
    from_probe normalized (found probe) h =
        let (resolved, _, more) = bind-eq-some (v.realpath probe) _ h in
        let (output, _, last) =
          bind-eq-some (copy_within size (resolved ++ drop (length probe) normalized)) _ more in
        path_real-IsCanonical v.cwd output out size last
    from_probe normalized failed h = cc
    from_probe normalized out_of_fuel h = cc
