-- ===== src/Restore/Careful.antt =====
-- A restore is careful: what it copies, and where to.
use sy_se_ba.Prelude.{
  not-true, not-false, ◌≡◌, ◌⊎◌, inl, inr, refl, sym, subst, Bool, true, false, ◌&&◌, ◌||◌, not,
  Option, none, some, [], ◌∷◌, if-cases,
}
use sy_se_ba.Prelude.Text.{Text}
use sy_se_ba.FilePath.{path_max}
use sy_se_ba.FilePath.Canonical.{IsCanonical}
use sy_se_ba.Confine.{FileView, safe_join}
use sy_se_ba.Confine.Join.{IsContained, safe_join-IsContained}
use sy_se_ba.Restore.Names.{unique_restored_path, unique_restored_path-fresh}
use sy_se_ba.Restore.Item.{
  Strategy, fail, rename, overwrite, Refusal, invalid, not_found, exists_already, err, Copy,
  is_fail, is_rename, is_overwrite, over_existing, choose_target, restore_plan,
}

module _ (v : FileView) (is_directory : Text → Bool) (stamp restore source : Text) where
  -- Without the strategy overwrite nothing stood at the target.
  pub record IsCareful (strategy : Strategy) (copy : Copy) : Type 0 where
    pub from_inside : IsContained v restore copy.from
    pub from_canonical : IsCanonical copy.from
    pub from_exists : v.exists copy.from ≡ true
    pub untaken : (strategy ≡ overwrite) ⊎ (v.exists copy.target ≡ false)
    pub only_asked : copy.overwrites ≡ is_overwrite strategy

  inl≢inr : (r : Refusal) (c : Copy) → ◌≡◌ {A = Refusal ⊎ Copy} (inl r) (inr c) → ⊥
  inl≢inr r c h = cc

  -- What a target is that is not renamed.
  Settled : Strategy → Text → Copy → Type 0
  Settled strategy from copy =
      (copy.from ≡ from)
      × ((strategy ≡ overwrite) ⊎ (v.exists copy.target ≡ false))
      × (copy.overwrites ≡ is_overwrite strategy)

  copy_made :
      (strategy : Strategy) (from target : Text) (copy : Copy)
      → ◌≡◌ {A = Refusal ⊎ Copy}
          (inr (record {
            from = from;
            target = target;
            is_tree = is_directory from;
            overwrites = is_overwrite strategy;
          }))
          (inr copy)
      → (copy.from ≡ from) × (copy.target ≡ target) × (copy.overwrites ≡ is_overwrite strategy)
  copy_made strategy from target copy e = (cc, cc, cc)

  existing_overwrite :
      (strategy : Strategy)
      → is_fail strategy ≡ false
      → is_rename strategy ≡ false
      → strategy ≡ overwrite
  existing_overwrite fail h k = cc
  existing_overwrite rename h k = cc
  existing_overwrite overwrite h k = refl

  over_existing-Settled :
      (strategy : Strategy) (from target : Text) (copy : Copy)
      → (v.exists target ≡ false) ⊎ (strategy ≡ overwrite)
      → over_existing v is_directory stamp restore source strategy from target ≡ inr copy
      → Settled strategy from copy
  unfolding over_existing Settled
  over_existing-Settled strategy from target copy state h =
      elim (if-cases (not (v.exists target)) h) [
        | inl (free, e) ↦
            let (a, b, c) = copy_made strategy from target copy e in
            (a, inr (subst (λ t. v.exists t ≡ false) (sym b) (not-true (v.exists target) free)), c)
        | inr (taken, e) ↦
            elim (if-cases
              (is_directory from && not (is_directory target)
                || (not (is_directory from) && is_directory target))
              e) [
                | inl (_, f) ↦ absurd (inl≢inr exists_already copy f)
                | inr (_, f) ↦
                    let (a, b, c) = copy_made strategy from target copy f in
                    (a, inl (settled (v.exists target) taken state), c)
              ]
      ]
    where
      settled :
          (b : Bool) → not b ≡ false → (b ≡ false) ⊎ (strategy ≡ overwrite) → strategy ≡ overwrite
      settled true h (inl e) = cc
      settled true h (inr e) = e
      settled false h e = cc

  choose_target-Settled :
      (strategy : Strategy) (from target : Text) (copy : Copy)
      → choose_target v is_directory stamp restore source strategy from target ≡ inr copy
      → (v.exists from ≡ true) × Settled strategy from copy
  unfolding choose_target Settled
  choose_target-Settled strategy from target copy h = elim (if-cases (not (v.exists from)) h) [
    | inl (_, e) ↦ absurd (inl≢inr not_found copy e)
    | inr (there, e) ↦ (
      not-false (v.exists from) there,
      elim (if-cases (v.exists target && is_fail strategy) e) [
        | inl (_, f) ↦ absurd (inl≢inr exists_already copy f)
        | inr (not_fail, f) ↦ elim (if-cases (v.exists target && is_rename strategy) f) [
          | inl (_, g) ↦ renamed (unique_restored_path v.exists stamp target path_max) refl g
          | inr (not_rename, g) ↦
              over_existing-Settled strategy from target copy
                (state (v.exists target) (is_fail strategy) (is_rename strategy) not_fail
                  not_rename)
                g
        ]
      ],
    )
  ]
    where
      state :
          (b f r : Bool)
          → b && is_fail strategy ≡ false
          → b && is_rename strategy ≡ false
          → (b ≡ false) ⊎ (strategy ≡ overwrite)
      state false f r h k = inl refl
      state true f r h k = inr (existing_overwrite strategy h k)

      renamed :
          (o : Option Text)
          → unique_restored_path v.exists stamp target path_max ≡ o
          → (elim o [
            | none ↦ inl err
            | some unique ↦ inr (record {
              from = from;
              target = unique;
              is_tree = is_directory from;
              overwrites = is_overwrite strategy;
            })
          ])
            ≡ inr copy
          → Settled strategy from copy
      renamed none e g = absurd (inl≢inr err copy g)
      renamed (some unique) e g =
          let (a, b, c) = copy_made strategy from unique copy g in
          (
            a,
            inr (
                subst (λ t. v.exists t ≡ false) (sym b)
                  (unique_restored_path-fresh v.exists stamp target unique path_max e).0),
            c,
          )

  -- Whatever path a client names, if syseba_restore_item goes on to a copy, the copy comes from
  -- an existing canonical path inside the restore directory with all links resolved, its target
  -- did not exist unless the strategy is overwrite, and it may replace files of a tree exactly
  -- under the strategy overwrite.
  pub restore_plan-IsCareful :
      (strategy : Strategy) (relative : Text) (copy : Copy)
      → restore_plan v is_directory stamp restore source strategy relative ≡ inr copy
      → IsCareful strategy copy
  unfolding restore_plan Settled
  restore_plan-IsCareful strategy [] copy h = absurd (inl≢inr invalid copy h)
  restore_plan-IsCareful strategy (c ∷ relative) copy h =
      by_from (safe_join v restore (c ∷ relative) path_max) refl h
    where
      by_target :
          (from : Text)
          → safe_join v restore (c ∷ relative) path_max ≡ some from
          → (o : Option Text)
          → (elim o [
            | none ↦ inl invalid
            | some target ↦ choose_target v is_directory stamp restore source strategy from target
          ])
            ≡ inr copy
          → IsCareful strategy copy
      by_target from e none h = absurd (inl≢inr invalid copy h)
      by_target from e (some target) h =
          let (there, settled) = choose_target-Settled strategy from target copy h in
          let (same, untaken, asked) = settled in
          let (canonical, _, inside) =
            safe_join-IsContained v restore (c ∷ relative) from path_max e in
          record {
            from_inside = subst (IsContained v restore) (sym same) inside;
            from_canonical = subst IsCanonical (sym same) canonical;
            from_exists = subst (λ t. v.exists t ≡ true) (sym same) there;
            untaken = untaken;
            only_asked = asked;
          }

      by_from :
          (o : Option Text)
          → safe_join v restore (c ∷ relative) path_max ≡ o
          → (elim o [
            | none ↦ inl invalid
            | some from ↦ elim (safe_join v source (c ∷ relative) path_max) [
              | none ↦ inl invalid
              | some target ↦ choose_target v is_directory stamp restore source strategy from target
            ]
          ])
            ≡ inr copy
          → IsCareful strategy copy
      by_from none e h = absurd (inl≢inr invalid copy h)
      by_from (some from) e h = by_target from e (safe_join v source (c ∷ relative) path_max) h
