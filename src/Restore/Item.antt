-- ===== src/Restore/Item.antt =====
-- `syseba_restore_item` of src/fs.c: where an item goes.
use sy_se_ba.Prelude.{
  ℕ, ◌⊎◌, inl, inr, Bool, true, false, ◌&&◌, ◌||◌, not, none, some, [], ◌∷◌, inc64, if◌then◌else◌,
}
use sy_se_ba.Prelude.Text.{Text, fits}
use sy_se_ba.FilePath.{path_max}
use sy_se_ba.Confine.{FileView, safe_join}
use sy_se_ba.Restore.Names.{unique_restored_path}

-- `syseba_restore_strategy_t`
pub data Strategy : Type 0 where
  fail rename overwrite : Strategy

pub data Refusal : Type 0 where
  invalid not_found exists_already err : Refusal

-- A copy that is to be made: `syseba_copy_tree` of a directory or `syseba_copy_file`.
pub record Copy : Type 0 where
  pub from : Text
  pub target : Text
  pub is_tree : Bool
  pub overwrites : Bool

abbrev pub is_fail : Strategy → Bool
is_fail fail = true
is_fail _ = false

abbrev pub is_rename : Strategy → Bool
is_rename rename = true
is_rename _ = false

abbrev pub is_overwrite : Strategy → Bool
is_overwrite overwrite = true
is_overwrite _ = false

module _ (v : FileView) (is_directory : Text → Bool) (stamp restore source : Text) where
  -- The target is taken, and may stay; a tree and a file do not replace each other.
  unfoldable pub over_existing : Strategy → Text → Text → Refusal ⊎ Copy
  over_existing strategy from target =
      if not (v.exists target)
      then inr (record {
        from = from;
        target = target;
        is_tree = is_directory from;
        overwrites = is_overwrite strategy;
      })
      else if is_directory from && not (is_directory target)
          || (not (is_directory from) && is_directory target)
      then inl exists_already
      else inr (record {
        from = from;
        target = target;
        is_tree = is_directory from;
        overwrites = is_overwrite strategy;
      })

  -- After the two joins.
  unfoldable pub choose_target : Strategy → Text → Text → Refusal ⊎ Copy
  unfolding over_existing
  choose_target strategy from target =
      if not (v.exists from)
      then inl not_found
      else if v.exists target && is_fail strategy
      then inl exists_already
      else if v.exists target && is_rename strategy
      then elim (unique_restored_path v.exists stamp target path_max) [
        | none ↦ inl err
        | some unique ↦ inr (record {
          from = from;
          target = unique;
          is_tree = is_directory from;
          overwrites = is_overwrite strategy;
        })
      ]
      else over_existing strategy from target

  unfoldable pub restore_plan : Strategy → Text → Refusal ⊎ Copy
  unfolding choose_target
  restore_plan strategy [] = inl invalid
  restore_plan strategy (c ∷ relative) = elim (safe_join v restore (c ∷ relative) path_max) [
    | none ↦ inl invalid
    | some from ↦ elim (safe_join v source (c ∷ relative) path_max) [
      | none ↦ inl invalid
      | some target ↦ choose_target strategy from target
    ]
  ]

  -- `copied` says whether the copy succeeds, and `restored` is the counter of `app->stats`.
  unfoldable pub restore_item : (Copy → Bool) → Strategy → Text → ℕ → ℕ → (Refusal ⊎ Text) × ℕ
  unfolding restore_plan
  restore_item copied strategy relative size restored = elim (restore_plan strategy relative) [
    | inl refusal ↦ (inl refusal, restored)
    | inr copy ↦
        if not (copied copy)
        then (inl err, restored)
        else (if fits size copy.target then inr copy.target else inl err, inc64 restored)
  ]
