-- ===== src/Config/Saved.antt =====
-- `syseba_config_save` of src/config.c: the text that it writes, and when.
use sy_se_ba.Prelude.{
  ℕ, ◌≡◌, Bool, not, ◌⊎◌, inl, inr, Option, none, some, [], ◌∷◌, ◌++◌, if◌then◌else◌, if-cases,
}
use sy_se_ba.Prelude.Text.{Text, codes, copy_within}
use sy_se_ba.Prelude.Number.{decimal}
use sy_se_ba.FilePath.{path_max, parent_dir}
use sy_se_ba.Confine.{FileView}
use sy_se_ba.Files
use sy_se_ba.Files.{put, file, mkdirs}
use sy_se_ba.Files.Copy.{Attempt, atomic_replace}
use sy_se_ba.Config.{Config, Failure, err, permission}
use sy_se_ba.Config.Load.{config_normalize}

-- "key = value\n"
abbrev pub setting_line : Text → Text → Text
setting_line key value = key ++ 32 ∷ b'=' ∷ 32 ∷ value ++ b'\n' ∷ []

-- The format of the call of `fprintf`.
unfoldable pub saved_text : Config → Text
saved_text config =
    codes "# SySeBa configuration"
    ++ b'\n' ∷ []
    ++ (codes "[SETTINGS]"
        ++ b'\n' ∷ []
        ++ (setting_line (codes "source") config.source
            ++ (setting_line (codes "backup") config.backup
                ++ (setting_line (codes "restore") config.restore
                    ++ (setting_line (codes "log") config.log_file
                        ++ (setting_line (codes "threads") (decimal config.threads) ++ []))))))

-- The files before the save and what `mkdir` lets make, whether `open` of the temporary file and
-- the writes with `fflush`, `fsync` and `fclose` succeed, what `rename` and the call that syncs
-- the parent answer, and the clock.
pub record Disk : Type 0 where
  pub files : Files.Disk
  pub may_make : Text → Files.Disk → Bool
  pub opened : Text → Bool
  pub written : Bool
  pub renaming : Attempt
  pub monotonic_ns : ℕ

-- A file that was replaced, and its new content.
pub record Written : Type 0 where
  pub path : Text
  pub content : Text

module _ (v : FileView) (is_directory : Text → Bool) (disk : Disk) where
  -- `syseba_atomic_replace` with the temporary file written.
  unfoldable pub replace : Config → Text → Text → Bool × Files.Disk
  unfolding saved_text
  replace c parent temporary = atomic_replace disk.renaming temporary c.config_path (
      put temporary (some (file (saved_text c) disk.renaming.now 416))
        (mkdirs disk.may_make parent disk.files).1)

  -- With the normalized configuration.
  unfoldable pub write_config : Config → Failure ⊎ Written
  unfolding replace
  write_config c = elim (parent_dir c.config_path path_max) [
    | none ↦ inl err
    | some parent ↦
        if not (mkdirs disk.may_make parent disk.files).0
        then inl err
        else elim (copy_within path_max
            (c.config_path ++ codes ".tmp." ++ decimal disk.monotonic_ns)) [
              | none ↦ inl err
              | some temporary ↦
                  if not (disk.opened temporary)
                  then inl permission
                  else if not disk.written
                  then inl err
                  else if not (replace c parent temporary).0
                  then inl err
                  else inr (record { path = c.config_path; content = saved_text c })
            ]
  ]

  unfoldable pub config_save : Config → Failure ⊎ Written
  unfolding write_config
  config_save config = elim (config_normalize v is_directory config) [
    | inl failure ↦ inl failure
    | inr normalized ↦ write_config normalized
  ]

  inl≢inr : (f : Failure) (w : Written) → ◌≡◌ {A = Failure ⊎ Written} (inl f) (inr w) → ⊥
  inl≢inr f w h = cc

  pub write_config-written :
      (c : Config) (w : Written)
      → write_config c ≡ inr w
      → (w.path ≡ c.config_path) × (w.content ≡ saved_text c)
  unfolding write_config
  write_config-written c w h = by_parent (parent_dir c.config_path path_max) h
    where
      replaced :
          ◌≡◌ {A = Failure ⊎ Written}
            (inr (record { path = c.config_path; content = saved_text c }))
            (inr w)
          → (w.path ≡ c.config_path) × (w.content ≡ saved_text c)
      replaced e = (cc, cc)

      by_temporary :
          (parent : Text) (o : Option Text)
          → (elim o [
            | none ↦ inl err
            | some temporary ↦
                if not (disk.opened temporary)
                then inl permission
                else if not disk.written
                then inl err
                else if not (replace c parent temporary).0
                then inl err
                else inr (record { path = c.config_path; content = saved_text c })
          ])
            ≡ inr w
          → (w.path ≡ c.config_path) × (w.content ≡ saved_text c)
      by_temporary parent none e = absurd (inl≢inr err w e)
      by_temporary parent (some temporary) e = elim (if-cases (not (disk.opened temporary)) e) [
        | inl (_, f) ↦ absurd (inl≢inr permission w f)
        | inr (_, f) ↦ elim (if-cases (not disk.written) f) [
          | inl (_, g) ↦ absurd (inl≢inr err w g)
          | inr (_, g) ↦ elim (if-cases (not (replace c parent temporary).0) g) [
            | inl (_, k) ↦ absurd (inl≢inr err w k)
            | inr (_, k) ↦ replaced k
          ]
        ]
      ]

      by_parent :
          (o : Option Text)
          → (elim o [
            | none ↦ inl err
            | some parent ↦
                if not (mkdirs disk.may_make parent disk.files).0
                then inl err
                else elim (copy_within path_max
                    (c.config_path ++ codes ".tmp." ++ decimal disk.monotonic_ns)) [
                      | none ↦ inl err
                      | some temporary ↦
                          if not (disk.opened temporary)
                          then inl permission
                          else if not disk.written
                          then inl err
                          else if not (replace c parent temporary).0
                          then inl err
                          else inr (record { path = c.config_path; content = saved_text c })
                    ]
          ])
            ≡ inr w
          → (w.path ≡ c.config_path) × (w.content ≡ saved_text c)
      by_parent none e = absurd (inl≢inr err w e)
      by_parent (some parent) e =
          elim (if-cases (not (mkdirs disk.may_make parent disk.files).0) e) [
            | inl (_, f) ↦ absurd (inl≢inr err w f)
            | inr (_, f) ↦
                by_temporary parent
                  (copy_within path_max
                    (c.config_path ++ codes ".tmp." ++ decimal disk.monotonic_ns))
                  f
          ]
