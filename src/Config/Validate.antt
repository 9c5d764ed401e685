-- ===== src/Config/Validate.antt =====
-- `syseba_config_validate` of src/config.c against what it is to ensure.
use sy_se_ba.Prelude.{
  ◌≤◌, ◌≡◌, ◌≢◌, ◌↔◌, Bool, true, false, ◌||◌, not, inl, inr, Option, none, some, ltb,
  if◌then◌else◌, Bool-cases, arith,
}
use sy_se_ba.Prelude.Text.{Text, streq, streq_iff, has_char}
use sy_se_ba.Confine.{FileView, path_is_within}
use sy_se_ba.Confine.Join.{IsContained, path_is_within_iff}
use sy_se_ba.Config.{Config, max_threads, Failure, not_found, invalid}

-- `strpbrk(text, "\r\n") != NULL`
unfoldable pub has_break : Text → Bool
has_break text = has_char 13 text || has_char 10 text

-- `syseba_path_equal`
abbrev pub path_equal : Text → Text → Bool
path_equal = streq

module _ (v : FileView) (is_directory : Text → Bool) where
  -- `none` is `SYSEBA_OK`.
  unfoldable pub config_validate : Config → Option Failure
  unfolding has_break
  config_validate config =
      if has_break config.source
        || has_break config.backup
        || has_break config.restore
        || has_break config.log_file
        || has_break config.config_path
      then some invalid
      else if not (is_directory config.source)
      then some not_found
      else if path_equal config.source config.backup
          || path_equal config.source config.restore
          || path_equal config.backup config.restore
      then some invalid
      else if path_is_within v config.source config.backup
          || path_is_within v config.backup config.source
          || path_is_within v config.source config.restore
          || path_is_within v config.restore config.source
          || path_is_within v config.backup config.restore
          || path_is_within v config.restore config.backup
      then some invalid
      else if path_is_within v config.source config.log_file
      then some invalid
      else if ltb config.threads 1 || ltb max_threads config.threads
      then some invalid
      else none

module _ (v : FileView) where
  -- Two trees, neither of which lies in the other, with all links followed.
  pub record AreApart (first second : Text) : Type 0 where
    pub differ : first ≢ second
    pub not_below : IsContained v first second → ⊥
    pub not_above : IsContained v second first → ⊥

  outside_of_false : (a b : Text) → path_is_within v a b ≡ false → IsContained v a b → ⊥
  outside_of_false a b h k = clash ((path_is_within_iff v a b).1 k)
    where
      clash : path_is_within v a b ≡ true → ⊥
      clash e = cc

  false_of_outside : (a b : Text) → (IsContained v a b → ⊥) → path_is_within v a b ≡ false
  false_of_outside a b h = elim (Bool-cases (path_is_within v a b)) [
    | inl e ↦ absurd (h ((path_is_within_iff v a b).0 e))
    | inr e ↦ e
  ]

  differ_of_false : (a b : Text) → streq a b ≡ false → a ≢ b
  differ_of_false a b h e = clash ((streq_iff a b).1 e)
    where
      clash : streq a b ≡ true → ⊥
      clash k = cc

  false_of_differ : (a b : Text) → a ≢ b → streq a b ≡ false
  false_of_differ a b h = elim (Bool-cases (streq a b)) [
    | inl e ↦ absurd (h ((streq_iff a b).0 e))
    | inr e ↦ e
  ]

  apart :
      (a b : Text)
      → streq a b ≡ false
      → path_is_within v a b ≡ false
      → path_is_within v b a ≡ false
      → AreApart a b
  apart a b e f g = record {
    differ = differ_of_false a b e;
    not_below = outside_of_false a b f;
    not_above = outside_of_false b a g;
  }

module _ (v : FileView) (is_directory : Text → Bool) where
  -- A configuration that the program may run with.
  pub record IsSound (config : Config) : Type 0 where
    pub one_line :
        (has_break config.source ≡ false)
        × (has_break config.backup ≡ false)
        × (has_break config.restore ≡ false)
        × (has_break config.log_file ≡ false)
        × (has_break config.config_path ≡ false)
    pub source_exists : is_directory config.source ≡ true
    pub source_backup : AreApart v config.source config.backup
    pub source_restore : AreApart v config.source config.restore
    pub backup_restore : AreApart v config.backup config.restore
    pub log_outside : IsContained v config.source config.log_file → ⊥
    pub some_thread : 1 ≤ config.threads
    pub few_threads : config.threads ≤ max_threads

not-false : (b : Bool) → not b ≡ false → b ≡ true
not-false b h = ground arith

or-false : (a b : Bool) → a || b ≡ false → (a ≡ false) × (b ≡ false)
or-false a b h = ground arith

-- A check that is passed.
passed :
    (b : Bool) (f : Failure) (m : Option Failure)
    → (if b then some f else m) ≡ none
    → (b ≡ false) × (m ≡ none)
passed b f m h = ground arith

or-false₃ : (a b c : Bool) → a || b || c ≡ false → (a ≡ false) × (b ≡ false) × (c ≡ false)
or-false₃ a b c h = ground arith

or-false₅ :
    (a b c d e : Bool)
    → a || b || c || d || e ≡ false
    → (a ≡ false) × (b ≡ false) × (c ≡ false) × (d ≡ false) × (e ≡ false)
or-false₅ a b c d e h = ground arith

or-false₆ :
    (a b c d e f : Bool)
    → a || b || c || d || e || f ≡ false
    → (a ≡ false) × (b ≡ false) × (c ≡ false) × (d ≡ false) × (e ≡ false) × (f ≡ false)
or-false₆ a b c d e f h = ground arith

module _ (v : FileView) (is_directory : Text → Bool) (config : Config) where
  IsSound-of_passed : config_validate v is_directory config ≡ none → IsSound v is_directory config
  unfolding config_validate
  IsSound-of_passed h =
      let (lines, h1) = passed _ _ _ h in
      let (directory, h2) = passed _ _ _ h1 in
      let (differ, h3) = passed _ _ _ h2 in
      let (nested, h4) = passed _ _ _ h3 in
      let (log, h5) = passed _ _ _ h4 in
      let (threads, _) =
        passed (ltb config.threads 1 || ltb max_threads config.threads) invalid none h5 in
      let (d1, d2, d3) =
        or-false₃ (path_equal config.source config.backup) (path_equal config.source config.restore)
          (path_equal config.backup config.restore) differ in
      let (n1, n2, n3, n4, n5, n6) = or-false₆ _ _ _ _ _ _ nested in
      let (low, high) = or-false (ltb config.threads 1) (ltb max_threads config.threads) threads in
      record {
        one_line = or-false₅ _ _ _ _ _ lines;
        source_exists = not-false (is_directory config.source) directory;
        source_backup = apart v config.source config.backup d1 n1 n2;
        source_restore = apart v config.source config.restore d2 n3 n4;
        backup_restore = apart v config.backup config.restore d3 n5 n6;
        log_outside = outside_of_false v config.source config.log_file log;
        some_thread = ground (arith, low);
        few_threads = ground (arith, high);
      }

  config_validate-of_sound :
      IsSound v is_directory config → config_validate v is_directory config ≡ none
  unfolding config_validate
  config_validate-of_sound s =
      let (b1, b2, b3, b4, b5) = s.one_line in
      rw
        (
          b1,
          b2,
          b3,
          b4,
          b5,
          s.source_exists,
          false_of_differ v config.source config.backup s.source_backup.differ,
          false_of_differ v config.source config.restore s.source_restore.differ,
          false_of_differ v config.backup config.restore s.backup_restore.differ,
          false_of_outside v config.source config.backup s.source_backup.not_below,
          false_of_outside v config.backup config.source s.source_backup.not_above,
          false_of_outside v config.source config.restore s.source_restore.not_below,
          false_of_outside v config.restore config.source s.source_restore.not_above,
          false_of_outside v config.backup config.restore s.backup_restore.not_below,
          false_of_outside v config.restore config.backup s.backup_restore.not_above,
          false_of_outside v config.source config.log_file s.log_outside,
        )
        (ground (arith, s.some_thread, s.few_threads))

  -- syseba_config_validate returns SYSEBA_OK exactly for the configurations in which no path has
  -- a line break, the source is a directory, source, backup and restore differ and none lies in
  -- another with all links resolved, the log is not inside the source, and there are 1 to 64
  -- threads.
  pub config_validate_iff :
      (config_validate v is_directory config ≡ none) ↔ IsSound v is_directory config
  config_validate_iff = (IsSound-of_passed, config_validate-of_sound)
