-- ===== src/Config/Load.antt =====
-- `syseba_config_load` and `syseba_config_normalize` of src/config.c.
use sy_se_ba.Prelude.{
  ℕ, ◌<◌, ◌≡◌, ◌∙◌, refl, ap, sym, subst, Bool, true, false, ◌||◌, not, ◌⊎◌, inl, inr, Option, none,
  some, List, length, if◌then◌else◌,
}
use sy_se_ba.Prelude.Text.{Text}
use sy_se_ba.FilePath.{path_max, path_real, parent_dir}
use sy_se_ba.FilePath.Canonical.{IsCanonical}
use sy_se_ba.FilePath.Real.{path_real-IsCanonical}
use sy_se_ba.Confine.{FileView}
use sy_se_ba.Config.{
  Config, Parser, defaults, Failure, err, not_found, invalid, is_blank, parse_lines,
}
use sy_se_ba.Config.Paths.{resolve_config_path, resolve_config_path-IsCanonical}
use sy_se_ba.Config.Validate.{has_break, config_validate, IsSound, config_validate_iff}

-- The configuration that is loaded, or the error code.
abbrev pub Loaded : Type 0
Loaded = Failure ⊎ Config

-- What `open` and the reads find: no regular file, an error behind some lines, or the bytes.
pub data Content : Type 0 where
  unopened : Content
  unreadable : List ℕ → Content
  bytes : List ℕ → Content

module _ (v : FileView) (is_directory : Text → Bool) where
  unfoldable pub checked : Config → Loaded
  checked config = elim (config_validate v is_directory config) [
    | none ↦ inr config
    | some failure ↦ inl failure
  ]

  -- The four paths, each into a buffer of `SYSEBA_PATH_MAX` bytes.
  unfoldable pub with_paths : Text → Text → Text → Text → Text → Text → ℕ → Loaded
  unfolding checked
  with_paths config_path base source backup restore log_file threads =
      elim (resolve_config_path v.cwd base source path_max) [
        | none ↦ inl invalid
        | some a ↦ elim (resolve_config_path v.cwd base backup path_max) [
          | none ↦ inl invalid
          | some b ↦ elim (resolve_config_path v.cwd base restore path_max) [
            | none ↦ inl invalid
            | some c ↦ elim (resolve_config_path v.cwd base log_file path_max) [
              | none ↦ inl invalid
              | some d ↦ checked (record {
                source = a;
                backup = b;
                restore = c;
                log_file = d;
                config_path = config_path;
                threads = threads;
              })
            ]
          ]
        ]
      ]

  -- After the loop over the lines.
  unfoldable pub after_lines : Text → Text → Parser → Loaded
  unfolding with_paths
  after_lines config_path base p =
      if not p.found_settings
      then inl invalid
      else if is_blank p.source || is_blank p.backup || is_blank p.restore || is_blank p.log_file
      then inl invalid
      else with_paths config_path base p.source p.backup p.restore p.log_file p.threads

  unfoldable pub load_content : Text → Text → Content → Loaded
  unfolding after_lines
  load_content config_path base unopened = inl not_found
  load_content config_path base (unreadable lines) =
      elim (parse_lines (length lines) true lines defaults) [
        | none ↦ inl invalid
        | some p ↦ inl err
      ]
  load_content config_path base (bytes file) = elim (parse_lines (length file) true file defaults) [
    | none ↦ inl invalid
    | some p ↦ after_lines config_path base p
  ]

  -- `file` is the content that a path names.
  unfoldable pub config_load : (Text → Content) → Text → Loaded
  unfolding load_content
  config_load file path = elim (path_real v.cwd path path_max) [
    | none ↦ inl invalid
    | some config_path ↦ elim (parent_dir config_path path_max) [
      | none ↦ inl invalid
      | some base ↦ load_content config_path base (file config_path)
    ]
  ]

  unfoldable pub config_normalize : Config → Loaded
  unfolding with_paths
  config_normalize config =
      if is_blank config.config_path
        || has_break config.config_path
        || has_break config.source
        || has_break config.backup
        || has_break config.restore
        || has_break config.log_file
      then inl invalid
      else elim (path_real v.cwd config.config_path path_max) [
        | none ↦ inl invalid
        | some config_path ↦ elim (parent_dir config_path path_max) [
          | none ↦ inl invalid
          | some base ↦
              with_paths config_path base config.source config.backup config.restore config.log_file
                config.threads
        ]
      ]

  -- A configuration with canonical paths that passes the check.
  pub record IsReady (config : Config) : Type 0 where
    pub sound : IsSound v is_directory config
    pub source_shape : IsCanonical config.source
    pub backup_shape : IsCanonical config.backup
    pub restore_shape : IsCanonical config.restore
    pub log_shape : IsCanonical config.log_file
    pub config_shape : IsCanonical config.config_path

  pub inl≢inr : (f : Failure) (c : Config) → ◌≡◌ {A = Loaded} (inl f) (inr c) → ⊥
  inl≢inr f c h = cc

  checked-inr :
      (c d : Config) → checked c ≡ inr d → (config_validate v is_directory c ≡ none) × (c ≡ d)
  unfolding checked
  checked-inr c d h = by_result (config_validate v is_directory c) refl
    where
      by_result :
          (r : Option Failure)
          → config_validate v is_directory c ≡ r
          → (config_validate v is_directory c ≡ none) × (c ≡ d)
      by_result none e = (e, same (sym (reduce e) ∙ h))
        where
          reduce : config_validate v is_directory c ≡ none → checked c ≡ inr c
          reduce e = rw (checked, e) refl

          same : ◌≡◌ {A = Loaded} (inr c) (inr d) → c ≡ d
          same k = cc
      by_result (some f) e = absurd (inl≢inr f d (sym (reduce e) ∙ h))
        where
          reduce : config_validate v is_directory c ≡ some f → checked c ≡ inl f
          reduce e = rw (checked, e) refl

  pub with_some :
      (o : Option Text) (f : Text → Loaded) (c : Config)
      → (elim o [ none ↦ inl invalid | some t ↦ f t ]) ≡ inr c
      → (t : Text) × (o ≡ some t) × (f t ≡ inr c)
  with_some none f c h = absurd (inl≢inr invalid c h)
  with_some (some t) f c h = (t, refl, h)

  with_parser :
      (o : Option Parser) (f : Parser → Loaded) (c : Config)
      → (elim o [ none ↦ inl invalid | some p ↦ f p ]) ≡ inr c
      → (p : Parser) × (o ≡ some p) × (f p ≡ inr c)
  with_parser none f c h = absurd (inl≢inr invalid c h)
  with_parser (some p) f c h = (p, refl, h)

  with_paths-IsReady :
      (config_path base source backup restore log_file : Text) (threads : ℕ) (c : Config)
      → IsCanonical config_path
      → with_paths config_path base source backup restore log_file threads ≡ inr c
      → IsReady c
  unfolding with_paths
  with_paths-IsReady config_path base source backup restore log_file threads c shape h =
      let (a, ea, h1) = with_some (resolve_config_path v.cwd base source path_max) _ c h in
      let (b, eb, h2) = with_some (resolve_config_path v.cwd base backup path_max) _ c h1 in
      let (r, er, h3) = with_some (resolve_config_path v.cwd base restore path_max) _ c h2 in
      let (l, el, h4) = with_some (resolve_config_path v.cwd base log_file path_max) _ c h3 in
      let (passed, same) = checked-inr _ c h4 in
      subst IsReady same (record {
        sound = (config_validate_iff v is_directory _).0 passed;
        source_shape = (resolve_config_path-IsCanonical v.cwd base source a path_max ea).0;
        backup_shape = (resolve_config_path-IsCanonical v.cwd base backup b path_max eb).0;
        restore_shape = (resolve_config_path-IsCanonical v.cwd base restore r path_max er).0;
        log_shape = (resolve_config_path-IsCanonical v.cwd base log_file l path_max el).0;
        config_shape = shape;
      })

  with_paths-config_path :
      (config_path base source backup restore log_file : Text) (threads : ℕ) (c : Config)
      → with_paths config_path base source backup restore log_file threads ≡ inr c
      → c.config_path ≡ config_path
  unfolding with_paths
  with_paths-config_path config_path base source backup restore log_file threads c h =
      let (a, ea, h1) = with_some (resolve_config_path v.cwd base source path_max) _ c h in
      let (b, eb, h2) = with_some (resolve_config_path v.cwd base backup path_max) _ c h1 in
      let (r, er, h3) = with_some (resolve_config_path v.cwd base restore path_max) _ c h2 in
      let (l, el, h4) = with_some (resolve_config_path v.cwd base log_file path_max) _ c h3 in
      ap Config.config_path (sym (checked-inr _ c h4).1)

  pub guarded :
      (b : Bool) (m : Loaded) (c : Config) → (if b then inl invalid else m) ≡ inr c → m ≡ inr c
  guarded true m c h = absurd (inl≢inr invalid c h)
  guarded false m c h = h

  -- Every configuration that syseba_config_load returns with SYSEBA_OK, whatever the file holds,
  -- has five canonical absolute paths and passes the conditions of syseba_config_validate: apart
  -- directories, an existing source, a log outside the source, 1 to 64 threads and no line
  -- breaks.
  pub config_load-IsReady :
      (file : Text → Content) (path : Text) (c : Config) → config_load file path ≡ inr c → IsReady c
  unfolding config_load load_content after_lines
  config_load-IsReady file path c h =
      let (config_path, real, h1) = with_some (path_real v.cwd path path_max) _ c h in
      let (base, _, h2) = with_some (parent_dir config_path path_max) _ c h1 in
      by_content config_path base (path_real-IsCanonical v.cwd path config_path path_max real).0
        (file config_path) h2
    where
      by_content :
          (config_path base : Text)
          → IsCanonical config_path
          → (content : Content) → load_content config_path base content ≡ inr c
          → IsReady c
      by_content config_path base shape unopened h = absurd (inl≢inr not_found c h)
      by_content config_path base shape (unreadable lines) h =
          let (p, _, h1) = with_parser (parse_lines (length lines) true lines defaults) _ c h in
          absurd (inl≢inr err c h1)
      by_content config_path base shape (bytes content) h =
          let (p, _, h1) = with_parser (parse_lines (length content) true content defaults) _ c h in
          let h2 = guarded (not p.found_settings) _ c h1 in
          with_paths-IsReady config_path base p.source p.backup p.restore p.log_file p.threads c
            shape
            (guarded
              (is_blank p.source || is_blank p.backup || is_blank p.restore || is_blank p.log_file)
              _ c h2)

  -- The same holds of a configuration that is normalized.
  pub config_normalize-IsReady : (given c : Config) → config_normalize given ≡ inr c → IsReady c
  unfolding config_normalize
  config_normalize-IsReady given c h =
      let h1 = guarded _ _ c h in
      let (config_path, real, h2) = with_some (path_real v.cwd given.config_path path_max) _ c h1 in
      let (base, _, h3) = with_some (parent_dir config_path path_max) _ c h2 in
      with_paths-IsReady config_path base given.source given.backup given.restore given.log_file
        given.threads c (path_real-IsCanonical v.cwd given.config_path config_path path_max real).0
        h3

  -- A normalized configuration names a file with a canonical path and a parent.
  pub config_normalize-parent :
      (given c : Config)
      → config_normalize given ≡ inr c
      → (length c.config_path < path_max)
        × ((base : Text) × (parent_dir c.config_path path_max ≡ some base))
  unfolding config_normalize
  config_normalize-parent given c h =
      let h1 = guarded _ _ c h in
      let (config_path, real, h2) = with_some (path_real v.cwd given.config_path path_max) _ c h1 in
      let (base, parent, h3) = with_some (parent_dir config_path path_max) _ c h2 in
      let same = sym (
        with_paths-config_path config_path base given.source given.backup given.restore
          given.log_file given.threads c h3) in
      (
        subst (λ t. length t < path_max) same
            (path_real-IsCanonical v.cwd given.config_path config_path path_max real).1,
        (base, subst (λ t. parent_dir t path_max ≡ some base) same parent),
      )
