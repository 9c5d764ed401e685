-- ===== src/Config/Reload.antt =====
-- A configuration that `syseba_config_save` writes is the one that `syseba_config_load` reads back.
use sy_se_ba.Prelude.{
  ℕ, suc, ◌-◌, ◌<◌, ◌≤◌, ◌≡◌, ◌∙◌, refl, ap, ap₂, sym, subst, Bool, true, Option, some, List, [],
  ◌∷◌, ◌++◌, ◌⊎◌, length, inl, inr, arith,
}
use sy_se_ba.Prelude.Text.{Text, codes, is_space, has_char}
use sy_se_ba.Prelude.Number.{decimal}
use sy_se_ba.FilePath.{path_max, path_real, parent_dir}
use sy_se_ba.FilePath.Canonical.{render, joined, IsCanonical}
use sy_se_ba.FilePath.Fixed.{path_real-render}
use sy_se_ba.Confine.{FileView}
use sy_se_ba.Config.{Config, Parser, defaults, max_threads, Failure, parse_lines}
use sy_se_ba.Config.Paths.{is_absolute, resolve_config_path}
use sy_se_ba.Config.Validate.{config_validate_iff}
use sy_se_ba.Config.Load.{
  bytes, checked, with_paths, after_lines, load_content, config_load, config_normalize, IsReady,
  config_normalize-IsReady, config_normalize-parent,
}
use sy_se_ba.Config.Saved.{
  setting_line, saved_text, Disk, Written, write_config, config_save, write_config-written,
}
use sy_se_ba.Config.Roundtrip.{header_lines}
use sy_se_ba.Config.Setting.{
  IsStorable, decimal-IsStorable, set_source, set_backup, set_restore, set_log, set_threads,
  setting,
}

-- The parser that has read a saved configuration.
abbrev pub parser_of : Config → Parser
parser_of c = record {
  source = c.source;
  backup = c.backup;
  restore = c.restore;
  log_file = c.log_file;
  threads = c.threads;
  in_settings = true;
  found_settings = true;
}

-- The four paths can stand in the file.
pub record IsStorableConfig (c : Config) : Type 0 where
  pub source : IsStorable c.source
  pub backup : IsStorable c.backup
  pub restore : IsStorable c.restore
  pub log_file : IsStorable c.log_file
  pub some_thread : 1 ≤ c.threads
  pub few_threads : c.threads ≤ max_threads

saved_lines :
    (fuel : ℕ) (c : Config)
    → IsStorableConfig c
    → parse_lines (suc (suc (suc (suc (suc (suc (suc fuel))))))) true (saved_text c) defaults
      ≡ some (parser_of c)
unfolding saved_text defaults parse_lines has_char is_space
saved_lines fuel c h =
    let p0 : Parser = record defaults { in_settings = true; found_settings = true } in
    let p1 : Parser = record p0 { source = c.source } in
    let p2 : Parser = record p1 { backup = c.backup } in
    let p3 : Parser = record p2 { restore = c.restore } in
    let p4 : Parser = record p3 { log_file = c.log_file } in
    let r5 = setting_line (codes "threads") (decimal c.threads) ++ [] in
    let r4 = setting_line (codes "log") c.log_file ++ r5 in
    let r3 = setting_line (codes "restore") c.restore ++ r4 in
    let r2 = setting_line (codes "backup") c.backup ++ r3 in
    header_lines (suc (suc (suc (suc (suc fuel))))) (setting_line (codes "source") c.source ++ r2)
      defaults
    ∙ setting b's' (codes "ource") c.source p0 p1 (suc (suc (suc (suc fuel)))) r2 refl refl
        (record { front = refl; back = refl }) refl (omega arith) refl
        (set_source p0 c.source h.source.fit) h.source
    ∙ setting b'b' (codes "ackup") c.backup p1 p2 (suc (suc (suc fuel))) r3 refl refl
        (record { front = refl; back = refl }) refl (omega arith) refl
        (set_backup p1 c.backup h.backup.fit) h.backup
    ∙ setting b'r' (codes "estore") c.restore p2 p3 (suc (suc fuel)) r4 refl refl
        (record { front = refl; back = refl }) refl (omega arith) refl
        (set_restore p2 c.restore h.restore.fit) h.restore
    ∙ setting b'l' (codes "og") c.log_file p3 p4 (suc fuel) r5 refl refl
        (record { front = refl; back = refl }) refl (omega arith) refl
        (set_log p3 c.log_file h.log_file.fit) h.log_file
    ∙ setting b't' (codes "hreads") (decimal c.threads) p4 (parser_of c) fuel [] refl refl
        (record { front = refl; back = refl }) refl (omega arith) refl
        (set_threads p4 c.threads h.some_thread h.few_threads)
        (decimal-IsStorable c.threads h.few_threads)

seven : (n : ℕ) → 7 ≤ n → (k : ℕ) × (n ≡ suc (suc (suc (suc (suc (suc (suc k)))))))
seven n h = (n - 7, omega arith)

saved_length : (c : Config) → 7 ≤ length (saved_text c)
unfolding saved_text
saved_length c = omega arith

saved_parsed :
    (c : Config)
    → IsStorableConfig c
    → parse_lines (length (saved_text c)) true (saved_text c) defaults ≡ some (parser_of c)
saved_parsed c h =
    let (k, e) = seven (length (saved_text c)) (saved_length c) in
    ap (λ n. parse_lines n true (saved_text c) defaults) e ∙ saved_lines k c h

canonical_absolute : (ps : List Text) → is_absolute (render ps) ≡ true
unfolding render joined
canonical_absolute [] = refl
canonical_absolute (p ∷ ps) = refl

path_real_fixed :
    (cwd : Option Text) (path : Text)
    → IsCanonical path
    → length path < path_max
    → path_real cwd path path_max ≡ some path
path_real_fixed cwd path c h =
    let short = subst (λ t. length t < path_max) c.shape h in
    subst (λ t. path_real cwd t path_max ≡ some t) (sym c.shape)
      (path_real-render cwd c.parts path_max c.plain short short)

resolve_fixed :
    (cwd : Option Text) (base path : Text)
    → IsCanonical path
    → length path < path_max
    → resolve_config_path cwd base path path_max ≡ some path
unfolding resolve_config_path
resolve_fixed cwd base path c h =
    rw (ap is_absolute c.shape ∙ canonical_absolute c.parts) (path_real_fixed cwd path c h)

module _ (v : FileView) (is_directory : Text → Bool) where
  checked_ready : (c : Config) → IsReady v is_directory c → checked v is_directory c ≡ inr c
  unfolding checked
  checked_ready c r = rw (checked, (config_validate_iff v is_directory c).1 r.sound) refl

  paths_back :
      (base : Text) (c : Config)
      → IsStorableConfig c
      → IsReady v is_directory c
      → with_paths v is_directory c.config_path base c.source c.backup c.restore c.log_file
          c.threads
        ≡ inr c
  unfolding with_paths
  paths_back base c h r =
      rw
        (
          with_paths,
          resolve_fixed v.cwd base c.source r.source_shape h.source.fit,
          resolve_fixed v.cwd base c.backup r.backup_shape h.backup.fit,
          resolve_fixed v.cwd base c.restore r.restore_shape h.restore.fit,
          resolve_fixed v.cwd base c.log_file r.log_shape h.log_file.fit,
        )
        (checked_ready c r)

  load_back :
      (base : Text) (c : Config)
      → IsStorableConfig c
      → IsReady v is_directory c
      → load_content v is_directory c.config_path base (bytes (saved_text c)) ≡ inr c
  unfolding load_content after_lines
  load_back base c h r =
      rw
        (
          load_content,
          saved_parsed c h,
          after_lines,
          h.source.not_blank,
          h.backup.not_blank,
          h.restore.not_blank,
          h.log_file.not_blank,
        )
        (paths_back base c h r)

  -- If a configuration normalizes to c, the four paths of c are free of line breaks and NULs,
  -- have no space at their ends, are not empty and fit their buffers, its threads are 1 to 64,
  -- and syseba_config_save succeeds, then it replaced the file that c names, and
  -- syseba_config_load of that file with the written text returns c.
  pub config_load-config_save :
      (disk : Disk) (given c : Config) (w : Written)
      → config_normalize v is_directory given ≡ inr c
      → IsStorableConfig c
      → config_save v is_directory disk given ≡ inr w
      → (w.path ≡ c.config_path)
        × (config_load v is_directory (λ _. bytes w.content) w.path ≡ inr c)
  unfolding config_save config_load
  config_load-config_save disk given c w normal h saved =
      let (at, content) = written (sym (ap after normal) ∙ saved) in
      let (short, (base, parent)) = config_normalize-parent v is_directory given c normal in
      let ready = config_normalize-IsReady v is_directory given c normal in
      (
        at,
        ap₂ (λ t p. config_load v is_directory (λ _. bytes t) p) content at
            ∙ loaded base (path_real_fixed v.cwd c.config_path ready.config_shape short) parent
                (load_back base c h ready),
      )
    where
      after : Failure ⊎ Config → Failure ⊎ Written
      after (inl f) = inl f
      after (inr n) = write_config v is_directory disk n

      loaded :
          (base : Text)
          → path_real v.cwd c.config_path path_max ≡ some c.config_path
          → parent_dir c.config_path path_max ≡ some base
          → load_content v is_directory c.config_path base (bytes (saved_text c)) ≡ inr c
          → config_load v is_directory (λ _. bytes (saved_text c)) c.config_path ≡ inr c
      loaded base real parent e = rw (config_load, real, parent) e

      written : after (inr c) ≡ inr w → (w.path ≡ c.config_path) × (w.content ≡ saved_text c)
      written e = write_config-written v is_directory disk c w e
