-- ===== src/Tests/ConfigRuns.antt =====
-- A configuration file.
use sy_se_ba.Prelude.{◌≡◌, ◌↔◌, inr, refl, Bool, true, none, [], arith}
use sy_se_ba.Prelude.Text.{Text, codes, streq, has_char, starts_with, is_space}
use sy_se_ba.Prelude.Number.{decimal}
use sy_se_ba.FilePath.{
  normalize_byte, normalize_separators, token_loop, add_part, collect_parts, ends_in_sep,
  write_parts, absolute_path, rebuild, path_real, before_slash, parent_dir,
}
use sy_se_ba.Confine.{
  at_boundary, within_text, probe_loop, append_suffix, path_resolve_links, path_is_within,
}
use sy_se_ba.Config.{Config}
use sy_se_ba.Config.Paths.{resolve_config_path}
use sy_se_ba.Config.Validate.{has_break, config_validate, IsSound, config_validate_iff}
use sy_se_ba.Config.Load.{
  bytes, checked, with_paths, config_load, config_normalize, IsReady, config_load-IsReady,
}
use sy_se_ba.Files.{put, mkdirs, mkdirs_text, mkdirs_loop, make_directory, drop_slashes, drop_tail}
use sy_se_ba.Files.Copy.{atomic_replace}
use sy_se_ba.Config.Saved.{replace, saved_text, Disk, Written, write_config, config_save}
use sy_se_ba.Config.Reload.{IsStorableConfig, config_load-config_save}
use sy_se_ba.Tests.Fixtures.{plain_view}

abbrev sample : Config
sample = record {
  source = codes "/s";
  backup = codes "/b";
  restore = codes "/r";
  log_file = codes "/l";
  config_path = codes "/e/c";
  threads = 4;
}

abbrev any_directory : Text → Bool
any_directory path = true

config_validate_iff_example :
    (config_validate plain_view any_directory sample ≡ none)
    ↔ IsSound plain_view any_directory sample
config_validate_iff_example = config_validate_iff plain_view any_directory sample

normalized : config_normalize plain_view any_directory sample ≡ inr sample
unfolding config_normalize with_paths checked resolve_config_path config_validate has_break has_char
    path_is_within path_resolve_links probe_loop append_suffix within_text starts_with at_boundary
    path_real absolute_path rebuild normalize_separators normalize_byte token_loop collect_parts
    add_part write_parts ends_in_sep streq parent_dir before_slash
normalized = refl

sample-IsStorableConfig : IsStorableConfig sample
unfolding is_space
sample-IsStorableConfig = record {
  source = record {
    not_blank = refl;
    one_line = refl;
    trimmed = record { front = refl; back = refl };
    fit = omega arith;
  };
  backup = record {
    not_blank = refl;
    one_line = refl;
    trimmed = record { front = refl; back = refl };
    fit = omega arith;
  };
  restore = record {
    not_blank = refl;
    one_line = refl;
    trimmed = record { front = refl; back = refl };
    fit = omega arith;
  };
  log_file = record {
    not_blank = refl;
    one_line = refl;
    trimmed = record { front = refl; back = refl };
    fit = omega arith;
  };
  some_thread = omega arith;
  few_threads = omega arith;
}

abbrev good_disk : Disk
good_disk = record {
  files = λ _. none;
  may_make = λ _ _. true;
  opened = λ _. true;
  written = true;
  renaming = record {
    suffix = [];
    is_regular = true;
    opened = none;
    may_create = true;
    rounds = [];
    final = none;
    sets_time = true;
    now = 1;
    sealed = true;
    unlinks = true;
    renames = true;
    syncs = true;
  };
  monotonic_ns = 1;
}

abbrev sample_file : Written
sample_file = record { path = codes "/e/c"; content = saved_text sample }

saved : config_save plain_view any_directory good_disk sample ≡ inr sample_file
unfolding config_save write_config replace atomic_replace put mkdirs mkdirs_text mkdirs_loop
    make_directory drop_slashes drop_tail config_normalize with_paths checked resolve_config_path
    config_validate has_break has_char path_is_within path_resolve_links probe_loop append_suffix
    within_text starts_with at_boundary path_real absolute_path rebuild normalize_separators
    normalize_byte token_loop collect_parts add_part write_parts ends_in_sep streq parent_dir
    before_slash decimal
saved = refl

config_load-config_save_example :
    (codes "/e/c" ≡ codes "/e/c")
    × (config_load plain_view any_directory (λ _. bytes (saved_text sample)) (codes "/e/c")
        ≡ inr sample)
config_load-config_save_example =
    config_load-config_save plain_view any_directory good_disk sample sample sample_file normalized
      sample-IsStorableConfig saved

reloaded :
    config_load plain_view any_directory (λ _. bytes (saved_text sample)) (codes "/e/c")
    ≡ inr sample
reloaded =
    (config_load-config_save plain_view any_directory good_disk sample sample sample_file normalized
      sample-IsStorableConfig saved).1

config_load-IsReady_example : IsReady plain_view any_directory sample
config_load-IsReady_example =
    config_load-IsReady plain_view any_directory (λ _. bytes (saved_text sample)) (codes "/e/c")
      sample reloaded
