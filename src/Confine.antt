-- ===== src/Confine.antt =====
-- The path checks of src/config.c: `syseba_path_resolve_links`, `syseba_path_is_within`,
-- `syseba_safe_join` and `syseba_relative_path`, on POSIX.
pub mod Within
pub mod Join
pub mod Resolve
pub mod Mirror
use sy_se_ba.Prelude.{
  ℕ, zero, suc, ◌+◌, Bool, true, false, ◌&&◌, ◌||◌, not, Option, none, some, List, [], ◌∷◌, ◌++◌,
  length, drop, ◌==◌, if◌then◌else◌,
}
use sy_se_ba.Prelude.Text.{Text, streq, starts_with, fits, copy_within}
use sy_se_ba.FilePath.{path_max, sep, normalize_separators, ends_in_sep, path_real, parent_dir}

-- What the functions ask of the operating system: the working directory, `lstat(path) == 0` and
-- `realpath`.
pub record FileView : Type 0 where
  pub cwd : Option Text
  pub exists : Text → Bool
  pub realpath : Text → Option Text

pub data Probe : Type 0 where
  found : Text → Probe
  failed : Probe
  out_of_fuel : Probe

abbrev pub stripped : ℕ → Bool
stripped c = c == b'/' || c == b'\\'

-- `while (*cursor == '/' || *cursor == '\\') cursor++;`
unfoldable pub strip_separators : Text → Text
strip_separators [] = []
strip_separators (c ∷ s) = if stripped c then strip_separators s else c ∷ s

-- The byte here is the terminator or a separator.
unfoldable pub at_boundary : Text → Bool
at_boundary [] = true
at_boundary (c ∷ s) = c == sep

-- The test on the two resolved texts.
unfoldable pub within_text : Text → Text → Bool
unfolding ends_in_sep at_boundary
within_text base candidate =
    if not (starts_with base candidate)
    then false
    else ends_in_sep base || at_boundary (drop (length base) candidate)

module _ (v : FileView) where
  -- One round: up to the parent, unless there is none above.
  probe_parent : Text → Option Text
  probe_parent probe = elim (parent_dir probe path_max) [
    | none ↦ none
    | some parent ↦ if streq parent probe then none else some parent
  ]

  unfoldable pub probe_loop : ℕ → Text → Probe
  unfolding probe_parent
  probe_loop zero probe = out_of_fuel
  probe_loop (suc fuel) probe = elim (v.exists probe) [
    | true ↦ found probe
    | false ↦ elim (probe_parent probe) [ none ↦ failed | some parent ↦ probe_loop fuel parent ]
  ]

  -- Behind the links of the part that exists comes the rest of the path.
  unfoldable pub append_suffix : Text → ℕ → Text → Option Text
  append_suffix normalized size probe = elim (v.realpath probe) [
    | none ↦ none
    | some resolved ↦ elim (copy_within size (resolved ++ drop (length probe) normalized)) [
      | none ↦ none
      | some output ↦ path_real v.cwd output size
    ]
  ]

  -- A path of `n` bytes has at most `n` parents above it, so `n + 1` rounds are enough.
  unfoldable pub path_resolve_links : Text → ℕ → Option Text
  unfolding append_suffix
  path_resolve_links path size = elim (path_real v.cwd path path_max) [
    | none ↦ none
    | some normalized ↦ elim (probe_loop (suc (length normalized)) normalized) [
      | found probe ↦ append_suffix normalized size probe
      | failed ↦ none
      | out_of_fuel ↦ none
    ]
  ]

  unfoldable pub path_is_within : Text → Text → Bool
  path_is_within base candidate = elim (path_resolve_links base path_max) [
    | none ↦ false
    | some normalized_base ↦ elim (path_resolve_links candidate path_max) [
      | none ↦ false
      | some normalized_candidate ↦ within_text normalized_base normalized_candidate
    ]
  ]

  -- `none` stands for `SYSEBA_ERR_INVALID`.
  unfoldable pub safe_join : Text → Text → ℕ → Option Text
  safe_join base relative size =
      elim (copy_within path_max (base ++ sep ∷ strip_separators relative)) [
        | none ↦ none
        | some combined ↦ elim (path_real v.cwd combined size) [
          | none ↦ none
          | some output ↦ if not (path_is_within base output) then none else some output
        ]
      ]

  relative_copy : Text → Text → ℕ → Option Text
  relative_copy normalized_base normalized_path size =
      if not (path_is_within normalized_base normalized_path)
      then none
      else let relative = strip_separators (drop (length normalized_base) normalized_path) in
        if not (fits size relative) then none else some (normalize_separators relative)

  unfoldable pub relative_path : Text → Text → ℕ → Option Text
  unfolding relative_copy
  relative_path base path size = elim (path_real v.cwd base path_max) [
    | none ↦ none
    | some normalized_base ↦ elim (path_real v.cwd path path_max) [
      | none ↦ none
      | some normalized_path ↦ relative_copy normalized_base normalized_path size
    ]
  ]
