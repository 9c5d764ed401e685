-- ===== src/Config/Paths.antt =====
-- Which configuration file is taken, and what a path in it means (src/config.c).
use sy_se_ba.Prelude.{
  ℕ, ◌<◌, ◌≡◌, Bool, false, inl, inr, Option, none, some, [], ◌∷◌, ◌++◌, length, ◌==◌,
  if◌then◌else◌, if-cases, bind-eq-some,
}
use sy_se_ba.Prelude.Text.{Text, codes, copy_within}
use sy_se_ba.FilePath.{path_max, sep, path_real}
use sy_se_ba.FilePath.Canonical.{IsCanonical}
use sy_se_ba.FilePath.Real.{path_real-IsCanonical}

-- `accessible` is `access(path, F_OK) == 0`. A missing or empty path is no candidate.
unfoldable pub config_candidate : (Text → Bool) → Option Text → Option Text → ℕ → Option Text
config_candidate accessible cwd none size = none
config_candidate accessible cwd (some []) size = none
config_candidate accessible cwd (some (c ∷ s)) size =
    if accessible (c ∷ s) then path_real cwd (c ∷ s) size else none

or_else : Option Text → Option Text → Option Text
or_else none next = next
or_else (some path) next = some path

-- `environment` is `SYSEBA_CONFIG`; the other places are those of the Linux build.
unfoldable pub config_find :
    (Text → Bool) → Option Text → Option Text → Option Text → ℕ → Option Text
unfolding config_candidate or_else
config_find accessible cwd (some (c ∷ s)) environment size =
    config_candidate accessible cwd (some (c ∷ s)) size
config_find accessible cwd requested environment size =
    or_else (config_candidate accessible cwd environment size) (
      or_else (config_candidate accessible cwd (some (codes "/etc/syseba/syseba.conf")) size) (
        or_else (config_candidate accessible cwd (some (codes "/opt/syseba/syseba.conf")) size)
          (config_candidate accessible cwd (some (codes "syseba.conf")) size)))

abbrev pub is_absolute : Text → Bool
is_absolute [] = false
is_absolute (c ∷ s) = c == sep

-- A relative value counts from the directory of the configuration file.
unfoldable pub resolve_config_path : Option Text → Text → Text → ℕ → Option Text
resolve_config_path cwd base value size =
    if is_absolute value
    then path_real cwd value size
    else elim (copy_within path_max (base ++ sep ∷ value)) [
      | none ↦ none
      | some combined ↦ path_real cwd combined size
    ]

pub resolve_config_path-IsCanonical :
    (cwd : Option Text) (base value out : Text) (size : ℕ)
    → resolve_config_path cwd base value size ≡ some out
    → IsCanonical out × (length out < size)
unfolding resolve_config_path
resolve_config_path-IsCanonical cwd base value out size h = elim (if-cases (is_absolute value) h) [
  | inl (_, e) ↦ path_real-IsCanonical cwd value out size e
  | inr (_, e) ↦
      let (combined, _, rest) = bind-eq-some (copy_within path_max (base ++ sep ∷ value)) _ e in
      path_real-IsCanonical cwd combined out size rest
]
