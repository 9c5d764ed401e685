-- ===== src/Trim.antt =====
-- `syseba_trim` of src/config.c, which `syseba_trim_token` of src/web.c repeats.
pub mod Laws
use sy_se_ba.Prelude.{ℕ, Bool, true, false, List, [], ◌∷◌, ◌&&◌, if◌then◌else◌}
use sy_se_ba.Prelude.Text.{Text, is_space}

-- `while (*value != '\0' && isspace(*value)) value++;`
unfoldable pub trim_start : Text → Text
trim_start [] = []
trim_start (c ∷ s) = if is_space c then trim_start s else c ∷ s

unfoldable pub is_empty : Text → Bool
is_empty [] = true
is_empty (c ∷ s) = false

-- The terminator moves down over the spaces at the end.
unfoldable pub trim_end : Text → Text
unfolding is_empty
trim_end [] = []
trim_end (c ∷ s) = let rest = trim_end s in if is_empty rest && is_space c then [] else c ∷ rest

unfoldable pub trim : Text → Text
unfolding trim_start trim_end
trim value = trim_end (trim_start value)
