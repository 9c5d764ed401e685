-- ===== src/FilePath/Canonical.antt =====
-- Canonical paths: the root, and plain names behind it.
use sy_se_ba.Prelude.{ℕ, Bool, true, false, ◌≡◌, ◌||◌, not, List, [], ◌∷◌, ◌++◌, all, All, ◌==◌}
use sy_se_ba.Prelude.Text.{Text, codes, streq}

-- No separator of either kind.
abbrev pub is_name_byte : ℕ → Bool
is_name_byte c = not (c == b'/' || c == b'\\')

-- A name that stands for itself: not empty, no separator, not a dot or two.
pub record IsPlain (p : Text) : Type 0 where
  pub some_byte : streq p [] ≡ false
  pub bytes : all is_name_byte p ≡ true
  pub not_dot : streq p (codes ".") ≡ false
  pub not_dots : streq p (codes "..") ≡ false

abbrev pub AllPlain : List Text → Type 0
AllPlain = All IsPlain

-- `/a/b` for the names a and b, and nothing for no name.
unfoldable pub joined : List Text → Text
joined [] = []
joined (p ∷ ps) = b'/' ∷ p ++ joined ps

unfoldable pub render : List Text → Text
unfolding joined
render [] = b'/' ∷ []
render (p ∷ ps) = joined (p ∷ ps)

pub record IsCanonical (path : Text) : Type 0 where
  pub parts : List Text
  pub plain : AllPlain parts
  pub shape : path ≡ render parts
