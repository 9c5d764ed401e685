-- ===== src/Tests/Fixtures.antt =====
-- A small file system for the tests.
use sy_se_ba.Prelude.{true, some, refl}
use sy_se_ba.Prelude.Text.{codes, streq}
use sy_se_ba.FilePath.Canonical.{IsPlain}
use sy_se_ba.Confine.{FileView}

-- Every path exists and leads through no link.
abbrev pub plain_view : FileView
plain_view = record { cwd = some (codes "/w"); exists = λ _. true; realpath = λ path. some path }

pub IsPlain-b : IsPlain (codes "b")
unfolding streq
IsPlain-b = record { some_byte = refl; bytes = refl; not_dot = refl; not_dots = refl }

pub IsPlain-c : IsPlain (codes "c")
unfolding streq
IsPlain-c = record { some_byte = refl; bytes = refl; not_dot = refl; not_dots = refl }
