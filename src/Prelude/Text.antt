-- ===== src/Prelude/Text.antt =====
-- NUL-terminated C strings as lists of bytes, without the terminator, and the functions of
-- <string.h>, <strings.h> and <ctype.h> (C locale) that the program calls on them.
use Prim.Native.Char.{code}
use Prim.Native.Nat.{ℕ, ◌+◌}
use Prim.Native.String.{String}
use mathlib.Core.Path.{◌≡◌, refl}
use mathlib.Core.Logic.{◌↔◌}
use mathlib.Core.Bool.{Bool, true, false, ◌&&◌, ◌||◌}
use mathlib.Core.List.{List, [], ◌∷◌, ◌++◌}
use mathlib.Core.Option.{Option, none, some}
use native.Mathlib.Omega.{arith}
use sy_se_ba.Prelude.Tests.{ltb, leb, ◌==◌, if◌then◌else◌}
use sy_se_ba.Prelude.Lists.{length}

abbrev pub Text : Type 0
Text = List ℕ

-- The bytes of an ASCII literal.
abbrev pub codes : String → Text
codes String.[] = []
codes (String.◌∷◌ c s) = code c ∷ codes s

-- `strcmp(s, t) == 0`
unfoldable pub streq : Text → Text → Bool
streq [] [] = true
streq [] (d ∷ t) = false
streq (c ∷ s) [] = false
streq (c ∷ s) (d ∷ t) = c == d && streq s t

-- `strncmp(p, t, strlen(p)) == 0`
unfoldable pub starts_with : Text → Text → Bool
starts_with [] t = true
starts_with (c ∷ p) [] = false
starts_with (c ∷ p) (d ∷ t) = c == d && starts_with p t

-- `tolower`
unfoldable pub to_lower : ℕ → ℕ
to_lower c = if leb b'A' c && leb c b'Z' then c + 32 else c

-- `strcasecmp(s, t) == 0`
unfoldable pub strcaseeq : Text → Text → Bool
unfolding to_lower
strcaseeq [] [] = true
strcaseeq [] (d ∷ t) = false
strcaseeq (c ∷ s) [] = false
strcaseeq (c ∷ s) (d ∷ t) = to_lower c == to_lower d && strcaseeq s t

-- `isspace`: space, \t, \n, \v, \f, \r.
unfoldable pub is_space : ℕ → Bool
is_space c = c == b' ' || (leb 9 c && leb c 13)

-- `isdigit`
unfoldable pub is_digit : ℕ → Bool
is_digit c = leb b'0' c && leb c b'9'

-- `snprintf(buffer, size, "%s", t) < size`: the text and its terminator fit.
abbrev pub fits : ℕ → Text → Bool
fits size t = ltb (length t) size

-- `snprintf(buffer, size, "%s", t)` that must not truncate.
abbrev pub copy_within : ℕ → Text → Option Text
copy_within size t = if fits size t then some t else none

-- `strchr(t, c) != NULL`
unfoldable pub has_char : ℕ → Text → Bool
has_char c [] = false
has_char c (d ∷ t) = d == c || has_char c t

-- The C string that an array of bytes holds: up to the first NUL.
unfoldable pub c_string : List ℕ → Text
c_string [] = []
c_string (c ∷ s) = if c == 0 then [] else c ∷ c_string s

pub streq→eq : (s t : Text) → streq s t ≡ true → s ≡ t
unfolding streq
streq→eq [] [] h = refl
streq→eq [] (d ∷ t) h = cc
streq→eq (c ∷ s) [] h = cc
streq→eq (c ∷ s) (d ∷ t) h = ground (arith, streq→eq s t)

pub streq_self : (s : Text) → streq s s ≡ true
unfolding streq
streq_self [] = refl
streq_self (c ∷ s) = ground (arith, streq_self s)

pub streq_iff : (s t : Text) → (streq s t ≡ true) ↔ (s ≡ t)
streq_iff s t = (streq→eq s t, λ e. rw e (streq_self t))

pub starts_with-append : (p t : Text) → starts_with p (p ++ t) ≡ true
unfolding starts_with
starts_with-append [] t = refl
starts_with-append (c ∷ p) t = ground (arith, starts_with-append p t)

-- A text that begins with `p` splits into `p` and a rest.
pub starts_with_split : (p t : Text) → starts_with p t ≡ true → (rest : Text) × (t ≡ p ++ rest)
unfolding starts_with
starts_with_split [] t h = (t, refl)
starts_with_split (c ∷ p) [] h = cc
starts_with_split (c ∷ p) (d ∷ t) h =
    let (rest, e) = starts_with_split p t (ground arith) in (rest, ground arith)
