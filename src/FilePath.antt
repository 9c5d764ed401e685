-- ===== src/FilePath.antt =====
-- Paths as texts, on POSIX: `syseba_path_real`, `syseba_parent_dir` and `syseba_mkdirs` of
-- src/platform.c.
pub mod Canonical
pub mod Tokens
pub mod Real
pub mod Fixed
use sy_se_ba.Prelude.{
  ℕ, zero, suc, ◌+◌, ◌-◌, ◌<◌, Bool, true, false, ◌&&◌, ◌||◌, not, Option, none, some, List, [],
  ◌∷◌, ◌++◌, map, length, drop, ltb, leb, ◌==◌, if◌then◌else◌,
}
use sy_se_ba.Prelude.Text.{Text, codes, streq, fits}

-- `SYSEBA_PATH_MAX`
abbrev pub path_max : ℕ
path_max = 4096

-- `SYSEBA_PATH_SEP`
abbrev pub sep : ℕ
sep = b'/'

unfoldable pub normalize_byte : ℕ → ℕ
normalize_byte c = if c == b'\\' then sep else c

-- `syseba_normalize_separators`
unfoldable pub normalize_separators : Text → Text
normalize_separators [] = []
normalize_separators (c ∷ s) = normalize_byte c ∷ normalize_separators s

flush : Text → List Text → List Text
flush [] rest = rest
flush (c ∷ s) rest = (c ∷ s) ∷ rest

-- The tokens that `strtok_r(s, "/")` yields, after the bytes of a token that has begun.
unfoldable pub token_loop : Text → Text → List Text
unfolding flush
token_loop current [] = flush current []
token_loop current (c ∷ s) =
    if c == sep then flush current (token_loop [] s) else token_loop (current ++ c ∷ []) s

pop : List Text → List Text
pop [] = []
pop (p ∷ parts) = parts

-- One round of the loop over the tokens. The last of the `parts` comes first.
unfoldable pub add_part : List Text → Text → List Text
unfolding pop
add_part parts token =
    if streq token (codes ".")
    then parts
    else if streq token (codes "..")
    then pop parts
    else token ∷ parts

unfoldable pub collect_parts : List Text → List Text → List Text
collect_parts parts [] = parts
collect_parts parts (token ∷ rest) = collect_parts (add_part parts token) rest

-- `output[used - 1] == '/'`
unfoldable pub ends_in_sep : Text → Bool
ends_in_sep [] = false
ends_in_sep (c ∷ []) = c == sep
ends_in_sep (c ∷ d ∷ s) = ends_in_sep (d ∷ s)

separator : Text → Text
separator output = if not (ends_in_sep output) then sep ∷ [] else []

-- The loop that writes the parts behind the root, `size` bytes at most with the terminator.
unfoldable pub write_parts : ℕ → List Text → Text → Option Text
unfolding ends_in_sep separator
write_parts size [] output = some output
write_parts size (part ∷ rest) output =
    let next = write_parts size rest (output ++ separator output ++ part) in
    if ltb size (length output + length (separator output) + length part + 1) then none else next

-- The path made absolute: a copy, or `getcwd` with the path behind it.
unfoldable pub absolute_path : Option Text → Text → Option Text
absolute_path cwd [] = elim cwd [
  | none ↦ none
  | some dir ↦ if ltb 1 (path_max - length dir) then some (dir ++ sep ∷ []) else none
]
absolute_path cwd (c ∷ s) =
    if c == sep then (if fits path_max (c ∷ s) then some (c ∷ s) else none) else elim cwd [
      | none ↦ none
      | some dir ↦
          if ltb (suc (length (c ∷ s))) (path_max - length dir)
          then some (dir ++ sep ∷ c ∷ s)
          else none
    ]

abbrev reversed : List Text → List Text → List Text
reversed [] out = out
reversed (p ∷ parts) out = reversed parts (p ∷ out)

-- From the absolute path to the output: `cursor` starts behind the first byte.
unfoldable pub rebuild : ℕ → Text → Option Text
unfolding write_parts
rebuild size absolute =
    if leb size 1
    then none
    else write_parts size
        (reversed (collect_parts [] (token_loop [] (drop 1 (normalize_separators absolute)))) [])
        (sep ∷ [])

-- `syseba_path_real(path, output, size)`; `cwd` is what `getcwd` gives.
unfoldable pub path_real : Option Text → Text → ℕ → Option Text
unfolding absolute_path
path_real cwd path size = elim (absolute_path cwd path) [
  | none ↦ none
  | some absolute ↦ rebuild size absolute
]

-- The text before the last slash, if there is one.
unfoldable pub before_slash : Text → Option Text
before_slash [] = none
before_slash (c ∷ s) = elim (before_slash s) [
  | some front ↦ some (c ∷ front)
  | none ↦ if c == sep then some [] else none
]

-- `syseba_parent_dir`
unfoldable pub parent_dir : Text → ℕ → Option Text
unfolding before_slash
parent_dir path size = elim (before_slash path) [
  | none ↦ if fits size (codes ".") then some (codes ".") else none
  | some [] ↦ if fits size (sep ∷ []) then some (sep ∷ []) else none
  | some (c ∷ front) ↦ if ltb size (length (c ∷ front) + 1) then none else some (c ∷ front)
]
