-- ===== src/Config.antt =====
-- The configuration file of src/config.c: its type, and how `syseba_config_load` reads the text.
pub mod Paths
pub mod Validate
pub mod Load
pub mod Saved
pub mod Roundtrip
pub mod Setting
pub mod Reload
use sy_se_ba.Prelude.{
  ℕ, zero, suc, ◌+◌, ◌-◌, Bool, true, false, ◌&&◌, ◌||◌, not, Option, none, some, List, [], ◌∷◌,
  ◌++◌, length, take, drop, leb, ltb, ◌==◌, if◌then◌else◌,
}
use sy_se_ba.Prelude.Text.{Text, codes, strcaseeq, copy_within, c_string, has_char}
use sy_se_ba.Prelude.Number.{Strtoul, strtoul}
use sy_se_ba.Trim.{trim}
use sy_se_ba.FilePath.{path_max}

-- `syseba_config_t`
pub record Config : Type 0 where
  pub source : Text
  pub backup : Text
  pub restore : Text
  pub log_file : Text
  pub config_path : Text
  pub threads : ℕ

-- `SYSEBA_MAX_THREADS`
abbrev pub max_threads : ℕ
max_threads = 64

-- The `SYSEBA_ERR...` codes, and a call that succeeds.
pub data Failure : Type 0 where
  err invalid not_found permission : Failure

-- The local variables of the loader's loop.
pub record Parser : Type 0 where
  pub source : Text
  pub backup : Text
  pub restore : Text
  pub log_file : Text
  pub threads : ℕ
  pub in_settings : Bool
  pub found_settings : Bool

-- The paths and the number that hold without a setting.
unfoldable pub defaults : Parser
defaults = record {
  source = codes "/dati";
  backup = codes "/backup";
  restore = codes "/restore";
  log_file = codes "/var/log/syseba/syseba.log";
  threads = 4;
  in_settings = false;
  found_settings = false;
}

abbrev pub is_blank : Text → Bool
is_blank [] = true
is_blank (c ∷ s) = false

-- `strchr(text, c)` with the byte replaced by the terminator: what stands before and behind it.
unfoldable pub split_at : ℕ → Text → Option (Text × Text)
split_at c [] = none
split_at c (d ∷ s) =
    if d == c
    then some ([], s)
    else elim (split_at c s) [ none ↦ none | some (front, back) ↦ some (d ∷ front, back) ]

-- The value of `threads`; `none` is an error, as below.
unfoldable pub parse_threads : Text → Option ℕ
parse_threads value =
    let parsed = strtoul value in
    if parsed.range_error
      || not parsed.any
      || not (is_blank (trim parsed.rest))
      || ltb parsed.value 1
      || ltb max_threads parsed.value
    then none
    else some parsed.value

-- One setting. A key that is not known is passed over.
unfoldable pub set_value : Text → Text → Parser → Option Parser
unfolding parse_threads
set_value key value p =
    if strcaseeq key (codes "source")
    then elim (copy_within path_max value) [
      | none ↦ none
      | some text ↦ some (record p { source = text })
    ]
    else if strcaseeq key (codes "backup")
    then elim (copy_within path_max value) [
      | none ↦ none
      | some text ↦ some (record p { backup = text })
    ]
    else if strcaseeq key (codes "restore")
    then elim (copy_within path_max value) [
      | none ↦ none
      | some text ↦ some (record p { restore = text })
    ]
    else if strcaseeq key (codes "log")
    then elim (copy_within path_max value) [
      | none ↦ none
      | some text ↦ some (record p { log_file = text })
    ]
    else if strcaseeq key (codes "threads")
    then elim (parse_threads value) [ none ↦ none | some n ↦ some (record p { threads = n }) ]
    else some p

-- A line that is neither blank, nor a comment, nor a section.
unfoldable pub parse_setting : Text → Parser → Option Parser
unfolding set_value
parse_setting trimmed p = if not p.in_settings then some p else elim (split_at b'=' trimmed) [
  | none ↦ none
  | some (key, value) ↦ set_value (trim key) (trim value) p
]

-- `[NAME]`, from behind the bracket.
unfoldable pub parse_section : Text → Parser → Option Parser
unfolding split_at
parse_section name p = elim (split_at b']' name) [
  | none ↦ none
  | some (section, _) ↦
      let settings = strcaseeq section (codes "SETTINGS") in
      some (record p { in_settings = settings; found_settings = p.found_settings || settings })
]

unfoldable pub parse_trimmed : Text → Parser → Option Parser
unfolding parse_setting parse_section
parse_trimmed [] p = some p
parse_trimmed (c ∷ s) p =
    if c == b'#' || c == b';'
    then some p
    else if c == b'['
    then parse_section s p
    else parse_setting (c ∷ s) p

-- The byte order mark of UTF-8.
unfoldable pub strip_mark : Text → Text
strip_mark (a ∷ b ∷ c ∷ line) = if a == 239 && b == 187 && c == 191 then line else a ∷ b ∷ c ∷ line
strip_mark line = line

-- One line, as `fgets` put it into the buffer.
unfoldable pub parse_line : Bool → List ℕ → Parser → Option Parser
unfolding parse_trimmed strip_mark
parse_line is_first line p =
    let text = c_string line in parse_trimmed (trim (if is_first then strip_mark text else text)) p

-- `sizeof(line)`
abbrev pub line_size : ℕ
line_size = path_max + 128

-- `fgets`: at most `room` bytes, up to a newline, which is kept; with what is left.
unfoldable pub read_line : ℕ → List ℕ → List ℕ × List ℕ
read_line zero file = ([], file)
read_line (suc room) [] = ([], [])
read_line (suc room) (c ∷ file) =
    if c == b'\n'
    then (c ∷ [], file)
    else let (line, rest) = read_line room file in (c ∷ line, rest)

-- The buffer is full, has no newline, and a further byte can be read.
unfoldable pub is_too_long : List ℕ → List ℕ → Bool
is_too_long line rest =
    not (has_char b'\n' (c_string line))
    && length (c_string line) == line_size - 1
    && not (is_blank rest)

-- The loop over the lines. The fuel is the length of the file, since each line takes a byte.
unfoldable pub parse_lines : ℕ → Bool → List ℕ → Parser → Option Parser
parse_lines fuel is_first [] p = some p
parse_lines zero is_first (c ∷ file) p = none
parse_lines (suc fuel) is_first (c ∷ file) p =
    let (line, rest) = read_line (line_size - 1) (c ∷ file) in
    let later = parse_lines fuel false rest in
    if is_too_long line rest
    then none
    else elim (parse_line is_first line p) [ none ↦ none | some next ↦ later next ]
