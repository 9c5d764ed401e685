-- ===== src/Config/Roundtrip.antt =====
-- The lines that `syseba_config_save` writes are what `syseba_config_load` reads.
use mathlib.Core.List.{append_assoc}
use sy_se_ba.Prelude.{
  ℕ, zero, suc, ◌-◌, ◌<◌, ◌≡◌, ◌∙◌, refl, ap, ap₂, sym, subst, Bool, true, false, ◌||◌, not, Option,
  none, some, [], ◌∷◌, ◌++◌, length, all, ◌==◌, ==_self, if◌then◌else◌, and-split, arith,
}
use sy_se_ba.Prelude.Text.{Text, codes, c_string, has_char, is_space, strcaseeq, to_lower}
use sy_se_ba.Trim.{trim, trim_start, trim_end, is_empty}
use sy_se_ba.Trim.Laws.{IsTrimmed, EndsSolid, trim_of_trimmed}
use sy_se_ba.Config.{
  Parser, split_at, set_value, parse_setting, parse_section, parse_trimmed, parse_line, line_size,
  read_line, is_too_long, parse_lines, strip_mark,
}
use sy_se_ba.Config.Saved.{setting_line}

-- A byte that may stand in a line.
abbrev pub is_line_byte : ℕ → Bool
is_line_byte c = not (c == 0 || c == b'\n')

abbrev pub IsLine : Text → Type 0
IsLine text = all is_line_byte text ≡ true

read_line-newline :
    (room : ℕ) (text rest : Text)
    → IsLine text
    → length text < room
    → read_line room (text ++ b'\n' ∷ rest) ≡ (text ++ b'\n' ∷ [], rest)
unfolding read_line
read_line-newline zero text rest l h = absurd (omega arith)
read_line-newline (suc room) [] rest l h = refl
read_line-newline (suc room) (c ∷ text) rest l h =
    let (here, later) = and-split (is_line_byte c) (all is_line_byte text) l in
    rw (no_newline here)
      (ap (λ r. (c ∷ r.0, r.1)) (read_line-newline room text rest later (omega arith)))
  where
    no_newline : is_line_byte c ≡ true → (c == b'\n') ≡ false
    no_newline h = ground arith

c_string-line : (text : Text) → IsLine text → c_string (text ++ b'\n' ∷ []) ≡ text ++ b'\n' ∷ []
unfolding c_string
c_string-line [] l = refl
c_string-line (c ∷ text) l =
    let (here, later) = and-split (is_line_byte c) (all is_line_byte text) l in
    rw (no_nul here) (ap (◌∷◌ c) (c_string-line text later))
  where
    no_nul : is_line_byte c ≡ true → (c == 0) ≡ false
    no_nul h = ground arith

has_char-newline : (text : Text) → has_char b'\n' (text ++ b'\n' ∷ []) ≡ true
unfolding has_char
has_char-newline [] = refl
has_char-newline (c ∷ text) = ground (arith, has_char-newline text)

-- A line of the file is one round of the loop.
pub parse_lines-line :
    (fuel : ℕ) (is_first : Bool) (text rest : Text) (p q : Parser)
    → IsLine text
    → length text < line_size - 1
    → parse_line is_first (text ++ b'\n' ∷ []) p ≡ some q
    → parse_lines (suc fuel) is_first (text ++ b'\n' ∷ rest) p ≡ parse_lines fuel false rest q
unfolding parse_lines is_too_long
parse_lines-line fuel is_first text rest p q l h e = by_text text l h e
  where
    step :
        (c : ℕ) (file line rest : Text)
        → read_line (line_size - 1) (c ∷ file) ≡ (line, rest)
        → is_too_long line rest ≡ false
        → parse_line is_first line p ≡ some q
        → parse_lines (suc fuel) is_first (c ∷ file) p ≡ parse_lines fuel false rest q
    step c file line rest r t e =
        ap
          (λ w. if is_too_long w.0 w.1 then none else elim (parse_line is_first w.0 p) [
            | none ↦ none
            | some next ↦ parse_lines fuel false w.1 next
          ])
          r
        ∙ ap
            (λ b. if b then none else elim (parse_line is_first line p) [
              | none ↦ none
              | some next ↦ parse_lines fuel false rest next
            ])
            t
        ∙ ap (λ o. elim o [ none ↦ none | some next ↦ parse_lines fuel false rest next ]) e

    short : (text : Text) → IsLine text → is_too_long (text ++ b'\n' ∷ []) rest ≡ false
    short text l = rw (is_too_long, c_string-line text l, has_char-newline text) refl

    by_text :
        (text : Text)
        → IsLine text
        → length text < line_size - 1
        → parse_line is_first (text ++ b'\n' ∷ []) p ≡ some q
        → parse_lines (suc fuel) is_first (text ++ b'\n' ∷ rest) p ≡ parse_lines fuel false rest q
    by_text [] l h e =
        step b'\n' rest (b'\n' ∷ []) rest (read_line-newline (line_size - 1) [] rest l h)
          (short [] l) e
    by_text (c ∷ text) l h e =
        step c (text ++ b'\n' ∷ rest) (c ∷ text ++ b'\n' ∷ []) rest
          (read_line-newline (line_size - 1) (c ∷ text) rest l h) (short (c ∷ text) l) e

-- Spaces at the end are cut off.
trim_end-space :
    (text : Text) (c : ℕ) → is_space c ≡ true → trim_end (text ++ c ∷ []) ≡ trim_end text
unfolding trim_end is_empty
trim_end-space [] c h = ground arith
trim_end-space (d ∷ text) c h = rw (trim_end-space text c h) refl

trim_solid : (d : ℕ) (text : Text) → is_space d ≡ false → trim (d ∷ text) ≡ trim_end (d ∷ text)
unfolding trim trim_start
trim_solid d text e = ap trim_end (ap (λ b. if b then trim_start text else d ∷ text) e)

pub trim-space :
    (text : Text) (c : ℕ) → is_space c ≡ true → IsTrimmed text → trim (text ++ c ∷ []) ≡ text
trim-space [] c h t = alone
  where
    alone : trim (c ∷ []) ≡ []
    alone = unfold trim trim_start trim_end in rw h refl
trim-space (d ∷ text) c h t =
    trim_solid d (text ++ c ∷ []) t.front
    ∙ trim_end-space (d ∷ text) c h
    ∙ sym (trim_solid d text t.front)
    ∙ trim_of_trimmed (d ∷ text) t

EndsSolid-append :
    (xs ys : Text) → EndsSolid ys → (c : ℕ) (s : Text) → ys ≡ c ∷ s → EndsSolid (xs ++ ys)
EndsSolid-append [] ys h c s e = h
EndsSolid-append (x ∷ []) ys h c s e = subst (λ z. EndsSolid (x ∷ z)) (sym e) (subst EndsSolid e h)
EndsSolid-append (x ∷ y ∷ xs) ys h c s e = EndsSolid-append (y ∷ xs) ys h c s e

split_at-append :
    (c : ℕ) (xs ys : Text) → has_char c xs ≡ false → split_at c (xs ++ c ∷ ys) ≡ some (xs, ys)
unfolding split_at has_char
split_at-append c [] ys h = rw (==_self c) refl
split_at-append c (x ∷ xs) ys h =
    let (here, later) = neither (x == c) (has_char c xs) h in
    rw (here, split_at-append c xs ys later) refl
  where
    neither : (a b : Bool) → a || b ≡ false → (a ≡ false) × (b ≡ false)
    neither a b h = ground arith

-- `key = value` is trimmed if both are, and the value is not empty.
setting-IsTrimmed :
    (k : ℕ) (key : Text) (c : ℕ) (value : Text)
    → IsTrimmed (k ∷ key)
    → IsTrimmed (c ∷ value)
    → IsTrimmed (k ∷ key ++ 32 ∷ b'=' ∷ 32 ∷ c ∷ value)
setting-IsTrimmed k key c value t u = record {
  front = t.front;
  back =
      EndsSolid-append (k ∷ key) (32 ∷ b'=' ∷ 32 ∷ c ∷ value) u.back 32 (b'=' ∷ 32 ∷ c ∷ value)
        refl;
}

-- The first byte of a key.
abbrev pub is_key_start : ℕ → Bool
is_key_start k = not (k == b'#' || k == b';' || k == b'[')

IsLine-append : (xs ys : Text) → IsLine xs → IsLine ys → IsLine (xs ++ ys)
IsLine-append [] ys h k = k
IsLine-append (x ∷ xs) ys h k =
    let (here, later) = and-split (is_line_byte x) (all is_line_byte xs) h in
    rw (here, IsLine-append xs ys later k) refl

-- A line that was written for a setting sets it.
module _ (k : ℕ) (key : Text) (c : ℕ) (value : Text) (p q : Parser) (starts : is_key_start k ≡ true)
    (no_equals : has_char b'=' (k ∷ key ++ 32 ∷ []) ≡ false) (key_trimmed : IsTrimmed (k ∷ key))
    (value_trimmed : IsTrimmed (c ∷ value)) (key_line : IsLine (k ∷ key))
    (value_line : IsLine (c ∷ value)) (in_settings : p.in_settings ≡ true)
    (set : set_value (k ∷ key) (c ∷ value) p ≡ some q) where
  abbrev text : Text
  text = k ∷ key ++ 32 ∷ b'=' ∷ 32 ∷ c ∷ value

  text-IsLine : IsLine text
  text-IsLine = IsLine-append (k ∷ key) (32 ∷ b'=' ∷ 32 ∷ c ∷ value) key_line value_line

  split : split_at b'=' text ≡ some (k ∷ key ++ 32 ∷ [], 32 ∷ c ∷ value)
  split =
      ap (split_at b'=') (sym (append_assoc (k ∷ key) (32 ∷ []) (b'=' ∷ 32 ∷ c ∷ value)))
      ∙ split_at-append b'=' (k ∷ key ++ 32 ∷ []) (32 ∷ c ∷ value) no_equals

  value_back : trim (32 ∷ c ∷ value) ≡ c ∷ value
  value_back = front ∙ trim_of_trimmed (c ∷ value) value_trimmed
    where
      front : trim (32 ∷ c ∷ value) ≡ trim (c ∷ value)
      front = unfold trim trim_start is_space in refl

  space_is_space : is_space 32 ≡ true
  unfolding is_space
  space_is_space = refl

  newline_is_space : is_space b'\n' ≡ true
  unfolding is_space
  newline_is_space = refl

  setting_set : parse_setting text p ≡ some q
  unfolding parse_setting
  setting_set =
      rw (in_settings, split)
        (ap₂ (λ a b. set_value a b p) (trim-space (k ∷ key) 32 space_is_space key_trimmed)
            value_back
          ∙ set)

  trimmed_set : parse_trimmed text p ≡ some q
  unfolding parse_trimmed
  trimmed_set =
      ap (λ b. if b then some p else if k == b'[' then parse_section_of else parse_setting text p)
        (no_comment k starts)
      ∙ ap (λ b. if b then parse_section_of else parse_setting text p) (no_section k starts)
      ∙ setting_set
    where
      parse_section_of : Option Parser
      parse_section_of = parse_section (key ++ 32 ∷ b'=' ∷ 32 ∷ c ∷ value) p

      no_comment : (k : ℕ) → is_key_start k ≡ true → k == b'#' || k == b';' ≡ false
      no_comment k h = ground arith

      no_section : (k : ℕ) → is_key_start k ≡ true → k == b'[' ≡ false
      no_section k h = ground arith

  line_set : parse_line false (text ++ b'\n' ∷ []) p ≡ some q
  unfolding parse_line
  line_set =
      ap (λ t. parse_trimmed (trim t) p) (c_string-line text text-IsLine)
      ∙ ap (λ t. parse_trimmed t p)
          (trim-space text b'\n' newline_is_space
            (setting-IsTrimmed k key c value key_trimmed value_trimmed))
      ∙ trimmed_set

  pub parse_lines-setting :
      (fuel : ℕ) (rest : Text)
      → length text < line_size - 1
      → parse_lines (suc fuel) false (setting_line (k ∷ key) (c ∷ value) ++ rest) p
        ≡ parse_lines fuel false rest q
  parse_lines-setting fuel rest short =
      ap (λ t. parse_lines (suc fuel) false t p) (append_assoc text (b'\n' ∷ []) rest)
      ∙ parse_lines-line fuel false text rest p q text-IsLine short line_set

-- The parser after the line `[SETTINGS]`.
abbrev pub begun : Parser → Parser
begun p = record p { in_settings = true; found_settings = true }

-- The two lines at the top of a saved file.
pub header_lines :
    (fuel : ℕ) (rest : Text) (p : Parser)
    → parse_lines
        (suc (suc fuel))
        true
        (codes "# SySeBa configuration" ++ b'\n' ∷ [] ++ (codes "[SETTINGS]" ++ b'\n' ∷ [] ++ rest))
        p
      ≡ parse_lines fuel false rest
          (record p { in_settings = true; found_settings = p.found_settings || true })
header_lines fuel rest p =
    parse_lines-line (suc fuel) true (codes "# SySeBa configuration")
      (codes "[SETTINGS]" ++ b'\n' ∷ [] ++ rest) p p refl (omega arith) comment
    ∙ parse_lines-line fuel false (codes "[SETTINGS]") rest p
        (record p { in_settings = true; found_settings = p.found_settings || true }) refl
        (omega arith) section
  where
    comment : parse_line true (codes "# SySeBa configuration" ++ b'\n' ∷ []) p ≡ some p
    comment =
        unfold parse_line strip_mark c_string trim trim_start trim_end is_empty is_space
          parse_trimmed in
        refl

    section :
        parse_line false (codes "[SETTINGS]" ++ b'\n' ∷ []) p
        ≡ some (record p { in_settings = true; found_settings = p.found_settings || true })
    section =
        unfold parse_line strip_mark c_string trim trim_start trim_end is_empty is_space
          parse_trimmed parse_section split_at strcaseeq to_lower in
        refl
