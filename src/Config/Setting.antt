-- ===== src/Config/Setting.antt =====
-- One saved setting read back, of src/config.c.
use sy_se_ba.Prelude.{
  ℕ, suc, ◌<◌, ◌≤◌, ◌≡◌, refl, sym, subst, true, false, some, [], ◌∷◌, ◌++◌, length, length-append,
  all, and-split, arith,
}
use sy_se_ba.Prelude.Text.{Text, codes, is_space, is_digit, has_char, fits, strcaseeq, to_lower}
use sy_se_ba.Prelude.Number.{decimal, strtoul-decimal, decimal_lem}
use sy_se_ba.Trim.{trim, trim_start, trim_end}
use sy_se_ba.Trim.Laws.{IsTrimmed, StartsSolid, EndsSolid}
use sy_se_ba.FilePath.{path_max}
use sy_se_ba.Config.{Parser, set_value, parse_threads, max_threads, parse_lines, is_blank}
use sy_se_ba.Config.Saved.{setting_line}
use sy_se_ba.Config.Roundtrip.{is_line_byte, IsLine, is_key_start, parse_lines-setting}

-- A value that a line can carry: not empty, no line break or NUL, no space at its ends, and short
-- enough for its buffer.
pub record IsStorable (value : Text) : Type 0 where
  pub not_blank : is_blank value ≡ false
  pub one_line : IsLine value
  pub trimmed : IsTrimmed value
  pub fit : length value < path_max

pub digit_not_space : (c : ℕ) → is_digit c ≡ true → is_space c ≡ false
unfolding is_space is_digit
digit_not_space c h = ground arith

pub digit_of_line : (c : ℕ) → is_digit c ≡ true → is_line_byte c ≡ true
unfolding is_digit
digit_of_line c h = ground arith

pub digits-EndsSolid : (s : Text) → all is_digit s ≡ true → EndsSolid s
digits-EndsSolid [] h = _
digits-EndsSolid (c ∷ []) h = digit_not_space c (and-split (is_digit c) true h).0
digits-EndsSolid (c ∷ d ∷ s) h =
    digits-EndsSolid (d ∷ s) (and-split (is_digit c) (all is_digit (d ∷ s)) h).1

pub digits-IsLine : (s : Text) → all is_digit s ≡ true → IsLine s
digits-IsLine [] h = refl
digits-IsLine (c ∷ s) h =
    let (here, later) = and-split (is_digit c) (all is_digit s) h in
    rw (digit_of_line c here) (digits-IsLine s later)

pub decimal-IsStorable : (n : ℕ) → n ≤ max_threads → IsStorable (decimal n)
decimal-IsStorable n h =
    let (digits, short, (c, s, e)) = decimal_lem n in
    record {
      not_blank = rw e refl;
      one_line = digits-IsLine (decimal n) digits;
      trimmed = record {
        front = subst StartsSolid (sym e) (
            digit_not_space c
              (and-split (is_digit c) (all is_digit s)
                (subst (λ t. all is_digit t ≡ true) e digits)).0);
        back = digits-EndsSolid (decimal n) digits;
      };
      fit = omega arith;
    }

pub fits-true : (value : Text) → length value < path_max → fits path_max value ≡ true
fits-true value h = ground arith

module _ (p : Parser) (value : Text) (short : length value < path_max) where
  pub set_source : set_value (codes "source") value p ≡ some (record p { source = value })
  unfolding set_value strcaseeq to_lower
  set_source = rw (fits-true value short) refl

  pub set_backup : set_value (codes "backup") value p ≡ some (record p { backup = value })
  unfolding set_value strcaseeq to_lower
  set_backup = rw (fits-true value short) refl

  pub set_restore : set_value (codes "restore") value p ≡ some (record p { restore = value })
  unfolding set_value strcaseeq to_lower
  set_restore = rw (fits-true value short) refl

  pub set_log : set_value (codes "log") value p ≡ some (record p { log_file = value })
  unfolding set_value strcaseeq to_lower
  set_log = rw (fits-true value short) refl

pub parse_threads-decimal : (n : ℕ) → 1 ≤ n → n ≤ max_threads → parse_threads (decimal n) ≡ some n
unfolding parse_threads trim trim_start trim_end
parse_threads-decimal n low high = rw (strtoul-decimal n (omega arith)) (ground arith)

pub set_threads :
    (p : Parser) (n : ℕ)
    → 1 ≤ n
    → n ≤ max_threads
    → set_value (codes "threads") (decimal n) p ≡ some (record p { threads = n })
unfolding set_value strcaseeq to_lower
set_threads p n low high = rw (parse_threads-decimal n low high) refl

-- A line for a key in the file is one step of the parser.
pub setting :
    (k : ℕ) (key value : Text) (p q : Parser) (fuel : ℕ) (rest : Text)
    → is_key_start k ≡ true
    → has_char b'=' (k ∷ key ++ 32 ∷ []) ≡ false
    → IsTrimmed (k ∷ key)
    → IsLine (k ∷ key)
    → length key < 10
    → p.in_settings ≡ true
    → set_value (k ∷ key) value p ≡ some q
    → IsStorable value
    → parse_lines (suc fuel) false (setting_line (k ∷ key) value ++ rest) p
      ≡ parse_lines fuel false rest q
setting k key [] p q fuel rest starts no_equals key_trimmed key_line small inside set v =
    absurd (clash v.not_blank)
  where
    clash : true ≡ false → ⊥
    clash e = cc
setting k key (c ∷ value) p q fuel rest starts no_equals key_trimmed key_line small inside set v =
    parse_lines-setting k key c value p q starts no_equals key_trimmed v.trimmed key_line v.one_line
      inside set fuel rest
      (omega (arith, length-append (k ∷ key) (32 ∷ b'=' ∷ 32 ∷ c ∷ value), v.fit))
