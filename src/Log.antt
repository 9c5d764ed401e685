-- ===== src/Log.antt =====
-- The log's recent lines in memory and the tail of its file, src/log.c, and the part of
-- `syseba_app_status_json` in src/app.c that shows the recent lines. Memory for the lines of the
-- tail is taken as given.
pub mod Ring
pub mod Written
pub mod Shown
pub mod Lines
pub mod Tail
use sy_se_ba.Prelude.{
  ℕ, zero, suc, ◌+◌, ◌-◌, ◌%◌, Bool, true, false, ◌||◌, Option, none, some, List, [], ◌∷◌, ltb, leb,
  ◌==◌, if◌then◌else◌,
}
use sy_se_ba.Prelude.Text.{Text}
use sy_se_ba.Prelude.{length, get_or, set, take, drop, replicate}

-- The fields of `syseba_app_t` on the recent lines; none stands for NULL.
pub record Recent : Type 0 where
  pub recent_logs : List (Option Text)
  pub recent_capacity : ℕ
  pub recent_next : ℕ
  pub recent_count : ℕ
  pub last_event_at : Text

-- What `calloc` and `memset` leave in `syseba_app_init`.
unfoldable pub no_recent : ℕ → Recent
no_recent capacity = record {
  recent_logs = replicate capacity none;
  recent_capacity = capacity;
  recent_next = 0;
  recent_count = 0;
  last_event_at = [];
}

-- `copy` is stored, with room for one line at least.
unfoldable pub store : Text → Text → Recent → Recent
store copy now r = record r {
  recent_logs = set r.recent_logs r.recent_next (some copy);
  recent_next = (r.recent_next + 1) % r.recent_capacity;
  recent_count =
      if ltb r.recent_count r.recent_capacity then r.recent_count + 1 else r.recent_count;
  last_event_at = now;
}

-- `copy` is the line as `syseba_string_duplicate` returns it, `now` what `syseba_iso_now` writes.
unfoldable pub recent_add : Option Text → Text → Recent → Recent
unfolding store
recent_add none now r = r
recent_add (some copy) now r = if r.recent_capacity == 0 then r else store copy now r

-- The loop over the indices from `index` on, `left` of them.
unfoldable pub shown_loop : Recent → ℕ → ℕ → ℕ → List Text
shown_loop r first index zero = []
shown_loop r first index (suc left) =
    elim (get_or r.recent_logs ((first + index) % r.recent_capacity) none) [
      | none ↦ shown_loop r first (suc index) left
      | some line ↦ line ∷ shown_loop r first (suc index) left
    ]

-- The strings of the array `recent_logs` in the status.
unfoldable pub shown : Recent → List Text
unfolding shown_loop
shown r =
    let first = (r.recent_next + r.recent_capacity - r.recent_count) % r.recent_capacity in
    let start = if ltb 20 r.recent_count then r.recent_count - 20 else 0 in
    shown_loop r first start (r.recent_count - start)

-- The loop over a chunk from its last byte to its first, given in this order; inl is the `goto`
-- with the number of bytes left before the newline, inr the newlines so far.
pub data Scanned : Type 0 where
  found : ℕ → Scanned
  counted : ℕ → Scanned

unfoldable pub scan_chunk : ℕ → List ℕ → ℕ → Scanned
scan_chunk lines [] newlines = counted newlines
scan_chunk lines (c ∷ before) newlines =
    if c == b'\n'
    then (if ltb lines (newlines + 1)
        then found (length before)
        else scan_chunk lines before (newlines + 1))
    else scan_chunk lines before newlines

-- `fseek` to a position and `fread` of so many bytes: none if either falls short.
abbrev pub ReadAt : Type 0
ReadAt = ℕ → ℕ → Option (List ℕ)

abbrev pub reverse_onto : List ℕ → List ℕ → List ℕ
reverse_onto [] out = out
reverse_onto (c ∷ s) out = reverse_onto s (c ∷ out)

-- The bytes of a chunk from the last to the first.
abbrev pub backwards : List ℕ → List ℕ
backwards chunk = reverse_onto chunk []

-- The loop that looks for the position where the wanted lines begin. Every round goes back by one
-- byte at least, so the position is enough fuel.
unfoldable pub start_loop : ReadAt → ℕ → ℕ → ℕ → ℕ → Option ℕ
start_loop read lines zero position newlines = some position
start_loop read lines (suc fuel) position newlines =
    let chunk = if ltb 8192 position then 8192 else position in
    let next = position - chunk in
    if position == 0 || ltb lines newlines then some position else elim (read next chunk) [
      | none ↦ none
      | some bytes ↦ elim (scan_chunk lines (backwards bytes) newlines) [
        | found index ↦ some (next + index + 1)
        | counted count ↦ start_loop read lines fuel next count
      ]
    ]

-- `memchr(s, '\n', size)`
unfoldable pub find_newline : List ℕ → Option ℕ
find_newline [] = none
find_newline (c ∷ s) =
    if c == b'\n' then some 0 else elim (find_newline s) [ none ↦ none | some i ↦ some (suc i) ]

is_end : ℕ → Bool
is_end c = c == b'\r' || c == b'\n'

-- The loop of `syseba_line_array_push` over the line from its end.
trim_backwards : List ℕ → List ℕ
unfolding is_end
trim_backwards [] = []
trim_backwards (c ∷ s) = if is_end c then trim_backwards s else c ∷ s

-- The line that `syseba_line_array_push` adds.
unfoldable pub pushed_line : List ℕ → Text
unfolding trim_backwards
pushed_line line = reverse_onto (trim_backwards (backwards line)) []

-- The lines of the data from the cursor on. The size of the data is enough fuel.
unfoldable pub collect_lines : ℕ → List ℕ → List Text
collect_lines zero cursor = []
collect_lines (suc fuel) [] = []
collect_lines (suc fuel) (c ∷ s) = elim (find_newline (c ∷ s)) [
  | none ↦ pushed_line (c ∷ s) ∷ []
  | some zero ↦ collect_lines fuel s
  | some (suc i) ↦ pushed_line (c ∷ take i s) ∷ collect_lines fuel (drop (suc i) s)
]

-- `size` is what `ftell` says at the end of the opened file. A failure is `none`; the code returns
-- NULL with a count of 0 then, as it does for an empty list of lines.
unfoldable pub log_tail : ReadAt → ℕ → ℕ → Option (List Text)
log_tail read size lines = elim (start_loop read lines size size 0) [
  | none ↦ none
  | some position ↦ elim (read position (size - position)) [
    | none ↦ none
    | some text ↦ some (collect_lines (size - position) text)
  ]
]
