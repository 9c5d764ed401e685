-- ===== src/Tests/LogRuns.antt =====
-- Recent lines and a log file at fixed inputs.
use sy_se_ba.Prelude.{
  ℕ, zero, suc, ◌+◌, ◌≡◌, refl, Option, none, some, List, [], ◌∷◌, map, length, take, drop, leb,
  if◌then◌else◌, arith,
}
use sy_se_ba.Prelude.Text.{Text, codes}
use sy_se_ba.Log.{
  no_recent, shown, ReadAt, start_loop, scan_chunk, collect_lines, find_newline, log_tail,
  pushed_line,
}
use sy_se_ba.Log.Ring.{last}
use sy_se_ba.Log.Shown.{add_all, copied_lines, add_all-shown}
use sy_se_ba.Log.Lines.{pieces, not_empty}
use sy_se_ba.Log.Tail.{IsReadable, log_tail_lem}

-- Lines of one byte, counted down, and one for which there was no memory.
abbrev numbered : ℕ → List (Option Text × Text)
numbered zero = (none, []) ∷ []
numbered (suc n) = (some (n ∷ []), []) ∷ numbered n

add_all-shown_example :
    shown (add_all (numbered 30) (no_recent 21)) ≡ last 20 (copied_lines (numbered 30))
add_all-shown_example = add_all-shown (numbered 30) 21 (omega arith)

abbrev log_text : List ℕ
log_text = codes "one\n\ntwo\r\nthree"

abbrev read_log : ReadAt
read_log position size =
    if leb (position + size) (length log_text)
    then some (take size (drop position log_text))
    else none

read_log-IsReadable : IsReadable read_log log_text
unfolding IsReadable
read_log-IsReadable position size h = ground arith

log_tail_run : log_tail read_log 15 1 ≡ some (codes "two" ∷ codes "three" ∷ [])
unfolding log_tail start_loop scan_chunk collect_lines find_newline pushed_line
log_tail_run = refl

log_tail_lem_example :
    log_tail read_log (length log_text) 2
    ≡ some (map pushed_line (not_empty (last 3 (pieces log_text))))
log_tail_lem_example = log_tail_lem read_log log_text 2 read_log-IsReadable
