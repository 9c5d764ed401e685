-- ===== src/Tests/AppRuns.antt =====
-- The processing of events at fixed inputs.
use sy_se_ba.Prelude.{
  if◌then◌else◌, ◌≡◌, ◌⊎◌, refl, true, false, not, Option, none, some, List, [], ◌∷◌, arith,
}
use sy_se_ba.Prelude.Text.{codes, streq}
use sy_se_ba.FilePath.{
  path_max, normalize_byte, normalize_separators, token_loop, add_part, collect_parts, ends_in_sep,
  write_parts, absolute_path, rebuild, path_real, before_slash, parent_dir,
}
use sy_se_ba.FilePath.Canonical.{IsPlain, joined, render}
use sy_se_ba.Confine.{FileView, probe_loop, append_suffix, path_resolve_links}
use sy_se_ba.Confine.Mirror.{IsUnlinked}
use sy_se_ba.Snapshot.{create, delete}
use sy_se_ba.App.{
  Event, Stats, copy_file, move_path, succeeded, Disk, Directories, files_need_copy, process_event,
}
use sy_se_ba.App.Effects.{AllConfined, process_event-confined}
use sy_se_ba.App.Worker.{Job}
use sy_se_ba.App.Mirror.{IsMirrored, directories, process_event-copies, process_event-moves}
use sy_se_ba.Queue.Fifo.{queue_init-IsQueue}
use sy_se_ba.Queue.{Heap, freed, queue_init}
use sy_se_ba.Queue.Linked.{IsQueue}
use sy_se_ba.App.Enqueue.{State, request, IsQueued, IsRefused, enqueue_internal-cases}
use sy_se_ba.Tests.Fixtures.{IsPlain-b, IsPlain-c}

-- All paths but /r/c exist, and `syseba_fs_stat` knows only /s/c.
abbrev view : FileView
view = record {
  cwd = some (codes "/");
  exists = λ path. not (streq path (codes "/r/c"));
  realpath = λ path. some path;
}

abbrev disk : Disk
disk = record {
  view = view;
  is_regular = λ path. true;
  stat = λ path.
      if streq path (codes "/s/c")
      then some (record { size = 3; mtime_ns = 7; is_directory = false })
      else none;
  answer = λ action. succeeded;
}

abbrev zeros : Stats
zeros = record {
  queued_events = 0;
  copied = 0;
  updated = 0;
  deleted = 0;
  restored = 0;
  skipped = 0;
  errors = 0;
  initial_total = 0;
  initial_done = 0;
  initial_copied = 0;
  initial_skipped = 0;
  initial_running = false;
}

abbrev created : Event
created = record {
  kind = create;
  path = codes "/s/c";
  is_directory = false;
  initial_sync = true;
  observed_ns = 1;
}

abbrev deleted : Event
deleted = record {
  kind = delete;
  path = codes "/s/c";
  is_directory = false;
  initial_sync = false;
  observed_ns = 2;
}

IsPlain-s : IsPlain (codes "s")
unfolding streq
IsPlain-s = record { some_byte = refl; bytes = refl; not_dot = refl; not_dots = refl }

IsPlain-r : IsPlain (codes "r")
unfolding streq
IsPlain-r = record { some_byte = refl; bytes = refl; not_dot = refl; not_dots = refl }

IsUnlinked-s : IsUnlinked view (codes "s" ∷ []) (codes "c") [] path_max
unfolding render joined path_resolve_links probe_loop append_suffix path_real absolute_path rebuild
    normalize_separators normalize_byte token_loop collect_parts add_part write_parts ends_in_sep
    streq
IsUnlinked-s = record {
  plain = (IsPlain-s, _);
  plain_below = (IsPlain-c, _);
  base_self = refl;
  whole_self = refl;
  combined_fits = omega arith;
  whole_fits = omega arith;
  size_fits = omega arith;
}

IsUnlinked-b : IsUnlinked view (codes "b" ∷ []) (codes "c") [] path_max
unfolding render joined path_resolve_links probe_loop append_suffix path_real absolute_path rebuild
    normalize_separators normalize_byte token_loop collect_parts add_part write_parts ends_in_sep
    streq
IsUnlinked-b = record {
  plain = (IsPlain-b, _);
  plain_below = (IsPlain-c, _);
  base_self = refl;
  whole_self = refl;
  combined_fits = omega arith;
  whole_fits = omega arith;
  size_fits = omega arith;
}

IsUnlinked-r : IsUnlinked view (codes "r" ∷ []) (codes "c") [] path_max
unfolding render joined path_resolve_links probe_loop append_suffix path_real absolute_path rebuild
    normalize_separators normalize_byte token_loop collect_parts add_part write_parts ends_in_sep
    streq parent_dir before_slash
IsUnlinked-r = record {
  plain = (IsPlain-r, _);
  plain_below = (IsPlain-c, _);
  base_self = refl;
  whole_self = refl;
  combined_fits = omega arith;
  whole_fits = omega arith;
  size_fits = omega arith;
}

mirrored :
    IsMirrored disk (codes "S") (codes "s" ∷ []) (codes "b" ∷ []) (codes "r" ∷ []) (codes "c") []
mirrored = record { source = IsUnlinked-s; backup = IsUnlinked-b; restore = IsUnlinked-r }

abbrev places : Directories
places = record { source = codes "/s"; backup = codes "/b"; restore = codes "/r" }

process_event-copies_example :
    (process_event disk
      (directories disk
        (codes "S")
        (codes "s" ∷ [])
        (codes "b" ∷ [])
        (codes "r" ∷ [])
        (codes "c")
        [])
      (codes "S")
      created
      zeros).actions
    ≡ copy_file (codes "/s/c") (codes "/b/c") ∷ []
unfolding render joined files_need_copy streq
process_event-copies_example =
    process_event-copies disk (codes "S") (codes "s" ∷ []) (codes "b" ∷ []) (codes "r" ∷ [])
      (codes "c") [] created zeros mirrored refl refl refl refl refl

process_event-moves_example :
    (process_event disk
      (directories disk
        (codes "S")
        (codes "s" ∷ [])
        (codes "b" ∷ [])
        (codes "r" ∷ [])
        (codes "c")
        [])
      (codes "S")
      deleted
      zeros).actions
    ≡ move_path (codes "/b/c") (codes "/r/c") ∷ []
unfolding render joined streq
process_event-moves_example =
    process_event-moves disk (codes "S") (codes "s" ∷ []) (codes "b" ∷ []) (codes "r" ∷ [])
      (codes "c") [] deleted zeros mirrored refl refl refl refl

process_event-confined_example :
    AllConfined disk places
      (codes "S")
      created
      (process_event disk places (codes "S") created zeros).actions
process_event-confined_example = process_event-confined disk places (codes "S") created zeros

abbrev empty_heap : Heap Event
empty_heap a = freed

abbrev idle : State
idle = record { stopping = false; stats = zeros; event_queue = queue_init empty_heap }

idle-IsQueue : IsQueue idle.event_queue []
idle-IsQueue = queue_init-IsQueue empty_heap

enqueue_internal-cases_example :
    IsQueued view
      (codes "/s")
      created
      []
      idle
      (request view (codes "/s") created 0 idle).1
      (request view (codes "/s") created 0 idle).0
    ⊎ IsRefused view
        (codes "/s")
        created
        idle
        (request view (codes "/s") created 0 idle).1
        (request view (codes "/s") created 0 idle).0
unfolding queue_init
enqueue_internal-cases_example =
    enqueue_internal-cases view (codes "/s") created 0 idle [] idle-IsQueue refl refl (omega arith)

-- A wait that ends without an event, and a file that was created.
abbrev popped : List (Option Job)
popped = none ∷ some (record { disk = disk; stamp = codes "S"; event = created }) ∷ []
