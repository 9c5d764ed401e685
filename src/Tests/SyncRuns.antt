-- ===== src/Tests/SyncRuns.antt =====
-- An initial synchronisation of a small tree.
use mathlib.Core.List.{append-nil}
use sy_se_ba.Prelude.{
  ℕ, ◌+◌, ◌^◌, ◌<◌, ◌≡◌, refl, sym, ap, subst, ◌∙◌, true, false, Option, none, some, List, [], ◌∷◌,
  ◌++◌, length, inc64, arith, if◌then◌else◌,
}
use sy_se_ba.Prelude.Text.{codes, streq, starts_with}
use sy_se_ba.Queue.{
  Heap, Queue, Cell, freed, node, queue_init, pop_now, dec64, queue_push, take_head, with_next,
}
use sy_se_ba.Queue.Linked.{IsQueue, Linked, first}
use sy_se_ba.Queue.Fifo.{queue_init-IsQueue, pop_now-IsQueue}
use sy_se_ba.FilePath.{
  normalize_byte, normalize_separators, token_loop, add_part, collect_parts, ends_in_sep,
  write_parts, absolute_path, rebuild, path_real, before_slash, parent_dir,
}
use sy_se_ba.Confine.{
  probe_loop, append_suffix, path_resolve_links, path_is_within, within_text, at_boundary,
}
use sy_se_ba.Walk.{
  walk_files, walk_listing, walk_internal, is_dots, Listing, entry, end, file, directory,
}
use sy_se_ba.Walk.Visits.{visits}
use sy_se_ba.App.{Event}
use sy_se_ba.App.Enqueue.{enqueue_initial, enqueue_internal, push_event}
use sy_se_ba.App.Service.{Code, ok}
use sy_se_ba.App.Sync.{
  Shared, Point, waiting, counting, queueing, after_count, before_queue, Around, Synced, pending,
  completed, completed_with_errors, initial_sync, count_files, queue_files, begin_sync, end_sync,
  queue_path, sync_step, sync_walk,
}
use sy_se_ba.Tests.Fixtures.{plain_view}
use sy_se_ba.App.Visited.{count_visited, IsTaken, OnlyTakes, IsAllocator, IsDelivered}
use sy_se_ba.App.Synced.{initial_sync_lem}

abbrev note : Option Event → List Event → List Event
note none taken = taken
note (some event) taken = taken ++ event ∷ []

-- A worker takes an event.
unfoldable take : Shared → Shared
take shared = record shared {
  app = record shared.app { event_queue = (pop_now shared.app.event_queue).1 };
  taken = note (pop_now shared.app.event_queue).0 shared.taken;
}

abbrev while_waiting : Point → Shared → Shared
while_waiting waiting shared = take shared
while_waiting _ shared = shared

idle-OnlyTakes : (s : Shared) → OnlyTakes s s
idle-OnlyTakes s = record {
  is_final = λ e. e;
  total = refl;
  fewer = omega arith;
  moves = λ rest i. record {
    moved = [];
    left = rest;
    split = refl;
    queue = i;
    noted = sym (append-nil s.taken);
  };
}

pop_now-unfinished : (q : Queue Event) → (pop_now q).1.unfinished ≡ q.unfinished
unfolding pop_now
pop_now-unfinished q = ground arith

pop_now_stays : (q : Queue Event) → q.head ≡ none → pop_now q ≡ (none, q)
unfolding pop_now
pop_now_stays q e = rw e refl

pop_now-empty : (q : Queue Event) → IsQueue q [] → ((pop_now q).0 ≡ none) × IsQueue (pop_now q).1 []
unfolding pop_now
pop_now-empty q i = by_addresses i.addresses i.linked i.at_head
  where
    by_addresses :
        (ps : List ℕ)
        → Linked q.heap ps []
        → q.head ≡ first ps
        → ((pop_now q).0 ≡ none) × IsQueue (pop_now q).1 []
    by_addresses [] l e =
        subst (λ (p : Option Event × Queue Event). (p.0 ≡ none) × IsQueue p.1 [])
          (sym (pop_now_stays q e)) (refl, i)
    by_addresses (a ∷ ps) l e = absurd l

take-IsTaken :
    (s : Shared) (rest : List Event) → IsQueue s.app.event_queue rest → IsTaken rest s (take s)
unfolding take
take-IsTaken s [] i =
    let (o, after) = pop_now-empty s.app.event_queue i in
    record {
      moved = [];
      left = [];
      split = refl;
      queue = after;
      noted = ap (λ o. note o s.taken) o ∙ sym (append-nil s.taken);
    }
take-IsTaken s (event ∷ rest) i =
    let (o, after) = pop_now-IsQueue s.app.event_queue event rest i in
    record {
      moved = event ∷ [];
      left = rest;
      split = refl;
      queue = after;
      noted = ap (λ o. note o s.taken) o;
    }

take-OnlyTakes : (s : Shared) → OnlyTakes s (take s)
unfolding take
take-OnlyTakes s = record {
  is_final = λ e. e;
  total = refl;
  fewer = omega (arith, pop_now-unfinished s.app.event_queue);
  moves = take-IsTaken s;
}

-- The first block that is not in use, of four.
unfoldable first_free : List ℕ → (ℕ → Cell Event) → Option ℕ
first_free [] heap = none
first_free (a ∷ blocks) heap =
    let rest = first_free blocks heap in elim (heap a) [ freed ↦ some a | node item next ↦ rest ]

first_free_lem :
    (blocks : List ℕ) (heap : ℕ → Cell Event) (a : ℕ)
    → first_free blocks heap ≡ some a
    → heap a ≡ freed
unfolding first_free
first_free_lem [] heap a = λ h. cc
first_free_lem (b ∷ blocks) heap a = by_cell (first_free_lem blocks heap a) (heap b) refl
  where
    by_cell :
        (first_free blocks heap ≡ some a → heap a ≡ freed)
        → (c : Cell Event) → heap b ≡ c
        → (elim c [ freed ↦ some b | node item next ↦ first_free blocks heap ]) ≡ some a
        → heap a ≡ freed
    by_cell rest freed e h = cc
    by_cell rest (node item next) e h = rest h

abbrev around : Around
around = record {
  view = plain_view;
  others = while_waiting;
  event_memory = λ path. true;
  node_memory = λ path app. first_free (0 ∷ 1 ∷ 2 ∷ 3 ∷ []) app.event_queue.heap;
  clock = λ path. 5;
  leaves = λ path enqueue errno. errno;
}

abbrev empty_heap : Heap Event
empty_heap a = freed

abbrev before_sync : Synced
before_sync = record {
  shared = record {
    app = record {
      stopping = false;
      stats = record {
        queued_events = 0;
        copied = 0;
        updated = 0;
        deleted = 0;
        restored = 0;
        skipped = 0;
        errors = 0;
        initial_total = 0;
        initial_done = 0;
        initial_copied = 0;
        initial_skipped = 0;
        initial_running = false;
      };
      event_queue = queue_init empty_heap;
    };
    taken = [];
  };
  initial_state = pending;
  initial_error = none;
}

abbrev small_tree : Listing
small_tree = entry (codes "d") (directory (entry (codes "f") file end)) end

around-OnlyTakes : (p : Point) (s : Shared) → OnlyTakes s (around.others p s)
around-OnlyTakes (counting path) s = idle-OnlyTakes s
around-OnlyTakes (queueing path) s = idle-OnlyTakes s
around-OnlyTakes after_count s = idle-OnlyTakes s
around-OnlyTakes before_queue s = idle-OnlyTakes s
around-OnlyTakes waiting s = take-OnlyTakes s

around-IsAllocator : IsAllocator around
unfolding IsAllocator
around-IsAllocator path app a h = first_free_lem (0 ∷ 1 ∷ 2 ∷ 3 ∷ []) app.event_queue.heap a h

abbrev after_sync : Code × Synced
after_sync =
    initial_sync around (codes "/s") (directory small_tree) (directory small_tree) before_sync

ends_completed : after_sync.1.initial_state ≡ completed
unfolding initial_sync count_files queue_files take walk_files walk_listing streq enqueue_initial
    path_is_within path_resolve_links path_real rebuild collect_parts token_loop
    normalize_separators normalize_byte add_part probe_loop within_text starts_with enqueue_internal
    push_event begin_sync end_sync queue_path sync_step sync_walk append_suffix at_boundary
    absolute_path before_slash ends_in_sep parent_dir write_parts inc64 dec64 pop_now queue_push
    take_head with_next is_dots walk_internal queue_init first_free
ends_completed = refl

-- A callback that leaves EINVAL, as `realpath` does on a path without links, makes the second walk
-- fail after its first directory.
abbrev after_einval : Code × Synced
after_einval =
    initial_sync (record around { leaves = λ path enqueue errno. if enqueue then 22 else errno })
      (codes "/s") (directory small_tree) (directory small_tree) before_sync

ends_with_errors : after_einval.1.initial_state ≡ completed_with_errors
unfolding initial_sync count_files queue_files take walk_files walk_listing streq enqueue_initial
    path_is_within path_resolve_links path_real rebuild collect_parts token_loop
    normalize_separators normalize_byte add_part probe_loop within_text starts_with enqueue_internal
    push_event begin_sync end_sync queue_path sync_step sync_walk append_suffix at_boundary
    absolute_path before_slash ends_in_sep parent_dir write_parts inc64 dec64 pop_now queue_push
    take_head with_next is_dots walk_internal queue_init first_free
ends_with_errors = refl

room :
    before_sync.shared.app.event_queue.unfinished + length (visits (codes "/s") small_tree) < 2 ^ 64
unfolding queue_init visits is_dots streq
room = omega arith

initial_sync_lem_example :
    (after_sync.0 ≡ ok)
    × (after_sync.1.shared.app.stats.initial_running ≡ false)
    × IsDelivered around [] before_sync.shared.app.event_queue.unfinished
        (count_visited 0 (visits (codes "/s") small_tree))
        (visits (codes "/s") small_tree)
        after_sync.1.shared
initial_sync_lem_example =
    initial_sync_lem around (codes "/s") small_tree small_tree before_sync [] around-OnlyTakes
      around-IsAllocator (queue_init-IsQueue empty_heap) refl room refl ends_completed
