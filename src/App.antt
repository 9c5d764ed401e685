-- ===== src/App.antt =====
-- The processing of events in src/app.c: `syseba_files_need_copy`, `syseba_app_process_event` and
-- `syseba_initial_progress`. The calls that change the disk are recorded in their order, and what
-- they answer is given; nothing else changes what the tests see meanwhile. The log is left out, and
-- so is the pause of 150 ms before the copy of a modified file.
pub mod Effects
pub mod Counts
pub mod Mirror
pub mod Enqueue
pub mod Service
pub mod Settled
pub mod Stage
pub mod Steps
pub mod Start
pub mod Sync
pub mod Visited
pub mod Passed
pub mod Synced
pub mod Worker
pub mod Errors
pub mod Worked
use sy_se_ba.Prelude.{
  ℕ, Bool, true, false, ◌&&◌, ◌||◌, not, Option, none, some, List, [], ◌∷◌, ◌==◌, if◌then◌else◌,
  inc64,
}
use sy_se_ba.Prelude.Text.{Text}
use sy_se_ba.FilePath.{path_max}
use sy_se_ba.Confine.{FileView, relative_path, safe_join}
use sy_se_ba.Config.{Failure, err, invalid, not_found}
use sy_se_ba.Snapshot.{EventKind, create, modify, delete}
use sy_se_ba.Restore.Names.{unique_restore_path}

-- `syseba_event_t`
pub record Event : Type 0 where
  pub kind : EventKind
  pub path : Text
  pub is_directory : Bool
  pub initial_sync : Bool
  pub observed_ns : ℕ

-- `syseba_stats_t`
pub record Stats : Type 0 where
  pub queued_events : ℕ
  pub copied : ℕ
  pub updated : ℕ
  pub deleted : ℕ
  pub restored : ℕ
  pub skipped : ℕ
  pub errors : ℕ
  pub initial_total : ℕ
  pub initial_done : ℕ
  pub initial_copied : ℕ
  pub initial_skipped : ℕ
  pub initial_running : Bool

-- A call that changes the disk: `syseba_mkdirs`, `syseba_copy_file` or `syseba_move_path`.
pub data Action : Type 0 where
  mkdirs : Text → Action
  copy_file : Text → Text → Action
  move_path : Text → Text → Action

-- Whether a call returns 0, and otherwise whether errno is ENOENT.
pub data Answer : Type 0 where
  succeeded vanished refused : Answer

abbrev pub is_success : Answer → Bool
is_success succeeded = true
is_success _ = false

-- `errno == ENOENT ? SYSEBA_ERR_NOT_FOUND : SYSEBA_ERR`
abbrev pub copy_result : Answer → Option Failure
copy_result succeeded = none
copy_result vanished = some not_found
copy_result refused = some err

-- What `syseba_fs_stat` yields; the time is the pattern of its 64 bits.
pub record FileStat : Type 0 where
  pub size : ℕ
  pub mtime_ns : ℕ
  pub is_directory : Bool

pub record Disk : Type 0 where
  pub view : FileView
  pub is_regular : Text → Bool
  pub stat : Text → Option FileStat
  pub answer : Action → Answer

pub record Directories : Type 0 where
  pub source : Text
  pub backup : Text
  pub restore : Text

-- The local variables at `completed`, the counters and the calls so far. The result `none` stands
-- for `SYSEBA_OK`.
pub record Handled : Type 0 where
  pub result : Option Failure
  pub stats : Stats
  pub actions : List Action
  pub copied : Bool
  pub skipped : Bool

pub record Processed : Type 0 where
  pub result : Option Failure
  pub stats : Stats
  pub actions : List Action

unfoldable pub bool_differs : Bool → Bool → Bool
bool_differs true b = not b
bool_differs false b = b

module _ (d : Disk) where
  unfoldable pub files_need_copy : Text → Text → Bool
  files_need_copy source destination = elim (d.stat source) [
    | none ↦ false
    | some a ↦ elim (d.stat destination) [
      | none ↦ true
      | some b ↦
          bool_differs a.is_directory b.is_directory
          || not (a.size == b.size)
          || not (a.mtime_ns == b.mtime_ns)
    ]
  ]

-- `syseba_stats_increment` of the counter for a copy.
unfoldable pub count_copy : EventKind → Stats → Stats
count_copy create stats = record stats { copied = inc64 stats.copied }
count_copy _ stats = record stats { updated = inc64 stats.updated }

unfoldable pub initial_progress : Bool → Bool → Stats → Stats
initial_progress copied skipped stats = record stats {
  initial_done = inc64 stats.initial_done;
  initial_copied = if copied then inc64 stats.initial_copied else stats.initial_copied;
  initial_skipped = if skipped then inc64 stats.initial_skipped else stats.initial_skipped;
}

-- The count of a file that is not copied.
unfoldable pub skip : Stats → Handled
skip stats = record {
  result = none;
  stats = record stats { skipped = inc64 stats.skipped };
  actions = [];
  copied = false;
  skipped = true;
}

module _ (d : Disk) (dirs : Directories) where
  -- The paths below backup and restore that stand for a path below the source.
  unfoldable pub event_paths : Text → Option (Text × Text)
  event_paths path = elim (relative_path d.view dirs.source path path_max) [
    | none ↦ none
    | some relative ↦ elim (safe_join d.view dirs.backup relative path_max) [
      | none ↦ none
      | some backup ↦ elim (safe_join d.view dirs.restore relative path_max) [
        | none ↦ none
        | some restore ↦ some (backup, restore)
      ]
    ]
  ]

module _ (d : Disk) where
  -- A directory that was created or modified.
  unfoldable pub handle_directory : Stats → Text → Handled
  handle_directory stats backup = record {
    result = if is_success (d.answer (mkdirs backup)) then none else some err;
    stats = stats;
    actions = mkdirs backup ∷ [];
    copied = false;
    skipped = false;
  }

  -- `syseba_copy_file` and what follows.
  unfoldable pub handle_copy : Event → Stats → Text → Handled
  unfolding count_copy
  handle_copy e stats backup = record {
    result = copy_result (d.answer (copy_file e.path backup));
    stats =
        if is_success (d.answer (copy_file e.path backup)) then count_copy e.kind stats else stats;
    actions = copy_file e.path backup ∷ [];
    copied = is_success (d.answer (copy_file e.path backup));
    skipped = false;
  }

  unfoldable pub handle_change : Event → Stats → Text → Handled
  unfolding files_need_copy handle_directory handle_copy skip
  handle_change e stats backup =
      if e.is_directory
      then handle_directory stats backup
      else if not (d.is_regular e.path)
      then skip stats
      else if not (files_need_copy d e.path backup)
      then skip stats
      else handle_copy e stats backup

  -- `syseba_move_path` and what follows.
  unfoldable pub handle_move : Stats → Text → Text → Handled
  handle_move stats backup destination = record {
    result = if is_success (d.answer (move_path backup destination)) then none else some err;
    stats =
        if is_success (d.answer (move_path backup destination))
        then record stats { deleted = inc64 stats.deleted }
        else stats;
    actions = move_path backup destination ∷ [];
    copied = false;
    skipped = false;
  }

module _ (d : Disk) (stamp : Text) where
  unfoldable pub handle_delete : Stats → Text → Text → Handled
  unfolding handle_move
  handle_delete stats backup restore =
      if not (d.view.exists backup)
      then record { result = none; stats = stats; actions = []; copied = false; skipped = false }
      else elim (unique_restore_path d.view.exists stamp restore path_max) [
        | none ↦ record {
          result = some err;
          stats = stats;
          actions = [];
          copied = false;
          skipped = false;
        }
        | some destination ↦ handle_move d stats backup destination
      ]

  unfoldable pub handle_event : Event → Stats → Text → Text → Handled
  unfolding handle_change handle_delete
  handle_event e stats backup restore = elim e.kind [
    | create ↦ handle_change d e stats backup
    | modify ↦ handle_change d e stats backup
    | delete ↦ handle_delete stats backup restore
  ]

-- From the label `completed` on.
unfoldable pub complete : Event → Handled → Processed
unfolding initial_progress
complete e handled = record {
  result = handled.result;
  stats =
      if e.initial_sync && not e.is_directory
      then initial_progress handled.copied handled.skipped handled.stats
      else handled.stats;
  actions = handled.actions;
}

module _ (d : Disk) (dirs : Directories) (stamp : Text) where
  unfoldable pub process_event : Event → Stats → Processed
  unfolding event_paths handle_event complete
  process_event e stats = elim (event_paths d dirs e.path) [
    | none ↦ record { result = some invalid; stats = stats; actions = [] }
    | some (backup, restore) ↦ complete e (handle_event d stamp e stats backup restore)
  ]
