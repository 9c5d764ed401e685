-- ===== src/App/Errors.antt =====
-- The processing of an event in src/app.c leaves the counter of errors alone.
use sy_se_ba.Prelude.{◌≡◌, refl, false, ◌&&◌, not, Option, none, some, [], if_both}
use sy_se_ba.Prelude.Text.{Text}
use sy_se_ba.Config.{err, invalid}
use sy_se_ba.Snapshot.{EventKind, create, modify, delete}
use sy_se_ba.Restore.Names.{unique_restore_path}
use sy_se_ba.FilePath.{path_max}
use sy_se_ba.App.{
  Event, Stats, Disk, Directories, Handled, Processed, skip, count_copy, initial_progress,
  is_success, copy_file, move_path, files_need_copy, handle_directory, handle_copy, handle_change,
  handle_move, handle_delete, handle_event, event_paths, complete, process_event,
}

-- The counter of errors is left alone by the processing itself.
module _ (d : Disk) (dirs : Directories) (stamp : Text) (e : Event) (stats : Stats) where
  abbrev Keeps : Handled → Type 0
  Keeps handled = handled.stats.errors ≡ stats.errors

  abbrev KeepsProcessed : Processed → Type 0
  KeepsProcessed processed = processed.stats.errors ≡ stats.errors

  count_copy-errors : (kind : EventKind) → (count_copy kind stats).errors ≡ stats.errors
  unfolding count_copy
  count_copy-errors create = refl
  count_copy-errors modify = refl
  count_copy-errors delete = refl

  handle_change-Keeps : (backup : Text) → Keeps (handle_change d e stats backup)
  unfolding handle_change handle_directory handle_copy skip
  handle_change-Keeps backup = if_both Keeps e.is_directory _ _ refl (
      if_both Keeps (not (d.is_regular e.path)) _ _ refl (
        if_both Keeps (not (files_need_copy d e.path backup)) _ _ refl (
          if_both (λ (s : Stats). s.errors ≡ stats.errors)
            (is_success (d.answer (copy_file e.path backup))) _ _ (count_copy-errors e.kind) refl)))

  handle_delete-Keeps : (backup restore : Text) → Keeps (handle_delete d stamp stats backup restore)
  unfolding handle_delete handle_move
  handle_delete-Keeps backup restore =
      if_both Keeps (not (d.view.exists backup)) _ _ refl
        (by_name (unique_restore_path d.view.exists stamp restore path_max))
    where
      by_name :
          (o : Option Text)
          → Keeps (elim o [
            | none ↦ record {
              result = some err;
              stats = stats;
              actions = [];
              copied = false;
              skipped = false;
            }
            | some destination ↦ handle_move d stats backup destination
          ])
      by_name none = refl
      by_name (some destination) =
          if_both (λ (s : Stats). s.errors ≡ stats.errors)
            (is_success (d.answer (move_path backup destination))) _ _ refl refl

  pub process_event-errors : (process_event d dirs stamp e stats).stats.errors ≡ stats.errors
  unfolding process_event handle_event complete initial_progress
  process_event-errors = by_paths (event_paths d dirs e.path)
    where
      by_kind :
          (kind : EventKind) (backup restore : Text)
          → Keeps (elim kind [
            | create ↦ handle_change d e stats backup
            | modify ↦ handle_change d e stats backup
            | delete ↦ handle_delete d stamp stats backup restore
          ])
      by_kind create backup restore = handle_change-Keeps backup
      by_kind modify backup restore = handle_change-Keeps backup
      by_kind delete backup restore = handle_delete-Keeps backup restore

      by_paths :
          (o : Option (Text × Text))
          → KeepsProcessed (elim o [
            | none ↦ record { result = some invalid; stats = stats; actions = [] }
            | some (backup, restore) ↦ complete e (handle_event d stamp e stats backup restore)
          ])
      by_paths none = refl
      by_paths (some (backup, restore)) =
          if_both (λ (s : Stats). s.errors ≡ stats.errors) (e.initial_sync && not e.is_directory) _
            _ (by_kind e.kind backup restore) (by_kind e.kind backup restore)
