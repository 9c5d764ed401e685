-- ===== src/App/Mirror.antt =====
-- Where the copy of a file goes: to the same names below the backup, and from there to the same
-- names below the restore directory.
use sy_se_ba.Prelude.{◌≡◌, refl, true, false, some, List, [], ◌∷◌, ◌++◌}
use sy_se_ba.Prelude.Text.{Text}
use sy_se_ba.FilePath.{path_max}
use sy_se_ba.FilePath.Canonical.{render}
use sy_se_ba.Confine.Mirror.{IsUnlinked, relative_path-render, safe_join-slashed}
use sy_se_ba.Snapshot.{EventKind, create, modify, delete}
use sy_se_ba.Restore.Names.{unique_restore_path}
use sy_se_ba.FilePath.Real.{copy_within_short}
use sy_se_ba.App.Counts.{is_delete}
use sy_se_ba.App.{
  Handled, Event, Stats, Action, copy_file, move_path, Disk, Directories, files_need_copy,
  event_paths, handle_copy, handle_change, handle_move, handle_delete, handle_event, complete,
  process_event,
}

module _ (d : Disk) (stamp : Text) (sources backups restores : List Text) (r : Text)
    (rs : List Text) where
  -- The three directories, and the same names below each of them, lead through no links.
  pub record IsMirrored : Type 0 where
    pub source : IsUnlinked d.view sources r rs path_max
    pub backup : IsUnlinked d.view backups r rs path_max
    pub restore : IsUnlinked d.view restores r rs path_max

  abbrev pub directories : Directories
  directories = record {
    source = render sources;
    backup = render backups;
    restore = render restores;
  }

  event_paths-render :
      IsMirrored
      → event_paths d directories (render (sources ++ r ∷ rs))
        ≡ some (render (backups ++ r ∷ rs), render (restores ++ r ∷ rs))
  unfolding event_paths
  event_paths-render m =
      rw
        (
          relative_path-render d.view sources r rs path_max m.source,
          event_paths,
          safe_join-slashed d.view backups r rs path_max m.backup,
          event_paths,
          safe_join-slashed d.view restores r rs path_max m.restore,
        )
        refl

  Calls : List Action → Handled → Type 0
  Calls actions handled = handled.actions ≡ actions

  copy_actions :
      (kind : EventKind) (e : Event) (stats : Stats) (from to restore : Text)
      → is_delete kind ≡ false
      → e.path ≡ from
      → e.is_directory ≡ false
      → d.is_regular from ≡ true
      → files_need_copy d from to ≡ true
      → Calls (copy_file from to ∷ []) (elim kind [
        | create ↦ handle_change d e stats to
        | modify ↦ handle_change d e stats to
        | delete ↦ handle_delete d stamp stats to restore
      ])
  unfolding handle_change handle_copy Calls
  copy_actions create e stats from to restore k path file regular needed =
      rw (file, path, regular, needed) refl
  copy_actions modify e stats from to restore k path file regular needed =
      rw (file, path, regular, needed) refl
  copy_actions delete e stats from to restore k path file regular needed = cc

  -- For source, backup and restore directories and names below them that lead through no links
  -- and fit their buffers, the creation or modification of a regular file at these names below
  -- the source that differs from its copy makes exactly one call, which copies it to the same
  -- names below the backup.
  pub process_event-copies :
      (e : Event) (stats : Stats)
      → IsMirrored
      → e.path ≡ render (sources ++ r ∷ rs)
      → is_delete e.kind ≡ false
      → e.is_directory ≡ false
      → d.is_regular (render (sources ++ r ∷ rs)) ≡ true
      → files_need_copy d (render (sources ++ r ∷ rs)) (render (backups ++ r ∷ rs)) ≡ true
      → (process_event d directories stamp e stats).actions
        ≡ copy_file (render (sources ++ r ∷ rs)) (render (backups ++ r ∷ rs)) ∷ []
  unfolding process_event complete handle_event Calls
  process_event-copies e stats m path kind file regular needed =
      rw (path, process_event, event_paths-render m)
        (copy_actions e.kind e stats (render (sources ++ r ∷ rs)) (render (backups ++ r ∷ rs))
          (render (restores ++ r ∷ rs)) kind path file regular needed)

  -- For source, backup and restore directories and names below them that lead through no links
  -- and fit their buffers, the deletion of the path at these names below the source, where its
  -- backup exists and the names below the restore directory are free, makes exactly one call,
  -- which moves the backup to the same names below the restore directory.
  pub process_event-moves :
      (e : Event) (stats : Stats)
      → IsMirrored
      → e.path ≡ render (sources ++ r ∷ rs)
      → e.kind ≡ delete
      → d.view.exists (render (backups ++ r ∷ rs)) ≡ true
      → d.view.exists (render (restores ++ r ∷ rs)) ≡ false
      → (process_event d directories stamp e stats).actions
        ≡ move_path (render (backups ++ r ∷ rs)) (render (restores ++ r ∷ rs)) ∷ []
  unfolding process_event complete handle_event handle_delete handle_move unique_restore_path
  process_event-moves e stats m path kind there free =
      rw
        (
          path,
          process_event,
          event_paths-render m,
          kind,
          there,
          free,
          copy_within_short path_max (render (restores ++ r ∷ rs)) m.restore.whole_fits,
        )
        refl
