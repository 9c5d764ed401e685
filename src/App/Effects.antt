-- ===== src/App/Effects.antt =====
-- What the processing of an event may do to the disk, and what it counts.
use sy_se_ba.Prelude.{
  if_both, ◌≡◌, refl, ap, false, not, Option, none, some, List, [], ◌∷◌, bind-eq-some, ◌∙◌,
}
use sy_se_ba.Prelude.Text.{Text}
use sy_se_ba.FilePath.{path_max}
use sy_se_ba.FilePath.Canonical.{IsCanonical}
use sy_se_ba.Confine.{relative_path, safe_join}
use sy_se_ba.Confine.Join.{IsContained, safe_join-IsContained}
use sy_se_ba.Config.{err, invalid}
use sy_se_ba.Snapshot.{EventKind, create, modify, delete}
use sy_se_ba.Restore.Names.{unique_restore_path, unique_restore_path-fresh}
use sy_se_ba.App.{
  Event, Stats, Action, mkdirs, copy_file, move_path, Disk, Directories, Handled, Processed,
  files_need_copy, skip, event_paths, handle_directory, handle_copy, handle_change, handle_move,
  handle_delete, handle_event, complete, process_event,
}

module _ (d : Disk) (dirs : Directories) (stamp : Text) (e : Event) where
  -- A canonical path inside the backup.
  pub record IsBackup (path : Text) : Type 0 where
    pub canonical : IsCanonical path
    pub inside : IsContained d.view dirs.backup path

  -- Directories and copies go into the backup, a copy is one of the event's path, and what is moved
  -- comes from the backup and goes where nothing was.
  pub data IsConfined : Action → Type 0 where
    makes : (path : Text) → IsBackup path → IsConfined (mkdirs path)
    copies : (path : Text) → IsBackup path → IsConfined (copy_file e.path path)
    moves :
        (from to : Text) → IsBackup from → d.view.exists to ≡ false → IsConfined (move_path from to)

  abbrev pub AllConfined : List Action → Type 0
  AllConfined [] = Unit
  AllConfined (a ∷ rest) = IsConfined a × AllConfined rest

  -- The calls of a handled event are confined.
  Calm : Handled → Type 0
  Calm handled = AllConfined handled.actions

  handle_change-Calm :
      (stats : Stats) (backup : Text) → IsBackup backup → Calm (handle_change d e stats backup)
  unfolding handle_change handle_directory handle_copy skip Calm
  handle_change-Calm stats backup h =
      if_both Calm e.is_directory _ _ (makes backup h, tt)
        (if_both Calm (not (d.is_regular e.path)) _ _ tt
          (if_both Calm (not (files_need_copy d e.path backup)) _ _ tt (copies backup h, tt)))

  handle_delete-Calm :
      (stats : Stats) (backup restore : Text)
      → IsBackup backup
      → Calm (handle_delete d stamp stats backup restore)
  unfolding handle_delete handle_move Calm
  handle_delete-Calm stats backup restore h =
      if_both Calm (not (d.view.exists backup)) _ _ tt
        (by_name (unique_restore_path d.view.exists stamp restore path_max) refl)
    where
      by_name :
          (o : Option Text)
          → unique_restore_path d.view.exists stamp restore path_max ≡ o
          → Calm (elim o [
            | none ↦ record {
              result = some err;
              stats = stats;
              actions = [];
              copied = false;
              skipped = false;
            }
            | some destination ↦ handle_move d stats backup destination
          ])
      by_name none u = tt
      by_name (some destination) u = (
        moves backup destination h
            (unique_restore_path-fresh d.view.exists stamp restore destination path_max u).0,
        tt,
      )

  handle_event-Calm :
      (kind : EventKind) (stats : Stats) (backup restore : Text)
      → IsBackup backup
      → Calm (elim kind [
        | create ↦ handle_change d e stats backup
        | modify ↦ handle_change d e stats backup
        | delete ↦ handle_delete d stamp stats backup restore
      ])
  handle_event-Calm create stats backup restore h = handle_change-Calm stats backup h
  handle_event-Calm modify stats backup restore h = handle_change-Calm stats backup h
  handle_event-Calm delete stats backup restore h = handle_delete-Calm stats backup restore h

  event_paths-IsBackup :
      (path backup restore : Text)
      → event_paths d dirs path ≡ some (backup, restore)
      → IsBackup backup
  unfolding event_paths
  event_paths-IsBackup path backup restore h =
      let (relative, _, more) = bind-eq-some (relative_path d.view dirs.source path path_max) _ h in
      let (found, joined, last) =
        bind-eq-some (safe_join d.view dirs.backup relative path_max) _ more in
      let (other, _, same) =
        bind-eq-some (safe_join d.view dirs.restore relative path_max) _ last in
      let (canonical, _, inside) =
        safe_join-IsContained d.view dirs.backup relative backup path_max
          (joined ∙ ap some (first found other same)) in
      record { canonical = canonical; inside = inside }
    where
      first :
          (found other : Text)
          → ◌≡◌ {A = Option (Text × Text)} (some (found, other)) (some (backup, restore))
          → found ≡ backup
      first found other same = cc

  Confined : Processed → Type 0
  Confined processed = AllConfined processed.actions

  -- Of the calls that syseba_app_process_event makes, for any event, those of syseba_mkdirs and
  -- syseba_copy_file write to a canonical path that is inside the backup with all links resolved,
  -- a copy reads the event's path, and those of syseba_move_path take such a path of the backup
  -- to a path that did not exist.
  pub process_event-confined :
      (stats : Stats) → AllConfined (process_event d dirs stamp e stats).actions
  unfolding process_event complete handle_event Confined
  process_event-confined stats = by_paths (event_paths d dirs e.path) refl
    where
      by_paths :
          (o : Option (Text × Text))
          → event_paths d dirs e.path ≡ o
          → Confined (elim o [
            | none ↦ record { result = some invalid; stats = stats; actions = [] }
            | some (backup, restore) ↦ complete e (handle_event d stamp e stats backup restore)
          ])
      by_paths none h = tt
      by_paths (some (backup, restore)) h =
          unfold Calm in
          handle_event-Calm e.kind stats backup restore
            (event_paths-IsBackup e.path backup restore h)
