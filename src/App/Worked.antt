-- ===== src/App/Worked.antt =====
-- Every event that a worker of src/app.c processes is counted.
use sy_se_ba.Prelude.{
  ℕ, ◌+◌, ◌≡◌, false, ◌&&◌, Option, none, some, List, [], ◌∷◌, if◌then◌else◌, Bool, true,
}
use sy_se_ba.Prelude.Text.{Text}
use sy_se_ba.Config.{Failure, err, invalid, not_found, permission}
use sy_se_ba.App.{
  Answer, vanished, Event, Stats, Disk, Directories, Handled, Processed, copy_file, files_need_copy,
  event_paths,
}
use sy_se_ba.App.Counts.{total, is_delete}
use sy_se_ba.App.Worker.{Job}

-- The counters of what was done and of what failed.
abbrev pub accounted : Stats → ℕ
accounted stats = total stats + stats.errors

-- A file that vanished meanwhile is passed over.
unfoldable pub account_of : Option Failure → ℕ
account_of none = 1
account_of (some not_found) = 0
account_of (some err) = 1
account_of (some invalid) = 1
account_of (some permission) = 1

-- The events are about files that were created or modified.
unfoldable pub AreChanges : List (Option Job) → Type 0
AreChanges [] = Unit
AreChanges (none ∷ pops) = AreChanges pops
AreChanges (some j ∷ pops) =
    (j.event.is_directory ≡ false) × (is_delete j.event.kind ≡ false) × AreChanges pops

abbrev is_vanished : Answer → Bool
is_vanished vanished = true
is_vanished _ = false

module _ (d : Disk) (e : Event) where
  -- The file is to be copied, and is gone when it is opened.
  unfoldable pub is_gone : Text → Bool
  is_gone backup =
      d.is_regular e.path
      && files_need_copy d e.path backup
      && is_vanished (d.answer (copy_file e.path backup))

  abbrev weight : Text → ℕ
  weight backup = if is_gone backup then 0 else 1

  abbrev Weighs : Text → Handled → Type 0
  Weighs backup handled = account_of handled.result ≡ weight backup

module _ (dirs : Directories) where
  unfoldable is_gone_at : Job → Option (Text × Text) → Bool
  is_gone_at j none = false
  is_gone_at j (some (backup, restore)) = is_gone j.disk j.event backup

  -- Whether the file of the event is to be copied, and vanished meanwhile.
  unfoldable pub is_passed_over : Job → Bool
  unfolding is_gone_at
  is_passed_over j = is_gone_at j (event_paths j.disk dirs j.event.path)

  abbrev ProcessedWeighs : Bool → Processed → Type 0
  ProcessedWeighs gone processed = account_of processed.result ≡ (if gone then 0 else 1)

  -- How many of the events do not vanish.
  unfoldable pub count_events : List (Option Job) → ℕ
  unfolding is_passed_over
  count_events [] = 0
  count_events (none ∷ pops) = count_events pops
  count_events (some j ∷ pops) = (if is_passed_over j then 0 else 1) + count_events pops
