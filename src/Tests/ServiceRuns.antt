-- ===== src/Tests/ServiceRuns.antt =====
-- A start and a stop at fixed answers of the system.
use sy_se_ba.Prelude.{Bool, true, false, ltb}
use sy_se_ba.App.Service.{
  Thread, log_writer, worker, watcher, initial_sync, Mode, Answers, fresh, start, stop,
}
use sy_se_ba.App.Settled.{IsDown}
use sy_se_ba.App.Stage.{IsSettled}
use sy_se_ba.App.Start.{start-IsSettled}

abbrev daemon : Mode
daemon = record { web_only = false; web_enabled = true; no_initial_sync = false; threads = 4 }

abbrev all_but : (Thread → Bool) → Answers
all_but create = record {
  runtime_paths = true;
  lock = record {
    opened = true;
    is_regular = true;
    locked = true;
    emptied = true;
    stream = true;
    written = true;
  };
  database = true;
  log_directory = true;
  workers_memory = true;
  create = create;
  address_fits = true;
  listen = true;
}

-- The worker of index 2 cannot be started.
abbrev two_workers : Thread → Bool
two_workers log_writer = true
two_workers (worker i) = ltb i 2
two_workers watcher = true
two_workers initial_sync = true

start-IsSettled_example :
    IsSettled daemon (start (all_but two_workers) daemon fresh)
    × IsDown (stop (start (all_but two_workers) daemon fresh).1)
start-IsSettled_example = start-IsSettled (all_but two_workers) daemon
