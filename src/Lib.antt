-- ===== src/Lib.antt =====
-- SySeBa mirrors a source directory into a backup, moves what is deleted from the source into a
-- restore directory, and is run from a command line and a web page. A watcher sees changes in the
-- source and puts events into a queue; workers take them and copy, update or move files; a log writer
-- has a queue of its own. The configuration names the three directories and the log. Paths from
-- clients and events are confined to the directories before they are used.
--
-- The development models the POSIX build. Texts are lists of bytes without the terminator; a call that
-- returns an error code yields none, or a failure where callers tell codes apart. What the operating
-- system does is a parameter: getcwd, lstat, realpath, the listings of directories, calloc, clocks, and
-- the answers of read, write and the calls that change the disk. A list of answers of read or write is
-- followed by calls that succeed, so a loop that EINTR interrupts for ever is left out.
--
-- Files and the code they are about:
--  * Prelude and its children: shared names, lists, C strings, strtoul and "%u".
--  * Trim: syseba_trim of src/config.c, and syseba_trim_token of src/web.c.
--  * FilePath: syseba_path_real and syseba_parent_dir of src/platform.c. Canonical says what a canonical
--    path is; Tokens, Real and Fixed are about the steps of syseba_path_real.
--  * Confine: syseba_path_resolve_links, syseba_path_is_within, syseba_safe_join and
--    syseba_relative_path of src/config.c.
--  * Config: syseba_config_find, _load, _validate, _normalize and _save of src/config.c. Config.antt has
--    the parser of the file, Paths the resolution of its values, Validate the check, Load the loader,
--    Saved the writer, Roundtrip, Setting and Reload what is read back of what was written.
--  * Walk: syseba_walk_files of src/fs.c with errno as part of the state. Visits, Errno, Invariant
--    and Gathers are about the callback's calls, failure, what the walk keeps and what it makes of the
--    paths so far.
--  * Files: directories, copies, removals and moves on a disk. Files.antt has syseba_mkdirs
--    of src/platform.c and Mkdirs what it guarantees; Copy has syseba_copy_file of src/fs.c, Copied and Atomic what it leaves;
--    Remove has syseba_remove_path, Tree syseba_copy_tree, Move syseba_move_path, and Moved what it
--    leaves.
--  * Log: of src/log.c the recent lines (Written, Shown) with their part of syseba_app_status_json of
--    src/app.c, and syseba_log_tail (Lines, Tail). Ring is about slots written in turn.
--  * Restore: of src/fs.c what serves the restore directory. Search has syseba_contains_case_insensitive,
--    Order the comparators and Pages the paging of syseba_restore_list, Names the two functions that
--    make unique names, Item the decisions of syseba_restore_item and Careful what they guarantee.
--  * Snapshot: src/watcher_poll.c. Table, Mark and Lookup are about the hash table, Build and Insert
--    about its construction, Reconcile about the comparison of two snapshots, Poll about the thread.
--  * Queue: src/queue.c on an explicit heap. Linked has the list segments, Fifo the refinement of a
--    list by each operation, Runs that of a sequence of them, Drain the wait for an
--    empty queue and its destruction.
--  * Web: of src/web.c the token check (Auth), the choice of the handler (Router) and the token's
--    origin (Token).
--  * App: of src/app.c the processing of events. Effects, Counts and Mirror are about its calls, its
--    counters and the paths it maps; Enqueue has syseba_app_enqueue_internal. Service has
--    syseba_app_start and syseba_app_stop with what they call of src/log.c, src/watcher.c and
--    src/web.c; Settled, Stage, Steps and Start are about what they leave running. Sync has
--    syseba_app_initial_sync, Visited and Passed what its callback does at a path while other threads
--    take events, and Synced its outcome; Worker has the loop of the workers, Errors the
--    counter that processing leaves alone, and Worked what the loop counts.
--  * Cli: of src/cli.c the defaults and the parsing of options. Settings has the defaults and how one
--    option is set; Within and Kept are about the bounds of what is accepted, Values, Arguments and
--    Line about options written as arguments.
--  * Tests: runs at fixed inputs.
--
-- How the parts interact: the loader uses the path functions to resolve values and the containment
-- test to check them; the snapshot is built by a callback of the walk; the poll thread compares
-- snapshots and enqueues changes; the worker maps an event's path below the source to the backup by
-- syseba_relative_path and syseba_safe_join; a restore confines the path that a client names to the
-- restore directory by syseba_safe_join before it asks what exists; a save of the configuration makes
-- the parent and replaces the file by syseba_mkdirs and syseba_atomic_replace; a start creates the threads of the
-- log, the workers, the watcher and the initial synchronisation, which walks the source twice and
-- queues what it finds; the web page shows the recent lines that the log keeps.
--
-- Fuel: the loop over parents takes one round for each byte of the path and one more; the loop over
-- the lines of a file takes its length, since each line has a byte; the printing of a number takes
-- the number; the sleep takes the interval; destroying a queue takes the number of its nodes; the
-- tail of the log takes the size of the file; a unique name is sought 100000 times, as in the code.
-- Counters and hashes wrap at 64 bits where the code's do. Lengths that snprintf compares as int
-- stay below the sizes of the buffers concerned, which are at most 4223 bytes.
--
-- Not modelled: the writing of the log, the commands behind the options and the bodies of the web
-- handlers; output on terminals, the database, services and the other systems' watchers; the
-- vendored libraries.
pub mod Prelude
pub mod Trim
pub mod FilePath
pub mod Confine
pub mod Walk
pub mod Files
pub mod Log
pub mod Restore
pub mod Snapshot
pub mod Queue
pub mod Config
pub mod Web
pub mod App
pub mod Cli
pub mod Tests
