-- ===== src/Tests.antt =====
-- Tests of the definitions at fixed inputs, and the theorems at concrete ones.
pub mod Fixtures
pub mod PathRuns
pub mod WebRuns
pub mod WalkRuns
pub mod SnapshotRuns
pub mod QueueRuns
pub mod ConfigRuns
pub mod RestoreRuns
pub mod AppRuns
pub mod CliRuns
pub mod FilesRuns
pub mod LogRuns
pub mod ServiceRuns
pub mod SyncRuns
