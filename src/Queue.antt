-- ===== src/Queue.antt =====
-- queue/: tasks that run in the background.
pub mod Exec
pub mod Retries
pub mod Counts
pub mod Closing
pub mod Accepted
