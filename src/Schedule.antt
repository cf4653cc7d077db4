-- ===== src/Schedule.antt =====
-- schedule/: tasks, their guards and the scheduler.
pub mod Task
pub mod Running
pub mod Cron
pub mod Normal
pub mod Fields
