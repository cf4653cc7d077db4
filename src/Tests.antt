-- ===== src/Tests.antt =====
-- Runs of the models on small inputs, and instances of the theorems.
mod IdTests
mod CacheTests
mod LimitTests
mod FoundationTests
mod SessionTests
mod GateTests
mod QueueTests
mod EventTests
mod OrmTagTests
mod ApplicationTests
mod ScheduleTests
mod TagTests
