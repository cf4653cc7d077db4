-- ===== src/Foundation.antt =====
-- foundation/: the service container and the application's life cycle.
pub mod Container
pub mod Singleton
pub mod Remade
pub mod Application
pub mod Boot
pub mod Later
pub mod Calm
pub mod Deferred
pub mod Waits
pub mod Script
pub mod Follows
pub mod Kept
pub mod BootOrder
pub mod Phases
