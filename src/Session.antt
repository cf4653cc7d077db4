-- ===== src/Session.antt =====
-- http/session/: sessions and their store in memory.
pub mod Data
pub mod Store
pub mod RoundTrip
pub mod Ends
pub mod Flashes
pub mod Manager
pub mod Visits
