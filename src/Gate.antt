-- ===== src/Gate.antt =====
-- gate/: who may do what.
pub mod Response
pub mod Policy
pub mod Inspect
pub mod Evidence
pub mod Granting
pub mod Decision
pub mod Faults
pub mod MethodNames
