-- ===== src/Tests.antt =====
-- Concrete inputs: tests of the definitions, and the theorems applied to them.
pub mod OfScanner
pub mod OfEnv
pub mod OfCompose
pub mod OfAudit
pub mod OfDex
pub mod OfSelfTest
