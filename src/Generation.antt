-- ===== src/Generation.antt =====
-- Sealed generations of the Authority: the startup scan, the transitions and the retention of
-- packages/host/src/authority-generations.ts, and the canonical selection, the migration and the deletion
-- of the legacy authority of packages/host/src/authority-generation.ts.
pub mod Envelope
pub mod Scan
pub mod Found
pub mod Resolution
pub mod Activation
pub mod Removal
pub mod Cleaned
pub mod Cleanup
pub mod GenerationTests
pub mod Canonical
pub mod Walk
pub mod Lineage
pub mod Legacy
pub mod Deletion
pub mod Migration
pub mod CanonicalTests
pub mod Transition
pub mod Retention
