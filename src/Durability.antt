-- ===== src/Durability.antt =====
-- Publication of files and trees in packages/durability/src/index.ts: what a candidate is, when two are
-- equivalent, the steps of a publication, and what every end of it leaves on the disk.
pub mod Candidate
pub mod Publication
pub mod Equivalence
pub mod Atomicity
pub mod Completion
pub mod PublicationTests
