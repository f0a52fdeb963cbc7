-- ===== src/Admission.antt =====
-- The admission of work to the Host: packages/host/src/storage-protection.ts and
-- packages/host/src/capacity-admission.ts.
pub mod Storage
pub mod Capacity
pub mod Bounds
mod AdmissionTests
