-- ===== src/Client.antt =====
-- The client's copy of the Host's state: apps/client/src/client-store.ts.
pub mod Timeline
pub mod Projection
pub mod Discovery
pub mod Attention
pub mod Catalog
mod ClientTests
