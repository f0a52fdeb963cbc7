-- ===== src/Modules.antt =====
-- The kernel of the feature modules: packages/host/src/module-kernel.ts.
pub mod Kernel
pub mod Concurrency
pub mod Registry
pub mod Ownership
mod KernelTests
mod RegistryTests
