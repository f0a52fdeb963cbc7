-- ===== src/Launcher.antt =====
-- The launcher of the Host: packages/launcher/src.
pub mod Supervisor
pub mod Startup
mod StartupTests
pub mod Program
pub mod HostLifecycle
pub mod Orderly
pub mod OrderlyRun
pub mod Resumption
pub mod Waiting
pub mod WindowsShutdown
mod LifecycleTests
pub mod Activation
pub mod Atomicity
pub mod Recovery
pub mod Quiescence
mod ActivationTests
