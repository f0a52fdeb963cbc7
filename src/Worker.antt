-- ===== src/Worker.antt =====
-- The protocol between the Host and the worker of a Session:
-- packages/worker-protocol/src/index.ts and packages/protocol/src/input-image.ts.
pub mod Frame
pub mod FrameSchema
pub mod Protocol
pub mod Transport
pub mod Framing
pub mod Rounds
pub mod Chunks
pub mod Delivery
pub mod Queue
pub mod Conversation
pub mod Admittance
pub mod Sequence
pub mod Lifecycle
pub mod LifecycleHistory
pub mod LifecycleFinal
mod WorkerTests
