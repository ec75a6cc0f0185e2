-- ===== src/Fd.antt =====
-- src/proto/fd: the data structures of the full-duplex protocol.
pub mod Defines
pub mod Frames
pub mod IQueueControl
pub mod FrameQueue
pub mod Peers
pub mod Protocol
pub mod Delivery
pub mod Session
