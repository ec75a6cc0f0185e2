-- ===== src/Fd/Protocol.antt =====
-- src/proto/fd/protocol.rs: the full-duplex protocol over the framer, the queues and the peers.
pub mod Events
pub mod Defs
pub mod Send
pub mod Connect
pub mod Handlers
pub mod Receive
pub mod Timers
pub mod Transmit
pub mod Valid
pub mod Outcome
