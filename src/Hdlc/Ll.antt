-- ===== src/Hdlc/Ll.antt =====
-- src/proto/hdlc/low_level_ll.rs: the streaming framer. A method that takes `&mut self` returns the
-- new framer. The receiver is in the child Rx and the transmitter in the child Tx.
pub mod Defs
pub mod Rx
pub mod Tx
pub mod Link
