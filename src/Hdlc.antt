-- ===== src/Hdlc.antt =====
-- src/proto/hdlc: framing of byte slices by flags, escapes and a check sequence.
pub mod Stuffing
pub mod Ll
pub mod Encoder
pub mod High
pub mod Frame
pub mod Node
