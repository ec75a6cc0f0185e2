-- ===== src/Crc.antt =====
-- src/proto/crc.rs
mod Tables
pub mod Register
mod Table
pub mod Serial
pub mod Burst
pub mod Crc8
pub mod Crc16
pub mod Crc32
use tinyproto_rust.Base.{ℕ}

-- The CRC modes for HDLC framing.
pub data HdlcCrcT : Type 0 where
  hdlc_crc_default hdlc_crc8 hdlc_crc16 hdlc_crc32 hdlc_crc_off : HdlcCrcT

-- The size in bytes of the CRC field.
abbrev pub get_crc_field_size : HdlcCrcT → ℕ
get_crc_field_size hdlc_crc_off = 0
get_crc_field_size hdlc_crc8 = 1
get_crc_field_size hdlc_crc16 = 2
get_crc_field_size hdlc_crc32 = 4
get_crc_field_size _ = 4
