-- ===== src/Tests.antt =====
-- Runs on concrete inputs, and the theorems applied to them.
mod Crc
mod Hdlc
mod Fd
mod Light
mod High
mod Protocol
mod Delivery
pub mod Session
pub mod Node
