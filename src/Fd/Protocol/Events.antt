-- ===== src/Fd/Protocol/Events.antt =====
-- The event group of src/proto/fd/protocol.rs. The value under the lock is the state. Every method of
-- the protocol that reads or writes it borrows the handle exclusively, so that no bit changes during a wait:
-- a wait returns what it finds, at once or when its time is over.
use tinyproto_rust.Base.{ℕ, bit_and, bit_or, bit_xor}

abbrev pub new : ℕ
new = 0

abbrev pub set : ℕ → ℕ → ℕ
set events bits = bit_or events bits

-- `*guard &= !bits` on a `u8`
abbrev pub clear : ℕ → ℕ → ℕ
clear events bits = bit_and events (bit_xor bits 0xFF)

abbrev pub wait : ℕ → ℕ → ℕ
wait events bits = bit_and events bits
