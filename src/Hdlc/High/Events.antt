-- ===== src/Hdlc/High/Events.antt =====
-- The event group of src/proto/hdlc/high_level.rs: the value under the lock is the state. Every method that waits
-- borrows its handle exclusively, so that no bit is set during a wait.
use tinyproto_rust.Base.{ℕ, bit_and, bit_or, bit_xor, Option, none, some, ◌==◌, ◌&&◌, if◌then◌else◌}

abbrev pub new : ℕ
new = 0

abbrev pub set : ℕ → ℕ → ℕ
set events bits = bit_or events bits

-- `*guard &= !bits` on a `u8`
abbrev pub clear : ℕ → ℕ → ℕ
clear events bits = bit_and events (bit_xor bits 0xFF)

-- The bits found, and the events that are left.
abbrev pub check_and_clear : ℕ → ℕ → ℕ × ℕ
check_and_clear events bits = (bit_and events bits, clear events bits)

-- A wait without a limit for a bit that is not set does not end: `none`.
unfoldable pub wait : ℕ → ℕ → ℕ → Option (ℕ × ℕ)
wait events bits timeout_ms =
    if (timeout_ms == 0xFFFFFFFF) && (bit_and events bits == 0)
    then none
    else some (check_and_clear events bits)
