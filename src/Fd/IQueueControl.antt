-- ===== src/Fd/IQueueControl.antt =====
-- src/proto/fd/i_queue_control.rs: the sequence numbers of the sliding window. A `u8` sum is masked
-- to three bits at once, so that wrapping at 256 makes no difference.
pub mod Window
pub mod Confirm
use tinyproto_rust.Base.{
  ℕ, zero, suc, ◌+◌, ◌-◌, ◌%◌, bit_and, Bool, true, false, not, Option, none, some, ◌==◌,
  if◌then◌else◌, u8,
}
use tinyproto_rust.Fd.Defines.{seq_bits_mask}

pub record IQueueControlSend : Type 0 where
  pub last_ns : ℕ
  pub confirm_ns : ℕ
  pub next_ns : ℕ

pub record IQueueControlRecv : Type 0 where
  pub next_nr : ℕ

pub record IQueueControl : Type 0 where
  pub tx_state : IQueueControlSend
  pub rx_state : IQueueControlRecv

abbrev pub new : IQueueControl
new = record {
  tx_state = record { last_ns = 0; confirm_ns = 0; next_ns = 0 };
  rx_state = record { next_nr = 0 };
}

-- Each of the four numbers is set to 0.
unfoldable pub reset : IQueueControl → IQueueControl
reset c = record c {
  tx_state = record (c.tx_state) { last_ns = 0; confirm_ns = 0; next_ns = 0 };
  rx_state = record (c.rx_state) { next_nr = 0 };
}

abbrev pub get_next_frame_to_confirm : IQueueControl → ℕ
get_next_frame_to_confirm c = c.tx_state.confirm_ns

-- `(n + 1) & SEQ_BITS_MASK`
unfoldable pub next_number : ℕ → ℕ
next_number n = bit_and (n + 1) seq_bits_mask

-- The loop of `confirm_sent_frames`. The callback works on a state `S` of the caller; `none` means
-- that the fuel ran out before the loop ended.
unfoldable pub confirm_loop {ℓ} :
    {S : Type ℓ}
    → ℕ
    → (S → ℕ → S × Bool)
    → ℕ
    → S
    → IQueueControl
    → Bool
    → Option (S × IQueueControl × Bool)
confirm_loop zero on_confirm nr s c confirmed = none
confirm_loop (suc fuel) on_confirm nr s c confirmed =
    let (s', go_on) = on_confirm s c.tx_state.confirm_ns in
    let moved = record c {
      tx_state = record (c.tx_state) { confirm_ns = next_number c.tx_state.confirm_ns };
    } in
    let rest = confirm_loop fuel on_confirm nr s' moved true in
    if c.tx_state.confirm_ns == nr
    then some (s, c, confirmed)
    else if not go_on
    then some (s', c, confirmed)
    else rest

-- Eight rounds suffice for numbers of three bits.
unfoldable pub confirm_sent_frames {ℓ} :
    {S : Type ℓ} → (S → ℕ → S × Bool) → S → IQueueControl → ℕ → Option (S × IQueueControl × Bool)
confirm_sent_frames on_confirm s c nr = confirm_loop 8 on_confirm nr s c false

unfoldable pub retransmit_frame : IQueueControl → ℕ → (ℕ → Bool) → IQueueControl × Bool
retransmit_frame c nr on_retransmit =
    if c.tx_state.next_ns == nr
    then (c, false)
    else (record c { tx_state = record (c.tx_state) { next_ns = nr } }, on_retransmit nr)

abbrev pub get_last_ns : IQueueControl → ℕ
get_last_ns c = c.tx_state.last_ns

abbrev pub get_next_frame_to_send : IQueueControl → ℕ
get_next_frame_to_send c = c.tx_state.next_ns

abbrev pub get_next_frame_to_receive : IQueueControl → ℕ
get_next_frame_to_receive c = c.rx_state.next_nr

unfoldable pub move_to_next_frame_to_receive : IQueueControl → IQueueControl
move_to_next_frame_to_receive c = record c {
  rx_state = record (c.rx_state) { next_nr = next_number c.rx_state.next_nr };
}

-- `wrapping_sub(1)` on a `u8`, masked.
unfoldable pub move_to_previous_ns : IQueueControl → IQueueControl
move_to_previous_ns c = record c {
  tx_state = record (c.tx_state) {
    last_ns = bit_and (u8 (c.tx_state.last_ns + 256 - 1)) seq_bits_mask;
  };
}

unfoldable pub move_to_next_ns : IQueueControl → IQueueControl
move_to_next_ns c = record c {
  tx_state = record (c.tx_state) { last_ns = next_number c.tx_state.last_ns };
}

unfoldable pub advance_next_ns : IQueueControl → IQueueControl
advance_next_ns c = record c {
  tx_state = record (c.tx_state) { next_ns = next_number c.tx_state.next_ns };
}

unfoldable pub has_unconfirmed_frames : IQueueControl → Bool
has_unconfirmed_frames c = not (c.tx_state.confirm_ns == c.tx_state.last_ns)

unfoldable pub all_frames_are_sent : IQueueControl → Bool
all_frames_are_sent c = c.tx_state.next_ns == c.tx_state.last_ns

unfoldable pub tx_full : IQueueControl → Bool
tx_full c = next_number c.tx_state.last_ns == c.tx_state.confirm_ns
