-- ===== src/Fd/IQueueControl/Window.antt =====
-- The window of src/proto/fd/i_queue_control.rs: the numbers are taken modulo 8, and from the next
-- frame to be confirmed the next frame to send does not lie beyond the next free number.
use tinyproto_rust.Base.{
  ℕ, ◌+◌, ◌-◌, ◌%◌, ◌≤◌, ◌<◌, bit_and, Bool, true, false, ◌≡◌, sym, ap, ◌↔◌, not, refl, arith, ◌==◌,
  ==_iff,
}
use tinyproto_rust.Base.Bits.{holds_below, holds_below-lt}
use tinyproto_rust.Fd.IQueueControl.{
  IQueueControl, next_number, retransmit_frame, move_to_previous_ns, move_to_next_ns,
  advance_next_ns, has_unconfirmed_frames, all_frames_are_sent, tx_full,
}

mask_table : holds_below 256 (λ x. bit_and (x + 1) 0x07 == (x + 1) % 8) ≡ true
unfolding holds_below
mask_table = refl

pub next_number-mod : (n : ℕ) → n < 256 → next_number n ≡ (n + 1) % 8
unfolding next_number
next_number-mod n h = (==_iff _ ((n + 1) % 8)).0 (holds_below-lt 256 _ n mask_table h)

previous_table : holds_below 8 (λ n. bit_and ((bit_and (n + 1) 7 + 256 - 1) % 256) 7 == n) ≡ true
unfolding holds_below
previous_table = refl

previous-next_number : (n : ℕ) → n < 8 → bit_and ((next_number n + 256 - 1) % 256) 7 ≡ n
unfolding next_number
previous-next_number n h = (==_iff _ n).0 (holds_below-lt 8 _ n previous_table h)

not-false : (b : Bool) → not b ≡ false → b ≡ true
not-false true e = refl
not-false false e = sym e

-- How many steps lead from one number to the other.
abbrev pub distance : ℕ → ℕ → ℕ
distance from to = (to + 8 - from) % 8

pub record InWindow (c : IQueueControl) : Type 0 where
  pub last_lt : c.tx_state.last_ns < 8
  pub confirm_lt : c.tx_state.confirm_ns < 8
  pub next_lt : c.tx_state.next_ns < 8
  pub next_nr_lt : c.rx_state.next_nr < 8
  pub sent :
      distance c.tx_state.confirm_ns c.tx_state.next_ns
      ≤ distance c.tx_state.confirm_ns c.tx_state.last_ns

-- The frames that wait for an acknowledgement or to be sent.
abbrev pub allocated : IQueueControl → ℕ
allocated c = distance c.tx_state.confirm_ns c.tx_state.last_ns

-- The frames that are yet to be sent.
abbrev pub unsent : IQueueControl → ℕ
unsent c = distance c.tx_state.next_ns c.tx_state.last_ns

-- In its window the queue control is full exactly when seven frames are allocated, and the other
-- tests tell whether any are allocated and whether all of them are sent.
pub window-tests :
    (c : IQueueControl)
    → InWindow c
    → ((tx_full c ≡ true) ↔ (allocated c ≡ 7))
      × ((has_unconfirmed_frames c ≡ false) ↔ (allocated c ≡ 0))
      × ((all_frames_are_sent c ≡ true) ↔ (unsent c ≡ 0))
unfolding tx_full has_unconfirmed_frames all_frames_are_sent
window-tests c w = (
  (
    λ e. ground (arith, next_number-mod c.tx_state.last_ns),
    λ e. ground (arith, next_number-mod c.tx_state.last_ns),
  ),
  (
    λ e. ground (arith, not-false (c.tx_state.confirm_ns == c.tx_state.last_ns) e),
    λ e. ap not {x = c.tx_state.confirm_ns == c.tx_state.last_ns} {y = true} (ground arith),
  ),
  (λ e. ground arith, λ e. ground arith),
)

-- While the window is not full, `move_to_next_ns` keeps it and allocates one more frame, which is
-- yet to be sent.
move_to_next_ns-InWindow :
    (c : IQueueControl)
    → InWindow c
    → tx_full c ≡ false
    → InWindow (move_to_next_ns c)
      × (allocated (move_to_next_ns c) ≡ allocated c + 1)
      × (unsent (move_to_next_ns c) ≡ unsent c + 1)
unfolding tx_full move_to_next_ns
move_to_next_ns-InWindow c w h = ground (arith, next_number-mod c.tx_state.last_ns)

-- While a frame is yet to be sent, `advance_next_ns` keeps the window and counts it as sent, and it
-- stays allocated.
advance_next_ns-InWindow :
    (c : IQueueControl)
    → InWindow c
    → all_frames_are_sent c ≡ false
    → InWindow (advance_next_ns c)
      × (allocated (advance_next_ns c) ≡ allocated c)
      × (unsent (advance_next_ns c) + 1 ≡ unsent c)
unfolding all_frames_are_sent advance_next_ns
advance_next_ns-InWindow c w h = ground (arith, next_number-mod c.tx_state.next_ns)

-- In its window the queue control is the same after `move_to_next_ns` and then
-- `move_to_previous_ns`.
move_to_previous_ns-move_to_next_ns :
    (c : IQueueControl) → InWindow c → move_to_previous_ns (move_to_next_ns c) ≡ c
unfolding move_to_previous_ns move_to_next_ns
move_to_previous_ns-move_to_next_ns c w =
    ap (λ n. record c { tx_state = record (c.tx_state) { last_ns = n } })
      {x = bit_and ((next_number c.tx_state.last_ns + 256 - 1) % 256) 7} {y = c.tx_state.last_ns}
      (previous-next_number c.tx_state.last_ns w.last_lt)

-- A rewind to a number between the next frame to be confirmed and the next free number keeps the
-- window and the frames allocated, makes that number the next to be sent, and, with a callback that
-- returns true, reports false exactly when nothing changed.
pub retransmit_frame-InWindow :
    (c : IQueueControl) (nr : ℕ)
    → InWindow c
    → nr < 8
    → distance c.tx_state.confirm_ns nr ≤ allocated c
    → let (c', again) = retransmit_frame c nr (λ _. true) in
      InWindow c'
      × (c'.tx_state.next_ns ≡ nr)
      × (allocated c' ≡ allocated c)
      × ((again ≡ false) ↔ (c' ≡ c))
unfolding retransmit_frame
retransmit_frame-InWindow c nr w lt h = ground arith
