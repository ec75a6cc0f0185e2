-- ===== src/Tests/Fd.antt =====
-- src/proto/fd and src/proto/error.rs on concrete inputs.
use tinyproto_rust.Base.{
  ℕ, ◌+◌, ◌<◌, Bool, true, false, none, some, List, [], ◌∷◌, length, ◌≡◌, ◌≢◌, ◌⊎◌, ◌↔◌, refl,
  arith,
}
use tinyproto_rust.Error.{timeout, from_code, to_code}
use tinyproto_rust.Error.Codes.{from_code-to_code}
use tinyproto_rust.Fd.Frames.{FrameHeader, QueuedFrameType, i_frame, FrameInfo}
use tinyproto_rust.Fd.Frames as Frames
use tinyproto_rust.Fd.IQueueControl.{
  IQueueControl, tx_full, has_unconfirmed_frames, all_frames_are_sent, retransmit_frame,
  confirm_loop, confirm_sent_frames, next_number,
}
use tinyproto_rust.Fd.IQueueControl.Window.{
  InWindow, allocated, unsent, window-tests, retransmit_frame-InWindow,
}
use tinyproto_rust.Fd.IQueueControl.Confirm.{
  note, confirm_sent_frames-numbers, confirm_loop-diverges, confirm_sent_frames-InWindow,
}
use tinyproto_rust.Fd.FrameQueue.{
  FrameQueue, has_free_slots, any_free, allocate, get, count, get_next, is_next, free, free_by_ns,
}
use tinyproto_rust.Fd.FrameQueue.Allocate.{IsValid, allocate-has_free_slots}
use tinyproto_rust.Fd.FrameQueue.Search.{free_by_ns-get_next}
use tinyproto_rust.Fd.Peers.{
  PeerManager, peer_to_address_field, address_field_to_peer, switch_to_next_peer, without_cr,
}
use tinyproto_rust.Fd.Peers as Peers
use tinyproto_rust.Fd.Peers.Addresses.{peer_to_address_field-address_field_to_peer}

from_code-to_code_example : from_code (to_code timeout) ≡ some timeout
from_code-to_code_example = from_code-to_code timeout

-- Frames 6, 7 and 0 are allocated, and frame 6 is sent.
abbrev control : IQueueControl
control = record {
  tx_state = record { last_ns = 1; confirm_ns = 6; next_ns = 7 };
  rx_state = record { next_nr = 3 };
}

control-InWindow : InWindow control
control-InWindow = record {
  last_lt = omega arith;
  confirm_lt = omega arith;
  next_lt = omega arith;
  next_nr_lt = omega arith;
  sent = omega arith;
}

control-tx_full : tx_full control ≡ false
unfolding tx_full next_number
control-tx_full = refl

window-tests_example :
    ((tx_full control ≡ true) ↔ (allocated control ≡ 7))
    × ((has_unconfirmed_frames control ≡ false) ↔ (allocated control ≡ 0))
    × ((all_frames_are_sent control ≡ true) ↔ (unsent control ≡ 0))
window-tests_example = window-tests control control-InWindow

retransmit_frame-InWindow_example :
    let (c', again) = retransmit_frame control 6 (λ _. true) in
    InWindow c'
    × (c'.tx_state.next_ns ≡ 6)
    × (allocated c' ≡ 3)
    × ((again ≡ false) ↔ (c' ≡ control))
retransmit_frame-InWindow_example =
    retransmit_frame-InWindow control 6 control-InWindow (omega arith) (omega arith)

confirm_sent_frames-numbers_example :
    confirm_sent_frames note [] control 0
    ≡ some (
      6 ∷ 7 ∷ [],
      record control { tx_state = record (control.tx_state) { confirm_ns = 0 } },
      true,
    )
confirm_sent_frames-numbers_example =
    confirm_sent_frames-numbers control 0 (omega arith) (omega arith)

confirm_loop-diverges_example : confirm_loop 1000 note 8 [] control false ≡ none
confirm_loop-diverges_example =
    confirm_loop-diverges 1000 8 [] control false (omega arith) (omega arith)

confirm_sent_frames-InWindow_example :
    (seen : List ℕ) × (c' : IQueueControl) × (confirmed : Bool) × (confirm_sent_frames note []
        control 7
      ≡ some (seen, c', confirmed))
    × InWindow c'
    × (allocated c' + length seen ≡ 3)
    × (unsent c' ≡ 2)
confirm_sent_frames-InWindow_example =
    confirm_sent_frames-InWindow control 7 control-InWindow (omega arith) (omega arith)

abbrev header : FrameHeader
header = record { address = 5; control = 0x40 }

abbrev frame : FrameInfo
frame = Frames.new i_frame header (1 ∷ 2 ∷ [])

-- The second slot is taken, and the search starts there.
abbrev queue : FrameQueue
queue = record { frames = none ∷ some frame ∷ none ∷ []; mtu = 16; lookup_index = 1 }

abbrev full_queue : FrameQueue
full_queue = record { frames = some frame ∷ []; mtu = 16; lookup_index = 0 }

queue-IsValid : IsValid queue
queue-IsValid = record { lookup_lt = λ _. omega arith }

allocate-has_free_slots_example :
    let (q', r) = allocate queue i_frame header (3 ∷ []) in
    (idx : ℕ) × (r ≡ some idx)
    × (idx < 3)
    × (get queue idx ≡ none)
    × (get q' idx ≡ some (Frames.new i_frame header (3 ∷ [])))
    × ((j : ℕ) → idx ≢ j → get q' j ≡ get queue j)
    × (count q' ≡ count queue + 1)
    × IsValid q'
unfolding has_free_slots any_free
allocate-has_free_slots_example =
    allocate-has_free_slots queue i_frame header (3 ∷ []) queue-IsValid refl

free_by_ns-get_next_example :
    ((get_next queue i_frame 5 2 ≡ none) × (free_by_ns queue 5 2 ≡ queue))
    ⊎ ((idx : ℕ) × (f : FrameInfo) × (get_next queue i_frame 5 2 ≡ some (idx, f))
        × (get queue idx ≡ some f)
        × (is_next i_frame 5 2 f ≡ true)
        × (free_by_ns queue 5 2 ≡ free queue idx))
free_by_ns-get_next_example = free_by_ns-get_next queue 5 2

peer_to_address_field-address_field_to_peer_example :
    let m = Peers.new 100000 1 4 in
    (peer_to_address_field m 2 ≡ some 13)
    × (address_field_to_peer m 13 ≡ 2)
    × (address_field_to_peer m 15 ≡ 2)
peer_to_address_field-address_field_to_peer_example =
    peer_to_address_field-address_field_to_peer 100000 1 4 2 refl (omega arith) (omega arith)
