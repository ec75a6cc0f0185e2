-- ===== src/Fd/Session.antt =====
-- Two stations of src/proto/fd/protocol.rs that are connected, each with the other as its only peer, over two channels that
-- keep the order and lose what they like. A step is a call that one of them makes; the channels carry the bytes of
-- frames from where one is handed to the framer on. The numbers that a station has come to expect and not yet told the
-- other are kept in the order in which it came to expect them: an S-frame that leaves tells one of them.
pub mod Codes
pub mod Station
pub mod Framer
pub mod Sending
pub mod Confirming
pub mod Receiving
pub mod Waiting
pub mod Views
pub mod Refined
pub mod Moves
pub mod Arrivals
pub mod Refine
pub mod Handshake
pub mod Opening
use tinyproto_rust.Base.{ℕ, ◌<◌, true, false, some, List, [], ◌∷◌, ◌++◌, Bytes, ◌≡◌}
use tinyproto_rust.Error.{ok}
use tinyproto_rust.Fd.IQueueControl.{IQueueControl}
use tinyproto_rust.Fd.IQueueControl as IQueueControl
use tinyproto_rust.Fd.FrameQueue.{FrameQueue, capacity}
use tinyproto_rust.Fd.Peers.{PeerInfo}
use tinyproto_rust.Fd.Protocol.Defs.{TinyFd, Call, read_call, connect_call, get_status}
use tinyproto_rust.Fd.Protocol.Send.{i_control, send_packet}
use tinyproto_rust.Fd.Protocol.Handlers.{rr_control, rej_control}
use tinyproto_rust.Fd.Protocol.Receive.{on_frame_received}
use tinyproto_rust.Fd.Protocol.Timers.{check_timeouts}
use tinyproto_rust.Fd.Protocol.Transmit.{send_s_from, send_i_of, run_framer, drained}
use tinyproto_rust.Fd.Delivery.{Link}

-- An I-frame with N(S) and N(R), and the S-frames with N(R).
pub data Frame : Type 0 where
  info : ℕ → ℕ → Bytes → Frame
  rr : ℕ → Frame
  rej : ℕ → Frame

-- The bytes of a frame, as the framer takes them.
abbrev pub encode : ℕ → Frame → Bytes
encode addr (info ns nr payload) = addr ∷ i_control ns nr ∷ payload
encode addr (rr nr) = addr ∷ rr_control nr ∷ []
encode addr (rej nr) = addr ∷ rej_control nr ∷ []

-- The stations, what is under way from each to the other, and the payloads that each has accepted.
pub record Session : Type 0 where
  pub left : TinyFd
  pub right : TinyFd
  pub rightward : List Frame
  pub leftward : List Frame
  pub from_left : List Bytes
  pub from_right : List Bytes
  pub left_owed : List ℕ
  pub right_owed : List ℕ

-- The same seen from the other side.
abbrev pub swap : Session → Session
swap s = record {
  left = s.right;
  right = s.left;
  rightward = s.leftward;
  leftward = s.rightward;
  from_left = s.from_right;
  from_right = s.from_left;
  left_owed = s.right_owed;
  right_owed = s.left_owed;
}

-- The numbers of the connection.
abbrev pub control_in : List PeerInfo → IQueueControl
control_in [] = IQueueControl.new
control_in (p ∷ ps) = p.i_queue_control

abbrev pub control_of : TinyFd → IQueueControl
control_of fd = control_in fd.peer_mgr.peers

-- What the left station does, or the channel from it; `addr` is the address field of the connection.
pub data Move (addr : ℕ) : Session → Session → Type 0 where
  packet :
      (s : Session) (payload : Bytes) (left' : TinyFd)
      → send_packet s.left 0 payload ≡ some (left', ok tt)
      → Move addr s (record s { left = left'; from_left = s.from_left ++ payload ∷ [] })
  -- the turn of the I-frames in `generate_tx_frames`
  transmit :
      (s : Session) (now ns nr : ℕ) (payload : Bytes) (left' : TinyFd)
      → ns < 8
      → nr < 8
      → send_i_of now s.left 0 ≡ some (left', true)
      → left'.hdlc.tx_data ≡ some (encode addr (info ns nr payload))
      → Move addr s (record s {
        left = left';
        rightward = s.rightward ++ info ns nr payload ∷ [];
        left_owed = [];
      })
  -- the turn of the S-frames in `generate_tx_frames`; the numbers before the one that is told are passed over
  acknowledge :
      (s : Session) (nr : ℕ) (left' : TinyFd) (before after : List ℕ)
      → send_s_from (capacity s.left.frames.s_queue) 0 s.left ≡ (left', true)
      → left'.hdlc.tx_data ≡ some (encode addr (rr nr))
      → s.left_owed ≡ before ++ nr ∷ after
      → Move addr s
          (record s { left = left'; rightward = s.rightward ++ rr nr ∷ []; left_owed = after })
  reject :
      (s : Session) (nr : ℕ) (left' : TinyFd) (before after : List ℕ)
      → send_s_from (capacity s.left.frames.s_queue) 0 s.left ≡ (left', true)
      → left'.hdlc.tx_data ≡ some (encode addr (rej nr))
      → s.left_owed ≡ before ++ nr ∷ after
      → Move addr s
          (record s { left = left'; rightward = s.rightward ++ rej nr ∷ []; left_owed = after })
  -- the framer's turn in `get_tx_data`: bytes go out, and the frames that are sent are reported
  write :
      (s : Session) (out_len : ℕ) (written : Bytes) (left' : TinyFd)
      → run_framer s.left out_len ≡ some (written, left')
      → Move addr s (record s { left = drained left' })
  receive :
      (s : Session) (now : ℕ) (frame : Frame) (rest : List Frame) (left' : TinyFd)
      → s.leftward ≡ frame ∷ rest
      → on_frame_received now s.left (encode addr frame) ≡ some left'
      → Move addr s (record s {
        left = left';
        leftward = rest;
        left_owed = s.left_owed ++ (control_of left').rx_state.next_nr ∷ [];
      })
  -- The connection is not given up.
  tick :
      (s : Session) (now : ℕ) (left' : TinyFd)
      → check_timeouts now s.left ≡ some left'
      → get_status left' ≡ ok tt
      → Move addr s (record s { left = left' })
  lose :
      (s : Session) (before : List Frame) (frame : Frame) (after : List Frame)
      → s.rightward ≡ before ++ frame ∷ after
      → Move addr s (record s { rightward = before ++ after })

pub data Run (addr : ℕ) : Session → Session → Type 0 where
  begin : (s : Session) → Run addr s s
  by_left : (s s' s'' : Session) → Run addr s s' → Move addr s' s'' → Run addr s s''
  by_right : (s s' s'' : Session) → Run addr s s' → Move addr (swap s') s'' → Run addr s (swap s'')

-- The payloads that were handed to the reader.
abbrev pub reads : List Call → List Bytes
reads [] = []
reads (read_call address payload ∷ calls) = payload ∷ reads calls
reads (connect_call address up ∷ calls) = reads calls

abbrev pub data_in : List Frame → List (ℕ × Bytes)
data_in [] = []
data_in (info ns nr payload ∷ w) = (ns, payload) ∷ data_in w
data_in (rr nr ∷ w) = data_in w
data_in (rej nr ∷ w) = data_in w

abbrev pub number_of : Frame → ℕ
number_of (info ns nr payload) = nr
number_of (rr nr) = nr
number_of (rej nr) = nr

abbrev pub acks_in : List Frame → List ℕ
acks_in [] = []
acks_in (f ∷ w) = number_of f ∷ acks_in w

-- The halves of the numbers: those of a sender, and that of a receiver.
abbrev pub sending : IQueueControl → IQueueControl
sending c = record c { rx_state = record { next_nr = 0 } }

abbrev pub receiving : IQueueControl → IQueueControl
receiving c = record c { tx_state = record { last_ns = 0; confirm_ns = 0; next_ns = 0 } }

-- A direction, by the numbers and the queue of the sender, and the numbers and deliveries of the receiver.
abbrev pub link :
    IQueueControl
    → FrameQueue
    → IQueueControl
    → List Bytes
    → List (ℕ × Bytes)
    → List ℕ
    → List Bytes
    → Link
link c q c' given wire acks accepted = record {
  sender = sending c;
  queue = q;
  receiver = receiving c';
  wire = wire;
  acks = acks;
  accepted = accepted;
  delivered = given;
}

-- The direction from left to right.
abbrev pub link_of : Session → Link
link_of s =
    link (control_of s.left) s.left.frames.i_queue (control_of s.right) (reads s.right.calls)
      (data_in s.rightward) (acks_in s.leftward ++ s.right_owed) s.from_left
