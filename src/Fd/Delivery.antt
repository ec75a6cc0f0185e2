-- ===== src/Fd/Delivery.antt =====
-- One direction of a connection: the sender's queue and numbers and the receiver's number, with the operations of
-- src/proto/fd/i_queue_control.rs and src/proto/fd/frame_queue.rs that src/proto/fd/protocol.rs calls on them, over
-- channels that keep the order and lose what they like. A frame on the wire is its number and its payload.
pub mod Wire
pub mod Queue
pub mod Free
pub mod Store
pub mod Keeps
pub mod Invariant
pub mod Order
pub mod Course
pub mod Resend
pub mod Again
pub mod Progress
use tinyproto_rust.Base.{ℕ, ◌<◌, Bool, true, false, some, List, [], ◌∷◌, ◌++◌, Bytes, ◌==◌, ◌≡◌}
use tinyproto_rust.Fd.Frames.{i_frame, FrameInfo}
use tinyproto_rust.Fd.IQueueControl.{
  IQueueControl, tx_full, all_frames_are_sent, get_last_ns, get_next_frame_to_send,
  get_next_frame_to_receive, get_next_frame_to_confirm, move_to_next_ns, advance_next_ns,
  move_to_next_frame_to_receive, confirm_sent_frames, retransmit_frame,
}
use tinyproto_rust.Fd.IQueueControl as IQueueControl
use tinyproto_rust.Fd.IQueueControl.Confirm.{note}
use tinyproto_rust.Fd.FrameQueue.{FrameQueue, allocate, get_next}
use tinyproto_rust.Fd.FrameQueue as FrameQueue
use tinyproto_rust.Fd.Protocol.Send.{i_control}
use tinyproto_rust.Fd.Protocol.Handlers.{free_all}

-- The last two fields are what the sender took in and what the receiver gave out.
pub record Link : Type 0 where
  pub sender : IQueueControl
  pub queue : FrameQueue
  pub receiver : IQueueControl
  pub wire : List (ℕ × Bytes)
  pub acks : List ℕ
  pub accepted : List Bytes
  pub delivered : List Bytes

abbrev pub start : ℕ → ℕ → Link
start max_frames mtu = record {
  sender = IQueueControl.new;
  queue = FrameQueue.new max_frames mtu;
  receiver = IQueueControl.new;
  wire = [];
  acks = [];
  accepted = [];
  delivered = [];
}

-- `addr` is the address that the sender knows the receiver by.
pub data Step (addr : ℕ) : Link → Link → Type 0 where
  -- `put_i_frame`, while the window is not full and a slot is free
  accept :
      (s : Link) (nr : ℕ) (payload : Bytes) (queue' : FrameQueue) (idx : ℕ)
      → nr < 8
      → tx_full s.sender ≡ false
      → allocate s.queue i_frame
          (record { address = addr; control = i_control (get_last_ns s.sender) nr })
          payload
        ≡ (queue', some idx)
      → Step addr s (record s {
        queue = queue';
        sender = move_to_next_ns s.sender;
        accepted = s.accepted ++ payload ∷ [];
      })
  -- `generate_tx_frames`
  send :
      (s : Link) (idx : ℕ) (f : FrameInfo)
      → all_frames_are_sent s.sender ≡ false
      → get_next s.queue i_frame addr (get_next_frame_to_send s.sender) ≡ some (idx, f)
      → Step addr s (record s {
        sender = advance_next_ns s.sender;
        wire = s.wire ++ (get_next_frame_to_send s.sender, f.payload) ∷ [];
      })
  -- `on_i_frame_received`, for the frame that is expected
  deliver :
      (s : Link) (ns : ℕ) (payload : Bytes) (rest : List (ℕ × Bytes))
      → s.wire ≡ (ns, payload) ∷ rest
      → (ns == get_next_frame_to_receive s.receiver) ≡ true
      → Step addr s (record s {
        wire = rest;
        receiver = move_to_next_frame_to_receive s.receiver;
        delivered = s.delivered ++ payload ∷ [];
      })
  -- and for any other
  refuse :
      (s : Link) (ns : ℕ) (payload : Bytes) (rest : List (ℕ × Bytes))
      → s.wire ≡ (ns, payload) ∷ rest
      → (ns == get_next_frame_to_receive s.receiver) ≡ false
      → Step addr s (record s { wire = rest })
  -- An RR, a REJ or an I-frame of the other direction tells the number that is expected. The relation allows it at any time;
  -- the handlers have fewer occasions.
  answer :
      (s : Link)
      → Step addr s (record s { acks = s.acks ++ get_next_frame_to_receive s.receiver ∷ [] })
  -- the confirmation in `on_i_frame_received` and `on_s_frame_received`
  confirm :
      (s : Link) (nr : ℕ) (rest seqs : List ℕ) (sender' : IQueueControl) (confirmed : Bool)
      → s.acks ≡ nr ∷ rest
      → confirm_sent_frames note [] s.sender nr ≡ some (seqs, sender', confirmed)
      → Step addr s (record s { acks = rest; sender = sender'; queue = free_all s.queue addr seqs })
  -- A REJ, whose number is the next one to be confirmed by then, or a timeout.
  rewind :
      (s : Link)
      → Step addr s (record s {
        sender = (retransmit_frame s.sender (get_next_frame_to_confirm s.sender) (λ _. true)).0;
      })
  lose_frame :
      (s : Link) (before : List (ℕ × Bytes)) (frame : ℕ × Bytes) (after : List (ℕ × Bytes))
      → s.wire ≡ before ++ frame ∷ after
      → Step addr s (record s { wire = before ++ after })
  lose_ack :
      (s : Link) (before : List ℕ) (nr : ℕ) (after : List ℕ)
      → s.acks ≡ before ++ nr ∷ after
      → Step addr s (record s { acks = before ++ after })

pub data Steps (addr : ℕ) : Link → Link → Type 0 where
  stay : (s : Link) → Steps addr s s
  go : (s s' s'' : Link) → Steps addr s s' → Step addr s' s'' → Steps addr s s''

pub Steps-join : (addr : ℕ) (a b c : Link) → Steps addr a b → Steps addr b c → Steps addr a c
Steps-join addr a b _ one (stay _) = one
Steps-join addr a b _ one (go _ c d more step) = go a c d (Steps-join addr a b c one more) step
