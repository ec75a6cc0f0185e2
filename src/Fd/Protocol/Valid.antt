-- ===== src/Fd/Protocol/Valid.antt =====
-- What the handle of src/proto/fd/protocol.rs keeps to, and the single updates that its methods are made of.
pub mod Connect
pub mod Handlers
pub mod Receive
pub mod Channel
pub mod Timers
pub mod Transmit
pub mod Output
pub mod Send
pub mod New
pub mod Calls
use tinyproto_rust.Base.{
  ℕ, zero, suc, ◌≤◌, ◌<◌, Bool, true, false, Option, none, some, List, [], ◌∷◌, Bytes, length,
  get_elem?, set, ◌==◌, ◌≡◌, refl, ap, ◌∙◌, arith, Returns, returns, Returns-bind, if-both, All,
  get_elem?-All, set-All, length-set, bit_or,
}
use mathlib.Core.Option as Option
use tinyproto_rust.Hdlc.Ll.Defs.{HdlcLl}
use tinyproto_rust.Fd.Frames.{FrameHeader, QueuedFrameType}
use tinyproto_rust.Fd.IQueueControl.{IQueueControl}
use tinyproto_rust.Fd.IQueueControl as IQueueControl
use tinyproto_rust.Fd.Peers.{PeerInfo, PeerManager, is_primary_station, peer_to_address_field}
use tinyproto_rust.Fd.FrameQueue.{FrameQueue, has_free_slots, allocate}
use tinyproto_rust.Fd.FrameQueue.Allocate.{IsValid}
use tinyproto_rust.Fd.FrameQueue.Keep.{allocate-IsValid}
use tinyproto_rust.Fd.Protocol.Defs.{TinyFd, peer_at, set_peer, set_events, call_read, call_connect}
use tinyproto_rust.Fd.Protocol.Send.{Answer, queued_s, put_u_s_frame}

-- Sequence numbers have three bits.
pub record NumbersOk (p : PeerInfo) : Type 0 where
  pub last_lt : p.i_queue_control.tx_state.last_ns < 8
  pub confirm_lt : p.i_queue_control.tx_state.confirm_ns < 8
  pub next_lt : p.i_queue_control.tx_state.next_ns < 8
  pub next_nr_lt : p.i_queue_control.rx_state.next_nr < 8

-- They go with the queue control.
pub same-NumbersOk :
    (p p' : PeerInfo) → p'.i_queue_control ≡ p.i_queue_control → NumbersOk p → NumbersOk p'
same-NumbersOk p p' e ok = ground arith

pub fresh-NumbersOk : (p : PeerInfo) → p.i_queue_control ≡ IQueueControl.new → NumbersOk p
fresh-NumbersOk p e = rw e (record {
  last_lt = omega arith;
  confirm_lt = omega arith;
  next_lt = omega arith;
  next_nr_lt = omega arith;
})

-- The parts of a handle that its methods rely on, for `n` peers and a framer `h`.
pub record ValidParts (n : ℕ) (h hdlc : HdlcLl) (peers : List PeerInfo)
    (i_queue s_queue : FrameQueue) : Type 0 where
  pub same_hdlc : hdlc ≡ h
  pub peer_count : length peers ≡ n
  pub numbers : All NumbersOk peers
  pub i_queue_ok : IsValid i_queue
  pub s_queue_ok : IsValid s_queue

abbrev pub Valid : ℕ → HdlcLl → TinyFd → Type 0
Valid n h fd = ValidParts n h fd.hdlc fd.peer_mgr.peers fd.frames.i_queue fd.frames.s_queue

module _ {n : ℕ} {h : HdlcLl} where
  pub peer_at-Valid :
      (fd : TinyFd) (i : ℕ) → Valid n h fd → i < n → Returns NumbersOk (peer_at fd i)
  peer_at-Valid fd i v lt =
      get_elem?-All NumbersOk fd.peer_mgr.peers i v.numbers (omega (arith, v.peer_count))

  pub set_peer-Valid :
      (fd : TinyFd) (i : ℕ) (p : PeerInfo)
      → Valid n h fd
      → NumbersOk p
      → Valid n h (set_peer fd i p)
  set_peer-Valid fd i p v ok = record {
    same_hdlc = v.same_hdlc;
    peer_count = length-set fd.peer_mgr.peers i p ∙ v.peer_count;
    numbers = set-All NumbersOk fd.peer_mgr.peers i p v.numbers ok;
    i_queue_ok = v.i_queue_ok;
    s_queue_ok = v.s_queue_ok;
  }

  -- Another queue of I-frames, and another of S- and U-frames.
  pub i_queue-Valid :
      (fd : TinyFd) (q : FrameQueue)
      → Valid n h fd
      → IsValid q
      → Valid n h (record fd { frames = record (fd.frames) { i_queue = q } })
  i_queue-Valid fd q v ok = record {
    same_hdlc = v.same_hdlc;
    peer_count = v.peer_count;
    numbers = v.numbers;
    i_queue_ok = ok;
    s_queue_ok = v.s_queue_ok;
  }

  pub s_queue-Valid :
      (fd : TinyFd) (q : FrameQueue)
      → Valid n h fd
      → IsValid q
      → Valid n h (record fd { frames = record (fd.frames) { s_queue = q } })
  s_queue-Valid fd q v ok = record {
    same_hdlc = v.same_hdlc;
    peer_count = v.peer_count;
    numbers = v.numbers;
    i_queue_ok = v.i_queue_ok;
    s_queue_ok = ok;
  }

  pub address-Valid :
      (fd : TinyFd) (i : ℕ)
      → Valid n h fd
      → i < n
      → Returns (λ _. Unit) (peer_to_address_field fd.peer_mgr i)
  unfolding peer_to_address_field
  address-Valid fd i v lt =
      if-both (Returns {A = ℕ} (λ _. Unit)) (is_primary_station fd.peer_mgr)
        (mapped _ _ (peer_at-Valid fd i v lt)) (returns tt)
    where
      mapped :
          (f : PeerInfo → ℕ) (o : Option PeerInfo)
          → Returns NumbersOk o
          → Returns (λ _. Unit) (Option.map f o)
      mapped f o r = record {
        result = f r.result;
        returned = ap (Option.map f) r.returned;
        holds = tt;
      }

  pub call_connect-Valid :
      (fd : TinyFd) (address : ℕ) (up : Bool)
      → Valid n h fd
      → Valid n h (call_connect fd address up)
  call_connect-Valid fd address up v = if-both (Valid n h) fd.on_connect_event_cb v v

  pub call_read-Valid :
      (fd : TinyFd) (address : ℕ) (payload : Bytes)
      → Valid n h fd
      → Valid n h (call_read fd address payload)
  call_read-Valid fd address payload v = if-both (Valid n h) fd.on_read_cb v v

  queued_s-Valid :
      (fd : TinyFd) (r : FrameQueue × Option ℕ)
      → Valid n h fd
      → IsValid r.0
      → Valid n h (queued_s fd r).0
  queued_s-Valid fd (q, some i) v ok = s_queue-Valid fd q v ok
  queued_s-Valid fd (q, none) v ok = v

  pub put_u_s_frame-Valid :
      (fd : TinyFd) (frame_type : QueuedFrameType) (header : FrameHeader) (payload : Bytes)
      → Valid n h fd
      → Valid n h (put_u_s_frame fd frame_type header payload).0
  unfolding put_u_s_frame
  put_u_s_frame-Valid fd frame_type header payload v =
      queued_s-Valid fd _ v
        (allocate-IsValid fd.frames.s_queue frame_type header payload v.s_queue_ok)
