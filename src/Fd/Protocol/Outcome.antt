-- ===== src/Fd/Protocol/Outcome.antt =====
-- What the handlers of src/proto/fd/protocol.rs do, outcome by outcome.
pub mod IFrame
pub mod UFrame
pub mod GiveUp
pub mod Refused
pub mod States
use tinyproto_rust.Base.{
  ℕ, zero, suc, Bool, Option, none, some, List, [], ◌∷◌, Bytes, get_elem?, set, ◌≡◌, refl, arith,
  if-both,
}
use tinyproto_rust.Fd.Frames.{FrameHeader, QueuedFrameType}
use tinyproto_rust.Fd.FrameQueue.{FrameQueue, has_free_slots, allocate}
use tinyproto_rust.Fd.Peers.{PeerInfo, PeerManager}
use tinyproto_rust.Fd.Defines.{fd_event_queue_has_free_slots}
use tinyproto_rust.Fd.Protocol.Defs.{TinyFd, Call, peer_at, set_peer, set_events}
use tinyproto_rust.Fd.Protocol.Send.{queued_s, put_u_s_frame}
use tinyproto_rust.Fd.Protocol.Connect.{announce_slots}
use tinyproto_rust.Fd.Protocol.Handlers.{put_s, put_u}

-- What an answer to the other station leaves as it is.
pub record Same (fd fd' : TinyFd) : Type 0 where
  pub same_peers : fd'.peer_mgr ≡ fd.peer_mgr
  pub same_i_queue : fd'.frames.i_queue ≡ fd.frames.i_queue
  pub same_calls : fd'.calls ≡ fd.calls
  pub same_read_cb : fd'.on_read_cb ≡ fd.on_read_cb
  pub same_connect_cb : fd'.on_connect_event_cb ≡ fd.on_connect_event_cb
  pub same_retries : fd'.retries ≡ fd.retries
  pub same_timeout : fd'.retry_timeout ≡ fd.retry_timeout

pub Same-refl : (fd : TinyFd) → Same fd fd
Same-refl fd = record {
  same_peers = refl;
  same_i_queue = refl;
  same_calls = refl;
  same_read_cb = refl;
  same_connect_cb = refl;
  same_retries = refl;
  same_timeout = refl;
}

queued_s-Same : (fd : TinyFd) (r : FrameQueue × Option ℕ) → Same fd (queued_s fd r).0
queued_s-Same fd (q, none) = Same-refl fd
queued_s-Same fd (q, some i) = record {
  same_peers = refl;
  same_i_queue = refl;
  same_calls = refl;
  same_read_cb = refl;
  same_connect_cb = refl;
  same_retries = refl;
  same_timeout = refl;
}

put_u_s_frame-Same :
    (fd : TinyFd) (frame_type : QueuedFrameType) (header : FrameHeader) (payload : Bytes)
    → Same fd (put_u_s_frame fd frame_type header payload).0
unfolding put_u_s_frame
put_u_s_frame-Same fd frame_type header payload =
    queued_s-Same fd (allocate fd.frames.s_queue frame_type header payload)

pub put_s-Same : (fd : TinyFd) (address control : ℕ) → Same fd (put_s fd address control)
put_s-Same fd address control = put_u_s_frame-Same fd _ _ []

pub put_u-Same : (fd : TinyFd) (address control : ℕ) → Same fd (put_u fd address control)
put_u-Same fd address control = put_u_s_frame-Same fd _ _ []

pub announce_slots-Same : (fd : TinyFd) → Same fd (announce_slots fd)
announce_slots-Same fd =
    if-both (Same fd) (has_free_slots fd.frames.i_queue) announced (Same-refl fd)
  where
    announced : Same fd (set_events fd fd_event_queue_has_free_slots)
    announced = record {
      same_peers = refl;
      same_i_queue = refl;
      same_calls = refl;
      same_read_cb = refl;
      same_connect_cb = refl;
      same_retries = refl;
      same_timeout = refl;
    }

pub get_elem?-set :
    {A : Type 0} (xs : List A) (i : ℕ) (x y : A)
    → get_elem? xs i ≡ some x
    → get_elem? (set xs i y) i ≡ some y
get_elem?-set [] i x y e = cc
get_elem?-set (z ∷ xs) zero x y e = refl
get_elem?-set (z ∷ xs) (suc i) x y e = get_elem?-set xs i x y e

-- A peer that is written over is the new one.
pub peer_at-set_peer :
    (fd : TinyFd) (i : ℕ) (p q : PeerInfo)
    → peer_at fd i ≡ some p
    → peer_at (set_peer fd i q) i ≡ some q
peer_at-set_peer fd i p q e = get_elem?-set fd.peer_mgr.peers i p q e
