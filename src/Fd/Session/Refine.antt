-- ===== src/Fd/Session/Refine.antt =====
-- Any calls on the two handles of src/proto/fd/protocol.rs: they are steps of both directions of the connection, which
-- delivers in order.
use tinyproto_rust.Base.{ℕ, []}
use tinyproto_rust.Fd.IQueueControl.{
  IQueueControl, tx_full, all_frames_are_sent, move_to_next_ns, advance_next_ns,
  move_to_next_frame_to_receive,
}
use tinyproto_rust.Fd.FrameQueue.{FrameQueue}
use tinyproto_rust.Fd.FrameQueue as FrameQueue
use tinyproto_rust.Fd.IQueueControl as IQueueControl
use tinyproto_rust.Fd.Protocol.Defs.{TinyFd}
use tinyproto_rust.Fd.Session.{Session}
use tinyproto_rust.Fd.Session.Station.{Station}
use tinyproto_rust.Fd.Session.Refined.{Refined}

-- Two stations with nothing under way.
abbrev pub opened : TinyFd → TinyFd → Session
opened left right = record {
  left = left;
  right = right;
  rightward = [];
  leftward = [];
  from_left = [];
  from_right = [];
  left_owed = [];
  right_owed = [];
}

-- A station whose connection is new: no number is used, no frame waits, and nothing was read.
abbrev pub Fresh : ℕ → ℕ → ℕ → TinyFd → Type 0
Fresh addr max_frames mtu fd = Station addr IQueueControl.new (FrameQueue.new max_frames mtu) [] fd
