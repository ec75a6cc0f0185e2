-- ===== src/Fd/Protocol/Transmit.antt =====
-- The transmitting half of src/proto/fd/protocol.rs: a frame is handed to the framer when that is free, and the
-- framer's bytes go out. `none` stands for a panic, or for a loop that does not end.
use tinyproto_rust.Base.{
  ℕ, zero, suc, Bool, true, false, not, ◌&&◌, Option, none, some, [], ◌∷◌, Bytes, length, ltb, ◌==◌,
  ◌>>=◌, if◌then◌else◌, u8,
}
use tinyproto_rust.Error.{TinyResult, ok, err}
use tinyproto_rust.Hdlc.Ll.Defs.{HdlcLl, is_tx_busy, put_frame, get_tx_sent_frame}
use tinyproto_rust.Hdlc.Ll.Tx.{run_tx}
use tinyproto_rust.Fd.Defines.{fd_event_tx_data_available}
use tinyproto_rust.Fd.Frames.{i_frame, FrameInfo, to_bytes}
use tinyproto_rust.Fd.IQueueControl.{
  all_frames_are_sent, get_next_frame_to_send, get_next_frame_to_receive, advance_next_ns,
}
use tinyproto_rust.Fd.FrameQueue.{capacity, get_next, get, free}
use tinyproto_rust.Fd.Peers.{PeerInfo, peer_to_address_field}
use tinyproto_rust.Fd.Protocol.Events as Events
use tinyproto_rust.Fd.Protocol.Defs.{TinyFd, is_connected, peer_at, set_peer}
use tinyproto_rust.Fd.Protocol.Send.{i_control}
use tinyproto_rust.Fd.Protocol.Timers.{check_timeouts}

-- The handle after a round, and whether the round handed a frame over, which ends the method.
abbrev pub Round : Type 0
Round = TinyFd × Bool

abbrev pub handed_s : TinyFd → ℕ → HdlcLl × TinyResult (Unit {0}) → Round
handed_s fd i (hdlc, ok u) = (
  record fd { hdlc = hdlc; frames = record (fd.frames) { s_queue = free fd.frames.s_queue i } },
  true,
)
handed_s fd i (hdlc, err e) = (record fd { hdlc = hdlc }, false)

abbrev pub hand_s : TinyFd → ℕ → Option FrameInfo → Round
hand_s fd i none = (fd, false)
hand_s fd i (some frame) = handed_s fd i (put_frame fd.hdlc (to_bytes frame))

-- The loop over the slots of the S/U-queue: the index, and the rounds left.
unfoldable pub send_s_from : ℕ → ℕ → TinyFd → Round
send_s_from zero i fd = (fd, false)
send_s_from (suc n) i fd =
    let (fd', done) = hand_s fd i (get fd.frames.s_queue i) in
    elim done [ true ↦ (fd', true) | false ↦ send_s_from n (suc i) fd' ]

-- `data[1] = …`
abbrev pub with_control : Bytes → ℕ → Bytes
with_control [] control = []
with_control (address ∷ []) control = address ∷ []
with_control (address ∷ c ∷ bytes) control = address ∷ control ∷ bytes

abbrev pub sent_peer : ℕ → TinyFd → PeerInfo → PeerInfo
sent_peer now fd p = record p {
  i_queue_control = advance_next_ns p.i_queue_control;
  last_sent_i_ts = now;
  last_sent_frame_ts = now;
  retries = fd.retries;
}

abbrev pub handed_i : ℕ → TinyFd → ℕ → PeerInfo → HdlcLl × TinyResult (Unit {0}) → Round
handed_i now fd peer p (hdlc, ok u) =
    (set_peer (record fd { hdlc = hdlc }) peer (sent_peer now fd p), true)
handed_i now fd peer p (hdlc, err e) = (record fd { hdlc = hdlc }, false)

abbrev pub hand_i : ℕ → TinyFd → ℕ → PeerInfo → Option (ℕ × FrameInfo) → Round
hand_i now fd peer p none = (fd, false)
hand_i now fd peer p (some (idx, frame)) =
    let ns = get_next_frame_to_send p.i_queue_control in
    let nr = get_next_frame_to_receive p.i_queue_control in
    handed_i now fd peer p (put_frame fd.hdlc (with_control (to_bytes frame) (i_control ns nr)))

abbrev pub send_i_next : ℕ → TinyFd → ℕ → PeerInfo → Option Round
send_i_next now fd peer p = do
  addr ← peer_to_address_field fd.peer_mgr (u8 peer)
  some (
      hand_i now fd peer p
        (get_next fd.frames.i_queue i_frame addr (get_next_frame_to_send p.i_queue_control)))

-- The guards of a round, and the round itself.
abbrev pub send_i_in : ℕ → TinyFd → ℕ → PeerInfo → Option Round
send_i_in now fd peer p =
    if not (is_connected p.state)
    then some (fd, false)
    else if all_frames_are_sent p.i_queue_control
    then some (fd, false)
    else send_i_next now fd peer p

-- A round of the loop over the peers.
unfoldable pub send_i_of : ℕ → TinyFd → ℕ → Option Round
send_i_of now fd peer = do p ← peer_at fd peer; send_i_in now fd peer p

unfoldable pub send_i_from : ℕ → ℕ → ℕ → TinyFd → Option TinyFd
send_i_from zero peer now fd = some fd
send_i_from (suc n) peer now fd = elim (send_i_of now fd peer) [
  | none ↦ none
  | some (fd', true) ↦ some fd'
  | some (fd', false) ↦ send_i_from n (suc peer) now fd'
]

-- The I-frames have their turn when no S- or U-frame was handed over.
abbrev pub then_i_frames : ℕ → Round → Option TinyFd
then_i_frames now (fd, true) = some fd
then_i_frames now (fd, false) = send_i_from (length fd.peer_mgr.peers) 0 now fd

unfoldable pub generate_tx_frames : ℕ → TinyFd → Option TinyFd
generate_tx_frames now fd =
    if is_tx_busy fd.hdlc
    then some fd
    else then_i_frames now (send_s_from (capacity fd.frames.s_queue) 0 fd)

-- The loop that takes out the notices of sent frames, a round for each.
unfoldable pub drain_sent : ℕ → HdlcLl → HdlcLl
drain_sent zero hdlc = hdlc
drain_sent (suc n) hdlc =
    let (frame, hdlc') = get_tx_sent_frame hdlc in
    elim frame [ none ↦ hdlc' | some f ↦ drain_sent n hdlc' ]

abbrev pub run_framer : TinyFd → ℕ → Option (Bytes × TinyFd)
run_framer fd out_len = do r ← run_tx fd.hdlc out_len; some (r.0, record fd { hdlc = r.1 })

abbrev pub drained : TinyFd → TinyFd
drained fd = record fd { hdlc = drain_sent (length fd.hdlc.tx_sent_frames) fd.hdlc }

-- When nothing was written: the wait for frames that are announced, and a second try.
abbrev pub try_again : ℕ → ℕ → ℕ → Bytes × TinyFd → Option (Bytes × TinyFd)
try_again now out_len timeout_ms (written, fd) =
    if (length written == 0) && ltb 0 timeout_ms
    then (if not (Events.wait fd.events fd_event_tx_data_available == 0)
        then (do fd' ← generate_tx_frames now fd; run_framer fd' out_len)
        else some (written, fd))
    else some (written, fd)

-- The bytes written to an output of `out_len` bytes, and the new handle. `now` is the instant of the call,
-- and `later` that of the end of the wait.
unfoldable pub get_tx_data : ℕ → ℕ → TinyFd → ℕ → ℕ → Option (Bytes × TinyFd)
get_tx_data now later fd out_len timeout_ms = do
  fd1 ← check_timeouts now fd
  fd2 ← generate_tx_frames now fd1
  r ← run_framer fd2 out_len
  try_again later out_len timeout_ms (r.0, drained r.1)
