-- ===== src/Fd/Protocol/Send.antt =====
-- The operations of src/proto/fd/protocol.rs that queue frames: `disconnect`, `send_packet` and the two methods
-- they share with the handlers.
use tinyproto_rust.Base.{
  ℕ, bit_or, not, Option, none, some, [], Bytes, length, ltb, ◌==◌, ◌>>=◌, if◌then◌else◌, u8, ◌<<<◌,
}
use tinyproto_rust.Error.{busy, data_too_large, unknown_peer, timeout, TinyResult, ok, err}
use tinyproto_rust.Fd.Defines.{
  disconnecting, hdlc_u_frame_type_disc, hdlc_u_frame_bits, hdlc_p_bit, hdlc_i_frame_bits,
  hdlc_e_bit, fd_primary_addr, hdlc_invalid_peer_index, fd_event_tx_data_available,
  fd_event_queue_has_free_slots,
}
use tinyproto_rust.Fd.Frames.{FrameHeader, QueuedFrameType, u_frame, i_frame}
use tinyproto_rust.Fd.IQueueControl.{
  tx_full, get_last_ns, get_next_frame_to_receive, move_to_next_ns,
}
use tinyproto_rust.Fd.FrameQueue.{FrameQueue, allocate, has_free_slots}
use tinyproto_rust.Fd.Peers.{PeerInfo, peer_to_address_field, address_field_to_peer}
use tinyproto_rust.Fd.Protocol.Events as Events
use tinyproto_rust.Fd.Protocol.Defs.{TinyFd, peer_at, set_peer, set_events}

abbrev pub Answer : Type 0
Answer = TinyFd × TinyResult (Unit {0})

-- The outcome of `put_u_s_frame`, by what `allocate` returns.
abbrev pub queued_s : TinyFd → FrameQueue × Option ℕ → Answer
queued_s fd (q, some idx) = (
  set_events (record fd { frames = record (fd.frames) { s_queue = q } }) fd_event_tx_data_available,
  ok tt,
)
queued_s fd (q, none) = (fd, err busy)

unfoldable pub put_u_s_frame : TinyFd → QueuedFrameType → FrameHeader → Bytes → Answer
put_u_s_frame fd frame_type header payload =
    queued_s fd (allocate fd.frames.s_queue frame_type header payload)

-- `(ns << 5) | (nr << 1) | HDLC_I_FRAME_BITS`
abbrev pub i_control : ℕ → ℕ → ℕ
i_control ns nr = bit_or (bit_or (u8 (ns <<< 5)) (u8 (nr <<< 1))) hdlc_i_frame_bits

-- The outcome of `put_i_frame`, by what `allocate` returns.
abbrev pub queued_i : TinyFd → ℕ → PeerInfo → FrameQueue × Option ℕ → Answer
queued_i fd peer p (q, some idx) = (
  set_peer (record fd { frames = record (fd.frames) { i_queue = q } }) peer
      (record p { i_queue_control = move_to_next_ns p.i_queue_control }),
  ok tt,
)
queued_i fd peer p (q, none) = (fd, err busy)

abbrev pub put_i_frame_of : TinyFd → ℕ → ℕ → Bytes → PeerInfo → Answer
put_i_frame_of fd peer addr_field payload p =
    if tx_full p.i_queue_control
    then (fd, err busy)
    else queued_i fd peer p (
        allocate fd.frames.i_queue i_frame
          (record {
            address = addr_field;
            control =
                i_control (get_last_ns p.i_queue_control)
                  (get_next_frame_to_receive p.i_queue_control);
          })
          payload)

unfoldable pub put_i_frame : TinyFd → ℕ → ℕ → Bytes → Option Answer
put_i_frame fd peer addr_field payload = do
  p ← peer_at fd peer
  some (put_i_frame_of fd peer addr_field payload p)

abbrev pub disconnecting_peer : ℕ → Answer → Option Answer
disconnecting_peer peer (fd, err e) = some (fd, err e)
disconnecting_peer peer (fd, ok u) = elim (peer_at fd peer) [
  | none ↦ some (fd, ok tt)
  | some p ↦ some (set_peer fd peer (record p { state = disconnecting }), ok tt)
]

unfoldable pub disconnect : TinyFd → Option Answer
disconnect fd = do
  address ← peer_to_address_field fd.peer_mgr 0
  disconnecting_peer 0 (
      put_u_s_frame fd u_frame
        (record {
          address = address;
          control = bit_or (bit_or hdlc_u_frame_type_disc hdlc_u_frame_bits) hdlc_p_bit;
        })
        [])

-- The peer that `send_packet` means; with no peers at all address 0 means none.
abbrev pub resolve_peer : TinyFd → ℕ → ℕ
resolve_peer fd address =
    if address == fd_primary_addr
    then (if length fd.peer_mgr.peers == 0 then hdlc_invalid_peer_index else 0)
    else address_field_to_peer fd.peer_mgr (bit_or (u8 (address <<< 2)) hdlc_e_bit)

-- What follows `put_i_frame` in `send_packet`.
abbrev pub announce : Answer → Answer
announce (fd, err e) = (fd, err e)
announce (fd, ok u) =
    let fd' = set_events fd fd_event_tx_data_available in
    if not (has_free_slots fd'.frames.i_queue)
    then (record fd' { events = Events.clear fd'.events fd_event_queue_has_free_slots }, ok tt)
    else (fd', ok tt)

-- The frame is queued once a slot is announced as free.
abbrev pub send_to : TinyFd → ℕ → Bytes → Option Answer
send_to fd peer payload = do
  addr_field ← peer_to_address_field fd.peer_mgr peer
  answer ← put_i_frame fd peer addr_field payload
  some (announce answer)

unfoldable pub send_packet : TinyFd → ℕ → Bytes → Option Answer
send_packet fd address payload =
    if ltb fd.mtu (length payload)
    then some (fd, err data_too_large)
    else let peer = resolve_peer fd address in
      if peer == hdlc_invalid_peer_index
      then some (fd, err unknown_peer)
      else if Events.wait fd.events fd_event_queue_has_free_slots == 0
      then some (fd, err timeout)
      else send_to fd peer payload
