-- ===== src/Fd/Protocol/Connect.antt =====
-- Where src/proto/fd/protocol.rs connects and disconnects a peer. A handler runs at one instant, the argument
-- `now`; `none` stands for a panic.
use tinyproto_rust.Base.{ℕ, bit_or, Bool, true, false, Option, some, ◌>>=◌, if◌then◌else◌}
use tinyproto_rust.Fd.Defines.{
  FdState, connected, disconnected, disconnecting, fd_event_can_accept_i_frames,
  fd_event_tx_data_available, fd_event_queue_has_free_slots,
}
use tinyproto_rust.Fd.FrameQueue.{has_free_slots, reset_for}
use tinyproto_rust.Fd.Peers.{PeerInfo, reset_connection, peer_to_address_field}
use tinyproto_rust.Fd.Protocol.Events as Events
use tinyproto_rust.Fd.Protocol.Defs.{
  TinyFd, is_connected, peer_at, set_peer, set_events, user_address, call_connect,
}

abbrev pub is_disconnected : FdState → Bool
is_disconnected disconnected = true
is_disconnected _ = false

abbrev pub is_disconnecting : FdState → Bool
is_disconnecting disconnecting = true
is_disconnecting _ = false

-- `if self.frames.i_queue.has_free_slots() { self.events.set(…) }`
abbrev pub announce_slots : TinyFd → TinyFd
announce_slots fd =
    if has_free_slots fd.frames.i_queue then set_events fd fd_event_queue_has_free_slots else fd

abbrev pub connected_peer : ℕ → ℕ → PeerInfo → PeerInfo
connected_peer now retries p = record (reset_connection now (record p { state = connected })) {
  retries = retries;
  last_sent_i_ts = now;
  events = bit_or p.events fd_event_can_accept_i_frames;
}

abbrev pub connect_peer : ℕ → TinyFd → ℕ → ℕ → PeerInfo → TinyFd
connect_peer now fd peer addr_field p =
    if is_connected p.state
    then fd
    else call_connect
        (announce_slots (
          set_events (set_peer fd peer (connected_peer now fd.retries p))
            fd_event_tx_data_available))
        (user_address fd addr_field) true

unfoldable pub switch_to_connected : ℕ → TinyFd → ℕ → Option TinyFd
switch_to_connected now fd peer = do
  addr_field ← peer_to_address_field fd.peer_mgr peer
  p ← peer_at fd peer
  some (connect_peer now fd peer addr_field p)

abbrev pub disconnected_peer : ℕ → PeerInfo → PeerInfo
disconnected_peer now p = record (reset_connection now (record p { state = disconnected })) {
  events = Events.clear p.events fd_event_can_accept_i_frames;
}

abbrev pub reset_i_queue : TinyFd → ℕ → TinyFd
reset_i_queue fd addr_field = record fd {
  frames = record (fd.frames) { i_queue = reset_for fd.frames.i_queue addr_field };
}

abbrev pub disconnect_peer : ℕ → TinyFd → ℕ → ℕ → PeerInfo → TinyFd
disconnect_peer now fd peer addr_field p =
    if is_disconnected p.state
    then fd
    else call_connect (reset_i_queue (set_peer fd peer (disconnected_peer now p)) addr_field)
        (user_address fd addr_field) false

unfoldable pub switch_to_disconnected : ℕ → TinyFd → ℕ → Option TinyFd
switch_to_disconnected now fd peer = do
  addr_field ← peer_to_address_field fd.peer_mgr peer
  p ← peer_at fd peer
  some (disconnect_peer now fd peer addr_field p)
