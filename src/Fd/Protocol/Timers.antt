-- ===== src/Fd/Protocol/Timers.antt =====
-- The timeouts of src/proto/fd/protocol.rs. `elapsed()` of an instant is the time from it to `now`.
use tinyproto_rust.Base.{
  ℕ, zero, suc, ◌-◌, bit_or, Bool, true, false, ◌&&◌, Option, some, length, leb, ◌==◌, ◌>>=◌,
  if◌then◌else◌, u8,
}
use tinyproto_rust.Fd.Defines.{
  FdMode, abm, nrm, FdState, idle, disconnected, connecting, connected, disconnecting,
  hdlc_u_frame_type_sabm, hdlc_u_frame_bits, hdlc_p_bit, fd_event_tx_data_available,
}
use tinyproto_rust.Fd.IQueueControl.{
  retransmit_frame, get_next_frame_to_confirm, has_unconfirmed_frames,
}
use tinyproto_rust.Fd.Peers.{PeerInfo, peer_to_address_field}
use tinyproto_rust.Fd.Protocol.Defs.{TinyFd, peer_at, set_peer, set_events}
use tinyproto_rust.Fd.Protocol.Connect.{switch_to_disconnected}
use tinyproto_rust.Fd.Protocol.Handlers.{put_u}

abbrev pub is_abm : FdMode → Bool
is_abm abm = true
is_abm nrm = false

abbrev pub is_over : ℕ → TinyFd → ℕ → Bool
is_over now fd ts = leb fd.retry_timeout (now - ts)

abbrev pub sabm_control : ℕ
sabm_control = bit_or (bit_or hdlc_u_frame_type_sabm hdlc_u_frame_bits) hdlc_p_bit

-- A connection request, after which the peer is `p`.
abbrev pub request : TinyFd → ℕ → PeerInfo → Option TinyFd
request fd peer p = do
  addr ← peer_to_address_field fd.peer_mgr (u8 peer)
  some (set_peer (put_u fd addr sabm_control) peer p)

abbrev pub check_idle : ℕ → TinyFd → ℕ → PeerInfo → Option TinyFd
check_idle now fd peer p =
    if is_abm fd.mode && is_over now fd p.last_sent_frame_ts
    then request fd peer (record p { state = connecting; last_sent_frame_ts = now })
    else some fd

-- A retry is counted down; with none left the attempt is given up.
abbrev pub check_connecting : ℕ → TinyFd → ℕ → PeerInfo → Option TinyFd
check_connecting now fd peer p =
    if is_over now fd p.last_sent_frame_ts
    then (if p.retries == 0
        then some (set_peer fd peer (record p { state = disconnected }))
        else request fd peer (record p { retries = p.retries - 1; last_sent_frame_ts = now }))
    else some fd

abbrev pub retry : ℕ → TinyFd → ℕ → PeerInfo → TinyFd
retry now fd peer p =
    let control = p.i_queue_control in
    set_events
      (set_peer fd peer (record p {
        retries = p.retries - 1;
        i_queue_control =
            (retransmit_frame control (get_next_frame_to_confirm control) (λ _. true)).0;
        last_sent_i_ts = now;
      }))
      fd_event_tx_data_available

abbrev pub check_connected : ℕ → TinyFd → ℕ → PeerInfo → Option TinyFd
check_connected now fd peer p =
    if has_unconfirmed_frames p.i_queue_control && is_over now fd p.last_sent_i_ts
    then (if p.retries == 0
        then switch_to_disconnected now fd (u8 peer)
        else some (retry now fd peer p))
    else some fd

abbrev pub check_in : FdState → ℕ → TinyFd → ℕ → PeerInfo → Option TinyFd
check_in disconnected now fd peer p = check_idle now fd peer p
check_in idle now fd peer p = check_idle now fd peer p
check_in connecting now fd peer p = check_connecting now fd peer p
check_in connected now fd peer p = check_connected now fd peer p
check_in disconnecting now fd peer p = some fd

unfoldable pub check_peer : ℕ → TinyFd → ℕ → Option TinyFd
check_peer now fd peer = do p ← peer_at fd peer; check_in p.state now fd peer p

-- The loop over the peers: the index, and the rounds left.
unfoldable pub check_from : ℕ → ℕ → ℕ → TinyFd → Option TinyFd
check_from zero peer now fd = some fd
check_from (suc n) peer now fd = do fd' ← check_peer now fd peer; check_from n (suc peer) now fd'

unfoldable pub check_timeouts : ℕ → TinyFd → Option TinyFd
check_timeouts now fd = check_from (length fd.peer_mgr.peers) 0 now fd
