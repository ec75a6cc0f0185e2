-- ===== src/Fd/Protocol/Handlers.antt =====
-- The handlers of src/proto/fd/protocol.rs for U-, I- and S-frames. `none` stands for a panic, or for the loop of
-- `confirm_sent_frames` when it does not end.
use tinyproto_rust.Base.{
  ℕ, bit_and, bit_or, Bool, true, false, not, Option, some, List, [], ◌∷◌, Bytes, ◌==◌, ◌>>=◌,
  if◌then◌else◌, u8, ◌<<<◌, ◌>>>◌,
}
use tinyproto_rust.Fd.Defines.{
  FdState, connecting, disconnecting, hdlc_u_frame_type_ua, hdlc_u_frame_type_sabm,
  hdlc_u_frame_type_snrm, hdlc_u_frame_type_disc, hdlc_u_frame_type_dm, hdlc_u_frame_type_mask,
  hdlc_u_frame_bits, hdlc_f_bit, hdlc_p_bit, hdlc_s_frame_bits, hdlc_s_frame_type_rr,
  hdlc_s_frame_type_rej, hdlc_s_frame_type_srej, hdlc_s_frame_type_mask, seq_bits_mask,
  fd_event_tx_data_available,
}
use tinyproto_rust.Fd.Frames.{u_frame, s_frame}
use tinyproto_rust.Fd.IQueueControl.{
  IQueueControl, confirm_sent_frames, retransmit_frame, get_next_frame_to_receive,
  move_to_next_frame_to_receive,
}
use tinyproto_rust.Fd.IQueueControl.Confirm.{note}
use tinyproto_rust.Fd.FrameQueue.{FrameQueue, free_by_ns}
use tinyproto_rust.Fd.Peers.{PeerInfo, peer_to_address_field}
use tinyproto_rust.Fd.Protocol.Defs.{TinyFd, peer_at, set_peer, set_events, user_address, call_read}
use tinyproto_rust.Fd.Protocol.Send.{put_u_s_frame}
use tinyproto_rust.Fd.Protocol.Connect.{announce_slots, switch_to_connected, switch_to_disconnected}

-- `put_u_s_frame` for a U-frame without a payload, its result ignored.
abbrev pub put_u : TinyFd → ℕ → ℕ → TinyFd
put_u fd address control =
    (put_u_s_frame fd u_frame (record { address = address; control = control }) []).0

abbrev pub put_s : TinyFd → ℕ → ℕ → TinyFd
put_s fd address control =
    (put_u_s_frame fd s_frame (record { address = address; control = control }) []).0

abbrev pub ua_control : ℕ
ua_control = bit_or (bit_or hdlc_u_frame_type_ua hdlc_u_frame_bits) hdlc_f_bit

abbrev pub put_ua : TinyFd → ℕ → Option TinyFd
put_ua fd peer = do addr ← peer_to_address_field fd.peer_mgr peer; some (put_u fd addr ua_control)

abbrev pub on_ua_in : FdState → ℕ → TinyFd → ℕ → Option TinyFd
on_ua_in connecting now fd peer = switch_to_connected now fd peer
on_ua_in disconnecting now fd peer = switch_to_disconnected now fd peer
on_ua_in _ now fd peer = some fd

abbrev pub on_ua : ℕ → TinyFd → ℕ → Option TinyFd
on_ua now fd peer = do p ← peer_at fd peer; on_ua_in p.state now fd peer

-- The arms of the match, in their order.
unfoldable pub on_u_frame_received : ℕ → TinyFd → ℕ → ℕ → Option TinyFd
on_u_frame_received now fd peer control =
    let u_type = bit_and control hdlc_u_frame_type_mask in
    if u_type == hdlc_u_frame_type_sabm
    then (do fd' ← put_ua fd peer; switch_to_connected now fd' peer)
    else if u_type == hdlc_u_frame_type_ua
    then on_ua now fd peer
    else if u_type == hdlc_u_frame_type_disc
    then (do fd' ← put_ua fd peer; switch_to_disconnected now fd' peer)
    else if u_type == hdlc_u_frame_type_dm
    then switch_to_disconnected now fd peer
    else if u_type == hdlc_u_frame_type_snrm
    then (do fd' ← put_ua fd peer; switch_to_connected now fd' peer)
    else some fd

-- The loop over the confirmed numbers.
unfoldable pub free_all : FrameQueue → ℕ → List ℕ → FrameQueue
free_all q addr [] = q
free_all q addr (seq ∷ seqs) = free_all (free_by_ns q addr seq) addr seqs

abbrev pub free_confirmed : TinyFd → ℕ → List ℕ → TinyFd
free_confirmed fd addr seqs =
    announce_slots
      (record fd { frames = record (fd.frames) { i_queue = free_all fd.frames.i_queue addr seqs } })

abbrev pub confirmed_peer : TinyFd → ℕ → ℕ → PeerInfo → List ℕ × IQueueControl × Bool → TinyFd
confirmed_peer fd peer addr p (seqs, control, confirmed) =
    free_confirmed (set_peer fd peer (record p { i_queue_control = control })) addr seqs

-- The steps that both handlers below share: the peer's numbers up to `nr` are confirmed, and their frames freed.
unfoldable pub confirm : TinyFd → ℕ → ℕ → ℕ → Option TinyFd
confirm fd peer addr nr = do
  p ← peer_at fd peer
  r ← confirm_sent_frames note [] p.i_queue_control nr
  some (confirmed_peer fd peer addr p r)

abbrev pub rej_control : ℕ → ℕ
rej_control nr =
    bit_or (bit_or (bit_or hdlc_s_frame_bits hdlc_s_frame_type_rej) (u8 (nr <<< 5))) hdlc_p_bit

abbrev pub rr_control : ℕ → ℕ
rr_control nr = bit_or (bit_or hdlc_s_frame_bits hdlc_s_frame_type_rr) (u8 (nr <<< 5))

-- A frame out of sequence, of which the peer is told once.
abbrev pub reject_frame : TinyFd → ℕ → ℕ → PeerInfo → TinyFd
reject_frame fd peer addr p =
    if not p.sent_reject
    then put_s (set_peer fd peer (record p { sent_reject = true })) addr
        (rej_control (get_next_frame_to_receive p.i_queue_control))
    else fd

abbrev pub accepted_peer : PeerInfo → PeerInfo
accepted_peer p =
    let control = move_to_next_frame_to_receive p.i_queue_control in
    record p {
      i_queue_control = control;
      sent_reject = false;
      sent_nr = get_next_frame_to_receive control;
    }

-- The frame that is expected: it is delivered and acknowledged.
abbrev pub accept_frame : TinyFd → ℕ → ℕ → Bytes → PeerInfo → TinyFd
accept_frame fd peer addr payload p =
    let p' = accepted_peer p in
    put_s (call_read (set_peer fd peer p') (user_address fd addr) payload) addr
      (rr_control p'.sent_nr)

abbrev pub sequence_frame : TinyFd → ℕ → ℕ → ℕ → Bytes → PeerInfo → TinyFd
sequence_frame fd peer addr ns payload p =
    if not (ns == get_next_frame_to_receive p.i_queue_control)
    then reject_frame fd peer addr p
    else accept_frame fd peer addr payload p

-- The frame's control byte and its bytes from the third on.
unfoldable pub on_i_frame_received : TinyFd → ℕ → ℕ → Bytes → Option TinyFd
on_i_frame_received fd peer control payload =
    let ns = bit_and (control >>> 5) seq_bits_mask in
    let nr = bit_and (control >>> 1) seq_bits_mask in
    do
      addr ← peer_to_address_field fd.peer_mgr peer
      fd' ← confirm fd peer addr nr
      p ← peer_at fd' peer
      some (sequence_frame fd' peer addr ns payload p)

abbrev pub retransmit_from : TinyFd → ℕ → ℕ → PeerInfo → TinyFd
retransmit_from fd peer nr p =
    set_events
      (set_peer fd peer
        (record p { i_queue_control = (retransmit_frame p.i_queue_control nr (λ _. true)).0 }))
      fd_event_tx_data_available

abbrev pub supervise : TinyFd → ℕ → ℕ → ℕ → PeerInfo → TinyFd
supervise fd peer nr s_type p =
    if s_type == hdlc_s_frame_type_rr
    then set_peer fd peer (record p { retries = fd.retries })
    else if s_type == hdlc_s_frame_type_rej
    then retransmit_from fd peer nr p
    else if s_type == hdlc_s_frame_type_srej
    then retransmit_from fd peer nr p
    else fd

unfoldable pub on_s_frame_received : TinyFd → ℕ → ℕ → Option TinyFd
on_s_frame_received fd peer control =
    let nr = bit_and (control >>> 5) seq_bits_mask in
    let s_type = bit_and control hdlc_s_frame_type_mask in
    do
      addr ← peer_to_address_field fd.peer_mgr peer
      fd' ← confirm fd peer addr nr
      p ← peer_at fd' peer
      some (supervise fd' peer nr s_type p)
