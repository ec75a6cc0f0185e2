-- ===== src/Fd/Protocol/Receive.antt =====
-- Where src/proto/fd/protocol.rs takes in what the channel delivers. `none` stands for a panic, or for a loop
-- that does not end.
use tinyproto_rust.Base.{
  ℕ, zero, suc, ◌+◌, ◌*◌, bit_and, bit_or, Bool, true, false, not, ◌&&◌, Option, none, some, [],
  ◌∷◌, Bytes, length, drop, ◌==◌, ◌>>=◌, if◌then◌else◌,
}
use tinyproto_rust.Error.{TinyError}
use tinyproto_rust.Hdlc.Ll.Defs.{get_rx_frame}
use tinyproto_rust.Hdlc.Ll.Rx.{run_rx}
use tinyproto_rust.Fd.Defines.{
  hdlc_u_frame_bits, hdlc_u_frame_mask, hdlc_u_frame_type_dm, hdlc_i_frame_bits, hdlc_i_frame_mask,
  hdlc_s_frame_bits, hdlc_s_frame_mask, hdlc_invalid_peer_index,
}
use tinyproto_rust.Fd.Peers.{PeerInfo, peer_to_address_field, address_field_to_peer}
use tinyproto_rust.Fd.Protocol.Defs.{TinyFd, is_connected, peer_at, set_peer}
use tinyproto_rust.Fd.Protocol.Connect.{is_disconnecting}
use tinyproto_rust.Fd.Protocol.Handlers.{
  put_u, on_u_frame_received, on_i_frame_received, on_s_frame_received,
}

abbrev pub put_dm : TinyFd → ℕ → Option TinyFd
put_dm fd peer = do
  addr ← peer_to_address_field fd.peer_mgr peer
  some (put_u fd addr (bit_or hdlc_u_frame_type_dm hdlc_u_frame_bits))

-- A frame of a peer whose arrival is noted: by the kind of the frame, and the peer's state.
abbrev pub dispatch : ℕ → TinyFd → ℕ → ℕ → Bytes → PeerInfo → Option TinyFd
dispatch now fd peer control payload p =
    if bit_and control hdlc_u_frame_mask == hdlc_u_frame_bits
    then on_u_frame_received now fd peer control
    else if not (is_connected p.state) && not (is_disconnecting p.state)
    then put_dm fd peer
    else if bit_and control hdlc_i_frame_mask == hdlc_i_frame_bits
    then on_i_frame_received fd peer control payload
    else if bit_and control hdlc_s_frame_mask == hdlc_s_frame_bits
    then on_s_frame_received fd peer control
    else some fd

abbrev pub heard : ℕ → PeerInfo → PeerInfo
heard now p = record p { last_received_frame_ts = now; ka_confirmed = true }

-- A frame from a peer that is known, by its index.
abbrev pub on_frame_from : ℕ → TinyFd → ℕ → ℕ → Bytes → Option TinyFd
on_frame_from now fd peer control payload = do
  p ← peer_at fd peer
  dispatch now (set_peer fd peer (heard now p)) peer control payload (heard now p)

unfoldable pub on_frame_received : ℕ → TinyFd → Bytes → Option TinyFd
on_frame_received now fd [] = some fd
on_frame_received now fd (address ∷ []) = some fd
on_frame_received now fd (address ∷ control ∷ payload) =
    let peer = address_field_to_peer fd.peer_mgr address in
    if peer == hdlc_invalid_peer_index then some fd else on_frame_from now fd peer control payload

-- The inner loop of `on_rx_data`. The fuel counts the rounds, of which there is one for each frame that waits
-- and one that finds none.
unfoldable pub deliver_frames : ℕ → ℕ → TinyFd → Option TinyFd
deliver_frames zero now fd = none
deliver_frames (suc fuel) now fd =
    let (frame, hdlc) = get_rx_frame fd.hdlc in
    let fd' = record fd { hdlc = hdlc } in
    elim frame [
      | none ↦ some fd'
      | some bytes ↦ (do fd'' ← on_frame_received now fd' bytes; deliver_frames fuel now fd'')
    ]

abbrev pub is_none : Option TinyError → Bool
is_none none = true
is_none (some e) = false

-- The outer loop. Either result of the test on the error goes on with the loop.
unfoldable pub rx_loop : ℕ → ℕ → TinyFd → Bytes → Option TinyFd
rx_loop zero now fd remaining = none
rx_loop (suc fuel) now fd [] = some fd
rx_loop (suc fuel) now fd (b ∷ bs) =
    let (consumed, error, hdlc) = run_rx fd.hdlc (b ∷ bs) in
    let fd' = record fd { hdlc = hdlc } in
    elim ((consumed == 0) && is_none error) [
      | true ↦ some fd'
      | false ↦ (do
        fd'' ← deliver_frames (suc (length fd'.hdlc.rx_frames)) now fd'
        rx_loop fuel now fd'' (drop consumed (b ∷ bs)))
    ]

-- The result is `Ok(())` in each case. A call that consumes nothing only ends a frame that was pending, and
-- two rounds for each byte are enough.
unfoldable pub on_rx_data : ℕ → TinyFd → Bytes → Option TinyFd
on_rx_data now fd bytes = rx_loop (2 * length bytes + 1) now fd bytes
