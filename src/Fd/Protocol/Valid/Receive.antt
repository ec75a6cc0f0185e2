-- ===== src/Fd/Protocol/Valid/Receive.antt =====
-- A frame that arrives (src/proto/fd/protocol.rs) is taken by a handler, whatever its bytes, and the handle stays
-- valid.
use tinyproto_rust.Base.{
  ℕ, suc, ◌+◌, ◌≤◌, ◌<◌, bit_and, not, ◌&&◌, ◌||◌, List, [], ◌∷◌, Bytes, length, ◌==◌, ◌≡◌, refl,
  ◌⊎◌, inl, inr, arith, Returns, returns, Returns-bind, if-both,
}
use tinyproto_rust.Hdlc.Ll.Defs.{HdlcLl}
use tinyproto_rust.Fd.Defines.{
  hdlc_u_frame_bits, hdlc_u_frame_mask, hdlc_i_frame_bits, hdlc_i_frame_mask, hdlc_s_frame_bits,
  hdlc_s_frame_mask, hdlc_invalid_peer_index,
}
use tinyproto_rust.Fd.Peers.{
  PeerInfo, PeerManager, without_cr, is_primary_address, is_primary_station, find_address,
  address_field_to_peer,
}
use tinyproto_rust.Fd.Protocol.Defs.{TinyFd, is_connected, set_peer}
use tinyproto_rust.Fd.Protocol.Connect.{is_disconnecting}
use tinyproto_rust.Fd.Protocol.Receive.{put_dm, dispatch, heard, on_frame_from, on_frame_received}
use tinyproto_rust.Fd.Protocol.Valid.{
  same-NumbersOk, Valid, peer_at-Valid, set_peer-Valid, address-Valid, put_u_s_frame-Valid,
}
use tinyproto_rust.Fd.Protocol.Valid.Handlers.{
  on_u_frame_received-Valid, on_i_frame_received-Valid, on_s_frame_received-Valid,
}

module _ {n : ℕ} {h : HdlcLl} (fd : TinyFd) (peer : ℕ) (lt : peer < n) (v : Valid n h fd) where
  put_dm-Valid : Returns (Valid n h) (put_dm fd peer)
  put_dm-Valid =
      Returns-bind (address-Valid fd peer v lt)
        (λ addr _. returns (put_u_s_frame-Valid fd _ _ [] v))

  dispatch-Valid :
      (now control : ℕ) (payload : Bytes) (p : PeerInfo)
      → Returns (Valid n h) (dispatch now fd peer control payload p)
  dispatch-Valid now control payload p =
      let P = Returns (Valid n h) in
      if-both P (bit_and control hdlc_u_frame_mask == hdlc_u_frame_bits)
        (on_u_frame_received-Valid fd peer lt v now control)
        (if-both P (not (is_connected p.state) && not (is_disconnecting p.state)) put_dm-Valid (
          if-both P (bit_and control hdlc_i_frame_mask == hdlc_i_frame_bits)
            (on_i_frame_received-Valid fd peer lt v control payload)
            (if-both P (bit_and control hdlc_s_frame_mask == hdlc_s_frame_bits)
              (on_s_frame_received-Valid fd peer lt v control) (returns v))))

on_frame_from-Valid :
    {n : ℕ} {h : HdlcLl} (now : ℕ) (fd : TinyFd) (peer control : ℕ) (payload : Bytes)
    → peer < n
    → Valid n h fd
    → Returns (Valid n h) (on_frame_from now fd peer control payload)
on_frame_from-Valid now fd peer control payload lt v =
    Returns-bind (peer_at-Valid fd peer v lt) (λ p ok.
      dispatch-Valid (set_peer fd peer (heard now p)) peer lt
        (set_peer-Valid fd peer (heard now p) v (same-NumbersOk p _ refl ok)) now control payload
        (heard now p))

-- An index that is found is one of a peer.
abbrev Found : ℕ → ℕ → Type 0
Found n i = (i ≡ hdlc_invalid_peer_index) ⊎ (i < n)

find_address-Found :
    (address i : ℕ) (ps : List PeerInfo)
    → i + length ps ≤ 255
    → Found (i + length ps) (find_address address i ps)
unfolding find_address
find_address-Found address i [] le = inl refl
find_address-Found address i (p ∷ ps) le =
    if-both (Found (i + length (p ∷ ps))) (without_cr p.addr == address) (inr (omega arith))
      (elim (find_address-Found address (suc i) ps (omega arith)) [
        | inl e ↦ inl e
        | inr lt ↦ inr (omega (arith, lt))
      ])

pub address_field_to_peer-Found :
    (m : PeerManager) (address : ℕ)
    → 0 < length m.peers
    → length m.peers ≤ 255
    → (address_field_to_peer m address ≡ hdlc_invalid_peer_index)
      ⊎ (address_field_to_peer m address < length m.peers)
unfolding address_field_to_peer
address_field_to_peer-Found m address some_peer few =
    let F = Found (length m.peers) in
    if-both F (is_primary_station m)
      (elim (find_address-Found (without_cr address) 0 m.peers (omega arith)) [
        | inl e ↦ inl e
        | inr lt ↦ inr (omega (arith, lt))
      ])
      (if-both F
        ((without_cr address == without_cr m.local_addr) || is_primary_address (without_cr address))
        (inr some_peer) (inl refl))

pub on_frame_received-Valid :
    {n : ℕ} {h : HdlcLl} (now : ℕ) (fd : TinyFd) (bytes : Bytes)
    → 0 < n
    → n ≤ 255
    → Valid n h fd
    → Returns (Valid n h) (on_frame_received now fd bytes)
unfolding on_frame_received
on_frame_received-Valid now fd [] some_peer few v = returns v
on_frame_received-Valid now fd (address ∷ []) some_peer few v = returns v
on_frame_received-Valid {n} {h} now fd (address ∷ control ∷ payload) some_peer few v =
    let peer = address_field_to_peer fd.peer_mgr address in
    let count = v.peer_count in
    elim (address_field_to_peer-Found fd.peer_mgr address (omega (arith, count))
      (omega (arith, count))) [
        | inl e ↦ rw (e, on_frame_received) (returns v)
        | inr lt ↦
            if-both (Returns (Valid n h)) (peer == hdlc_invalid_peer_index) (returns v)
              (on_frame_from-Valid now fd peer control payload (omega (arith, count)) v)
      ]
