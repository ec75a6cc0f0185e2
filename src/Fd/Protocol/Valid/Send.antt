-- ===== src/Fd/Protocol/Valid/Send.antt =====
-- The operations of src/proto/fd/protocol.rs that an application calls keep the handle ready, and `new` makes one
-- that is.
use tinyproto_rust.Base.{
  ℕ, ◌≤◌, ◌<◌, not, Option, none, some, [], Bytes, length, ltb, ◌==◌, ◌≡◌, refl, ◌⊎◌, arith,
  Returns, returns, Returns-bind, if-both, inl, inr, bit_or, u8, ◌<<<◌,
}
use tinyproto_rust.Error.{ok, err}
use tinyproto_rust.Hdlc.Ll.Defs.{HdlcLl}
use tinyproto_rust.Fd.Defines.{
  hdlc_e_bit, hdlc_invalid_peer_index, fd_primary_addr, disconnecting,
  fd_event_queue_has_free_slots,
}
use tinyproto_rust.Fd.Frames.{i_frame}
use tinyproto_rust.Fd.IQueueControl.{tx_full, move_to_next_ns}
use tinyproto_rust.Fd.FrameQueue.{FrameQueue, has_free_slots}
use tinyproto_rust.Fd.FrameQueue.Allocate.{IsValid}
use tinyproto_rust.Fd.FrameQueue.Keep.{allocate-IsValid}
use tinyproto_rust.Fd.Peers.{PeerInfo}
use tinyproto_rust.Fd.Protocol.Events as Events
use tinyproto_rust.Fd.Protocol.Defs.{TinyFd, set_peer}
use tinyproto_rust.Fd.Protocol.Send.{
  Answer, queued_i, put_i_frame_of, put_i_frame, disconnecting_peer, disconnect, resolve_peer,
  announce, send_packet,
}
use tinyproto_rust.Fd.Protocol.Valid.{
  NumbersOk, same-NumbersOk, Valid, peer_at-Valid, set_peer-Valid, address-Valid, i_queue-Valid,
  put_u_s_frame-Valid,
}
use tinyproto_rust.Fd.Protocol.Valid.Handlers.{next_number-lt}
use tinyproto_rust.Fd.Protocol.Valid.Receive.{address_field_to_peer-Found}

-- Whether the answer is good or bad, the handle is valid.
abbrev pub ValidAnswer : ℕ → HdlcLl → Answer → Type 0
ValidAnswer n h (fd, answer) = Valid n h fd

module _ {n : ℕ} {h : HdlcLl} (fd : TinyFd) (v : Valid n h fd) where
  queued_i-Valid :
      (peer : ℕ) (p : PeerInfo) (r : FrameQueue × Option ℕ)
      → NumbersOk p
      → IsValid r.0
      → ValidAnswer n h (queued_i fd peer p r)
  unfolding move_to_next_ns
  queued_i-Valid peer p (q, none) numbers queue = v
  queued_i-Valid peer p (q, some i) numbers queue =
      set_peer-Valid (record fd { frames = record (fd.frames) { i_queue = q } }) peer
        (record p { i_queue_control = move_to_next_ns p.i_queue_control })
        (i_queue-Valid fd q v queue)
        (record {
          last_lt = next_number-lt p.i_queue_control.tx_state.last_ns;
          confirm_lt = numbers.confirm_lt;
          next_lt = numbers.next_lt;
          next_nr_lt = numbers.next_nr_lt;
        })

  put_i_frame-Valid :
      (peer addr_field : ℕ) (payload : Bytes)
      → peer < n
      → Returns (ValidAnswer n h) (put_i_frame fd peer addr_field payload)
  unfolding put_i_frame
  put_i_frame-Valid peer addr_field payload lt =
      Returns-bind (peer_at-Valid fd peer v lt) (λ p numbers.
        returns {a = put_i_frame_of fd peer addr_field payload p} (
          if-both (ValidAnswer n h) (tx_full p.i_queue_control) v (
            queued_i-Valid peer p _ numbers
              (allocate-IsValid fd.frames.i_queue i_frame _ payload v.i_queue_ok))))

  announce-Valid : (r : Answer) → ValidAnswer n h r → ValidAnswer n h (announce r)
  announce-Valid (fd', err e) v' = v'
  announce-Valid (fd', ok u) v' =
      if-both (ValidAnswer n h) (not (has_free_slots fd'.frames.i_queue)) v' v'

  resolve_peer-Found :
      (address : ℕ)
      → 0 < n
      → n ≤ 255
      → (resolve_peer fd address ≡ hdlc_invalid_peer_index) ⊎ (resolve_peer fd address < n)
  resolve_peer-Found address some_peer few =
      let P : ℕ → Type 0 = λ i. (i ≡ hdlc_invalid_peer_index) ⊎ (i < n) in
      let count = v.peer_count in
      if-both P (address == fd_primary_addr)
        (if-both P (length fd.peer_mgr.peers == 0) (inl refl) (inr some_peer))
        (elim (address_field_to_peer-Found fd.peer_mgr (bit_or (u8 (address <<< 2)) hdlc_e_bit)
          (omega (arith, count)) (omega (arith, count))) [
            | inl e ↦ inl e
            | inr lt ↦ inr (omega (arith, count, lt))
          ])

  pub send_packet-Valid :
      (address : ℕ) (payload : Bytes)
      → 0 < n
      → n ≤ 255
      → Returns (ValidAnswer n h) (send_packet fd address payload)
  unfolding send_packet
  send_packet-Valid address payload some_peer few =
      let P = Returns (ValidAnswer n h) in
      let peer = resolve_peer fd address in
      if-both P (ltb fd.mtu (length payload)) (returns {a = (fd, _)} v)
        (elim (resolve_peer-Found address some_peer few) [
          | inl e ↦ rw e (returns {a = (fd, _)} v)
          | inr lt ↦ if-both P (peer == hdlc_invalid_peer_index) (returns {a = (fd, _)} v) (
              if-both P (Events.wait fd.events fd_event_queue_has_free_slots == 0)
                (returns {a = (fd, _)} v)
                (Returns-bind (address-Valid fd peer v lt) (λ addr _.
                  Returns-bind (put_i_frame-Valid peer addr payload lt)
                    (λ r v'. returns {a = announce r} (announce-Valid r v')))))
        ])

disconnecting_peer-Valid :
    {n : ℕ} {h : HdlcLl} (peer : ℕ) (r : Answer)
    → peer < n
    → ValidAnswer n h r
    → Returns (ValidAnswer n h) (disconnecting_peer peer r)
disconnecting_peer-Valid peer (fd, err e) lt v = returns {a = (fd, err e)} v
disconnecting_peer-Valid peer (fd, ok u) lt v =
    let found = peer_at-Valid fd peer v lt in
    let p = record (found.result) { state = disconnecting } in
    rw (found.returned, disconnecting_peer)
      (returns {a = (set_peer fd peer p, ok tt)}
        (set_peer-Valid fd peer p v (same-NumbersOk (found.result) _ refl (found.holds))))

pub disconnect-Valid :
    {n : ℕ} {h : HdlcLl} (fd : TinyFd)
    → 0 < n
    → Valid n h fd
    → Returns (ValidAnswer n h) (disconnect fd)
unfolding disconnect
disconnect-Valid fd some_peer v =
    Returns-bind (address-Valid fd 0 v some_peer)
      (λ addr _. disconnecting_peer-Valid 0 _ some_peer (put_u_s_frame-Valid fd _ _ [] v))
