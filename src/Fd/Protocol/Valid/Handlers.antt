-- ===== src/Fd/Protocol/Valid/Handlers.antt =====
-- The handlers of src/proto/fd/protocol.rs neither panic nor run on: whatever a frame holds, they return a
-- valid handle.
use tinyproto_rust.Base.{
  ℕ, ◌+◌, ◌<◌, bit_and, Bool, true, not, List, [], ◌∷◌, Bytes, ◌==◌, ◌≡◌, refl, arith, Returns,
  returns, Returns-bind, if-both, ◌>>>◌,
}
use tinyproto_rust.Base.And.{bit_and_le}
use tinyproto_rust.Hdlc.Ll.Defs.{HdlcLl}
use tinyproto_rust.Fd.Defines.{
  FdState, idle, disconnected, connecting, connected, disconnecting, hdlc_u_frame_type_dm,
  hdlc_u_frame_type_ua, hdlc_u_frame_type_sabm, hdlc_u_frame_type_snrm, hdlc_u_frame_type_disc,
  hdlc_u_frame_type_mask, hdlc_s_frame_type_rr, hdlc_s_frame_type_rej, hdlc_s_frame_type_srej,
  hdlc_s_frame_type_mask, seq_bits_mask,
}
use tinyproto_rust.Fd.IQueueControl.{
  IQueueControl, next_number, retransmit_frame, get_next_frame_to_receive,
  move_to_next_frame_to_receive,
}
use tinyproto_rust.Fd.IQueueControl.Confirm.{with_confirm_ns, confirm_sent_frames-numbers}
use tinyproto_rust.Fd.Peers.{PeerInfo}
use tinyproto_rust.Fd.FrameQueue.{FrameQueue, free_by_ns}
use tinyproto_rust.Fd.FrameQueue.Allocate.{IsValid}
use tinyproto_rust.Fd.FrameQueue.Keep.{free_by_ns-IsValid}
use tinyproto_rust.Fd.Protocol.Defs.{TinyFd, set_peer}
use tinyproto_rust.Fd.Protocol.Handlers.{
  put_ua, on_ua_in, on_ua, on_u_frame_received, free_all, confirmed_peer, confirm, accepted_peer,
  sequence_frame, on_i_frame_received, supervise, on_s_frame_received,
}
use tinyproto_rust.Fd.Protocol.Valid.{
  NumbersOk, same-NumbersOk, Valid, peer_at-Valid, set_peer-Valid, address-Valid, call_read-Valid,
  i_queue-Valid, put_u_s_frame-Valid,
}
use tinyproto_rust.Fd.Protocol.Valid.Connect.{
  announce_slots-Valid, switch_to_connected-Valid, switch_to_disconnected-Valid,
}

low_three : (x : ℕ) → bit_and x seq_bits_mask < 8
low_three x = omega (arith, bit_and_le x 7)

pub next_number-lt : (x : ℕ) → next_number x < 8
unfolding next_number
next_number-lt x = low_three (x + 1)

confirmed-NumbersOk :
    (p : PeerInfo) (nr : ℕ)
    → NumbersOk p
    → nr < 8
    → NumbersOk (record p { i_queue_control = with_confirm_ns p.i_queue_control nr })
confirmed-NumbersOk p nr ok lt = record {
  last_lt = ok.last_lt;
  confirm_lt = lt;
  next_lt = ok.next_lt;
  next_nr_lt = ok.next_nr_lt;
}

accepted_peer-NumbersOk : (p : PeerInfo) → NumbersOk p → NumbersOk (accepted_peer p)
unfolding move_to_next_frame_to_receive
accepted_peer-NumbersOk p ok = record {
  last_lt = ok.last_lt;
  confirm_lt = ok.confirm_lt;
  next_lt = ok.next_lt;
  next_nr_lt = next_number-lt p.i_queue_control.rx_state.next_nr;
}

-- A rewind to a number of three bits.
pub rewound-NumbersOk :
    (p p' : PeerInfo) (nr : ℕ)
    → p'.i_queue_control ≡ (retransmit_frame p.i_queue_control nr (λ _. true)).0
    → NumbersOk p
    → nr < 8
    → NumbersOk p'
unfolding retransmit_frame
rewound-NumbersOk p p' nr e ok lt = ground arith

free_all-IsValid :
    (q : FrameQueue) (addr : ℕ) (seqs : List ℕ) → IsValid q → IsValid (free_all q addr seqs)
unfolding free_all
free_all-IsValid q addr [] v = v
free_all-IsValid q addr (seq ∷ seqs) v =
    free_all-IsValid (free_by_ns q addr seq) addr seqs (free_by_ns-IsValid q addr seq v)

module _ {n : ℕ} {h : HdlcLl} (fd : TinyFd) (peer : ℕ) (lt : peer < n) (v : Valid n h fd) where
  put_ua-Valid : Returns (Valid n h) (put_ua fd peer)
  put_ua-Valid =
      Returns-bind (address-Valid fd peer v lt)
        (λ addr _. returns (put_u_s_frame-Valid fd _ _ [] v))

  on_ua_in-Valid : (s : FdState) (now : ℕ) → Returns (Valid n h) (on_ua_in s now fd peer)
  on_ua_in-Valid connecting now = switch_to_connected-Valid now fd peer lt v
  on_ua_in-Valid disconnecting now = switch_to_disconnected-Valid now fd peer lt v
  on_ua_in-Valid disconnected now = returns v
  on_ua_in-Valid idle now = returns v
  on_ua_in-Valid connected now = returns v

  on_ua-Valid : (now : ℕ) → Returns (Valid n h) (on_ua now fd peer)
  on_ua-Valid now = Returns-bind (peer_at-Valid fd peer v lt) (λ p _. on_ua_in-Valid p.state now)

  pub on_u_frame_received-Valid :
      (now control : ℕ) → Returns (Valid n h) (on_u_frame_received now fd peer control)
  unfolding on_u_frame_received
  on_u_frame_received-Valid now control =
      let u_type = bit_and control hdlc_u_frame_type_mask in
      let P = Returns (Valid n h) in
      if-both P (u_type == hdlc_u_frame_type_sabm)
        (Returns-bind put_ua-Valid (λ fd' v'. switch_to_connected-Valid now fd' peer lt v'))
        (if-both P (u_type == hdlc_u_frame_type_ua) (on_ua-Valid now) (
          if-both P (u_type == hdlc_u_frame_type_disc)
            (Returns-bind put_ua-Valid (λ fd' v'. switch_to_disconnected-Valid now fd' peer lt v'))
            (if-both P (u_type == hdlc_u_frame_type_dm)
              (switch_to_disconnected-Valid now fd peer lt v)
              (if-both P (u_type == hdlc_u_frame_type_snrm)
                (Returns-bind put_ua-Valid (λ fd' v'. switch_to_connected-Valid now fd' peer lt v'))
                (returns v)))))

  confirmed_peer-Valid :
      (addr nr : ℕ) (p : PeerInfo) (r : List ℕ × IQueueControl × Bool)
      → nr < 8
      → NumbersOk p
      → r.1 ≡ with_confirm_ns p.i_queue_control nr
      → Valid n h (confirmed_peer fd peer addr p r)
  confirmed_peer-Valid addr nr p (seqs, control, confirmed) small ok e =
      let v' : Valid n h (set_peer fd peer (record p { i_queue_control = control })) =
        rw e (set_peer-Valid fd peer _ v (confirmed-NumbersOk p nr ok small)) in
      announce_slots-Valid _ (
        i_queue-Valid (set_peer fd peer (record p { i_queue_control = control })) _ v'
          (free_all-IsValid fd.frames.i_queue addr seqs v.i_queue_ok))

  confirm-Valid : (addr nr : ℕ) → nr < 8 → Returns (Valid n h) (confirm fd peer addr nr)
  unfolding confirm
  confirm-Valid addr nr small = Returns-bind (peer_at-Valid fd peer v lt) (λ p ok.
      Returns-bind
        (record {
          result = _;
          returned = confirm_sent_frames-numbers p.i_queue_control nr ok.confirm_lt small;
          holds = refl;
        })
        (λ r e. returns (confirmed_peer-Valid addr nr p r small ok e)))

  sequence_frame-Valid :
      (addr ns : ℕ) (payload : Bytes) (p : PeerInfo)
      → NumbersOk p
      → Valid n h (sequence_frame fd peer addr ns payload p)
  sequence_frame-Valid addr ns payload p ok =
      if-both (Valid n h) (not (ns == get_next_frame_to_receive p.i_queue_control))
        (if-both (Valid n h) (not p.sent_reject)
          (put_u_s_frame-Valid _ _ _ [] (
            set_peer-Valid fd peer (record p { sent_reject = true }) v
              (same-NumbersOk p _ refl ok)))
          v)
        (put_u_s_frame-Valid _ _ _ [] (
          call_read-Valid _ _ payload
            (set_peer-Valid fd peer (accepted_peer p) v (accepted_peer-NumbersOk p ok))))

  supervise-Valid :
      (nr s_type : ℕ) (p : PeerInfo)
      → nr < 8
      → NumbersOk p
      → Valid n h (supervise fd peer nr s_type p)
  supervise-Valid nr s_type p small ok =
      let again = set_peer-Valid fd peer _ v (rewound-NumbersOk p _ nr refl ok small) in
      if-both (Valid n h) (s_type == hdlc_s_frame_type_rr)
        (set_peer-Valid fd peer (record p { retries = fd.retries }) v (same-NumbersOk p _ refl ok))
        (if-both (Valid n h) (s_type == hdlc_s_frame_type_rej) again
          (if-both (Valid n h) (s_type == hdlc_s_frame_type_srej) again v))

module _ {n : ℕ} {h : HdlcLl} (fd : TinyFd) (peer : ℕ) (lt : peer < n) (v : Valid n h fd) where
  pub on_i_frame_received-Valid :
      (control : ℕ) (payload : Bytes)
      → Returns (Valid n h) (on_i_frame_received fd peer control payload)
  unfolding on_i_frame_received
  on_i_frame_received-Valid control payload = Returns-bind (address-Valid fd peer v lt) (λ addr _.
      Returns-bind
        (confirm-Valid fd peer lt v addr (bit_and (control >>> 1) seq_bits_mask)
          (low_three (control >>> 1)))
        (λ fd' v'.
          Returns-bind (peer_at-Valid fd' peer v' lt)
            (λ p ok. returns (sequence_frame-Valid fd' peer lt v' addr _ payload p ok))))

  pub on_s_frame_received-Valid :
      (control : ℕ) → Returns (Valid n h) (on_s_frame_received fd peer control)
  unfolding on_s_frame_received
  on_s_frame_received-Valid control =
      let small = low_three (control >>> 5) in
      Returns-bind (address-Valid fd peer v lt) (λ addr _.
        Returns-bind (confirm-Valid fd peer lt v addr (bit_and (control >>> 5) seq_bits_mask) small)
          (λ fd' v'. Returns-bind (peer_at-Valid fd' peer v' lt) (λ p ok. returns (
            supervise-Valid fd' peer lt v' _ (bit_and control hdlc_s_frame_type_mask) p small ok))))
