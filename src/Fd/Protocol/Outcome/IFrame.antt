-- ===== src/Fd/Protocol/Outcome/IFrame.antt =====
-- What `on_i_frame_received` of src/proto/fd/protocol.rs does with an I-frame.
use tinyproto_rust.Base.{
  ℕ, ◌<◌, bit_and, Bool, true, false, not, some, List, [], ◌∷◌, ◌++◌, Bytes, get_elem?, ◌==◌, ◌≡◌,
  refl, ap, ◌∙◌, arith, inl, inr, Bool-cases, if◌then◌else◌, ◌>>>◌, Returns, returns,
}
use tinyproto_rust.Base.And.{bit_and_le}
use tinyproto_rust.Fd.Defines.{seq_bits_mask}
use tinyproto_rust.Fd.IQueueControl.{get_next_frame_to_receive}
use tinyproto_rust.Fd.IQueueControl.Window.{distance}
use tinyproto_rust.Fd.IQueueControl.Confirm.{
  numbers_from, with_confirm_ns, confirm_sent_frames-numbers,
}
use tinyproto_rust.Fd.Peers.{PeerInfo, peer_to_address_field}
use tinyproto_rust.Fd.Protocol.Defs.{
  TinyFd, Call, read_call, peer_at, set_peer, user_address, call_read,
}
use tinyproto_rust.Fd.Protocol.Handlers.{
  rej_control, rr_control, free_all, confirmed_peer, confirm, reject_frame, accepted_peer,
  accept_frame, sequence_frame, on_i_frame_received,
}
use tinyproto_rust.Fd.Protocol.Outcome.{put_s-Same, announce_slots-Same, peer_at-set_peer}

-- The peer once its numbers up to `nr` are confirmed.
abbrev pub confirmed_to : PeerInfo → ℕ → PeerInfo
confirmed_to p nr = record p { i_queue_control = with_confirm_ns p.i_queue_control nr }

-- The calls once a payload has been handed to the reader, when there is one.
abbrev pub read_calls : TinyFd → ℕ → Bytes → List Call
read_calls fd addr payload =
    if fd.on_read_cb then fd.calls ++ read_call (user_address fd addr) payload ∷ [] else fd.calls

abbrev pub rejected_peer : PeerInfo → PeerInfo
rejected_peer p = record p { sent_reject = true }

-- The numbers that an acknowledgement of `nr` confirms.
abbrev pub confirmed_numbers : PeerInfo → ℕ → List ℕ
confirmed_numbers p nr =
    let from = p.i_queue_control.tx_state.confirm_ns in numbers_from from (distance from nr)

-- Whether the frame is delivered, and what becomes of the peer, of the calls and of the queue.
pub record Outcome (fd : TinyFd) (peer addr nr : ℕ) (payload : Bytes) (p : PeerInfo)
    (expected : Bool) (fd' : TinyFd) : Type 0 where
  pub peer_after :
      peer_at fd' peer
      ≡ some (
          if expected then accepted_peer (confirmed_to p nr) else rejected_peer (confirmed_to p nr))
  pub calls_after : fd'.calls ≡ (if expected then read_calls fd addr payload else fd.calls)
  pub queue_after : fd'.frames.i_queue ≡ free_all fd.frames.i_queue addr (confirmed_numbers p nr)

-- The handle once the numbers are confirmed and their frames freed.
record Confirmed (fd : TinyFd) (peer addr nr : ℕ) (p : PeerInfo) (fd' : TinyFd) : Type 0 where
  peer_then : peer_at fd' peer ≡ some (confirmed_to p nr)
  calls_then : (payload : Bytes) → read_calls fd' addr payload ≡ read_calls fd addr payload
  no_calls : fd'.calls ≡ fd.calls
  queue_then : fd'.frames.i_queue ≡ free_all fd.frames.i_queue addr (confirmed_numbers p nr)

confirmed_peer-Confirmed :
    (fd : TinyFd) (peer addr nr : ℕ) (p : PeerInfo) (flag : Bool)
    → peer_at fd peer ≡ some p
    → Confirmed fd peer addr nr p (
        confirmed_peer fd peer addr p
          (confirmed_numbers p nr, with_confirm_ns p.i_queue_control nr, flag))
confirmed_peer-Confirmed fd peer addr nr p flag e =
    let fd1 = set_peer fd peer (confirmed_to p nr) in
    let q = free_all fd.frames.i_queue addr (confirmed_numbers p nr) in
    let fd2 : TinyFd = record fd1 { frames = record (fd1.frames) { i_queue = q } } in
    let same = announce_slots-Same fd2 in
    record {
      peer_then = rw (same.same_peers) (peer_at-set_peer fd peer p (confirmed_to p nr) e);
      calls_then = λ payload. rw (same.same_calls, same.same_read_cb, same.same_peers) refl;
      no_calls = same.same_calls;
      queue_then = same.same_i_queue;
    }

confirm-Confirmed :
    (fd : TinyFd) (peer addr nr : ℕ) (p : PeerInfo)
    → peer_at fd peer ≡ some p
    → p.i_queue_control.tx_state.confirm_ns < 8
    → nr < 8
    → Returns (Confirmed fd peer addr nr p) (confirm fd peer addr nr)
unfolding confirm
confirm-Confirmed fd peer addr nr p e lt small =
    rw (e, confirm_sent_frames-numbers p.i_queue_control nr lt small)
      (returns (
        confirmed_peer-Confirmed fd peer addr nr p
          (not (p.i_queue_control.tx_state.confirm_ns == nr)) e))

rejected-Outcome :
    (fd fd' : TinyFd) (peer addr nr : ℕ) (payload : Bytes) (p : PeerInfo)
    → Confirmed fd peer addr nr p fd'
    → Outcome fd peer addr nr payload p false (reject_frame fd' peer addr (confirmed_to p nr))
rejected-Outcome fd fd' peer addr nr payload p h = elim (Bool-cases p.sent_reject) [
  | inl e ↦
      rw (e, reject_frame)
        (record {
          peer_after =
              h.peer_then ∙ ap (λ b. some (record (confirmed_to p nr) { sent_reject = b })) e;
          calls_after = h.no_calls;
          queue_after = h.queue_then;
        })
  | inr e ↦
      let fd1 = set_peer fd' peer (rejected_peer (confirmed_to p nr)) in
      let same = put_s-Same fd1 addr (rej_control (get_next_frame_to_receive p.i_queue_control)) in
      rw (e, reject_frame)
        (record {
          peer_after =
              rw (same.same_peers) (peer_at-set_peer fd' peer (confirmed_to p nr) _ h.peer_then);
          calls_after = same.same_calls ∙ h.no_calls;
          queue_after = same.same_i_queue ∙ h.queue_then;
        })
]

accepted-Outcome :
    (fd fd' : TinyFd) (peer addr nr : ℕ) (payload : Bytes) (p : PeerInfo)
    → Confirmed fd peer addr nr p fd'
    → Outcome fd peer addr nr payload p true
        (accept_frame fd' peer addr payload (confirmed_to p nr))
accepted-Outcome fd fd' peer addr nr payload p h =
    let p' = accepted_peer (confirmed_to p nr) in
    let fd1 = set_peer fd' peer p' in
    let fd2 = call_read fd1 (user_address fd' addr) payload in
    let same = put_s-Same fd2 addr (rr_control p'.sent_nr) in
    let here = peer_at-set_peer fd' peer (confirmed_to p nr) p' h.peer_then in
    let called : (fd2.peer_mgr ≡ fd1.peer_mgr)
        × (fd2.frames ≡ fd1.frames)
        × (fd2.calls ≡ read_calls fd' addr payload) =
      elim (Bool-cases fd'.on_read_cb) [
        | inl e ↦ rw (e, call_read) (refl, refl, refl)
        | inr e ↦ rw (e, call_read) (refl, refl, refl)
      ] in
    record {
      peer_after = ap (λ m. get_elem? (m.peers) peer) (same.same_peers ∙ called.0) ∙ here;
      calls_after = same.same_calls ∙ called.2 ∙ h.calls_then payload;
      queue_after = same.same_i_queue ∙ ap (λ fs. fs.i_queue) called.1 ∙ h.queue_then;
    }

sequence_frame-Outcome :
    (fd fd' : TinyFd) (peer addr ns nr : ℕ) (payload : Bytes) (p : PeerInfo)
    → Confirmed fd peer addr nr p fd'
    → Outcome fd peer addr nr payload p
        (ns == get_next_frame_to_receive p.i_queue_control)
        (sequence_frame fd' peer addr ns payload (confirmed_to p nr))
sequence_frame-Outcome fd fd' peer addr ns nr payload p h =
    elim (Bool-cases (ns == get_next_frame_to_receive p.i_queue_control)) [
      | inl e ↦ rw (e, sequence_frame) (accepted-Outcome fd fd' peer addr nr payload p h)
      | inr e ↦ rw (e, sequence_frame) (rejected-Outcome fd fd' peer addr nr payload p h)
    ]

-- An I-frame from a known peer whose next number to confirm has three bits: the numbers up to N(R) are confirmed, and their frames freed, in
-- either case. If N(S) is the number that is expected, then the payload is handed to the reader, once, and the next
-- number is expected; otherwise no call is made, the peer expects the number it did, and a rejection is noted. The
-- handler returns in either case.
pub on_i_frame_received-Outcome :
    (fd : TinyFd) (peer addr control : ℕ) (payload : Bytes) (p : PeerInfo)
    → peer_at fd peer ≡ some p
    → peer_to_address_field fd.peer_mgr peer ≡ some addr
    → p.i_queue_control.tx_state.confirm_ns < 8
    → let ns = bit_and (control >>> 5) seq_bits_mask in
      let nr = bit_and (control >>> 1) seq_bits_mask in
      Returns
        (Outcome fd peer addr nr payload p (ns == get_next_frame_to_receive p.i_queue_control))
        (on_i_frame_received fd peer control payload)
unfolding on_i_frame_received
on_i_frame_received-Outcome fd peer addr control payload p e at lt =
    let ns = bit_and (control >>> 5) seq_bits_mask in
    let nr = bit_and (control >>> 1) seq_bits_mask in
    let done =
      confirm-Confirmed fd peer addr nr p e lt (omega (arith, bit_and_le (control >>> 1) 7)) in
    rw (at, done.returned, done.holds.peer_then)
      (returns (sequence_frame-Outcome fd done.result peer addr ns nr payload p done.holds))
