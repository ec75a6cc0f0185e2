-- ===== src/Fd/Protocol/Valid/Transmit.antt =====
-- `get_tx_data` of src/proto/fd/protocol.rs ends, without a panic, in every state that the handle reaches.
use tinyproto_rust.Base.{
  ℕ, zero, suc, ◌+◌, ◌≤◌, ◌<◌, false, not, Option, none, some, arith, Returns, returns,
  Returns-bind, if-both, Bool-cases, inl, inr, u8,
}
use tinyproto_rust.Error.{TinyResult, ok, err}
use tinyproto_rust.Hdlc.Ll.Defs.{HdlcLl, put_frame}
use tinyproto_rust.Hdlc.Ll.Tx.Pending.{TxOk}
use tinyproto_rust.Hdlc.Ll.Tx.Queues.{put_frame-TxOk}
use tinyproto_rust.Fd.Frames.{i_frame, FrameInfo, to_bytes}
use tinyproto_rust.Fd.IQueueControl.{
  all_frames_are_sent, advance_next_ns, get_next_frame_to_send, get_next_frame_to_receive,
}
use tinyproto_rust.Fd.FrameQueue.{get, get_next}
use tinyproto_rust.Fd.FrameQueue.Keep.{free-IsValid}
use tinyproto_rust.Fd.Peers.{PeerInfo}
use tinyproto_rust.Fd.Protocol.Defs.{TinyFd, is_connected}
use tinyproto_rust.Fd.Protocol.Send.{i_control}
use tinyproto_rust.Fd.Protocol.Transmit.{
  Round, handed_s, hand_s, send_s_from, with_control, sent_peer, handed_i, hand_i, send_i_of,
  send_i_from,
}
use tinyproto_rust.Fd.Protocol.Valid.{
  NumbersOk, peer_at-Valid, set_peer-Valid, address-Valid, s_queue-Valid,
}
use tinyproto_rust.Fd.Protocol.Valid.Handlers.{next_number-lt}
use tinyproto_rust.Fd.Protocol.Valid.Channel.{IsReady, hdlc-Valid}

-- A round leaves the handle ready.
abbrev pub ReadyRound : ℕ → Round → Type 0
ReadyRound n (fd, done) = IsReady n fd

sent_peer-NumbersOk :
    (now : ℕ) (fd : TinyFd) (p : PeerInfo) → NumbersOk p → NumbersOk (sent_peer now fd p)
unfolding advance_next_ns
sent_peer-NumbersOk now fd p numbers = record {
  last_lt = numbers.last_lt;
  confirm_lt = numbers.confirm_lt;
  next_lt = next_number-lt p.i_queue_control.tx_state.next_ns;
  next_nr_lt = numbers.next_nr_lt;
}

module _ {n : ℕ} (fd : TinyFd) (ready : IsReady n fd) where
  pub framer-IsReady : (ll : HdlcLl) → TxOk ll → IsReady n (record fd { hdlc = ll })
  framer-IsReady ll tx_ok = record { valid = hdlc-Valid fd ll ready.valid; tx_ok = tx_ok }

  handed_s-IsReady :
      (i : ℕ) (r : HdlcLl × TinyResult (Unit {0})) → TxOk r.0 → ReadyRound n (handed_s fd i r)
  handed_s-IsReady i (ll, ok u) tx_ok = record {
    valid =
        s_queue-Valid (record fd { hdlc = ll }) _ (hdlc-Valid fd ll ready.valid)
          (free-IsValid fd.frames.s_queue i ready.valid.s_queue_ok);
    tx_ok = tx_ok;
  }
  handed_s-IsReady i (ll, err e) tx_ok = framer-IsReady ll tx_ok

  hand_s-IsReady : (i : ℕ) (frame : Option FrameInfo) → ReadyRound n (hand_s fd i frame)
  hand_s-IsReady i none = ready
  hand_s-IsReady i (some frame) =
      handed_s-IsReady i (put_frame fd.hdlc (to_bytes frame))
        (put_frame-TxOk fd.hdlc (to_bytes frame) ready.tx_ok)

  handed_i-IsReady :
      (now peer : ℕ) (p : PeerInfo) (r : HdlcLl × TinyResult (Unit {0}))
      → NumbersOk p
      → TxOk r.0
      → ReadyRound n (handed_i now fd peer p r)
  handed_i-IsReady now peer p (ll, ok u) numbers tx_ok = record {
    valid =
        set_peer-Valid (record fd { hdlc = ll }) peer (sent_peer now fd p)
          (hdlc-Valid fd ll ready.valid) (sent_peer-NumbersOk now fd p numbers);
    tx_ok = tx_ok;
  }
  handed_i-IsReady now peer p (ll, err e) numbers tx_ok = framer-IsReady ll tx_ok

  hand_i-IsReady :
      (now peer : ℕ) (p : PeerInfo) (o : Option (ℕ × FrameInfo))
      → NumbersOk p
      → ReadyRound n (hand_i now fd peer p o)
  hand_i-IsReady now peer p none numbers = ready
  hand_i-IsReady now peer p (some (i, frame)) numbers =
      let ns = get_next_frame_to_send p.i_queue_control in
      let nr = get_next_frame_to_receive p.i_queue_control in
      let bytes = with_control (to_bytes frame) (i_control ns nr) in
      handed_i-IsReady now peer p (put_frame fd.hdlc bytes) numbers
        (put_frame-TxOk fd.hdlc bytes ready.tx_ok)

  abbrev next : ℕ → PeerInfo → Option (ℕ × FrameInfo)
  next addr p = get_next fd.frames.i_queue i_frame addr (get_next_frame_to_send p.i_queue_control)

  send_i_of-IsReady : (now peer : ℕ) → peer < n → Returns (ReadyRound n) (send_i_of now fd peer)
  unfolding send_i_of
  send_i_of-IsReady now peer lt = Returns-bind (peer_at-Valid fd peer ready.valid lt) (λ p numbers.
      if-both (Returns (ReadyRound n)) (not (is_connected p.state))
        (returns {a = (fd, false)} ready)
        (if-both (Returns (ReadyRound n)) (all_frames_are_sent p.i_queue_control)
          (returns {a = (fd, false)} ready)
          (Returns-bind (address-Valid fd (u8 peer) ready.valid (omega arith)) (λ addr _.
            returns {a = hand_i now fd peer p (next addr p)}
              (hand_i-IsReady now peer p (next addr p) numbers)))))

pub send_s_from-IsReady :
    {n : ℕ} (left i : ℕ) (fd : TinyFd) → IsReady n fd → ReadyRound n (send_s_from left i fd)
unfolding send_s_from
send_s_from-IsReady zero i fd ready = ready
send_s_from-IsReady (suc left) i fd ready =
    let r = hand_s fd i (get fd.frames.s_queue i) in
    let ready' = hand_s-IsReady fd ready i (get fd.frames.s_queue i) in
    elim (Bool-cases r.1) [
      | inl e ↦ rw (e, send_s_from) ready'
      | inr e ↦ rw (e, send_s_from) (send_s_from-IsReady left (suc i) r.0 ready')
    ]

pub send_i_from-IsReady :
    {n : ℕ} (left peer now : ℕ) (fd : TinyFd)
    → peer + left ≤ n
    → IsReady n fd
    → Returns (IsReady n) (send_i_from left peer now fd)
unfolding send_i_from
send_i_from-IsReady zero peer now fd le ready = returns ready
send_i_from-IsReady (suc left) peer now fd le ready =
    let r = send_i_of-IsReady fd ready now peer (omega arith) in
    elim (Bool-cases r.result.1) [
      | inl e ↦ rw (r.returned, e, send_i_from) (returns r.holds)
      | inr e ↦
          rw (r.returned, e, send_i_from)
            (send_i_from-IsReady left (suc peer) now r.result.0 (omega arith) r.holds)
    ]
