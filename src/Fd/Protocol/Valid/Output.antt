-- ===== src/Fd/Protocol/Valid/Output.antt =====
-- `get_tx_data` of src/proto/fd/protocol.rs ends, without a panic, in every state that the handle reaches.
use tinyproto_rust.Base.{
  ℕ, zero, suc, ◌≤◌, true, false, not, ◌&&◌, List, [], ◌∷◌, Bytes, length, ltb, ◌==◌, ◌≡◌, refl,
  arith, Returns, returns, Returns-bind, if-both,
}
use tinyproto_rust.Hdlc.Ll.Defs.{HdlcLl, is_tx_busy, get_tx_sent_frame}
use tinyproto_rust.Hdlc.Ll.Tx.Pending.{TxOk}
use tinyproto_rust.Hdlc.Ll.Tx.Queues.{
  get_tx_sent_frame-TxOk, get_tx_sent_frame-nil, get_tx_sent_frame-cons, run_tx-TxOk,
}
use tinyproto_rust.Fd.Defines.{fd_event_tx_data_available}
use tinyproto_rust.Fd.FrameQueue.{capacity}
use tinyproto_rust.Fd.Protocol.Events as Events
use tinyproto_rust.Fd.Protocol.Defs.{TinyFd}
use tinyproto_rust.Fd.Protocol.Transmit.{
  Round, then_i_frames, generate_tx_frames, drain_sent, run_framer, drained, try_again, get_tx_data,
}
use tinyproto_rust.Fd.Protocol.Valid.Timers.{check_timeouts-Valid}
use tinyproto_rust.Fd.Protocol.Valid.Channel.{IsReady, own-Valid}
use tinyproto_rust.Fd.Protocol.Valid.Transmit.{
  ReadyRound, framer-IsReady, send_s_from-IsReady, send_i_from-IsReady,
}

-- What a call wrote, and a handle that is ready, with no notice of a sent frame left.
abbrev ReadyOut : ℕ → Bytes × TinyFd → Type 0
ReadyOut n (written, fd) = IsReady n fd

then_i_frames-IsReady :
    {n : ℕ} (now : ℕ) (r : Round) → ReadyRound n r → Returns (IsReady n) (then_i_frames now r)
then_i_frames-IsReady now (fd, true) ready = returns ready
then_i_frames-IsReady now (fd, false) ready =
    send_i_from-IsReady (length fd.peer_mgr.peers) 0 now fd (omega (arith, ready.valid.peer_count))
      ready

generate_tx_frames-IsReady :
    {n : ℕ} (now : ℕ) (fd : TinyFd) → IsReady n fd → Returns (IsReady n) (generate_tx_frames now fd)
unfolding generate_tx_frames
generate_tx_frames-IsReady {n} now fd ready =
    if-both (Returns (IsReady n)) (is_tx_busy fd.hdlc) (returns ready)
      (then_i_frames-IsReady now _ (send_s_from-IsReady (capacity fd.frames.s_queue) 0 fd ready))

-- The notices are all taken out.
drain_sent-TxOk :
    (n : ℕ) (ll : HdlcLl) (fs : List Bytes)
    → ll.tx_sent_frames ≡ fs
    → length fs ≤ n
    → TxOk ll
    → TxOk (drain_sent n ll) × ((drain_sent n ll).tx_sent_frames ≡ [])
unfolding drain_sent
drain_sent-TxOk zero ll [] e le ok = (ok, e)
drain_sent-TxOk zero ll (f ∷ fs) e le ok = absurd (omega arith)
drain_sent-TxOk (suc n) ll [] e le ok =
    let (nothing, left) = get_tx_sent_frame-nil ll e in
    rw (nothing, drain_sent) (get_tx_sent_frame-TxOk ll ok, left)
drain_sent-TxOk (suc n) ll (f ∷ fs) e le ok =
    let (found, left) = get_tx_sent_frame-cons ll f fs e in
    rw (found, drain_sent)
      (drain_sent-TxOk n (get_tx_sent_frame ll).1 fs left (omega arith)
        (get_tx_sent_frame-TxOk ll ok))

run_framer-IsReady :
    {n : ℕ} (fd : TinyFd) (out_len : ℕ)
    → IsReady n fd
    → Returns (ReadyOut n) (run_framer fd out_len)
run_framer-IsReady fd out_len ready =
    Returns-bind (run_tx-TxOk fd.hdlc out_len ready.tx_ok)
      (λ r tx_ok. returns {a = (r.0, record fd { hdlc = r.1 })} (framer-IsReady fd ready r.1 tx_ok))

drained-IsReady : {n : ℕ} (fd : TinyFd) → IsReady n fd → IsReady n (drained fd)
drained-IsReady fd ready =
    framer-IsReady fd ready _
      (drain_sent-TxOk (length fd.hdlc.tx_sent_frames) fd.hdlc fd.hdlc.tx_sent_frames refl
        (omega arith) ready.tx_ok).0

try_again-IsReady :
    {n : ℕ} (now out_len timeout_ms : ℕ) (written : Bytes) (fd : TinyFd)
    → IsReady n fd
    → Returns (ReadyOut n) (try_again now out_len timeout_ms (written, fd))
try_again-IsReady {n} now out_len timeout_ms written fd ready =
    let kept = returns {P = ReadyOut n} {a = (written, fd)} ready in
    if-both (Returns (ReadyOut n)) ((length written == 0) && ltb 0 timeout_ms)
      (if-both (Returns (ReadyOut n)) (not (Events.wait fd.events fd_event_tx_data_available == 0))
        (Returns-bind (generate_tx_frames-IsReady now fd ready)
          (λ fd' ready'. run_framer-IsReady fd' out_len ready'))
        kept)
      kept

pub get_tx_data-IsReady :
    (n now later : ℕ) (fd : TinyFd) (out_len timeout_ms : ℕ)
    → IsReady n fd
    → Returns (λ r. IsReady n r.1) (get_tx_data now later fd out_len timeout_ms)
unfolding get_tx_data
get_tx_data-IsReady n now later fd out_len timeout_ms ready =
    Returns-bind (check_timeouts-Valid now fd ready.valid) (λ fd1 v.
      let (v1, ok1) = own-Valid fd1 TxOk v ready.tx_ok in
      Returns-bind (generate_tx_frames-IsReady now fd1 (record { valid = v1; tx_ok = ok1 }))
        (λ fd2 ready2. Returns-bind (run_framer-IsReady fd2 out_len ready2) (λ r ready3.
          try_again-IsReady later out_len timeout_ms r.0 (drained r.1)
            (drained-IsReady r.1 ready3))))
