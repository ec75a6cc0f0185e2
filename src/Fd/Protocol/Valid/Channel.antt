-- ===== src/Fd/Protocol/Valid/Channel.antt =====
-- `on_rx_data` of src/proto/fd/protocol.rs ends, without a panic, on every input.
use tinyproto_rust.Base.{
  ℕ, zero, suc, ◌+◌, ◌*◌, ◌≤◌, ◌<◌, false, ◌&&◌, none, some, List, [], ◌∷◌, Bytes, length,
  length-drop, drop, ◌==◌, ◌≡◌, refl, sym, arith, Returns, returns, Returns-bind, Bool-cases, inl,
  inr,
}
use mathlib.Core.Path.{subst}
use tinyproto_rust.Hdlc.Ll.Defs.{HdlcLl, get_rx_frame}
use tinyproto_rust.Hdlc.Ll.Rx.{run_rx}
use tinyproto_rust.Hdlc.Ll.Rx.Rounds.{IsSettled}
use tinyproto_rust.Hdlc.Ll.Rx.Steady.{run_rx-Steady, run_rx-progress, receiving-TxOk}
use tinyproto_rust.Hdlc.Ll.Tx.Pending.{TxOk}
use tinyproto_rust.Fd.Protocol.Defs.{TinyFd}
use tinyproto_rust.Fd.Protocol.Receive.{deliver_frames, is_none, rx_loop, on_rx_data}
use tinyproto_rust.Fd.Protocol.Valid.{Valid}
use tinyproto_rust.Fd.Protocol.Valid.Receive.{on_frame_received-Valid}

-- Between calls: the parts are valid, and the transmitter is in a state that it reaches.
pub record IsReady (n : ℕ) (fd : TinyFd) : Type 0 where
  pub valid : Valid n fd.hdlc fd
  pub tx_ok : TxOk fd.hdlc

abbrev Settled : ℕ → TinyFd → Type 0
Settled n fd = IsReady n fd × IsSettled fd.hdlc.rx_state

-- Another framer in the same handle.
pub hdlc-Valid :
    {n : ℕ} {h : HdlcLl} (fd : TinyFd) (ll : HdlcLl)
    → Valid n h fd
    → Valid n ll (record fd { hdlc = ll })
hdlc-Valid fd ll v = record {
  same_hdlc = refl;
  peer_count = v.peer_count;
  numbers = v.numbers;
  i_queue_ok = v.i_queue_ok;
  s_queue_ok = v.s_queue_ok;
}

-- What is known of the framer holds of that of a handle with the same one.
pub own-Valid :
    {n : ℕ} {h : HdlcLl} (fd : TinyFd) (P : HdlcLl → Type 0)
    → Valid n h fd
    → P h
    → Valid n fd.hdlc fd × P fd.hdlc
own-Valid {n} fd P v p = subst (λ l. Valid n l fd × P l) (sym v.same_hdlc) (v, p)

get_rx_frame-nil : (ll : HdlcLl) → ll.rx_frames ≡ [] → (get_rx_frame ll).0 ≡ none
unfolding get_rx_frame
get_rx_frame-nil ll e = rw e refl

get_rx_frame-keeps :
    (ll : HdlcLl)
    → TxOk ll
    → IsSettled ll.rx_state
    → TxOk (get_rx_frame ll).1 × IsSettled (get_rx_frame ll).1.rx_state
unfolding get_rx_frame
get_rx_frame-keeps ll ok settled = (receiving-TxOk ll _ _ _ _ _ ok, settled)

get_rx_frame-cons :
    (ll : HdlcLl) (f : Bytes) (fs : List Bytes)
    → ll.rx_frames ≡ f ∷ fs
    → ((get_rx_frame ll).0 ≡ some f) × ((get_rx_frame ll).1.rx_frames ≡ fs)
unfolding get_rx_frame
get_rx_frame-cons ll f fs e = rw e (refl, refl)

module _ (n : ℕ) (some_peer : 0 < n) (few : n ≤ 255) (now : ℕ) where
  deliver_frames-Settled :
      (fuel : ℕ) (fd : TinyFd) (fs : List Bytes)
      → fd.hdlc.rx_frames ≡ fs
      → length fs < fuel
      → Settled n fd
      → Returns (Settled n) (deliver_frames fuel now fd)
  unfolding deliver_frames
  deliver_frames-Settled zero fd fs e lt ready = absurd (omega arith)
  deliver_frames-Settled (suc fuel) fd [] e lt (ready, settled) =
      rw (get_rx_frame-nil fd.hdlc e, deliver_frames)
        (let (tx_ok, settled') = get_rx_frame-keeps fd.hdlc ready.tx_ok settled in
          returns (record { valid = hdlc-Valid fd _ ready.valid; tx_ok = tx_ok }, settled'))
  deliver_frames-Settled (suc fuel) fd (f ∷ fs) e lt (ready, settled) =
      let ll = (get_rx_frame fd.hdlc).1 in
      let (found, left) = get_rx_frame-cons fd.hdlc f fs e in
      let (tx_ok, settled') = get_rx_frame-keeps fd.hdlc ready.tx_ok settled in
      rw (found, deliver_frames)
        (Returns-bind
          (on_frame_received-Valid now (record fd { hdlc = ll }) f some_peer few
            (hdlc-Valid fd ll ready.valid))
          (λ fd' v.
            let (v', (ok, at_rest, frames)) =
              own-Valid fd' (λ l. TxOk l × IsSettled l.rx_state × (l.rx_frames ≡ fs)) v
                (tx_ok, settled', left) in
            deliver_frames-Settled fuel fd' fs frames (omega arith)
              (record { valid = v'; tx_ok = ok }, at_rest)))

  -- What a round leaves behind, once `run_rx` has returned.
  round-Settled :
      (fd : TinyFd) (ll : HdlcLl)
      → Valid n fd.hdlc fd
      → TxOk ll
      → IsSettled ll.rx_state
      → Returns
          (Settled n)
          (deliver_frames (suc (length ll.rx_frames)) now (record fd { hdlc = ll }))
  round-Settled fd ll v tx_ok settled =
      deliver_frames-Settled (suc (length ll.rx_frames)) (record fd { hdlc = ll }) ll.rx_frames refl
        (omega arith) (record { valid = hdlc-Valid fd ll v; tx_ok = tx_ok }, settled)

  -- With no flag unprocessed each round consumes a byte.
  rx_loop-Settled :
      (fuel : ℕ) (fd : TinyFd) (bs : Bytes)
      → length bs < fuel
      → Settled n fd
      → Returns (IsReady n) (rx_loop fuel now fd bs)
  unfolding rx_loop
  rx_loop-Settled zero fd bs lt ready = absurd (omega arith)
  rx_loop-Settled (suc fuel) fd [] lt (ready, settled) = returns ready
  rx_loop-Settled (suc fuel) fd (b ∷ bs) lt (ready, settled) =
      let (most, settled', tx_ok) = run_rx-Steady fd.hdlc (b ∷ bs) ready.tx_ok in
      let least = run_rx-progress fd.hdlc b bs ready.tx_ok settled in
      let consumed = (run_rx fd.hdlc (b ∷ bs)).0 in
      let some_byte : (consumed == 0) ≡ false = ground (arith, least) in
      rw (some_byte, rx_loop)
        (Returns-bind (round-Settled fd _ ready.valid tx_ok settled') (λ fd' ready'.
          rx_loop-Settled fuel fd' (drop consumed (b ∷ bs))
            (omega (arith, least, length-drop {0} consumed (b ∷ bs))) ready'))

  rx_loop-IsReady :
      (fuel : ℕ) (fd : TinyFd) (bs : Bytes)
      → length bs < fuel
      → IsReady n fd
      → Returns (IsReady n) (rx_loop (suc fuel) now fd bs)
  unfolding rx_loop
  rx_loop-IsReady fuel fd [] lt ready = returns ready
  rx_loop-IsReady fuel fd (b ∷ bs) lt ready =
      let r = run_rx fd.hdlc (b ∷ bs) in
      let (most, settled', tx_ok) = run_rx-Steady fd.hdlc (b ∷ bs) ready.tx_ok in
      elim (Bool-cases ((r.0 == 0) && is_none r.1)) [
        | inl e ↦
            rw (e, rx_loop)
              (returns (record { valid = hdlc-Valid fd r.2 ready.valid; tx_ok = tx_ok }))
        | inr e ↦
            rw (e, rx_loop)
              (Returns-bind (round-Settled fd r.2 ready.valid tx_ok settled') (λ fd' ready'.
                rx_loop-Settled fuel fd' (drop r.0 (b ∷ bs))
                  (omega (arith, length-drop {0} r.0 (b ∷ bs))) ready'))
      ]

pub on_rx_data-IsReady :
    (n now : ℕ) (fd : TinyFd) (bytes : Bytes)
    → 0 < n
    → n ≤ 255
    → IsReady n fd
    → Returns (IsReady n) (on_rx_data now fd bytes)
unfolding on_rx_data rx_loop
on_rx_data-IsReady n now fd [] some_peer few ready = returns ready
on_rx_data-IsReady n now fd (b ∷ bs) some_peer few ready =
    let bytes = b ∷ bs in
    subst (λ fuel. Returns (IsReady n) (rx_loop fuel now fd bytes)) {x = suc (2 * length bytes)}
      {y = 2 * length bytes + 1} (omega arith)
      (rx_loop-IsReady n some_peer few now (2 * length bytes) fd bytes (omega arith) ready)
