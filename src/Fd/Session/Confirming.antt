-- ===== src/Fd/Session/Confirming.antt =====
-- What the steps of the handlers of src/proto/fd/protocol.rs for I- and S-frames do for a direction of a connection.
use tinyproto_rust.Base.{
  ℕ, ◌<◌, Bool, true, false, not, List, [], ◌∷◌, ◌++◌, Bytes, ◌==◌, ◌≡◌, refl, sym, ap, ◌∙◌, inl,
  inr, Bool-cases, if-both, if◌then◌else◌, Returns, returns,
}
use mathlib.Core.Path.{subst}
use tinyproto_rust.Fd.IQueueControl.{
  IQueueControl, move_to_next_frame_to_receive, retransmit_frame, get_next_frame_to_receive,
}
use tinyproto_rust.Fd.IQueueControl.Window.{distance}
use tinyproto_rust.Fd.IQueueControl.Confirm.{
  numbers_from, with_confirm_ns, confirm_sent_frames-numbers,
}
use tinyproto_rust.Fd.FrameQueue.{FrameQueue}
use tinyproto_rust.Fd.Peers.{PeerInfo}
use tinyproto_rust.Fd.Defines.{hdlc_s_frame_type_rr}
use tinyproto_rust.Fd.Protocol.Defs.{
  TinyFd, Call, read_call, connect_call, set_peer, user_address, call_read,
}
use tinyproto_rust.Fd.Protocol.Handlers.{
  free_all, confirmed_peer, confirm, rej_control, rr_control, reject_frame, accepted_peer,
  accept_frame, sequence_frame, retransmit_from, supervise,
}
use tinyproto_rust.Fd.Protocol.Outcome.{announce_slots-Same, put_s-Same}
use tinyproto_rust.Fd.Session.{reads}
use tinyproto_rust.Fd.Session.Station.{Station, known, Station-moved, Station-Same}

pub reads-append :
    (calls : List Call) (a : ℕ) (m : Bytes)
    → reads (calls ++ read_call a m ∷ []) ≡ reads calls ++ m ∷ []
reads-append [] a m = refl
reads-append (read_call b n ∷ calls) a m = ap (λ ms. n ∷ ms) (reads-append calls a m)
reads-append (connect_call b up ∷ calls) a m = reads-append calls a m

-- The numbers that an acknowledgement of `nr` frees.
abbrev pub freed : FrameQueue → ℕ → IQueueControl → ℕ → FrameQueue
freed q addr c nr =
    free_all q addr (numbers_from c.tx_state.confirm_ns (distance c.tx_state.confirm_ns nr))

-- The numbers and the deliveries once an I-frame has been looked at.
abbrev pub sequenced : IQueueControl → ℕ → IQueueControl
sequenced c ns = if ns == c.rx_state.next_nr then move_to_next_frame_to_receive c else c

abbrev pub taken : IQueueControl → ℕ → List Bytes → Bytes → List Bytes
taken c ns given payload = if ns == c.rx_state.next_nr then given ++ payload ∷ [] else given

module _ (addr : ℕ) (c : IQueueControl) (q : FrameQueue) (given : List Bytes) (fd : TinyFd)
    (v : Station addr c q given fd) where
  abbrev own : IQueueControl
  own = v.peer.i_queue_control

  -- A peer with other numbers, or with other fields that do not matter.
  written :
      (p : PeerInfo) (c' : IQueueControl)
      → (p.state ≡ v.peer.state) × (p.addr ≡ v.peer.addr) × (p.i_queue_control ≡ c')
      → Station addr c' q given (set_peer fd 0 p)
  written p c' same =
      Station-moved addr c q given fd v p c' q given _ refl same v.queue v.heard refl

  confirmed_peer-Station :
      (nr : ℕ) (flag : Bool)
      → Station addr (with_confirm_ns own nr) (freed fd.frames.i_queue addr own nr) given (
          confirmed_peer fd 0 addr v.peer (
            numbers_from own.tx_state.confirm_ns (distance own.tx_state.confirm_ns nr),
            with_confirm_ns own nr,
            flag,
          ))
  confirmed_peer-Station nr flag =
      let p = record (v.peer) { i_queue_control = with_confirm_ns own nr } in
      let fd1 = set_peer fd 0 p in
      let fd2 : TinyFd = record fd1 {
        frames = record (fd1.frames) { i_queue = freed fd.frames.i_queue addr own nr };
      } in
      let c' = with_confirm_ns own nr in
      let q' = freed fd.frames.i_queue addr own nr in
      Station-Same addr c' q' given fd2
        (Station-moved addr c q given fd v p c' q' given fd2 refl (refl, refl, refl) refl v.heard
          refl)
        _ (announce_slots-Same fd2)

  pub confirm-Station :
      (nr : ℕ)
      → c.tx_state.confirm_ns < 8
      → nr < 8
      → Returns
          (Station addr (with_confirm_ns c nr) (freed q addr c nr) given)
          (confirm fd 0 addr nr)
  unfolding confirm
  confirm-Station nr lt small =
      let lt' : own.tx_state.confirm_ns < 8 = rw (v.control) lt in
      subst
        (λ q.
          Returns (Station addr (with_confirm_ns c nr) (freed q addr c nr) given)
            (confirm fd 0 addr nr))
        v.queue
        (subst
          (λ c.
            Returns (Station addr (with_confirm_ns c nr) (freed fd.frames.i_queue addr c nr) given)
              (confirm fd 0 addr nr))
          v.control
          (rw (known addr c q given fd v, confirm_sent_frames-numbers own nr lt' small)
            (returns (confirmed_peer-Station nr (not (own.tx_state.confirm_ns == nr))))))

  reject_frame-Station : Station addr c q given (reject_frame fd 0 addr v.peer)
  reject_frame-Station =
      let p = record (v.peer) { sent_reject = true } in
      if-both (Station addr c q given) (not v.peer.sent_reject)
        (Station-Same addr c q given (set_peer fd 0 p) (written p c (refl, refl, v.control)) _
          (put_s-Same _ addr (rej_control (get_next_frame_to_receive own))))
        v

  accept_frame-Station :
      (payload : Bytes)
      → Station addr
          (move_to_next_frame_to_receive c)
          q
          (given ++ payload ∷ [])
          (accept_frame fd 0 addr payload v.peer)
  accept_frame-Station payload =
      let p = accepted_peer v.peer in
      let fd1 = set_peer fd 0 p in
      let user = user_address fd addr in
      let c' = move_to_next_frame_to_receive c in
      let fd2 : TinyFd = record fd1 { calls = fd.calls ++ read_call user payload ∷ [] } in
      let called : Station addr c' q (given ++ payload ∷ []) (call_read fd1 user payload) =
        subst (Station addr c' q (given ++ payload ∷ []))
          (sym (ap (λ b. if b then fd2 else fd1) v.listening))
          (Station-moved addr c q given fd v p c' q (given ++ payload ∷ []) fd2 refl
            (refl, refl, ap move_to_next_frame_to_receive v.control) v.queue
            (reads-append fd.calls user payload ∙ ap (λ ms. ms ++ payload ∷ []) v.heard) refl) in
      Station-Same addr c' q (given ++ payload ∷ []) _ called _
        (put_s-Same _ addr (rr_control p.sent_nr))

  pub sequence_frame-Station :
      (ns : ℕ) (payload : Bytes)
      → Station addr
          (sequenced c ns)
          q
          (taken c ns given payload)
          (sequence_frame fd 0 addr ns payload v.peer)
  sequence_frame-Station ns payload = elim (Bool-cases (ns == own.rx_state.next_nr)) [
    | inl e ↦
        let e' : (ns == c.rx_state.next_nr) ≡ true =
          subst (λ c. (ns == c.rx_state.next_nr) ≡ true) v.control e in
        rw (e, e', sequence_frame) (accept_frame-Station payload)
    | inr e ↦
        let e' : (ns == c.rx_state.next_nr) ≡ false =
          subst (λ c. (ns == c.rx_state.next_nr) ≡ false) v.control e in
        rw (e, e', sequence_frame) reject_frame-Station
  ]

  pub supervise_rr-Station :
      (nr : ℕ) → Station addr c q given (supervise fd 0 nr hdlc_s_frame_type_rr v.peer)
  supervise_rr-Station nr =
      written (record (v.peer) { retries = fd.retries }) c (refl, refl, v.control)

  pub retransmit-Station :
      (nr : ℕ)
      → Station addr (retransmit_frame c nr (λ _. true)).0 q given (retransmit_from fd 0 nr v.peer)
  retransmit-Station nr =
      let p = record (v.peer) { i_queue_control = (retransmit_frame own nr (λ _. true)).0 } in
      let c' = (retransmit_frame c nr (λ _. true)).0 in
      Station-moved addr c q given fd v p c' q given _ refl
        (refl, refl, ap (λ c. (retransmit_frame c nr (λ _. true)).0) v.control) v.queue v.heard refl
