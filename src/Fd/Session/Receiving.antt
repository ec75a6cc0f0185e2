-- ===== src/Fd/Session/Receiving.antt =====
-- What a frame that arrives and a check of the timeouts of src/proto/fd/protocol.rs do for a direction of a connection.
use tinyproto_rust.Base.{ℕ, ◌<◌, true, some, List, Bytes, ◌≡◌, refl, Returns, returns, Returns-at}
use tinyproto_rust.Fd.Defines.{hdlc_s_frame_type_rr, hdlc_s_frame_type_rej}
use tinyproto_rust.Fd.IQueueControl.{IQueueControl, retransmit_frame}
use tinyproto_rust.Fd.IQueueControl.Confirm.{with_confirm_ns}
use tinyproto_rust.Fd.FrameQueue.{FrameQueue}
use tinyproto_rust.Fd.Peers.{without_cr}
use tinyproto_rust.Fd.Protocol.Defs.{TinyFd, set_peer}
use tinyproto_rust.Fd.Protocol.Handlers.{on_i_frame_received, on_s_frame_received}
use tinyproto_rust.Fd.Protocol.Receive.{heard, on_frame_received}
use tinyproto_rust.Fd.Session.{Frame, info, rr, rej, encode}
use tinyproto_rust.Fd.Session.Codes.{
  IsInfo, IsSupervisory, i_control-IsInfo, rr_control-IsSupervisory, rej_control-IsSupervisory,
}
use tinyproto_rust.Fd.Session.Station.{Station, known, addressed, found, Station-moved}
use tinyproto_rust.Fd.Session.Confirming.{
  freed, sequenced, taken, confirm-Station, sequence_frame-Station, supervise_rr-Station,
  retransmit-Station,
}

-- The numbers go back to the number `nr`.
abbrev pub rewound : IQueueControl → ℕ → IQueueControl
rewound c nr = (retransmit_frame c nr (λ _. true)).0

-- What a frame leaves.
abbrev pub Received :
    (addr : ℕ) (c : IQueueControl) (q : FrameQueue) (given : List Bytes) → Frame → TinyFd → Type 0
Received addr c q given (info ns nr payload) fd' =
    Station addr (sequenced (with_confirm_ns c nr) ns) (freed q addr c nr)
      (taken c ns given payload) fd'
Received addr c q given (rr nr) fd' =
    Station addr (with_confirm_ns c nr) (freed q addr c nr) given fd'
Received addr c q given (rej nr) fd' =
    Station addr (rewound (with_confirm_ns c nr) nr) (freed q addr c nr) given fd'

-- The numbers of a frame have three bits.
abbrev pub IsSmall : Frame → Type 0
IsSmall (info ns nr payload) = (ns < 8) × (nr < 8)
IsSmall (rr nr) = nr < 8
IsSmall (rej nr) = nr < 8

module _ (addr : ℕ) (c : IQueueControl) (q : FrameQueue) (given : List Bytes) (fd : TinyFd)
    (v : Station addr c q given fd) (lt : c.tx_state.confirm_ns < 8) where
  on_i-Received :
      (control ns nr : ℕ) (payload : Bytes)
      → IsInfo control ns nr
      → nr < 8
      → Returns
          (Received addr c q given (info ns nr payload))
          (on_i_frame_received fd 0 control payload)
  unfolding on_i_frame_received
  on_i-Received control ns nr payload code small =
      let done = confirm-Station addr c q given fd v nr lt small in
      let c' = with_confirm_ns c nr in
      let q' = freed q addr c nr in
      let w = done.holds in
      rw
        (
          addressed addr c q given fd v,
          code.info_ns,
          code.info_nr,
          done.returned,
          known addr c' q' given done.result w,
        )
        (returns (sequence_frame-Station addr c' q' given done.result w ns payload))

  on_rr-Received :
      (control nr : ℕ)
      → IsSupervisory control nr hdlc_s_frame_type_rr
      → nr < 8
      → Returns (Received addr c q given (rr nr)) (on_s_frame_received fd 0 control)
  unfolding on_s_frame_received
  on_rr-Received control nr code small =
      let done = confirm-Station addr c q given fd v nr lt small in
      let c' = with_confirm_ns c nr in
      let q' = freed q addr c nr in
      let w = done.holds in
      rw
        (
          addressed addr c q given fd v,
          code.number,
          code.kind,
          done.returned,
          known addr c' q' given done.result w,
        )
        (returns (supervise_rr-Station addr c' q' given done.result w nr))

  on_rej-Received :
      (control nr : ℕ)
      → IsSupervisory control nr hdlc_s_frame_type_rej
      → nr < 8
      → Returns (Received addr c q given (rej nr)) (on_s_frame_received fd 0 control)
  unfolding on_s_frame_received
  on_rej-Received control nr code small =
      let done = confirm-Station addr c q given fd v nr lt small in
      let c' = with_confirm_ns c nr in
      let q' = freed q addr c nr in
      let w = done.holds in
      rw
        (
          addressed addr c q given fd v,
          code.number,
          code.kind,
          done.returned,
          known addr c' q' given done.result w,
        )
        (returns (retransmit-Station addr c' q' given done.result w nr))

module _ (addr : ℕ) (c : IQueueControl) (q : FrameQueue) (given : List Bytes) (fd : TinyFd)
    (v : Station addr c q given fd) (lt : c.tx_state.confirm_ns < 8) where
  heard-Station : (now : ℕ) → Station addr c q given (set_peer fd 0 (heard now v.peer))
  heard-Station now =
      Station-moved addr c q given fd v (heard now v.peer) c q given _ refl (refl, refl, v.control)
        v.queue v.heard refl

  dispatched :
      (now : ℕ) (frame : Frame)
      → without_cr addr ≡ addr
      → IsSmall frame
      → Returns (Received addr c q given frame) (on_frame_received now fd (encode addr frame))
  unfolding on_frame_received
  dispatched now (info ns nr payload) own (small, small') =
      let code = i_control-IsInfo ns nr small small' in
      rw (found addr c q given fd v own, known addr c q given fd v, code.not_u, v.up, code.is_i)
        (on_i-Received addr c q given _ (heard-Station now) lt _ ns nr payload code small')
  dispatched now (rr nr) own small =
      let code = rr_control-IsSupervisory nr small in
      rw
        (
          found addr c q given fd v own,
          known addr c q given fd v,
          code.not_u,
          v.up,
          code.not_i,
          code.is_s,
        )
        (on_rr-Received addr c q given _ (heard-Station now) lt _ nr code small)
  dispatched now (rej nr) own small =
      let code = rej_control-IsSupervisory nr small in
      rw
        (
          found addr c q given fd v own,
          known addr c q given fd v,
          code.not_u,
          v.up,
          code.not_i,
          code.is_s,
        )
        (on_rej-Received addr c q given _ (heard-Station now) lt _ nr code small)

  pub on_frame_received-Received :
      (now : ℕ) (frame : Frame) (fd' : TinyFd)
      → without_cr addr ≡ addr
      → IsSmall frame
      → on_frame_received now fd (encode addr frame) ≡ some fd'
      → Received addr c q given frame fd'
  on_frame_received-Received now frame fd' own small e =
      Returns-at (Received addr c q given frame) (on_frame_received now fd (encode addr frame)) fd'
        (dispatched now frame own small) e
