-- ===== src/Fd/Session/Framer.antt =====
-- The turn of the S-frames and that of the framer in src/proto/fd/protocol.rs leave the directions of a connection as they are.
use tinyproto_rust.Base.{
  ℕ, zero, suc, true, Bool-cases, Option, none, some, List, Bytes, ◌≡◌, refl, inl, inr, ◌>>=◌,
  Whenever,
}
use mathlib.Core.Path.{subst}
use tinyproto_rust.Error.{TinyResult, ok, err}
use tinyproto_rust.Hdlc.Ll.Defs.{HdlcLl, put_frame}
use tinyproto_rust.Hdlc.Ll.Tx.{Sent, run_tx}
use tinyproto_rust.Fd.Frames.{FrameInfo, to_bytes}
use tinyproto_rust.Fd.IQueueControl.{IQueueControl}
use tinyproto_rust.Fd.FrameQueue.{FrameQueue, get}
use tinyproto_rust.Fd.Protocol.Defs.{TinyFd}
use tinyproto_rust.Fd.Protocol.Transmit.{Round, handed_s, hand_s, send_s_from, run_framer, drained}
use tinyproto_rust.Fd.Session.Station.{Station, Station-parts}

module _ (addr : ℕ) (c : IQueueControl) (q : FrameQueue) (given : List Bytes) where
  abbrev Holds : TinyFd → Type 0
  Holds fd = Station addr c q given fd

  handed_s-Station :
      (fd : TinyFd) (i : ℕ) (r : HdlcLl × TinyResult (Unit {0}))
      → Holds fd
      → Holds (handed_s fd i r).0
  handed_s-Station fd i (hdlc, ok u) v =
      Station-parts addr c q given fd v (handed_s fd i (hdlc, ok u)).0 refl refl refl refl
  handed_s-Station fd i (hdlc, err e) v =
      Station-parts addr c q given fd v (handed_s fd i (hdlc, err e)).0 refl refl refl refl

  hand_s-Station : (fd : TinyFd) (i : ℕ) (o : Option FrameInfo) → Holds fd → Holds (hand_s fd i o).0
  hand_s-Station fd i none v = v
  hand_s-Station fd i (some frame) v = handed_s-Station fd i (put_frame fd.hdlc (to_bytes frame)) v

  slots-Station : (n i : ℕ) (fd : TinyFd) → Holds fd → Holds (send_s_from n i fd).0
  unfolding send_s_from
  slots-Station zero i fd v = v
  slots-Station (suc n) i fd v =
      let o = get fd.frames.s_queue i in
      let v' = hand_s-Station fd i o v in
      elim (Bool-cases (hand_s fd i o).1) [
        | inl e ↦ rw (e, send_s_from) v'
        | inr e ↦ rw (e, send_s_from) (slots-Station n (suc i) (hand_s fd i o).0 v')
      ]

  pub send_s_from-Station :
      (fd : TinyFd)
      → Holds fd
      → (n i : ℕ) (fd' : TinyFd) → send_s_from n i fd ≡ (fd', true)
      → Holds fd'
  send_s_from-Station fd v n i fd' e = subst (λ (r : Round). Holds r.0) e (slots-Station n i fd v)

  written-Station :
      (fd : TinyFd) (o : Option Sent)
      → Holds fd
      → Whenever
          (λ (r : Bytes × TinyFd). Holds (drained r.1))
          (o >>= λ r. some (r.0, record fd { hdlc = r.1 }))
  written-Station fd none v = tt
  written-Station fd (some (bytes, hdlc)) v =
      Station-parts addr c q given fd v (drained (record fd { hdlc = hdlc })) refl refl refl refl

  pub run_framer-Station :
      (fd : TinyFd)
      → Holds fd
      → (out_len : ℕ) (written : Bytes) (fd' : TinyFd) → run_framer fd out_len ≡ some (written, fd')
      → Holds (drained fd')
  run_framer-Station fd v out_len written fd' e =
      subst (Whenever (λ (r : Bytes × TinyFd). Holds (drained r.1))) e
        (written-Station fd (run_tx fd.hdlc out_len) v)
