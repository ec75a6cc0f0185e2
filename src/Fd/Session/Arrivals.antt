-- ===== src/Fd/Session/Arrivals.antt =====
-- The calls on a handle of src/proto/fd/protocol.rs by which a station takes in frames and looks at the clock, as steps of
-- both directions of the connection.
use tinyproto_rust.Base.{
  ℕ, ◌<◌, true, false, some, List, [], ◌∷◌, ◌++◌, Bytes, ◌==◌, ◌≡◌, refl, sym, ap, ◌∙◌, arith, inl,
  inr, Bool-cases,
}
use mathlib.Core.Path.{subst}
use tinyproto_rust.Error.{ok}
use tinyproto_rust.Fd.IQueueControl.{IQueueControl, move_to_next_frame_to_receive}
use tinyproto_rust.Fd.IQueueControl.Confirm.{with_confirm_ns}
use tinyproto_rust.Fd.FrameQueue.{FrameQueue}
use tinyproto_rust.Fd.Peers.{without_cr}
use tinyproto_rust.Fd.Protocol.Defs.{TinyFd, get_status}
use tinyproto_rust.Fd.Protocol.Receive.{on_frame_received}
use tinyproto_rust.Fd.Protocol.Timers.{check_timeouts}
use tinyproto_rust.Fd.Delivery.{deliver, refuse, rewind, Steps, stay}
use tinyproto_rust.Fd.Delivery.{Steps-join}
use tinyproto_rust.Fd.Session.{
  Frame, info, rr, rej, encode, Session, swap, control_of, reads, data_in, acks_in, link, link_of,
}
use tinyproto_rust.Fd.Session.Station.{Station}
use tinyproto_rust.Fd.Session.Confirming.{freed, sequenced, taken}
use tinyproto_rust.Fd.Session.Receiving.{rewound, Received, IsSmall, on_frame_received-Received}
use tinyproto_rust.Fd.Session.Waiting.{check_timeouts-Ticked}
use tinyproto_rust.Fd.Session.Views.{sending-rewound, receiving-rewound, one}
use tinyproto_rust.Fd.Session.Refined.{Ready, Refined, refined, noted}
use tinyproto_rust.Fd.Session.Moves.{confirm_ns_lt, confirmed}

module _ (addr : ℕ) (s : Session) (r : Ready addr s) where
  abbrev c : IQueueControl
  c = control_of s.left

  abbrev q : FrameQueue
  q = s.left.frames.i_queue

  abbrev given : List Bytes
  given = reads s.left.calls

  Frame-IsSmall : (frame : Frame) (rest : List Frame) → s.leftward ≡ frame ∷ rest → IsSmall frame
  Frame-IsSmall (info ns nr payload) rest e =
      let (k, number, at, lt, near, more) = rw e at (r.leftward_order.frames) in
      let (a, number', ge, le, more') = rw e at (r.rightward_order.acks) in
      (omega (arith, number), omega (arith, number'))
  Frame-IsSmall (rr nr) rest e =
      let (a, number, ge, le, more) = rw e at (r.rightward_order.acks) in omega (arith, number)
  Frame-IsSmall (rej nr) rest e =
      let (a, number, ge, le, more) = rw e at (r.rightward_order.acks) in omega (arith, number)

  -- The frame that is expected, and any other.
  delivered-Refined :
      (ns nr : ℕ) (payload : Bytes) (rest : List Frame) (left' : TinyFd)
      → nr < 8
      → s.leftward ≡ info ns nr payload ∷ rest
      → (ns == c.rx_state.next_nr) ≡ true
      → Station addr
          (move_to_next_frame_to_receive (with_confirm_ns c nr))
          (freed q addr c nr)
          (given ++ payload ∷ [])
          left'
      → Refined addr s (record s { left = left'; leftward = rest })
  unfolding move_to_next_frame_to_receive
  delivered-Refined ns nr payload rest left' small e test v =
      refined addr s _ _ _ left' s.rightward rest s.from_left s.left_owed v
        (one addr _ _ (confirmed addr s r nr _ rest small e refl))
        (one addr _ _ (deliver (link_of (swap s)) ns payload (data_in rest) (ap data_in e) test))

  refused-Refined :
      (ns nr : ℕ) (payload : Bytes) (rest : List Frame) (left' : TinyFd)
      → nr < 8
      → s.leftward ≡ info ns nr payload ∷ rest
      → (ns == c.rx_state.next_nr) ≡ false
      → Station addr (with_confirm_ns c nr) (freed q addr c nr) given left'
      → Refined addr s (record s { left = left'; leftward = rest })
  refused-Refined ns nr payload rest left' small e test v =
      refined addr s _ _ _ left' s.rightward rest s.from_left s.left_owed v
        (one addr _ _ (confirmed addr s r nr _ rest small e refl))
        (one addr _ _ (refuse (link_of (swap s)) ns payload (data_in rest) (ap data_in e) test))

  -- No data comes with an S-frame.
  no_data :
      (frame : Frame) (rest : List Frame)
      → s.leftward ≡ frame ∷ rest
      → data_in (frame ∷ rest) ≡ data_in rest
      → Steps addr (link_of (swap s)) (
          link
            (control_of s.right)
            s.right.frames.i_queue
            c
            given
            (data_in rest)
            (acks_in s.rightward ++ s.left_owed)
            s.from_right)
  no_data frame rest e none =
      subst
        (λ w. Steps addr (link_of (swap s)) (
          link (control_of s.right) s.right.frames.i_queue c given w
            (acks_in s.rightward ++ s.left_owed) s.from_right))
        (ap data_in e ∙ none) (stay (link_of (swap s)))

  -- The numbers of the sender go back, which the receiver's half does not see.
  rewound_to :
      (c' : IQueueControl) (q' : FrameQueue) (acks : List ℕ)
      → Steps addr (link_of s) (
          link c' q'
            (control_of s.right)
            (reads s.right.calls)
            (data_in s.rightward)
            acks
            s.from_left)
      → Steps addr (link_of s) (
          link
            (rewound c' c'.tx_state.confirm_ns)
            q'
            (control_of s.right)
            (reads s.right.calls)
            (data_in s.rightward)
            acks
            s.from_left)
  rewound_to c' q' acks steps =
      let here =
        link c' q' (control_of s.right) (reads s.right.calls) (data_in s.rightward) acks
          s.from_left in
      subst (λ x. Steps addr (link_of s) (record here { sender = x }))
        (sym (sending-rewound c' c'.tx_state.confirm_ns))
        (Steps-join addr (link_of s) here _ steps (one addr _ _ (rewind here)))

  unseen :
      (c' : IQueueControl) (nr : ℕ) (w : List (ℕ × Bytes))
      → Steps addr (link_of (swap s)) (
          link
            (control_of s.right)
            s.right.frames.i_queue
            c'
            given
            w
            (acks_in s.rightward ++ s.left_owed)
            s.from_right)
      → Steps addr (link_of (swap s)) (
          link
            (control_of s.right)
            s.right.frames.i_queue
            (rewound c' nr)
            given
            w
            (acks_in s.rightward ++ s.left_owed)
            s.from_right)
  unseen c' nr w =
      let here =
        link (control_of s.right) s.right.frames.i_queue c' given w
          (acks_in s.rightward ++ s.left_owed) s.from_right in
      subst (λ x. Steps addr (link_of (swap s)) (record here { receiver = x }))
        (sym (receiving-rewound c' nr))

  pub receive-Refined :
      (now : ℕ) (frame : Frame) (rest : List Frame) (left' : TinyFd)
      → without_cr addr ≡ addr
      → s.leftward ≡ frame ∷ rest
      → on_frame_received now s.left (encode addr frame) ≡ some left'
      → Refined addr s (record s {
        left = left';
        leftward = rest;
        left_owed = s.left_owed ++ (control_of left').rx_state.next_nr ∷ [];
      })
  receive-Refined now frame rest left' own e ran =
      let small = Frame-IsSmall frame rest e in
      noted addr s (record s { left = left'; leftward = rest })
        (looked_at frame small e (
          on_frame_received-Received addr c q given s.left r.left_station (confirm_ns_lt addr s r)
            now frame left' own small ran))
    where
      looked_at :
          (frame : Frame)
          → IsSmall frame
          → s.leftward ≡ frame ∷ rest
          → Received addr c q given frame left'
          → Refined addr s (record s { left = left'; leftward = rest })
      looked_at (info ns nr payload) (small, small') e v =
          elim (Bool-cases (ns == c.rx_state.next_nr)) [
            | inl t ↦
                delivered-Refined ns nr payload rest left' small' e t
                  (rw (t, sequenced, taken) at v)
            | inr t ↦
                refused-Refined ns nr payload rest left' small' e t (rw (t, sequenced, taken) at v)
          ]
      looked_at (rr nr) small e v =
          refined addr s _ _ _ left' s.rightward rest s.from_left s.left_owed v
            (one addr _ _ (confirmed addr s r nr _ rest small e refl)) (no_data _ rest e refl)
      looked_at (rej nr) small e v =
          refined addr s _ _ _ left' s.rightward rest s.from_left s.left_owed v
            (rewound_to (with_confirm_ns c nr) (freed q addr c nr) (acks_in rest ++ s.right_owed)
              (one addr _ _ (confirmed addr s r nr _ rest small e refl)))
            (unseen (with_confirm_ns c nr) nr (data_in rest) (no_data _ rest e refl))

  pub tick-Refined :
      (now : ℕ) (left' : TinyFd)
      → check_timeouts now s.left ≡ some left'
      → get_status left' ≡ ok tt
      → Refined addr s (record s { left = left' })
  tick-Refined now left' e up =
      elim (check_timeouts-Ticked addr c q given s.left r.left_station now left' e up) [
        | inl v ↦
            refined addr s c q given left' s.rightward s.leftward s.from_left s.left_owed v
              (stay (link_of s)) (stay (link_of (swap s)))
        | inr v ↦
            refined addr s _ q given left' s.rightward s.leftward s.from_left s.left_owed v
              (rewound_to c q (acks_in s.leftward ++ s.right_owed) (stay (link_of s)))
              (unseen c c.tx_state.confirm_ns (data_in s.leftward) (stay (link_of (swap s))))
      ]
