-- ===== src/Fd/Session/Moves.antt =====
-- The calls on a handle of src/proto/fd/protocol.rs by which a station accepts and sends, as steps of both directions of
-- the connection.
use tinyproto_rust.Base.{
  ℕ, ◌<◌, true, some, List, [], ◌∷◌, ◌++◌, append-nil, append_assoc, Bytes, ◌≡◌, sym, ap, ap₂, ◌∙◌,
  arith,
}
use mathlib.Core.Path.{subst}
use tinyproto_rust.Error.{ok}
use tinyproto_rust.Fd.IQueueControl.{
  IQueueControl, tx_full, all_frames_are_sent, move_to_next_ns, advance_next_ns,
}
use tinyproto_rust.Fd.IQueueControl.Window.{distance}
use tinyproto_rust.Fd.IQueueControl.Confirm.{
  numbers_from, with_confirm_ns, confirm_sent_frames-numbers,
}
use tinyproto_rust.Fd.FrameQueue.{FrameQueue, capacity}
use tinyproto_rust.Fd.Protocol.Defs.{TinyFd}
use tinyproto_rust.Fd.Protocol.Send.{send_packet}
use tinyproto_rust.Fd.Protocol.Transmit.{send_s_from, send_i_of, run_framer, drained}
use tinyproto_rust.Fd.Delivery.{Link, Step, accept, send, answer, confirm, Steps, stay, go}
use tinyproto_rust.Fd.Delivery.Free.{get_next-Holds}
use tinyproto_rust.Fd.Session.{
  Frame, info, encode, Session, swap, control_of, reads, data_in, number_of, acks_in, sending, link,
  link_of,
}
use tinyproto_rust.Fd.Session.Codes.{i_control-eq}
use tinyproto_rust.Fd.Session.Station.{Station}
use tinyproto_rust.Fd.Session.Framer.{run_framer-Station, send_s_from-Station}
use tinyproto_rust.Fd.Session.Sending.{send_packet-Accepted, send_i_of-Handed}
use tinyproto_rust.Fd.Session.Confirming.{freed}
use tinyproto_rust.Fd.Session.Views.{data_in-append, acks_in-append, one, passed_over}
use tinyproto_rust.Fd.Session.Refined.{Ready, Refined, refined}

same_bytes :
    (a b x y : ℕ) (m m' : Bytes) → some (a ∷ x ∷ m) ≡ some (b ∷ y ∷ m') → (x ≡ y) × (m ≡ m')
same_bytes a b x y m m' e = (cc, cc)

module _ (addr : ℕ) (s : Session) (r : Ready addr s) where
  abbrev c : IQueueControl
  c = control_of s.left

  abbrev q : FrameQueue
  q = s.left.frames.i_queue

  abbrev given : List Bytes
  given = reads s.left.calls

  -- The numbers of the left station have three bits.
  pub next_nr_lt : c.rx_state.next_nr < 8
  next_nr_lt = omega (arith, r.leftward_order.receive_number)

  pub confirm_ns_lt : c.tx_state.confirm_ns < 8
  confirm_ns_lt = omega (arith, r.rightward_order.confirm_number)

  pub packet-Refined :
      (payload : Bytes) (left' : TinyFd)
      → send_packet s.left 0 payload ≡ some (left', ok tt)
      → Refined addr s (record s { left = left'; from_left = s.from_left ++ payload ∷ [] })
  unfolding tx_full move_to_next_ns
  packet-Refined payload left' e =
      let a = send_packet-Accepted addr c q given s.left r.left_station payload left' e in
      refined addr s _ _ given left' s.rightward s.leftward _ s.left_owed a.after
        (one addr _ _
          (accept (link_of s) c.rx_state.next_nr payload a.queue' a.idx next_nr_lt a.room a.stored))
        (stay (link_of (swap s)))

  -- The data with a frame that goes out, seen from the end that it leaves.
  sent_forth :
      (frame : Frame) (c' : IQueueControl) (w : List (ℕ × Bytes))
      → data_in (frame ∷ []) ≡ w
      → Steps addr (link_of s) (
          link c' q
            (control_of s.right)
            (reads s.right.calls)
            (data_in s.rightward ++ w)
            (acks_in s.leftward ++ s.right_owed)
            s.from_left)
      → Steps addr (link_of s) (
          link c' q
            (control_of s.right)
            (reads s.right.calls)
            (data_in (s.rightward ++ frame ∷ []))
            (acks_in s.leftward ++ s.right_owed)
            s.from_left)
  sent_forth frame c' w e steps =
      subst
        (λ w. Steps addr (link_of s) (
          link c' q (control_of s.right) (reads s.right.calls) w
            (acks_in s.leftward ++ s.right_owed) s.from_left))
        (ap (λ t. data_in s.rightward ++ t) (sym e) ∙ sym (data_in-append s.rightward (frame ∷ [])))
        steps

  -- The number with it, of which the numbers `owed` are left to be told.
  sent_back :
      (frame : Frame) (owed : List ℕ)
      → Steps addr
          (link_of (swap s))
          (record (link_of (swap s)) { acks = acks_in s.rightward ++ number_of frame ∷ owed })
      → Steps addr
          (link_of (swap s))
          (record (link_of (swap s)) { acks = acks_in (s.rightward ++ frame ∷ []) ++ owed })
  sent_back frame owed steps =
      subst (λ acks. Steps addr (link_of (swap s)) (record (link_of (swap s)) { acks = acks }))
        (sym (append_assoc (acks_in s.rightward) (number_of frame ∷ []) owed)
          ∙ ap (λ acks. acks ++ owed) (sym (acks_in-append s.rightward (frame ∷ []))))
        steps

  -- Only the framer and the queue of the S-frames are other than before.
  pub unchanged_by :
      (left' : TinyFd) → Station addr c q given left' → Refined addr s (record s { left = left' })
  unchanged_by left' v =
      refined addr s c q given left' s.rightward s.leftward s.from_left s.left_owed v
        (stay (link_of s)) (stay (link_of (swap s)))

  pub write-Refined :
      (out_len : ℕ) (written : Bytes) (left' : TinyFd)
      → run_framer s.left out_len ≡ some (written, left')
      → Refined addr s (record s { left = drained left' })
  write-Refined out_len written left' ran =
      unchanged_by (drained left')
        (run_framer-Station addr c q given s.left r.left_station out_len written left' ran)

  -- An S-frame leaves, and tells the number `nr`.
  pub supervise-Refined :
      (frame : Frame) (left' : TinyFd) (before after : List ℕ)
      → data_in (frame ∷ []) ≡ []
      → send_s_from (capacity s.left.frames.s_queue) 0 s.left ≡ (left', true)
      → s.left_owed ≡ before ++ number_of frame ∷ after
      → Refined addr s
          (record s { left = left'; rightward = s.rightward ++ frame ∷ []; left_owed = after })
  supervise-Refined frame left' before after none ran owed =
      refined addr s c q given left' (s.rightward ++ frame ∷ []) s.leftward s.from_left after
        (send_s_from-Station addr c q given s.left r.left_station (capacity s.left.frames.s_queue) 0
          left' ran)
        (sent_forth frame c [] none (
          subst
            (λ w. Steps addr (link_of s) (
              link c q (control_of s.right) (reads s.right.calls) w
                (acks_in s.leftward ++ s.right_owed) s.from_left))
            (sym (append-nil (data_in s.rightward))) (stay (link_of s))))
        (sent_back frame after (
          passed_over addr (acks_in s.rightward) before (number_of frame ∷ after) (link_of (swap s))
            (ap (λ t. acks_in s.rightward ++ t) owed)))

  pub transmit-Refined :
      (now ns nr : ℕ) (payload : Bytes) (left' : TinyFd)
      → ns < 8
      → nr < 8
      → send_i_of now s.left 0 ≡ some (left', true)
      → left'.hdlc.tx_data ≡ some (encode addr (info ns nr payload))
      → Refined addr s (record s {
        left = left';
        rightward = s.rightward ++ info ns nr payload ∷ [];
        left_owed = [];
      })
  unfolding all_frames_are_sent advance_next_ns
  transmit-Refined now ns nr payload left' small small' e bytes =
      let h = send_i_of-Handed addr c q given s.left r.left_station now left' e in
      let v = r.rightward_order in
      let (k, ge, lt, number, at) =
        get_next-Holds addr v.c v.l s.from_left q _ h.idx h.frame v.holds h.queued in
      let (control, same) = same_bytes _ _ _ _ _ _ (sym h.bytes ∙ bytes) in
      let (ns_eq, nr_eq) =
        i_control-eq _ _ ns nr (omega (arith, number)) next_nr_lt small small' control in
      refined addr s _ q given left' (s.rightward ++ info ns nr payload ∷ []) s.leftward s.from_left
        [] h.after
        (sent_forth (info ns nr payload) (advance_next_ns c) _
          (ap₂ (λ n m. (n, m) ∷ []) (sym ns_eq) (sym same))
          (one addr _ _ (send (link_of s) h.idx h.frame h.unsent h.queued)))
        (sent_back (info ns nr payload) [] (told nr nr_eq))
    where
      told :
          (nr : ℕ)
          → c.rx_state.next_nr ≡ nr
          → Steps addr
              (link_of (swap s))
              (record (link_of (swap s)) { acks = acks_in s.rightward ++ nr ∷ [] })
      told nr e =
          let over : Link = record (link_of (swap s)) { acks = acks_in s.rightward ++ [] } in
          let skipped =
            passed_over addr (acks_in s.rightward) s.left_owed [] (link_of (swap s))
              (ap (λ t. acks_in s.rightward ++ t) (sym (append-nil s.left_owed))) in
          subst (λ acks. Steps addr (link_of (swap s)) (record (link_of (swap s)) { acks = acks }))
            (ap₂ (λ t n. t ++ n ∷ []) (append-nil (acks_in s.rightward)) e)
            (go (link_of (swap s)) over _ skipped (answer over))

  -- The acknowledgement in a frame that arrives.
  pub confirmed :
      (nr : ℕ) (frame : Frame) (rest : List Frame)
      → nr < 8
      → s.leftward ≡ frame ∷ rest
      → number_of frame ≡ nr
      → Step addr (link_of s) (
          link
            (with_confirm_ns c nr)
            (freed q addr c nr)
            (control_of s.right)
            (reads s.right.calls)
            (data_in s.rightward)
            (acks_in rest ++ s.right_owed)
            s.from_left)
  confirmed nr frame rest small e number =
      confirm (link_of s) nr (acks_in rest ++ s.right_owed)
        (numbers_from c.tx_state.confirm_ns (distance c.tx_state.confirm_ns nr))
        (with_confirm_ns (sending c) nr) _
        (ap (λ w. acks_in w ++ s.right_owed) e ∙ ap (λ n. n ∷ acks_in rest ++ s.right_owed) number)
        (confirm_sent_frames-numbers (sending c) nr confirm_ns_lt small)
