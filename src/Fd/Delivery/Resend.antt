-- ===== src/Fd/Delivery/Resend.antt =====
-- How a direction of a connection sends again what is not confirmed, and delivers it.
use tinyproto_rust.Base.{
  ℕ, suc, ◌+◌, ◌%◌, ◌≤◌, ◌<◌, true, false, some, List, [], ◌∷◌, ◌++◌, append_assoc, Bytes, length,
  get_elem?, ◌==◌, ==_iff, ◌≡◌, refl, sym, ap, ◌∙◌, arith, inl, inr, Bool-cases,
}
use mathlib.Core.Path.{subst}
use tinyproto_rust.Fd.Frames.{i_frame, FrameInfo}
use tinyproto_rust.Fd.IQueueControl.{
  all_frames_are_sent, advance_next_ns, move_to_next_frame_to_receive,
}
use tinyproto_rust.Fd.FrameQueue.{get_next}
use tinyproto_rust.Fd.Delivery.{Link, send, deliver, refuse}
use tinyproto_rust.Fd.Delivery.Course.{Course, begin, silently, acknowledged}
use tinyproto_rust.Fd.Delivery.Keeps.{Found}
use tinyproto_rust.Fd.Delivery.Invariant.{next_place, length-snoc}
use tinyproto_rust.Fd.Delivery.Order.{next_waiting}

-- Nothing is on the wire, place `k` is the next to be sent, `r` are delivered and `l` accepted.
pub record Going (k r l : ℕ) (s : Link) : Type 0 where
  pub empty : s.wire ≡ []
  pub next_ns : s.sender.tx_state.next_ns ≡ k % 8
  pub last_ns : s.sender.tx_state.last_ns ≡ l % 8
  pub next_nr : s.receiver.rx_state.next_nr ≡ r % 8
  pub r_count : r ≡ length s.delivered
  pub l_count : l ≡ length s.accepted
  pub first : k ≤ r
  pub second : r ≤ l
  pub near : l ≤ k + 7
  pub waiting : List Bytes
  pub prefix : s.accepted ≡ s.delivered ++ waiting

-- Steps that send and deliver, and leave the rest as it is.
pub record Onward (addr : ℕ) (s s' : Link) : Type 0 where
  pub steps : Course addr s s'
  pub same_queue : s'.queue ≡ s.queue
  pub same_accepted : s'.accepted ≡ s.accepted
  pub same_acks : s'.acks ≡ s.acks
  pub same_confirm : s'.sender.tx_state.confirm_ns ≡ s.sender.tx_state.confirm_ns

module _ (addr k r l : ℕ) (s : Link) (g : Going k r l s) (more : k < l)
    (found : Found addr s.accepted s.queue k) where
  abbrev frame : FrameInfo
  frame = found.1

  abbrev sent : Link
  sent = record s {
    sender = advance_next_ns s.sender;
    wire = s.wire ++ (s.sender.tx_state.next_ns, frame.payload) ∷ [];
  }

  sent_off : Course addr s sent
  unfolding all_frames_are_sent
  sent_off =
      silently s s sent (begin s)
        (send s found.0 frame (ground (arith, g.next_ns, g.last_ns, g.near)) (
          subst (λ ns. get_next s.queue i_frame addr ns ≡ some (found.0, frame)) (sym g.next_ns)
            found.2))
        refl

  on_the_wire : sent.wire ≡ (s.sender.tx_state.next_ns, frame.payload) ∷ []
  on_the_wire = ap (λ w. w ++ (s.sender.tx_state.next_ns, frame.payload) ∷ []) g.empty

  abbrev delivered : List ℕ → Link
  delivered acks = record sent {
    wire = [];
    receiver = move_to_next_frame_to_receive s.receiver;
    delivered = s.delivered ++ frame.payload ∷ [];
    acks = acks;
  }

  abbrev refused : Link
  refused = record sent { wire = [] }

  same_place : (s.sender.tx_state.next_ns == s.receiver.rx_state.next_nr) ≡ true → k ≡ r
  same_place test = omega (
    arith,
    (==_iff s.sender.tx_state.next_ns s.receiver.rx_state.next_nr).0 test,
    g.next_ns,
    g.next_nr,
    g.first,
    g.second,
    g.near,
  )

  delivered-Going :
      (acks : List ℕ)
      → (s.sender.tx_state.next_ns == s.receiver.rx_state.next_nr) ≡ true
      → Going (suc k) (suc r) l (delivered acks)
  unfolding advance_next_ns move_to_next_frame_to_receive
  delivered-Going acks test =
      let same = same_place test in
      let here : get_elem? (s.delivered ++ g.waiting) (length s.delivered) ≡ some frame.payload =
        subst (λ xs. get_elem? xs (length s.delivered) ≡ some frame.payload) g.prefix
          (subst (λ j. get_elem? s.accepted j ≡ some frame.payload) (same ∙ g.r_count) found.3) in
      let (waiting', more') = next_waiting s.delivered g.waiting frame.payload here in
      record {
        empty = refl;
        next_ns = next_place s.sender.tx_state.next_ns k g.next_ns;
        last_ns = g.last_ns;
        next_nr = next_place s.receiver.rx_state.next_nr r g.next_nr;
        r_count = length-snoc s.delivered frame.payload r g.r_count;
        l_count = g.l_count;
        first = omega (arith, same);
        second = omega (arith, same);
        near = omega (arith, g.near);
        waiting = waiting';
        prefix =
            g.prefix
            ∙ ap (λ xs. s.delivered ++ xs) more'
            ∙ sym (append_assoc s.delivered (frame.payload ∷ []) waiting');
      }

  refused-Going :
      (s.sender.tx_state.next_ns == s.receiver.rx_state.next_nr) ≡ false → Going (suc k) r l refused
  unfolding advance_next_ns
  refused-Going test = record {
    empty = refl;
    next_ns = next_place s.sender.tx_state.next_ns k g.next_ns;
    last_ns = g.last_ns;
    next_nr = g.next_nr;
    r_count = g.r_count;
    l_count = g.l_count;
    first = ground (arith, g.next_ns, g.next_nr, g.first);
    second = g.second;
    near = omega (arith, g.near);
    waiting = g.waiting;
    prefix = g.prefix;
  }

  -- The next frame is sent again, and delivered if it is the one expected.
  pub round :
      r < l
      → suc k < l
      → (s' : Link) × (r' : ℕ) × (r' < l) × Onward addr s s' × Going (suc k) r' l s'
  unfolding advance_next_ns
  round behind not_last =
      let ns = s.sender.tx_state.next_ns in
      elim (Bool-cases (ns == s.receiver.rx_state.next_nr)) [
        | inl t ↦ (
          delivered s.acks,
          suc r,
          omega (arith, same_place t),
          record {
            steps =
                silently s sent (delivered s.acks) sent_off
                  (deliver sent ns frame.payload [] on_the_wire t) refl;
            same_queue = refl;
            same_accepted = refl;
            same_acks = refl;
            same_confirm = refl;
          },
          delivered-Going s.acks t,
        )
        | inr t ↦ (
          refused,
          r,
          behind,
          record {
            steps =
                silently s sent refused sent_off (refuse sent ns frame.payload [] on_the_wire t)
                  refl;
            same_queue = refl;
            same_accepted = refl;
            same_acks = refl;
            same_confirm = refl;
          },
          refused-Going t,
        )
      ]

  -- The frame that is expected is sent, delivered and acknowledged.
  pub last_round :
      k ≡ r
      → (s' : Link) × Course addr s s'
        × Going (suc k) (suc r) l s'
        × (s'.accepted ≡ s.accepted)
        × (s'.acks ≡ s.acks ++ s'.receiver.rx_state.next_nr ∷ [])
        × (s'.sender.tx_state.confirm_ns ≡ s.sender.tx_state.confirm_ns)
  unfolding advance_next_ns
  last_round same =
      let ns = s.sender.tx_state.next_ns in
      let acks = s.acks ++ (move_to_next_frame_to_receive s.receiver).rx_state.next_nr ∷ [] in
      let test : (ns == s.receiver.rx_state.next_nr) ≡ true =
        (==_iff ns s.receiver.rx_state.next_nr).1
          (g.next_ns ∙ ap (λ j. j % 8) same ∙ sym g.next_nr) in
      (
        delivered acks,
        acknowledged s sent ns frame.payload [] sent_off on_the_wire test,
        delivered-Going acks test,
        refl,
        refl,
        refl,
      )
