-- ===== src/Fd/Delivery/Order.antt =====
-- In-order delivery in a direction of a connection, by cases of the step.
use tinyproto_rust.Base.{
  ℕ, suc, ◌+◌, ◌-◌, ◌%◌, ◌≤◌, ◌<◌, Bool, true, false, some, List, [], ◌∷◌, ◌++◌, Bytes, length,
  get_elem?, ◌==◌, ==_iff, ◌≡◌, refl, sym, ap, ◌∙◌, arith, if-both,
}
use mathlib.Core.Path.{subst}
use tinyproto_rust.Fd.Frames.{i_frame, FrameInfo}
use tinyproto_rust.Fd.IQueueControl.{
  IQueueControl, tx_full, move_to_next_ns, advance_next_ns, move_to_next_frame_to_receive,
  confirm_sent_frames, retransmit_frame,
}
use tinyproto_rust.Fd.IQueueControl.Window.{distance}
use tinyproto_rust.Fd.IQueueControl.Confirm.{
  note, numbers_from, with_confirm_ns, confirm_sent_frames-numbers,
}
use tinyproto_rust.Fd.FrameQueue.{FrameQueue, allocate, get_next}
use tinyproto_rust.Fd.Protocol.Send.{i_control}
use tinyproto_rust.Fd.Protocol.Handlers.{free_all}
use tinyproto_rust.Fd.Delivery.{
  Link, start, Step, accept, send, deliver, refuse, answer, confirm, rewind, lose_frame, lose_ack,
  Steps, stay, go,
}
use tinyproto_rust.Fd.Delivery.Wire.{
  Frames, Frames-bound, Frames-append, Frames-remove, Acks, Acks-append, Acks-remove,
}
use tinyproto_rust.Fd.Delivery.Queue.{Holds}
use tinyproto_rust.Fd.Delivery.Free.{get_next-Holds, free_all-Holds}
use tinyproto_rust.Fd.Delivery.Store.{allocate-Holds}
use tinyproto_rust.Fd.Delivery.Keeps.{Keeps, allocate-Keeps, free_all-Keeps}
use tinyproto_rust.Fd.Delivery.Invariant.{
  InOrder, start-InOrder, room_left, accept-InOrder, sender-InOrder, acks-InOrder, confirm-InOrder,
  deliver-InOrder,
}

-- A rewind moves the next number to be sent only.
abbrev pub SameWindow : IQueueControl → IQueueControl → Type 0
SameWindow c c' =
    (c'.tx_state.confirm_ns ≡ c.tx_state.confirm_ns) × (c'.tx_state.last_ns ≡ c.tx_state.last_ns)

abbrev pub Rewound : IQueueControl → IQueueControl × Bool → Type 0
Rewound c (c', again) = SameWindow c c'

pub retransmit_frame-SameWindow :
    (c : IQueueControl) (nr : ℕ) → Rewound c (retransmit_frame c nr (λ _. true))
unfolding retransmit_frame
retransmit_frame-SameWindow c nr =
    if-both (Rewound c) (c.tx_state.next_ns == nr) (refl, refl) (refl, refl)

-- What stands at the place after the delivered ones is the first that waits.
pub next_waiting :
    (xs ys : List Bytes) (m : Bytes)
    → get_elem? (xs ++ ys) (length xs) ≡ some m
    → (zs : List Bytes) × (ys ≡ m ∷ zs)
next_waiting [] [] m e = cc
next_waiting [] (y ∷ ys) m e = (ys, cc)
next_waiting (x ∷ xs) ys m e = next_waiting xs ys m e

module _ (addr : ℕ) (s : Link) (v : InOrder addr s) where
  accepted :
      (nr : ℕ) (payload : Bytes) (queue' : FrameQueue) (idx : ℕ)
      → nr < 8
      → tx_full s.sender ≡ false
      → allocate s.queue i_frame
          (record { address = addr; control = i_control s.sender.tx_state.last_ns nr })
          payload
        ≡ (queue', some idx)
      → InOrder addr (record s {
        queue = queue';
        sender = move_to_next_ns s.sender;
        accepted = s.accepted ++ payload ∷ [];
      })
  accepted nr payload queue' idx small full e =
      let e' = rw (v.last_number) at e in
      accept-InOrder addr s v nr payload queue' full
        (allocate-Holds addr v.c v.l s.accepted s.queue queue' idx nr payload v.holds v.l_count
          (omega (arith, v.confirmed_first, v.delivered_first))
          (room_left s v.c v.l v.confirm_number v.last_number v.window full) small e')
        (allocate-Keeps addr v.c v.l s.queue queue' idx nr payload v.holds.valid small e' v.keeps)

  sent :
      (idx : ℕ) (f : FrameInfo)
      → get_next s.queue i_frame addr s.sender.tx_state.next_ns ≡ some (idx, f)
      → InOrder addr (record s {
        sender = advance_next_ns s.sender;
        wire = s.wire ++ (s.sender.tx_state.next_ns, f.payload) ∷ [];
      })
  unfolding advance_next_ns
  sent idx f e =
      let (k, ge, lt, number, at) =
        get_next-Holds addr v.c v.l s.accepted s.queue _ idx f v.holds e in
      sender-InOrder addr s v (advance_next_ns s.sender) _ refl refl (
        subst (λ ns. Frames v.r v.l s.accepted (s.wire ++ (ns, f.payload) ∷ [])) (sym number)
          (Frames-append v.r v.l k s.accepted s.wire f.payload at lt v.delivered_first
            (omega (arith, v.window)) v.frames))

  delivered :
      (ns : ℕ) (payload : Bytes) (rest : List (ℕ × Bytes))
      → s.wire ≡ (ns, payload) ∷ rest
      → (ns == s.receiver.rx_state.next_nr) ≡ true
      → InOrder addr (record s {
        wire = rest;
        receiver = move_to_next_frame_to_receive s.receiver;
        delivered = s.delivered ++ payload ∷ [];
      })
  delivered ns payload rest e test =
      let (k, number, at, lt, near, frames') = rw e at (v.frames) in
      let same : k ≡ v.r = omega (
        arith,
        number,
        (==_iff ns s.receiver.rx_state.next_nr).0 test,
        v.receive_number,
        v.window,
        v.confirmed_first,
      ) in
      let here : get_elem? (s.delivered ++ v.waiting) (length s.delivered) ≡ some payload =
        subst (λ xs. get_elem? xs (length s.delivered) ≡ some payload) v.prefix
          (subst (λ j. get_elem? s.accepted j ≡ some payload) (same ∙ v.r_count) at) in
      let (waiting', more) = next_waiting s.delivered v.waiting payload here in
      deliver-InOrder addr s v payload rest waiting' more (omega (arith, same))
        (Frames-bound _ (suc v.r) v.l s.accepted rest (omega (arith, same)) frames')

  refused :
      (ns : ℕ) (payload : Bytes) (rest : List (ℕ × Bytes))
      → s.wire ≡ (ns, payload) ∷ rest
      → InOrder addr (record s { wire = rest })
  refused ns payload rest e =
      sender-InOrder addr s v s.sender rest refl refl
        (Frames-remove v.r v.l s.accepted [] (ns, payload) rest (rw e at (v.frames)))

  confirmed_to :
      (nr : ℕ) (rest seqs : List ℕ) (sender' : IQueueControl) (confirmed : Bool)
      → s.acks ≡ nr ∷ rest
      → confirm_sent_frames note [] s.sender nr ≡ some (seqs, sender', confirmed)
      → InOrder addr
          (record s { acks = rest; sender = sender'; queue = free_all s.queue addr seqs })
  confirmed_to nr rest seqs sender' confirmed e ran =
      let (a, number, ge, le, known) = rw e at (v.acks) in
      let from = s.sender.tx_state.confirm_ns in
      let ran' =
        confirm_sent_frames-numbers s.sender nr (omega (arith, v.confirm_number))
          (omega (arith, number)) in
      let seqs_eq : seqs ≡ numbers_from from (distance from nr) = cc in
      let sender_eq : sender' ≡ with_confirm_ns s.sender nr = cc in
      let many : distance from nr ≡ a - v.c =
        omega (arith, number, v.confirm_number, v.window, v.delivered_first) in
      let which : seqs ≡ numbers_from (v.c % 8) (a - v.c) =
        seqs_eq
        ∙ ap (λ m. numbers_from from m) many
        ∙ ap (λ m. numbers_from m (a - v.c)) v.confirm_number in
      let there : v.c + (a - v.c) ≡ a = omega arith in
      confirm-InOrder addr s v a sender' (free_all s.queue addr seqs) rest ge le
        (ap (λ c. c.tx_state.confirm_ns) sender_eq ∙ number)
        (ap (λ c. c.tx_state.last_ns) sender_eq) known
        (subst (λ ns. Holds addr a v.l s.accepted (free_all s.queue addr ns)) (sym which)
          (subst
            (λ x.
              Holds addr x v.l s.accepted
                (free_all s.queue addr (numbers_from (v.c % 8) (a - v.c))))
            there (free_all-Holds (a - v.c) addr v.c v.l s.accepted s.queue v.holds)))
        (subst (λ ns. Keeps addr a v.l (free_all s.queue addr ns)) (sym which)
          (subst (λ x. Keeps addr x v.l (free_all s.queue addr (numbers_from (v.c % 8) (a - v.c))))
            there
            (free_all-Keeps (a - v.c) addr v.c v.l s.queue (omega (arith, v.window)) v.keeps)))

Step-InOrder : (addr : ℕ) (s s' : Link) → InOrder addr s → Step addr s s' → InOrder addr s'
Step-InOrder addr s _ v (accept _ nr payload queue' idx small full e) =
    accepted addr s v nr payload queue' idx small full e
Step-InOrder addr s _ v (send _ idx f some_left e) = sent addr s v idx f e
Step-InOrder addr s _ v (deliver _ ns payload rest e test) =
    delivered addr s v ns payload rest e test
Step-InOrder addr s _ v (refuse _ ns payload rest e test) = refused addr s v ns payload rest e
Step-InOrder addr s _ v (answer _) = acks-InOrder addr s v _ (
    subst (λ n. Acks v.c v.r (s.acks ++ n ∷ [])) (sym v.receive_number)
      (Acks-append v.c v.r s.acks v.confirmed_first v.acks))
Step-InOrder addr s _ v (confirm _ nr rest seqs sender' confirmed e ran) =
    confirmed_to addr s v nr rest seqs sender' confirmed e ran
Step-InOrder addr s _ v (rewind _) =
    let (same, same') = retransmit_frame-SameWindow s.sender s.sender.tx_state.confirm_ns in
    sender-InOrder addr s v _ s.wire same same' v.frames
Step-InOrder addr s _ v (lose_frame _ before frame after e) =
    sender-InOrder addr s v s.sender _ refl refl
      (Frames-remove v.r v.l s.accepted before frame after (rw e at (v.frames)))
Step-InOrder addr s _ v (lose_ack _ before nr after e) =
    acks-InOrder addr s v _ (Acks-remove v.c v.r before nr after (rw e at (v.acks)))

pub Steps-InOrder : (addr : ℕ) (s s' : Link) → InOrder addr s → Steps addr s s' → InOrder addr s'
Steps-InOrder addr s _ v (stay _) = v
Steps-InOrder addr s _ v (go _ s' s'' steps step) =
    Step-InOrder addr s' s'' (Steps-InOrder addr s s' v steps) step

-- From a fresh connection, over channels that keep the order and may lose any frame and any acknowledgement, and
-- with any retransmissions: what the receiver has delivered is the beginning of what the sender has accepted, each
-- payload once and in order. No more than seven payloads are accepted beyond those delivered.
pub Steps-delivered :
    (addr max_frames mtu : ℕ) (s : Link)
    → Steps addr (start max_frames mtu) s
    → ((waiting : List Bytes) × (s.accepted ≡ s.delivered ++ waiting))
      × (length s.accepted ≤ length s.delivered + 7)
Steps-delivered addr max_frames mtu s steps =
    let v = Steps-InOrder addr (start max_frames mtu) s (start-InOrder addr max_frames mtu) steps in
    ((v.waiting, v.prefix), omega (arith, v.r_count, v.l_count, v.window, v.confirmed_first))
