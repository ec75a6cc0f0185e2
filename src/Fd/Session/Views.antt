-- ===== src/Fd/Session/Views.antt =====
-- The two directions of a session while frames come and go and numbers change.
use tinyproto_rust.Base.{
  ℕ, List, [], ◌∷◌, ◌++◌, Bytes, ◌==◌, ◌≡◌, refl, sym, ap, ◌∙◌, inl, inr, Bool-cases,
}
use mathlib.Core.Path.{subst}
use tinyproto_rust.Fd.IQueueControl.{IQueueControl, retransmit_frame}
use tinyproto_rust.Fd.FrameQueue.{FrameQueue}
use tinyproto_rust.Fd.Protocol.Defs.{TinyFd}
use tinyproto_rust.Fd.Delivery.{Step, Steps, Steps-join, Link, stay, go, lose_ack}
use tinyproto_rust.Fd.Session.{
  Frame, info, rr, rej, data_in, number_of, acks_in, sending, receiving, control_in, control_of,
  reads,
}
use tinyproto_rust.Fd.Session.Station.{Station}
use tinyproto_rust.Fd.Session.Receiving.{rewound}

pub data_in-append : (w w' : List Frame) → data_in (w ++ w') ≡ data_in w ++ data_in w'
data_in-append [] w' = refl
data_in-append (info ns nr payload ∷ w) w' = ap (λ t. (ns, payload) ∷ t) (data_in-append w w')
data_in-append (rr nr ∷ w) w' = data_in-append w w'
data_in-append (rej nr ∷ w) w' = data_in-append w w'

pub acks_in-append : (w w' : List Frame) → acks_in (w ++ w') ≡ acks_in w ++ acks_in w'
acks_in-append [] w' = refl
acks_in-append (f ∷ w) w' = ap (λ t. number_of f ∷ t) (acks_in-append w w')

pub sending-rewound : (c : IQueueControl) (nr : ℕ) → sending (rewound c nr) ≡ rewound (sending c) nr
unfolding retransmit_frame
sending-rewound c nr = elim (Bool-cases (c.tx_state.next_ns == nr)) [
  | inl e ↦ rw (e, rewound) refl
  | inr e ↦ rw (e, rewound) refl
]

pub receiving-rewound : (c : IQueueControl) (nr : ℕ) → receiving (rewound c nr) ≡ receiving c
unfolding retransmit_frame
receiving-rewound c nr = elim (Bool-cases (c.tx_state.next_ns == nr)) [
  | inl e ↦ rw (e, rewound) refl
  | inr e ↦ rw (e, rewound) refl
]

-- The numbers that a handle has are those that are known of it.
pub control_of-Station :
    (addr : ℕ) (c : IQueueControl) (q : FrameQueue) (given : List Bytes) (fd : TinyFd)
    → Station addr c q given fd
    → control_of fd ≡ c
control_of-Station addr c q given fd v = ap control_in v.only ∙ v.control

abbrev pub OwnStation : ℕ → TinyFd → Type 0
OwnStation addr fd = Station addr (control_of fd) fd.frames.i_queue (reads fd.calls) fd

pub Station-own :
    (addr : ℕ) (c : IQueueControl) (q : FrameQueue) (given : List Bytes) (fd : TinyFd)
    → Station addr c q given fd
    → OwnStation addr fd
Station-own addr c q given fd v = record {
  peer = v.peer;
  only = v.only;
  up = v.up;
  reaches = v.reaches;
  control = sym (ap control_in v.only);
  queue = refl;
  heard = refl;
  listening = v.listening;
}

-- The acknowledgements `w` come to nothing.
pub passed_over :
    (addr : ℕ) (a w b : List ℕ) (l : Link)
    → l.acks ≡ a ++ (w ++ b)
    → Steps addr l (record l { acks = a ++ b })
passed_over addr a [] b l e = subst (λ t. Steps addr l (record l { acks = t })) e (stay l)
passed_over addr a (n ∷ w) b l e =
    let l' : Link = record l { acks = a ++ (w ++ b) } in
    Steps-join addr l l' (record l { acks = a ++ b })
      (go l l l' (stay l) (lose_ack l a n (w ++ b) e)) (passed_over addr a w b l' refl)

pub one : (addr : ℕ) (a b : Link) → Step addr a b → Steps addr a b
one addr a b step = go a a b (stay a) step
