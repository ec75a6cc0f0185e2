-- ===== src/Fd/Delivery/Invariant.antt =====
-- What every step of a direction of a connection keeps to. The places of what is confirmed, accepted and delivered
-- are counted without a bound, and the numbers are these places modulo 8.
use tinyproto_rust.Base.{
  ℕ, suc, ◌+◌, ◌%◌, ◌≤◌, ◌<◌, false, List, [], ◌∷◌, ◌++◌, append_assoc, Bytes, length,
  length-append, ◌≡◌, refl, sym, ap, ◌∙◌, arith,
}
use tinyproto_rust.Fd.IQueueControl.{
  IQueueControl, next_number, tx_full, move_to_next_ns, move_to_next_frame_to_receive,
}
use tinyproto_rust.Fd.IQueueControl.Window.{next_number-mod}
use tinyproto_rust.Fd.FrameQueue.{FrameQueue}
use tinyproto_rust.Fd.Delivery.{Link, start}
use tinyproto_rust.Fd.Delivery.Wire.{Frames, Frames-accept, Acks, Acks-bounds}
use tinyproto_rust.Fd.Delivery.Queue.{Holds}
use tinyproto_rust.Fd.Delivery.Store.{new-Holds}
use tinyproto_rust.Fd.Delivery.Keeps.{Keeps}

-- `c` payloads are confirmed, `r` delivered and `l` accepted.
pub record InOrder (addr : ℕ) (s : Link) : Type 0 where
  pub c : ℕ
  pub r : ℕ
  pub l : ℕ
  pub r_count : r ≡ length s.delivered
  pub l_count : l ≡ length s.accepted
  pub confirmed_first : c ≤ r
  pub delivered_first : r ≤ l
  pub window : l ≤ c + 7
  pub confirm_number : s.sender.tx_state.confirm_ns ≡ c % 8
  pub last_number : s.sender.tx_state.last_ns ≡ l % 8
  pub receive_number : s.receiver.rx_state.next_nr ≡ r % 8
  pub waiting : List Bytes
  pub prefix : s.accepted ≡ s.delivered ++ waiting
  pub frames : Frames r l s.accepted s.wire
  pub acks : Acks c r s.acks
  pub holds : Holds addr c l s.accepted s.queue
  pub keeps : Keeps addr c l s.queue

pub start-InOrder : (addr max_frames mtu : ℕ) → InOrder addr (start max_frames mtu)
start-InOrder addr max_frames mtu = record {
  c = 0;
  r = 0;
  l = 0;
  r_count = refl;
  l_count = refl;
  confirmed_first = omega arith;
  delivered_first = omega arith;
  window = omega arith;
  confirm_number = refl;
  last_number = refl;
  receive_number = refl;
  waiting = [];
  prefix = refl;
  frames = tt;
  acks = tt;
  holds = new-Holds addr max_frames mtu;
  keeps = λ k ge lt. absurd (omega arith);
}

-- The number of the next place.
pub next_place : (n k : ℕ) → n ≡ k % 8 → next_number n ≡ suc k % 8
next_place n k e = omega (arith, e, next_number-mod n (omega (arith, e)))

pub length-snoc :
    (xs : List Bytes) (x : Bytes) (n : ℕ) → n ≡ length xs → suc n ≡ length (xs ++ x ∷ [])
length-snoc xs x n e = omega (arith, e, length-append {0} xs (x ∷ []))

pub room_left :
    (s : Link) (c l : ℕ)
    → s.sender.tx_state.confirm_ns ≡ c % 8
    → s.sender.tx_state.last_ns ≡ l % 8
    → l ≤ c + 7
    → tx_full s.sender ≡ false
    → l < c + 7
unfolding tx_full
room_left s c l e e' le full = ground (arith, next_place s.sender.tx_state.last_ns l e')

module _ (addr : ℕ) (s : Link) (v : InOrder addr s) where
  pub accept-InOrder :
      (nr : ℕ) (payload : Bytes) (queue' : FrameQueue)
      → tx_full s.sender ≡ false
      → Holds addr v.c (suc v.l) (s.accepted ++ payload ∷ []) queue'
      → Keeps addr v.c (suc v.l) queue'
      → InOrder addr (record s {
        queue = queue';
        sender = move_to_next_ns s.sender;
        accepted = s.accepted ++ payload ∷ [];
      })
  unfolding move_to_next_ns
  accept-InOrder nr payload queue' full holds' keeps' = record {
    c = v.c;
    r = v.r;
    l = suc v.l;
    r_count = v.r_count;
    l_count = length-snoc s.accepted payload v.l v.l_count;
    confirmed_first = v.confirmed_first;
    delivered_first = omega (arith, v.delivered_first);
    window = omega (arith, room_left s v.c v.l v.confirm_number v.last_number v.window full);
    confirm_number = v.confirm_number;
    last_number = next_place s.sender.tx_state.last_ns v.l v.last_number;
    receive_number = v.receive_number;
    waiting = v.waiting ++ payload ∷ [];
    prefix =
        ap (λ xs. xs ++ payload ∷ []) v.prefix ∙ append_assoc s.delivered v.waiting (payload ∷ []);
    frames = Frames-accept v.r v.l s.accepted s.wire payload v.frames;
    acks = v.acks;
    holds = holds';
    keeps = keeps';
  }

  -- Another sender with the same bounds of its window, and another wire.
  pub sender-InOrder :
      (sender' : IQueueControl) (wire' : List (ℕ × Bytes))
      → sender'.tx_state.confirm_ns ≡ s.sender.tx_state.confirm_ns
      → sender'.tx_state.last_ns ≡ s.sender.tx_state.last_ns
      → Frames v.r v.l s.accepted wire'
      → InOrder addr (record s { sender = sender'; wire = wire' })
  sender-InOrder sender' wire' e e' frames' = record {
    c = v.c;
    r = v.r;
    l = v.l;
    r_count = v.r_count;
    l_count = v.l_count;
    confirmed_first = v.confirmed_first;
    delivered_first = v.delivered_first;
    window = v.window;
    confirm_number = e ∙ v.confirm_number;
    last_number = e' ∙ v.last_number;
    receive_number = v.receive_number;
    waiting = v.waiting;
    prefix = v.prefix;
    frames = frames';
    acks = v.acks;
    holds = v.holds;
    keeps = v.keeps;
  }

  -- Other acknowledgements under way.
  pub acks-InOrder :
      (acks' : List ℕ) → Acks v.c v.r acks' → InOrder addr (record s { acks = acks' })
  acks-InOrder acks' known = record {
    c = v.c;
    r = v.r;
    l = v.l;
    r_count = v.r_count;
    l_count = v.l_count;
    confirmed_first = v.confirmed_first;
    delivered_first = v.delivered_first;
    window = v.window;
    confirm_number = v.confirm_number;
    last_number = v.last_number;
    receive_number = v.receive_number;
    waiting = v.waiting;
    prefix = v.prefix;
    frames = v.frames;
    acks = known;
    holds = v.holds;
    keeps = v.keeps;
  }

  -- The numbers up to place `a` are confirmed.
  pub confirm-InOrder :
      (a : ℕ) (sender' : IQueueControl) (queue' : FrameQueue) (rest : List ℕ)
      → v.c ≤ a
      → a ≤ v.r
      → sender'.tx_state.confirm_ns ≡ a % 8
      → sender'.tx_state.last_ns ≡ s.sender.tx_state.last_ns
      → Acks a v.r rest
      → Holds addr a v.l s.accepted queue'
      → Keeps addr a v.l queue'
      → InOrder addr (record s { acks = rest; sender = sender'; queue = queue' })
  confirm-InOrder a sender' queue' rest ge le e e' known holds' keeps' = record {
    c = a;
    r = v.r;
    l = v.l;
    r_count = v.r_count;
    l_count = v.l_count;
    confirmed_first = le;
    delivered_first = v.delivered_first;
    window = omega (arith, v.window);
    confirm_number = e;
    last_number = e' ∙ v.last_number;
    receive_number = v.receive_number;
    waiting = v.waiting;
    prefix = v.prefix;
    frames = v.frames;
    acks = known;
    holds = holds';
    keeps = keeps';
  }

  pub deliver-InOrder :
      (payload : Bytes) (rest : List (ℕ × Bytes)) (waiting' : List Bytes)
      → v.waiting ≡ payload ∷ waiting'
      → v.r < v.l
      → Frames (suc v.r) v.l s.accepted rest
      → InOrder addr (record s {
        wire = rest;
        receiver = move_to_next_frame_to_receive s.receiver;
        delivered = s.delivered ++ payload ∷ [];
      })
  unfolding move_to_next_frame_to_receive
  deliver-InOrder payload rest waiting' e lt frames' = record {
    c = v.c;
    r = suc v.r;
    l = v.l;
    r_count = length-snoc s.delivered payload v.r v.r_count;
    l_count = v.l_count;
    confirmed_first = omega (arith, v.confirmed_first);
    delivered_first = omega arith;
    window = v.window;
    confirm_number = v.confirm_number;
    last_number = v.last_number;
    receive_number = next_place s.receiver.rx_state.next_nr v.r v.receive_number;
    waiting = waiting';
    prefix =
        v.prefix
        ∙ ap (λ xs. s.delivered ++ xs) e
        ∙ sym (append_assoc s.delivered (payload ∷ []) waiting');
    frames = frames';
    acks = Acks-bounds v.c v.c v.r (suc v.r) s.acks (omega arith) (omega arith) v.acks;
    holds = v.holds;
    keeps = v.keeps;
  }
