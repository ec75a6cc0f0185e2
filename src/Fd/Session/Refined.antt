-- ===== src/Fd/Session/Refined.antt =====
-- When a call on a handle of src/proto/fd/protocol.rs is a step of both directions of the connection.
use tinyproto_rust.Base.{ℕ, List, [], ◌∷◌, ◌++◌, append_assoc, Bytes, sym}
use mathlib.Core.Path.{subst}
use tinyproto_rust.Fd.IQueueControl.{IQueueControl}
use tinyproto_rust.Fd.FrameQueue.{FrameQueue}
use tinyproto_rust.Fd.Protocol.Defs.{TinyFd}
use tinyproto_rust.Fd.Delivery.{Steps, go, answer}
use tinyproto_rust.Fd.Delivery.Invariant.{InOrder}
use tinyproto_rust.Fd.Session.{
  Frame, Session, swap, control_of, reads, data_in, acks_in, link, link_of,
}
use tinyproto_rust.Fd.Session.Station.{Station}
use tinyproto_rust.Fd.Session.Views.{control_of-Station, OwnStation, Station-own}

-- Both stations are in the connection, and both directions are in order.
pub record Ready (addr : ℕ) (s : Session) : Type 0 where
  pub left_station : OwnStation addr s.left
  pub right_station : OwnStation addr s.right
  pub rightward_order : InOrder addr (link_of s)
  pub leftward_order : InOrder addr (link_of (swap s))

-- A move of the left station, as steps of both directions.
pub record Refined (addr : ℕ) (s s' : Session) : Type 0 where
  pub station : OwnStation addr s'.left
  pub forth : Steps addr (link_of s) (link_of s')
  pub back : Steps addr (link_of (swap s)) (link_of (swap s'))

-- A station keeps the number that it expects by then.
pub noted :
    (addr : ℕ) (s s' : Session)
    → Refined addr s s'
    → Refined addr s
        (record s' { left_owed = s'.left_owed ++ (control_of s'.left).rx_state.next_nr ∷ [] })
noted addr s s' h = record {
  station = h.station;
  forth = h.forth;
  back =
      subst (λ acks. Steps addr (link_of (swap s)) (record (link_of (swap s')) { acks = acks }))
        (append_assoc (acks_in s'.rightward) s'.left_owed _)
        (go (link_of (swap s)) (link_of (swap s')) _ h.back (answer (link_of (swap s'))));
}

-- The steps, once the left handle is known to have the numbers, the queue and the deliveries that they lead to.
pub refined :
    (addr : ℕ) (s : Session) (c : IQueueControl) (q : FrameQueue) (given : List Bytes)
    (left' : TinyFd) (rightward leftward : List Frame) (from_left : List Bytes) (owed : List ℕ)
    → Station addr c q given left'
    → Steps addr (link_of s) (
        link c q
          (control_of s.right)
          (reads s.right.calls)
          (data_in rightward)
          (acks_in leftward ++ s.right_owed)
          from_left)
    → Steps addr (link_of (swap s)) (
        link
          (control_of s.right)
          s.right.frames.i_queue
          c
          given
          (data_in leftward)
          (acks_in rightward ++ owed)
          s.from_right)
    → Refined addr s (record s {
      left = left';
      rightward = rightward;
      leftward = leftward;
      from_left = from_left;
      left_owed = owed;
    })
refined addr s c q given left' rightward leftward from_left owed v forth back =
    let same = control_of-Station addr c q given left' v in
    record {
      station = Station-own addr c q given left' v;
      forth =
          subst
            (λ c. Steps addr (link_of s) (
              link c left'.frames.i_queue (control_of s.right) (reads s.right.calls)
                (data_in rightward) (acks_in leftward ++ s.right_owed) from_left))
            (sym same)
            (subst
              (λ q. Steps addr (link_of s) (
                link c q (control_of s.right) (reads s.right.calls) (data_in rightward)
                  (acks_in leftward ++ s.right_owed) from_left))
              (sym v.queue) forth);
      back =
          subst
            (λ c. Steps addr (link_of (swap s)) (
              link (control_of s.right) s.right.frames.i_queue c (reads left'.calls)
                (data_in leftward) (acks_in rightward ++ owed) s.from_right))
            (sym same)
            (subst
              (λ given. Steps addr (link_of (swap s)) (
                link (control_of s.right) s.right.frames.i_queue c given (data_in leftward)
                  (acks_in rightward ++ owed) s.from_right))
              (sym v.heard) back);
    }
