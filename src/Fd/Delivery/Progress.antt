-- ===== src/Fd/Delivery/Progress.antt =====
-- A direction of a connection in which something is still to be delivered can come to where everything is.
use tinyproto_rust.Base.{ℕ, ◌-◌, true, []}
use tinyproto_rust.Fd.IQueueControl.{IQueueControl, retransmit_frame}
use tinyproto_rust.Fd.Delivery.{Link}
use tinyproto_rust.Fd.Delivery.Course.{Course}
use tinyproto_rust.Fd.Delivery.Invariant.{InOrder}

module _ (addr : ℕ) (s : Link) (v : InOrder addr s) where
  -- With nothing under way and the sender back at the next number to be confirmed.
  abbrev cleared : Link
  cleared = record s { wire = []; acks = [] }

  abbrev again : Link
  again = record cleared {
    sender = (retransmit_frame s.sender s.sender.tx_state.confirm_ns (λ _. true)).0;
  }

  -- The last place that is not delivered.
  abbrev last : ℕ
  last = v.l - 1
