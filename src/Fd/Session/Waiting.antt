-- ===== src/Fd/Session/Waiting.antt =====
-- What a check of the timeouts of src/proto/fd/protocol.rs does for a direction of a connection that it does not give up.
use tinyproto_rust.Base.{
  ℕ, true, false, ◌&&◌, Option, none, some, ◌>>=◌, List, [], ◌∷◌, Bytes, set, ◌==◌, ◌≡◌, refl, sym,
  ap, inl, inr, ◌⊎◌, if-both, Whenever,
}
use mathlib.Core.Path.{subst}
use tinyproto_rust.Error.{ok}
use tinyproto_rust.Fd.Defines.{FdState, connected, disconnected, idle, connecting, disconnecting}
use tinyproto_rust.Fd.IQueueControl.{IQueueControl, has_unconfirmed_frames}
use tinyproto_rust.Fd.FrameQueue.{FrameQueue}
use tinyproto_rust.Fd.Peers.{PeerInfo, reset_connection}
use tinyproto_rust.Fd.Protocol.Defs.{
  TinyFd, is_connected, get_status, set_peer, call_connect, user_address,
}
use tinyproto_rust.Fd.Protocol.Connect.{switch_to_disconnected, disconnected_peer, reset_i_queue}
use tinyproto_rust.Fd.Protocol.Timers.{
  is_over, retry, check_connected, check_peer, check_from, check_timeouts,
}
use tinyproto_rust.Fd.Session.Station.{Station, known, addressed, Station-moved}
use tinyproto_rust.Fd.Session.Receiving.{rewound}

-- The numbers are as they were, or go back to the next one to be confirmed.
abbrev pub Ticked :
    (addr : ℕ) (c : IQueueControl) (q : FrameQueue) (given : List Bytes) → TinyFd → Type 0
Ticked addr c q given fd' =
    Station addr c q given fd' ⊎ Station addr (rewound c c.tx_state.confirm_ns) q given fd'

connected_only : (s : FdState) → is_connected s ≡ true → s ≡ connected
connected_only connected e = refl
connected_only idle e = cc
connected_only disconnected e = cc
connected_only connecting e = cc
connected_only disconnecting e = cc

-- With a peer that is disconnected the status is an error.
no_status :
    (fd : TinyFd) (p : PeerInfo)
    → fd.peer_mgr.peers ≡ p ∷ []
    → is_connected p.state ≡ false
    → get_status fd ≡ ok tt
    → ⊥
unfolding get_status
no_status fd p e down status = cc (rw (e, get_status, down) at status)

connected_check :
    (now : ℕ) (fd : TinyFd) (p : PeerInfo)
    → fd.peer_mgr.peers ≡ p ∷ []
    → p.state ≡ connected
    → check_timeouts now fd ≡ (check_connected now fd 0 p >>= some)
unfolding check_timeouts check_from check_peer
connected_check now fd p e s = rw (e, check_from, s) refl

returned_same : (P : TinyFd → Type 0) (o : Option TinyFd) → Whenever P o → Whenever P (o >>= some)
returned_same P none h = h
returned_same P (some fd) h = h

module _ (addr : ℕ) (c : IQueueControl) (q : FrameQueue) (given : List Bytes) (fd : TinyFd)
    (v : Station addr c q given fd) where
  -- It holds if the connection is not given up.
  abbrev Kept : TinyFd → Type 0
  Kept fd' = get_status fd' ≡ ok tt → Ticked addr c q given fd'

  retry-Kept : (now : ℕ) → Kept (retry now fd 0 v.peer)
  retry-Kept now status = inr (
      Station-moved addr c q given fd v _ (rewound c c.tx_state.confirm_ns) q given _ refl
        (refl, refl, ap (λ c. rewound c c.tx_state.confirm_ns) v.control) v.queue v.heard refl)

  given_up-Kept : (now : ℕ) → Whenever Kept (switch_to_disconnected now fd 0)
  unfolding switch_to_disconnected reset_connection
  given_up-Kept now =
      let p = disconnected_peer now v.peer in
      let fd1 = reset_i_queue (set_peer fd 0 p) addr in
      let user = user_address fd addr in
      let only : (call_connect fd1 user false).peer_mgr.peers ≡ p ∷ [] =
        if-both (λ (fd2 : TinyFd). fd2.peer_mgr.peers ≡ p ∷ []) fd1.on_connect_event_cb
          (ap (λ ps. set ps 0 p) v.only) (ap (λ ps. set ps 0 p) v.only) in
      rw (addressed addr c q given fd v, known addr c q given fd v, connected_only _ v.up)
        (λ status. absurd (no_status (call_connect fd1 user false) p only refl status))

  check_connected-Kept : (now : ℕ) → Whenever Kept (check_connected now fd 0 v.peer)
  check_connected-Kept now =
      let control = v.peer.i_queue_control in
      if-both (Whenever Kept)
        (has_unconfirmed_frames control && is_over now fd v.peer.last_sent_i_ts)
        (if-both (Whenever Kept) (v.peer.retries == 0) (given_up-Kept now) (retry-Kept now))
        (λ status. inl v)

  check_timeouts-Kept : (now : ℕ) → Whenever Kept (check_timeouts now fd)
  check_timeouts-Kept now =
      subst (Whenever Kept) (sym (connected_check now fd v.peer v.only (connected_only _ v.up)))
        (returned_same Kept (check_connected now fd 0 v.peer) (check_connected-Kept now))

  pub check_timeouts-Ticked :
      (now : ℕ) (fd' : TinyFd)
      → check_timeouts now fd ≡ some fd'
      → get_status fd' ≡ ok tt
      → Ticked addr c q given fd'
  check_timeouts-Ticked now fd' e = subst (Whenever Kept) e (check_timeouts-Kept now)
