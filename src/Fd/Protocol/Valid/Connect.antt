-- ===== src/Fd/Protocol/Valid/Connect.antt =====
-- Connecting and disconnecting (src/proto/fd/protocol.rs) keep a handle valid.
use tinyproto_rust.Base.{refl, ℕ, ◌<◌, true, false, Returns, returns, Returns-bind, if-both}
use tinyproto_rust.Hdlc.Ll.Defs.{HdlcLl}
use tinyproto_rust.Fd.IQueueControl.{reset}
use tinyproto_rust.Fd.Peers.{PeerInfo, reset_connection}
use tinyproto_rust.Fd.FrameQueue.{has_free_slots}
use tinyproto_rust.Fd.FrameQueue.Keep.{reset_for-IsValid}
use tinyproto_rust.Fd.Protocol.Defs.{TinyFd, is_connected, set_peer}
use tinyproto_rust.Fd.Protocol.Connect.{
  is_disconnected, announce_slots, connected_peer, connect_peer, switch_to_connected,
  disconnected_peer, disconnect_peer, switch_to_disconnected,
}
use tinyproto_rust.Fd.Protocol.Valid.{
  NumbersOk, fresh-NumbersOk, Valid, peer_at-Valid, set_peer-Valid, address-Valid,
  call_connect-Valid, i_queue-Valid,
}

connected_peer-NumbersOk :
    (now retries : ℕ) (p : PeerInfo) → NumbersOk (connected_peer now retries p)
unfolding reset_connection reset
connected_peer-NumbersOk now retries p = fresh-NumbersOk _ refl

disconnected_peer-NumbersOk : (now : ℕ) (p : PeerInfo) → NumbersOk (disconnected_peer now p)
unfolding reset_connection reset
disconnected_peer-NumbersOk now p = fresh-NumbersOk _ refl

module _ {n : ℕ} {h : HdlcLl} where
  pub announce_slots-Valid : (fd : TinyFd) → Valid n h fd → Valid n h (announce_slots fd)
  announce_slots-Valid fd v = if-both (Valid n h) (has_free_slots fd.frames.i_queue) v v

  connect_peer-Valid :
      (now : ℕ) (fd : TinyFd) (peer addr_field : ℕ) (p : PeerInfo)
      → Valid n h fd
      → Valid n h (connect_peer now fd peer addr_field p)
  connect_peer-Valid now fd peer addr_field p v = if-both (Valid n h) (is_connected p.state) v (
      call_connect-Valid _ _ true (
        announce_slots-Valid _
          (set_peer-Valid fd peer _ v (connected_peer-NumbersOk now fd.retries p))))

  pub switch_to_connected-Valid :
      (now : ℕ) (fd : TinyFd) (peer : ℕ)
      → peer < n
      → Valid n h fd
      → Returns (Valid n h) (switch_to_connected now fd peer)
  unfolding switch_to_connected
  switch_to_connected-Valid now fd peer lt v =
      Returns-bind (address-Valid fd peer v lt) (λ addr_field _.
        Returns-bind (peer_at-Valid fd peer v lt)
          (λ p _. returns (connect_peer-Valid now fd peer addr_field p v)))

  disconnect_peer-Valid :
      (now : ℕ) (fd : TinyFd) (peer addr_field : ℕ) (p : PeerInfo)
      → Valid n h fd
      → Valid n h (disconnect_peer now fd peer addr_field p)
  disconnect_peer-Valid now fd peer addr_field p v =
      if-both (Valid n h) (is_disconnected p.state) v (
        call_connect-Valid _ _ false (
          i_queue-Valid (set_peer fd peer (disconnected_peer now p)) _
            (set_peer-Valid fd peer _ v (disconnected_peer-NumbersOk now p))
            (reset_for-IsValid fd.frames.i_queue addr_field v.i_queue_ok)))

  pub switch_to_disconnected-Valid :
      (now : ℕ) (fd : TinyFd) (peer : ℕ)
      → peer < n
      → Valid n h fd
      → Returns (Valid n h) (switch_to_disconnected now fd peer)
  unfolding switch_to_disconnected
  switch_to_disconnected-Valid now fd peer lt v =
      Returns-bind (address-Valid fd peer v lt) (λ addr_field _.
        Returns-bind (peer_at-Valid fd peer v lt)
          (λ p _. returns (disconnect_peer-Valid now fd peer addr_field p v)))
