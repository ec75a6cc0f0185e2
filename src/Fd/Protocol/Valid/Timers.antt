-- ===== src/Fd/Protocol/Valid/Timers.antt =====
-- The timeouts of src/proto/fd/protocol.rs keep a handle valid.
use tinyproto_rust.Base.{
  ℕ, zero, suc, ◌+◌, ◌-◌, ◌≤◌, ◌<◌, ◌&&◌, [], length, ◌==◌, refl, arith, Returns, returns,
  Returns-bind, if-both, u8,
}
use tinyproto_rust.Hdlc.Ll.Defs.{HdlcLl}
use tinyproto_rust.Fd.Defines.{FdState, idle, disconnected, connecting, connected, disconnecting}
use tinyproto_rust.Fd.IQueueControl.{has_unconfirmed_frames, get_next_frame_to_confirm}
use tinyproto_rust.Fd.Peers.{PeerInfo}
use tinyproto_rust.Fd.Protocol.Defs.{TinyFd}
use tinyproto_rust.Fd.Protocol.Handlers.{put_u}
use tinyproto_rust.Fd.Protocol.Timers.{
  is_abm, is_over, sabm_control, request, check_idle, check_connecting, retry, check_connected,
  check_in, check_peer, check_from, check_timeouts,
}
use tinyproto_rust.Fd.Protocol.Valid.{
  NumbersOk, same-NumbersOk, Valid, peer_at-Valid, set_peer-Valid, address-Valid,
  put_u_s_frame-Valid,
}
use tinyproto_rust.Fd.Protocol.Valid.Connect.{switch_to_disconnected-Valid}
use tinyproto_rust.Fd.Protocol.Valid.Handlers.{rewound-NumbersOk}

module _ {n : ℕ} {h : HdlcLl} (now : ℕ) (fd : TinyFd) (peer : ℕ) (lt : peer < n)
    (v : Valid n h fd) where
  u8-lt : u8 peer < n
  u8-lt = omega arith

  request-Valid : (p : PeerInfo) → NumbersOk p → Returns (Valid n h) (request fd peer p)
  request-Valid p ok = Returns-bind (address-Valid fd (u8 peer) v u8-lt) (λ addr _.
      returns
        (set_peer-Valid (put_u fd addr sabm_control) peer p (put_u_s_frame-Valid fd _ _ [] v) ok))

  check_idle-Valid : (p : PeerInfo) → NumbersOk p → Returns (Valid n h) (check_idle now fd peer p)
  check_idle-Valid p ok =
      if-both (Returns (Valid n h)) (is_abm fd.mode && is_over now fd p.last_sent_frame_ts)
        (request-Valid (record p { state = connecting; last_sent_frame_ts = now })
          (same-NumbersOk p _ refl ok))
        (returns v)

  check_connecting-Valid :
      (p : PeerInfo) → NumbersOk p → Returns (Valid n h) (check_connecting now fd peer p)
  check_connecting-Valid p ok =
      if-both (Returns (Valid n h)) (is_over now fd p.last_sent_frame_ts)
        (if-both (Returns (Valid n h)) (p.retries == 0)
          (returns (
            set_peer-Valid fd peer (record p { state = disconnected }) v
              (same-NumbersOk p _ refl ok)))
          (request-Valid (record p { retries = p.retries - 1; last_sent_frame_ts = now })
            (same-NumbersOk p _ refl ok)))
        (returns v)

  check_connected-Valid :
      (p : PeerInfo) → NumbersOk p → Returns (Valid n h) (check_connected now fd peer p)
  check_connected-Valid p ok =
      if-both (Returns (Valid n h))
        (has_unconfirmed_frames p.i_queue_control && is_over now fd p.last_sent_i_ts)
        (if-both (Returns (Valid n h)) (p.retries == 0)
          (switch_to_disconnected-Valid now fd (u8 peer) u8-lt v)
          (returns {a = retry now fd peer p} (
            set_peer-Valid fd peer _ v (
              rewound-NumbersOk p _ (get_next_frame_to_confirm p.i_queue_control) refl ok
                ok.confirm_lt))))
        (returns v)

  check_in-Valid :
      (s : FdState) (p : PeerInfo) → NumbersOk p → Returns (Valid n h) (check_in s now fd peer p)
  check_in-Valid disconnected p ok = check_idle-Valid p ok
  check_in-Valid idle p ok = check_idle-Valid p ok
  check_in-Valid connecting p ok = check_connecting-Valid p ok
  check_in-Valid connected p ok = check_connected-Valid p ok
  check_in-Valid disconnecting p ok = returns v

  check_peer-Valid : Returns (Valid n h) (check_peer now fd peer)
  unfolding check_peer
  check_peer-Valid = Returns-bind (peer_at-Valid fd peer v lt) (λ p ok. check_in-Valid p.state p ok)

check_from-Valid :
    {n : ℕ} {h : HdlcLl} (left peer now : ℕ) (fd : TinyFd)
    → peer + left ≤ n
    → Valid n h fd
    → Returns (Valid n h) (check_from left peer now fd)
unfolding check_from
check_from-Valid zero peer now fd le v = returns v
check_from-Valid (suc left) peer now fd le v =
    Returns-bind (check_peer-Valid now fd peer (omega arith) v)
      (λ fd' v'. check_from-Valid left (suc peer) now fd' (omega arith) v')

pub check_timeouts-Valid :
    {n : ℕ} {h : HdlcLl} (now : ℕ) (fd : TinyFd)
    → Valid n h fd
    → Returns (Valid n h) (check_timeouts now fd)
unfolding check_timeouts
check_timeouts-Valid now fd v =
    check_from-Valid (length fd.peer_mgr.peers) 0 now fd (omega (arith, v.peer_count)) v
