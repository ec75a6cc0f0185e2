-- ===== src/Fd/Protocol/Outcome/States.antt =====
-- `on_u_frame_received` of src/proto/fd/protocol.rs follows the diagram of the connection states.
use tinyproto_rust.Base.{
  ℕ, bit_and, Bool, true, false, Option, some, ◌==◌, ◌≡◌, refl, ap, ◌∙◌, if◌then◌else◌, Returns,
  returns, Returns-weaken, get_elem?, ◌>>=◌,
}
use mathlib.Core.Path.{subst}
use tinyproto_rust.Fd.Defines.{
  FdState, idle, disconnected, connecting, connected, disconnecting, hdlc_u_frame_type_ua,
  hdlc_u_frame_type_sabm, hdlc_u_frame_type_snrm, hdlc_u_frame_type_disc, hdlc_u_frame_type_dm,
  hdlc_u_frame_type_mask,
}
use tinyproto_rust.Fd.Peers.{PeerInfo, peer_to_address_field}
use tinyproto_rust.Fd.Protocol.Defs.{TinyFd, peer_at}
use tinyproto_rust.Fd.Protocol.Connect.{switch_to_connected, switch_to_disconnected}
use tinyproto_rust.Fd.Protocol.Handlers.{
  put_u, ua_control, put_ua, on_ua_in, on_ua, on_u_frame_received,
}
use tinyproto_rust.Fd.Protocol.Outcome.{put_u-Same}
use tinyproto_rust.Fd.Protocol.Outcome.UFrame.{
  answered, next_state, Moved, Moved-Same, stays, connect_peer-Moved, disconnect_peer-Moved,
}

module _ (now : ℕ) (peer addr : ℕ) (p : PeerInfo) where
  -- The peer and its address in a handle.
  abbrev Known : TinyFd → Type 0
  Known fd = (peer_at fd peer ≡ some p) × (peer_to_address_field fd.peer_mgr peer ≡ some addr)

  -- An answer leads to a handle that knows the same.
  after_answer : (fd : TinyFd) → Known fd → Known (put_u fd addr ua_control)
  after_answer fd (e, at) =
      let same = put_u-Same fd addr ua_control in
      (
        ap (λ m. get_elem? (m.peers) peer) (same.same_peers) ∙ e,
        ap (λ m. peer_to_address_field m peer) (same.same_peers) ∙ at,
      )

  switch_to_connected-Moved :
      (fd : TinyFd)
      → Known fd
      → Returns (Moved fd peer addr p.state connected) (switch_to_connected now fd peer)
  unfolding switch_to_connected
  switch_to_connected-Moved fd (e, at) =
      rw (at, e) (returns (connect_peer-Moved now fd peer addr p e))

  switch_to_disconnected-Moved :
      (fd : TinyFd)
      → Known fd
      → Returns (Moved fd peer addr p.state disconnected) (switch_to_disconnected now fd peer)
  unfolding switch_to_disconnected
  switch_to_disconnected-Moved fd (e, at) =
      rw (at, e) (returns (disconnect_peer-Moved now fd peer addr p e))

  -- The answer, and then a switch.
  answered_first :
      (fd : TinyFd) (s' : FdState) (f : TinyFd → Option TinyFd)
      → Known fd
      → ((fd1 : TinyFd) → Known fd1 → Returns (Moved fd1 peer addr p.state s') (f fd1))
      → Returns (Moved fd peer addr p.state s') (put_ua fd peer >>= f)
  answered_first fd s' f (e, at) k =
      let fd1 = put_u fd addr ua_control in
      rw (at, put_ua)
        (Returns-weaken (k fd1 (after_answer fd (e, at)))
          (λ fd' m. Moved-Same fd fd1 fd' peer addr p.state s' (put_u-Same fd addr ua_control) m))

  on_ua_in-Moved :
      (fd : TinyFd) (s : FdState)
      → p.state ≡ s
      → Known fd
      → Returns (Moved fd peer addr p.state (answered s)) (on_ua_in s now fd peer)
  on_ua_in-Moved fd connecting e known = switch_to_connected-Moved fd known
  on_ua_in-Moved fd disconnecting e known = switch_to_disconnected-Moved fd known
  on_ua_in-Moved fd disconnected e known =
      returns (subst (λ s. Moved fd peer addr p.state s fd) e (stays now fd peer addr p known.0))
  on_ua_in-Moved fd connected e known =
      returns (subst (λ s. Moved fd peer addr p.state s fd) e (stays now fd peer addr p known.0))
  on_ua_in-Moved fd idle e known =
      returns (subst (λ s. Moved fd peer addr p.state s fd) e (stays now fd peer addr p known.0))

  on_ua-Moved :
      (fd : TinyFd)
      → Known fd
      → Returns (Moved fd peer addr p.state (answered p.state)) (on_ua now fd peer)
  on_ua-Moved fd (e, at) = rw (e, on_ua) (on_ua_in-Moved fd p.state refl (e, at))

  -- A test that chooses both the way and the state.
  branch :
      (fd : TinyFd) (b : Bool) (s s' : FdState) {x y : Option TinyFd}
      → Returns (Moved fd peer addr p.state s) x
      → Returns (Moved fd peer addr p.state s') y
      → Returns (Moved fd peer addr p.state (if b then s else s')) (if b then x else y)
  branch fd true s s' r r' = r
  branch fd false s s' r r' = r'

-- A U-frame from a known peer moves it as the diagram says. SABM and SNRM connect, DISC and DM disconnect, UA
-- completes the request that is under way, and every other type leaves the state. The event of a
-- connection or of a disconnection is reported to the callback, where one is set, once and exactly when the state
-- changes. The handler returns in every case.
pub on_u_frame_received-Moved :
    (now : ℕ) (fd : TinyFd) (peer addr control : ℕ) (p : PeerInfo)
    → peer_at fd peer ≡ some p
    → peer_to_address_field fd.peer_mgr peer ≡ some addr
    → Returns
        (Moved fd peer addr p.state (next_state p.state (bit_and control hdlc_u_frame_type_mask)))
        (on_u_frame_received now fd peer control)
unfolding on_u_frame_received
on_u_frame_received-Moved now fd peer addr control p e at =
    let u_type = bit_and control hdlc_u_frame_type_mask in
    let up = switch_to_connected-Moved now peer addr p in
    let down = switch_to_disconnected-Moved now peer addr p in
    let known : Known now peer addr p fd = (e, at) in
    branch now peer addr p fd (u_type == hdlc_u_frame_type_sabm) _ _
      (answered_first now peer addr p fd connected (λ fd'. switch_to_connected now fd' peer) known
        up)
      (branch now peer addr p fd (u_type == hdlc_u_frame_type_ua) _ _
        (on_ua-Moved now peer addr p fd known)
        (branch now peer addr p fd (u_type == hdlc_u_frame_type_disc) _ _
          (answered_first now peer addr p fd disconnected
            (λ fd'. switch_to_disconnected now fd' peer) known down)
          (branch now peer addr p fd (u_type == hdlc_u_frame_type_dm) _ _ (down fd known) (
            branch now peer addr p fd (u_type == hdlc_u_frame_type_snrm) _ _
              (answered_first now peer addr p fd connected (λ fd'. switch_to_connected now fd' peer)
                known up)
              (returns (stays now fd peer addr p e))))))
