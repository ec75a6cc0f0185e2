-- ===== src/Fd/Protocol/Outcome/UFrame.antt =====
-- The connection state machine of src/proto/fd/protocol.rs: what `on_u_frame_received` does to a peer's state.
use tinyproto_rust.Base.{
  ℕ, Bool, true, false, some, List, [], ◌∷◌, ◌++◌, get_elem?, ◌==◌, ◌≡◌, refl, ap, ◌∙◌, inl, inr,
  Bool-cases, if◌then◌else◌,
}
use tinyproto_rust.Fd.Defines.{
  FdState, idle, disconnected, connecting, connected, disconnecting, hdlc_u_frame_type_ua,
  hdlc_u_frame_type_sabm, hdlc_u_frame_type_snrm, hdlc_u_frame_type_disc, hdlc_u_frame_type_dm,
  fd_event_tx_data_available,
}
use tinyproto_rust.Fd.Peers.{PeerInfo, reset_connection}
use tinyproto_rust.Fd.Protocol.Defs.{
  TinyFd, Call, connect_call, is_connected, peer_at, set_peer, set_events, user_address,
  call_connect,
}
use tinyproto_rust.Fd.Protocol.Connect.{
  is_disconnected, announce_slots, connected_peer, connect_peer, disconnected_peer, reset_i_queue,
  disconnect_peer,
}
use tinyproto_rust.Fd.Protocol.Outcome.{Same, announce_slots-Same, peer_at-set_peer}

abbrev pub same_state : FdState → FdState → Bool
same_state disconnected disconnected = true
same_state connecting connecting = true
same_state connected connected = true
same_state disconnecting disconnecting = true
same_state idle idle = true
same_state _ _ = false

-- Where a confirmation of a request leads.
abbrev pub answered : FdState → FdState
answered connecting = connected
answered disconnecting = disconnected
answered s = s

-- The diagram: from a state, by the type of the U-frame.
abbrev pub next_state : FdState → ℕ → FdState
next_state s u_type =
    if u_type == hdlc_u_frame_type_sabm
    then connected
    else if u_type == hdlc_u_frame_type_ua
    then answered s
    else if u_type == hdlc_u_frame_type_disc
    then disconnected
    else if u_type == hdlc_u_frame_type_dm
    then disconnected
    else if u_type == hdlc_u_frame_type_snrm
    then connected
    else s

-- The calls, with the event when the state changes.
abbrev pub event_calls : TinyFd → ℕ → FdState → FdState → List Call
event_calls fd addr s s' =
    if same_state s s'
    then fd.calls
    else if fd.on_connect_event_cb
    then fd.calls ++ connect_call (user_address fd addr) (is_connected s') ∷ []
    else fd.calls

pub record Moved (fd : TinyFd) (peer addr : ℕ) (s s' : FdState) (fd' : TinyFd) : Type 0 where
  pub peer_then : PeerInfo
  pub found : peer_at fd' peer ≡ some peer_then
  pub state_then : peer_then.state ≡ s'
  pub calls_then : fd'.calls ≡ event_calls fd addr s s'

-- An answer sent before makes no difference.
pub Moved-Same :
    (fd fd1 fd' : TinyFd) (peer addr : ℕ) (s s' : FdState)
    → Same fd fd1
    → Moved fd1 peer addr s s' fd'
    → Moved fd peer addr s s' fd'
Moved-Same fd fd1 fd' peer addr s s' same m = record {
  peer_then = m.peer_then;
  found = m.found;
  state_then = m.state_then;
  calls_then = m.calls_then ∙ rw (same.same_calls, same.same_connect_cb, same.same_peers) refl;
}

same_connected : (s : FdState) → same_state s connected ≡ is_connected s
same_connected connected = refl
same_connected disconnected = refl
same_connected connecting = refl
same_connected disconnecting = refl
same_connected idle = refl

same_disconnected : (s : FdState) → same_state s disconnected ≡ is_disconnected s
same_disconnected connected = refl
same_disconnected disconnected = refl
same_disconnected connecting = refl
same_disconnected disconnecting = refl
same_disconnected idle = refl

is_connected-state : (s : FdState) → is_connected s ≡ true → s ≡ connected
is_connected-state connected e = refl
is_connected-state disconnected e = cc
is_connected-state connecting e = cc
is_connected-state disconnecting e = cc
is_connected-state idle e = cc

is_disconnected-state : (s : FdState) → is_disconnected s ≡ true → s ≡ disconnected
is_disconnected-state disconnected e = refl
is_disconnected-state connected e = cc
is_disconnected-state connecting e = cc
is_disconnected-state disconnecting e = cc
is_disconnected-state idle e = cc

same_state_refl : (s : FdState) → same_state s s ≡ true
same_state_refl connected = refl
same_state_refl disconnected = refl
same_state_refl connecting = refl
same_state_refl disconnecting = refl
same_state_refl idle = refl

-- A report of an event after a change that leaves the calls and the settings.
told :
    (fd fd' : TinyFd) (address : ℕ) (up : Bool)
    → fd'.calls ≡ fd.calls
    → fd'.on_connect_event_cb ≡ fd.on_connect_event_cb
    → ((call_connect fd' address up).peer_mgr ≡ fd'.peer_mgr)
      × ((call_connect fd' address up).calls
          ≡ (if fd.on_connect_event_cb then fd.calls ++ connect_call address up ∷ [] else fd.calls))
told fd fd' address up e e' = elim (Bool-cases fd.on_connect_event_cb) [
  | inl b ↦ rw (e' ∙ b, b, call_connect) (refl, ap (λ cs. cs ++ connect_call address up ∷ []) e)
  | inr b ↦ rw (e' ∙ b, b, call_connect) (refl, e)
]

module _ (now : ℕ) (fd : TinyFd) (peer addr : ℕ) (p : PeerInfo) (e : peer_at fd peer ≡ some p) where
  pub stays : Moved fd peer addr p.state p.state fd
  stays = record {
    peer_then = p;
    found = e;
    state_then = refl;
    calls_then = rw (same_state_refl p.state) refl;
  }

  pub connect_peer-Moved : Moved fd peer addr p.state connected (connect_peer now fd peer addr p)
  unfolding reset_connection
  connect_peer-Moved = elim (Bool-cases (is_connected p.state)) [
    | inl c ↦
        rw (c, connect_peer)
          (record {
            peer_then = p;
            found = e;
            state_then = is_connected-state p.state c;
            calls_then = rw (same_connected p.state, c) refl;
          })
    | inr c ↦
        let fd1 =
          set_events (set_peer fd peer (connected_peer now fd.retries p))
            fd_event_tx_data_available in
        let same = announce_slots-Same fd1 in
        let (peers, calls) =
          told fd (announce_slots fd1) (user_address fd addr) true same.same_calls
            same.same_connect_cb in
        rw (c, connect_peer)
          (record {
            peer_then = connected_peer now fd.retries p;
            found =
                ap (λ m. get_elem? (m.peers) peer) (peers ∙ same.same_peers)
                ∙ peer_at-set_peer fd peer p (connected_peer now fd.retries p) e;
            state_then = refl;
            calls_then = rw (same_connected p.state, c) calls;
          })
  ]

  pub disconnect_peer-Moved :
      Moved fd peer addr p.state disconnected (disconnect_peer now fd peer addr p)
  unfolding reset_connection
  disconnect_peer-Moved = elim (Bool-cases (is_disconnected p.state)) [
    | inl c ↦
        rw (c, disconnect_peer)
          (record {
            peer_then = p;
            found = e;
            state_then = is_disconnected-state p.state c;
            calls_then = rw (same_disconnected p.state, c) refl;
          })
    | inr c ↦
        let fd1 = reset_i_queue (set_peer fd peer (disconnected_peer now p)) addr in
        let (peers, calls) = told fd fd1 (user_address fd addr) false refl refl in
        rw (c, disconnect_peer)
          (record {
            peer_then = disconnected_peer now p;
            found =
                ap (λ m. get_elem? (m.peers) peer) peers
                ∙ peer_at-set_peer fd peer p (disconnected_peer now p) e;
            state_then = refl;
            calls_then = rw (same_disconnected p.state, c) calls;
          })
  ]
