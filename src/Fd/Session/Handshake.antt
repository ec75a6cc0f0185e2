-- ===== src/Fd/Session/Handshake.antt =====
-- How two handles of src/proto/fd/protocol.rs come to be connected: a request by SABM, and its answer by UA.
use tinyproto_rust.Base.{
  ℕ, Bool, true, false, some, List, [], ◌∷◌, ◌++◌, get_elem?, set, ◌>>=◌, ◌≡◌, refl, sym, ap, ◌∙◌,
  if-both, Returns, returns, Returns-weaken,
}
use mathlib.Core.Path.{subst}
use tinyproto_rust.Fd.Defines.{
  FdState, disconnected, connecting, u_queue_max_size, fd_event_tx_data_available,
  fd_event_queue_has_free_slots,
}
use tinyproto_rust.Fd.Frames.{u_frame, FrameInfo}
use tinyproto_rust.Fd.Frames as Frames
use tinyproto_rust.Fd.IQueueControl as IQueueControl
use tinyproto_rust.Fd.FrameQueue.{FrameQueue, allocate, allocate_loop, get, has_free_slots}
use tinyproto_rust.Fd.FrameQueue as FrameQueue
use tinyproto_rust.Fd.Peers.{PeerInfo, without_cr, reset_connection}
use tinyproto_rust.Fd.Protocol.Defs.{
  TinyFd, Call, read_call, connect_call, is_connected, peer_at, set_peer, set_events, user_address,
  call_connect,
}
use tinyproto_rust.Fd.Protocol.Send.{put_u_s_frame}
use tinyproto_rust.Fd.Protocol.Connect.{
  announce_slots, connected_peer, connect_peer, switch_to_connected,
}
use tinyproto_rust.Fd.Protocol.Handlers.{put_u, ua_control, on_u_frame_received}
use tinyproto_rust.Fd.Protocol.Receive.{heard, on_frame_received}
use tinyproto_rust.Fd.Protocol.Timers.{
  is_abm, is_over, sabm_control, check_idle, check_peer, check_from, check_timeouts,
}
use tinyproto_rust.Fd.Protocol.Outcome.{put_u-Same}
use tinyproto_rust.Fd.Session.{reads}
use tinyproto_rust.Fd.Session.Station.{field_of, field-addressed, field-found}
use tinyproto_rust.Fd.Session.Refine.{Fresh}

-- A handle whose only peer is in the state `s`, with nothing queued, and nothing read.
pub record Unconnected (addr n mtu : ℕ) (s : FdState) (fd : TinyFd) : Type 0 where
  pub peer : PeerInfo
  pub only : fd.peer_mgr.peers ≡ peer ∷ []
  pub state_is : peer.state ≡ s
  pub numbers : peer.i_queue_control ≡ IQueueControl.new
  pub reaches : field_of fd.peer_mgr.local_addr peer.addr ≡ addr
  pub queue : fd.frames.i_queue ≡ FrameQueue.new n mtu
  pub heard : reads fd.calls ≡ []
  pub listening : fd.on_read_cb ≡ true

-- What a report or an event leaves.
record Linked (fd fd' : TinyFd) : Type 0 where
  same_peers : fd'.peer_mgr ≡ fd.peer_mgr
  same_frames : fd'.frames ≡ fd.frames
  same_reads : reads fd'.calls ≡ reads fd.calls
  same_cb : fd'.on_read_cb ≡ fd.on_read_cb

reads-connect :
    (calls : List Call) (a : ℕ) (up : Bool) → reads (calls ++ connect_call a up ∷ []) ≡ reads calls
reads-connect [] a up = refl
reads-connect (read_call b m ∷ calls) a up = ap (λ ms. m ∷ ms) (reads-connect calls a up)
reads-connect (connect_call b u ∷ calls) a up = reads-connect calls a up

Linked-refl : (fd : TinyFd) → Linked fd fd
Linked-refl fd = record { same_peers = refl; same_frames = refl; same_reads = refl; same_cb = refl }

Linked-join : (a b c : TinyFd) → Linked a b → Linked b c → Linked a c
Linked-join a b c one two = record {
  same_peers = two.same_peers ∙ one.same_peers;
  same_frames = two.same_frames ∙ one.same_frames;
  same_reads = two.same_reads ∙ one.same_reads;
  same_cb = two.same_cb ∙ one.same_cb;
}

call_connect-Linked : (fd : TinyFd) (a : ℕ) (up : Bool) → Linked fd (call_connect fd a up)
call_connect-Linked fd a up =
    let told : Linked fd (record fd { calls = fd.calls ++ connect_call a up ∷ [] }) = record {
      same_peers = refl;
      same_frames = refl;
      same_reads = reads-connect fd.calls a up;
      same_cb = refl;
    } in
    if-both (Linked fd) fd.on_connect_event_cb told (Linked-refl fd)

announce_slots-Linked : (fd : TinyFd) → Linked fd (announce_slots fd)
announce_slots-Linked fd =
    let told : Linked fd (set_events fd fd_event_queue_has_free_slots) = record {
      same_peers = refl;
      same_frames = refl;
      same_reads = refl;
      same_cb = refl;
    } in
    if-both (Linked fd) (has_free_slots fd.frames.i_queue) told (Linked-refl fd)

-- The first frame of a kind in a fresh queue is the one that goes out next.
abbrev pub Waiting : TinyFd → ℕ → ℕ → Type 0
Waiting fd addr control =
    get fd.frames.s_queue 0
    ≡ some (Frames.new u_frame (record { address = addr; control = control }) [])

put_u-Waiting :
    (fd : TinyFd) (addr control mtu : ℕ)
    → fd.frames.s_queue ≡ FrameQueue.new u_queue_max_size mtu
    → Waiting (put_u fd addr control) addr control
unfolding put_u_s_frame allocate allocate_loop get FrameQueue.new
put_u-Waiting fd addr control mtu e = rw e refl

module _ (addr n mtu : ℕ) (s : FdState) (fd : TinyFd) (u : Unconnected addr n mtu s fd) where
  -- The peer is connected.
  connect-Fresh :
      (now : ℕ)
      → is_connected s ≡ false
      → Returns
          (λ fd'. Fresh addr n mtu fd' × (fd'.frames ≡ fd.frames))
          (switch_to_connected now fd 0)
  unfolding switch_to_connected reset_connection IQueueControl.reset
  connect-Fresh now down =
      let p = connected_peer now fd.retries u.peer in
      let fd1 = set_events (set_peer fd 0 p) fd_event_tx_data_available in
      let fd2 = announce_slots fd1 in
      let user = user_address fd addr in
      let fd3 = call_connect fd2 user true in
      let same =
        Linked-join fd1 fd2 fd3 (announce_slots-Linked fd1) (call_connect-Linked fd2 user true) in
      let fresh : Fresh addr n mtu fd3 = record {
        peer = p;
        only = ap (λ m. m.peers) same.same_peers ∙ ap (λ ps. set ps 0 p) u.only;
        up = refl;
        reaches = ap (λ m. field_of (m.local_addr) u.peer.addr) same.same_peers ∙ u.reaches;
        control = refl;
        queue = ap (λ f. f.i_queue) same.same_frames ∙ u.queue;
        heard = same.same_reads ∙ u.heard;
        listening = same.same_cb ∙ u.listening;
      } in
      let down' : is_connected u.peer.state ≡ false = ap is_connected u.state_is ∙ down in
      let known : peer_at fd 0 ≡ some u.peer = ap (λ ps. get_elem? ps 0) u.only in
      rw (field-addressed addr fd u.peer u.only u.reaches, known, down', connect_peer)
        (returns {a = fd3} (fresh, same.same_frames))

  heard-Unconnected : (now : ℕ) → Unconnected addr n mtu s (set_peer fd 0 (heard now u.peer))
  heard-Unconnected now = record {
    peer = heard now u.peer;
    only = ap (λ ps. set ps 0 (heard now u.peer)) u.only;
    state_is = u.state_is;
    numbers = u.numbers;
    reaches = u.reaches;
    queue = u.queue;
    heard = u.heard;
    listening = u.listening;
  }

  put_u-Unconnected : (control : ℕ) → Unconnected addr n mtu s (put_u fd addr control)
  put_u-Unconnected control =
      let same = put_u-Same fd addr control in
      record {
        peer = u.peer;
        only = ap (λ m. m.peers) same.same_peers ∙ u.only;
        state_is = u.state_is;
        numbers = u.numbers;
        reaches = ap (λ m. field_of (m.local_addr) u.peer.addr) same.same_peers ∙ u.reaches;
        queue = same.same_i_queue ∙ u.queue;
        heard = ap reads same.same_calls ∙ u.heard;
        listening = same.same_read_cb ∙ u.listening;
      }

  known-Unconnected : peer_at fd 0 ≡ some u.peer
  known-Unconnected = ap (λ ps. get_elem? ps 0) u.only

idle_check :
    (now : ℕ) (fd : TinyFd) (p : PeerInfo)
    → fd.peer_mgr.peers ≡ p ∷ []
    → p.state ≡ disconnected
    → check_timeouts now fd ≡ (check_idle now fd 0 p >>= some)
unfolding check_timeouts check_from check_peer
idle_check now fd p e s = rw (e, check_from, s) refl

module _ (addr n mtu : ℕ) (own : without_cr addr ≡ addr) where
  -- A request is answered by UA and connects.
  pub sabm-Fresh :
      (s : FdState) (fd : TinyFd) (u : Unconnected addr n mtu s fd) (now size : ℕ)
      → is_connected s ≡ false
      → fd.frames.s_queue ≡ FrameQueue.new u_queue_max_size size
      → Returns
          (λ fd'. Fresh addr n mtu fd' × Waiting fd' addr ua_control)
          (on_frame_received now fd (addr ∷ sabm_control ∷ []))
  unfolding on_frame_received on_u_frame_received
  sabm-Fresh s fd u now size down empty =
      let fd1 = set_peer fd 0 (heard now u.peer) in
      let u1 = heard-Unconnected addr n mtu s fd u now in
      let fd2 = put_u fd1 addr ua_control in
      let done =
        connect-Fresh addr n mtu s fd2 (put_u-Unconnected addr n mtu s fd1 u1 ua_control) now
          down in
      rw
        (
          field-found addr fd u.peer u.only u.reaches own,
          known-Unconnected addr n mtu s fd u,
          field-addressed addr fd1 u1.peer u1.only u1.reaches,
        )
        (Returns-weaken done (λ fd' h. (
          h.0,
          subst
              (λ q.
                get q 0
                ≡ some (Frames.new u_frame (record { address = addr; control = ua_control }) []))
              (sym (ap (λ f. f.s_queue) h.1)) (put_u-Waiting fd1 addr ua_control size empty),
        )))

  -- The answer to a request connects.
  pub ua-Fresh :
      (fd : TinyFd) (u : Unconnected addr n mtu connecting fd) (now : ℕ)
      → Returns (Fresh addr n mtu) (on_frame_received now fd (addr ∷ ua_control ∷ []))
  unfolding on_frame_received on_u_frame_received
  ua-Fresh fd u now =
      let fd1 = set_peer fd 0 (heard now u.peer) in
      let u1 = heard-Unconnected addr n mtu connecting fd u now in
      rw
        (
          field-found addr fd u.peer u.only u.reaches own,
          known-Unconnected addr n mtu connecting fd u,
          known-Unconnected addr n mtu connecting fd1 u1,
          u1.state_is,
        )
        (Returns-weaken (connect-Fresh addr n mtu connecting fd1 u1 now refl) (λ fd' h. h.0))

  -- A station that is not connected asks for a connection.
  pub check_timeouts-asks :
      (fd : TinyFd) (u : Unconnected addr n mtu disconnected fd) (now size : ℕ)
      → is_abm fd.mode ≡ true
      → is_over now fd u.peer.last_sent_frame_ts ≡ true
      → fd.frames.s_queue ≡ FrameQueue.new u_queue_max_size size
      → Returns
          (λ fd'. Unconnected addr n mtu connecting fd' × Waiting fd' addr sabm_control)
          (check_timeouts now fd)
  check_timeouts-asks fd u now size asks due empty =
      let p = record (u.peer) { state = connecting; last_sent_frame_ts = now } in
      let fd1 = put_u fd addr sabm_control in
      let fd2 = set_peer fd1 0 p in
      let same = put_u-Same fd addr sabm_control in
      let asking : Unconnected addr n mtu connecting fd2 = record {
        peer = p;
        only = ap (λ m. set (m.peers) 0 p) same.same_peers ∙ ap (λ ps. set ps 0 p) u.only;
        state_is = refl;
        numbers = u.numbers;
        reaches = ap (λ m. field_of (m.local_addr) u.peer.addr) same.same_peers ∙ u.reaches;
        queue = same.same_i_queue ∙ u.queue;
        heard = ap reads same.same_calls ∙ u.heard;
        listening = same.same_read_cb ∙ u.listening;
      } in
      subst (Returns (λ fd'. Unconnected addr n mtu connecting fd' × Waiting fd' addr sabm_control))
        (sym (idle_check now fd u.peer u.only u.state_is))
        (rw (asks, due, check_idle, field-addressed addr fd u.peer u.only u.reaches)
          (returns {a = fd2} (asking, put_u-Waiting fd addr sabm_control size empty)))
