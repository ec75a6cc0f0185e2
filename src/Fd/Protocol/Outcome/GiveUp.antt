-- ===== src/Fd/Protocol/Outcome/GiveUp.antt =====
-- A request to connect that nobody answers (`check_timeouts` of src/proto/fd/protocol.rs) is given up.
use tinyproto_rust.Base.{
  ℕ, zero, suc, ◌+◌, ◌-◌, ◌≤◌, true, false, Option, none, some, List, [], ◌∷◌, length, set, ◌==◌,
  ◌≡◌, refl, sym, ap, ◌∙◌, arith, Returns, returns, Returns-bind, ◌>>=◌, Bool-cases, inl, inr,
}
use mathlib.Core.Path.{subst}
use tinyproto_rust.Fd.Defines.{FdState, connecting, disconnected}
use tinyproto_rust.Fd.Frames.{u_frame}
use tinyproto_rust.Fd.FrameQueue.{FrameQueue, allocate}
use tinyproto_rust.Fd.Peers.{PeerManager, PeerInfo, is_primary_station, peer_to_address_field}
use tinyproto_rust.Fd.Protocol.Defs.{TinyFd, set_peer}
use tinyproto_rust.Fd.Protocol.Send.{queued_s, put_u_s_frame}
use tinyproto_rust.Fd.Protocol.Handlers.{put_u}
use tinyproto_rust.Fd.Protocol.Timers.{
  is_over, sabm_control, request, check_connecting, check_peer, check_from, check_timeouts,
}
use tinyproto_rust.Fd.Protocol.Outcome.{put_u-Same}

-- `check_timeouts` at one instant after the other, while nothing arrives.
abbrev pub checks : List ℕ → TinyFd → Option TinyFd
checks [] fd = some fd
checks (now ∷ later) fd = do fd' ← check_timeouts now fd; checks later fd'

-- Each instant lies at least the timeout behind the one before.
abbrev pub Spaced : ℕ → ℕ → List ℕ → Type 0
Spaced timeout last [] = Unit
Spaced timeout last (now ∷ later) = (last + timeout ≤ now) × Spaced timeout now later

-- The only peer is in a state.
abbrev pub OnlyPeerIn : FdState → TinyFd → Type 0
OnlyPeerIn s fd = (p : PeerInfo) × (fd.peer_mgr.peers ≡ p ∷ []) × (p.state ≡ s)

abbrev stored : FrameQueue → FrameQueue × Option ℕ → FrameQueue
stored q (q', some i) = q'
stored q (q', none) = q

-- The queue once `n` requests to connect were put into it; one that finds no free slot is dropped.
abbrev pub requests : ℕ → ℕ → FrameQueue → FrameQueue
requests zero addr q = q
requests (suc n) addr q =
    requests n addr (stored q (allocate q u_frame (record { address = addr; control = 0x3F }) []))

-- The only peer is disconnected, and `n` requests were put into the queue.
abbrev pub GivenUp : ℕ → ℕ → FrameQueue → TinyFd → Type 0
GivenUp n addr q fd = OnlyPeerIn disconnected fd × (fd.frames.s_queue ≡ requests n addr q)

put_u-requests :
    (fd : TinyFd) (addr : ℕ)
    → (put_u fd addr sabm_control).frames.s_queue ≡ requests 1 addr fd.frames.s_queue
unfolding put_u_s_frame
put_u-requests fd addr =
    by_result
      (allocate fd.frames.s_queue u_frame (record { address = addr; control = sabm_control }) [])
  where
    by_result :
        (r : FrameQueue × Option ℕ) → (queued_s fd r).0.frames.s_queue ≡ stored fd.frames.s_queue r
    by_result (q, some i) = refl
    by_result (q, none) = refl

same_field :
    (m : PeerManager) (p p' : PeerInfo)
    → m.peers ≡ p ∷ []
    → p'.addr ≡ p.addr
    → peer_to_address_field (record m { peers = set m.peers 0 p' }) 0 ≡ peer_to_address_field m 0
unfolding peer_to_address_field
same_field m p p' e same = elim (Bool-cases (is_primary_station m)) [
  | inl b ↦ rw (b, e, same) refl
  | inr b ↦ rw b refl
]

one_check :
    (now : ℕ) (fd : TinyFd) (p : PeerInfo)
    → fd.peer_mgr.peers ≡ p ∷ []
    → p.state ≡ connecting
    → check_timeouts now fd ≡ (check_connecting now fd 0 p >>= some)
unfolding check_timeouts check_from check_peer
one_check now fd p e s = rw (e, check_from, s) refl

-- The handle after a further request.
abbrev again : ℕ → TinyFd → ℕ → PeerInfo → TinyFd
again now fd addr p =
    set_peer (put_u fd addr sabm_control) 0
      (record p { retries = p.retries - 1; last_sent_frame_ts = now })

module _ (now : ℕ) (fd : TinyFd) (p : PeerInfo) (e : fd.peer_mgr.peers ≡ p ∷ [])
    (s : p.state ≡ connecting) (due : p.last_sent_frame_ts + fd.retry_timeout ≤ now) where
  over : is_over now fd p.last_sent_frame_ts ≡ true
  over = ground arith

  last_check :
      (addr : ℕ)
      → p.retries ≡ 0
      → Returns (GivenUp 0 addr fd.frames.s_queue) (check_timeouts now fd)
  last_check addr none_left =
      let test : (p.retries == 0) ≡ true = ground arith in
      rw (one_check now fd p e s, over, test, check_connecting)
        (returns {P = GivenUp 0 addr fd.frames.s_queue}
          {a = set_peer fd 0 (record p { state = disconnected })}
          (
            (
              record p { state = disconnected },
              ap (λ ps. set ps 0 (record p { state = disconnected })) e,
              refl,
            ),
            refl,
          ))

  next_check :
      (r addr : ℕ)
      → p.retries ≡ suc r
      → peer_to_address_field fd.peer_mgr 0 ≡ some addr
      → check_timeouts now fd ≡ some (again now fd addr p)
  next_check r addr more known =
      let test : (p.retries == 0) ≡ false = ground arith in
      one_check now fd p e s ∙ rw (over, test, check_connecting, request, known) refl

-- While nothing arrives from the only peer, which is known by the address field `addr` and to which a request to connect is under way
-- with `r` retries left: at `r + 1` checks of the timeouts, each at least the timeout behind the request or the check before, the SABM is put
-- into the queue of the S-frames `r` times, as far as there are free slots, nothing else is put there, and then the request is
-- given up. The peer is disconnected.
pub checks-disconnected :
    (r addr : ℕ) (times : List ℕ) (fd : TinyFd) (p : PeerInfo)
    → peer_to_address_field fd.peer_mgr 0 ≡ some addr
    → fd.peer_mgr.peers ≡ p ∷ []
    → p.state ≡ connecting
    → p.retries ≡ r
    → length times ≡ suc r
    → Spaced fd.retry_timeout p.last_sent_frame_ts times
    → Returns (GivenUp r addr fd.frames.s_queue) (checks times fd)
checks-disconnected r addr [] fd p known e s left many spaced = absurd (omega arith)
checks-disconnected zero addr (now ∷ []) fd p known e s left many (due, spaced) =
    Returns-bind (last_check now fd p e s due addr left) (λ fd' given_up. returns given_up)
checks-disconnected zero addr (now ∷ t ∷ times) fd p known e s left many spaced =
    absurd (omega arith)
checks-disconnected (suc r) addr (now ∷ times) fd p known e s left many (due, spaced) =
    let fd' = again now fd addr p in
    let p' = record p { retries = p.retries - 1; last_sent_frame_ts = now } in
    let same = put_u-Same fd addr sabm_control in
    let known' : peer_to_address_field fd'.peer_mgr 0 ≡ some addr =
      ap (λ m. peer_to_address_field (record m { peers = set (m.peers) 0 p' }) 0) (same.same_peers)
      ∙ same_field fd.peer_mgr p p' e refl
      ∙ known in
    rw (next_check now fd p e s due r addr left known, checks)
      (subst (λ q. Returns (GivenUp r addr q) (checks times fd')) (put_u-requests fd addr)
        (checks-disconnected r addr times fd' p' known'
          (ap (λ m. set (m.peers) 0 p') (same.same_peers) ∙ ap (λ ps. set ps 0 p') e) s
          (omega (arith, left)) (omega arith)
          (subst (λ timeout. Spaced timeout now times) (sym (same.same_timeout)) spaced)))
