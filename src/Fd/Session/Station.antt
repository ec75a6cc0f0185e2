-- ===== src/Fd/Session/Station.antt =====
-- What a direction of a connection needs to know of a handle of src/proto/fd/protocol.rs with one peer.
use tinyproto_rust.Base.{
  ℕ, true, some, List, [], ◌∷◌, Bytes, get_elem?, set, ◌==◌, ==_iff, ◌≡◌, refl, sym, ap, ◌∙◌, inl,
  inr, Bool-cases, if◌then◌else◌,
}
use tinyproto_rust.Fd.IQueueControl.{IQueueControl}
use tinyproto_rust.Fd.FrameQueue.{FrameQueue}
use tinyproto_rust.Fd.Peers.{
  PeerInfo, is_primary_address, without_cr, peer_to_address_field, find_address,
  address_field_to_peer,
}
use tinyproto_rust.Fd.Protocol.Defs.{TinyFd, is_connected, peer_at, set_peer}
use tinyproto_rust.Fd.Protocol.Outcome.{Same}
use tinyproto_rust.Fd.Session.{reads}

-- The address field of the frames between a station and its peer, by the station's address and the peer's.
abbrev pub field_of : ℕ → ℕ → ℕ
field_of local remote = if is_primary_address local then without_cr remote else without_cr local

-- The handle has one peer, which is connected; `c` are the numbers, `q` is the queue, and `given` was handed to the
-- reader.
pub record Station (addr : ℕ) (c : IQueueControl) (q : FrameQueue) (given : List Bytes)
    (fd : TinyFd) : Type 0 where
  pub peer : PeerInfo
  pub only : fd.peer_mgr.peers ≡ peer ∷ []
  pub up : is_connected peer.state ≡ true
  pub reaches : field_of fd.peer_mgr.local_addr peer.addr ≡ addr
  pub control : peer.i_queue_control ≡ c
  pub queue : fd.frames.i_queue ≡ q
  pub heard : reads fd.calls ≡ given
  pub listening : fd.on_read_cb ≡ true

-- The address field of the only peer, and the way back.
module _ (addr : ℕ) (fd : TinyFd) (p : PeerInfo) (only : fd.peer_mgr.peers ≡ p ∷ [])
    (reaches : field_of fd.peer_mgr.local_addr p.addr ≡ addr) where
  pub field-addressed : peer_to_address_field fd.peer_mgr 0 ≡ some addr
  unfolding peer_to_address_field
  field-addressed = elim (Bool-cases (is_primary_address fd.peer_mgr.local_addr)) [
    | inl e ↦ rw (e, peer_to_address_field, only) (ap (λ (a : ℕ). some a) (rw e at reaches))
    | inr e ↦ rw (e, peer_to_address_field) (ap (λ (a : ℕ). some a) (rw e at reaches))
  ]

  pub field-found : without_cr addr ≡ addr → address_field_to_peer fd.peer_mgr addr ≡ 0
  unfolding address_field_to_peer find_address
  field-found e =
      let m = fd.peer_mgr in
      elim (Bool-cases (is_primary_address m.local_addr)) [
        | inl primary ↦
            let here : (without_cr p.addr == without_cr addr) ≡ true =
              (==_iff _ _).1 (rw primary at reaches ∙ sym e) in
            rw (primary, address_field_to_peer, only, here) refl
        | inr secondary ↦
            let here : (without_cr addr == without_cr m.local_addr) ≡ true =
              (==_iff _ _).1 (e ∙ sym (rw secondary at reaches)) in
            rw (secondary, address_field_to_peer, here) refl
      ]

module _ (addr : ℕ) (c : IQueueControl) (q : FrameQueue) (given : List Bytes) (fd : TinyFd)
    (v : Station addr c q given fd) where
  pub known : peer_at fd 0 ≡ some v.peer
  known = ap (λ ps. get_elem? ps 0) v.only

  pub addressed : peer_to_address_field fd.peer_mgr 0 ≡ some addr
  addressed = field-addressed addr fd v.peer v.only v.reaches

  -- The parts that matter are the same.
  pub Station-parts :
      (fd' : TinyFd)
      → fd'.peer_mgr ≡ fd.peer_mgr
      → fd'.frames.i_queue ≡ fd.frames.i_queue
      → fd'.calls ≡ fd.calls
      → fd'.on_read_cb ≡ fd.on_read_cb
      → Station addr c q given fd'
  Station-parts fd' e e' e'' e''' = record {
    peer = v.peer;
    only = ap (λ m. m.peers) e ∙ v.only;
    up = v.up;
    reaches = ap (λ m. field_of (m.local_addr) v.peer.addr) e ∙ v.reaches;
    control = v.control;
    queue = e' ∙ v.queue;
    heard = ap reads e'' ∙ v.heard;
    listening = e''' ∙ v.listening;
  }

  pub Station-Same : (fd' : TinyFd) → Same fd fd' → Station addr c q given fd'
  Station-Same fd' same =
      Station-parts fd' same.same_peers same.same_i_queue same.same_calls same.same_read_cb

  -- The peer is written over, with its state and its address as they were.
  pub Station-moved :
      (p : PeerInfo) (c' : IQueueControl) (q' : FrameQueue) (given' : List Bytes) (fd' : TinyFd)
      → fd'.peer_mgr ≡ (set_peer fd 0 p).peer_mgr
      → (p.state ≡ v.peer.state) × (p.addr ≡ v.peer.addr) × (p.i_queue_control ≡ c')
      → fd'.frames.i_queue ≡ q'
      → reads fd'.calls ≡ given'
      → fd'.on_read_cb ≡ fd.on_read_cb
      → Station addr c' q' given' fd'
  Station-moved p c' q' given' fd' m (e, e', e'') queued calls cb = record {
    peer = p;
    only = ap (λ m. m.peers) m ∙ ap (λ ps. set ps 0 p) v.only;
    up = ap is_connected e ∙ v.up;
    reaches =
        ap (λ m. field_of (m.local_addr) p.addr) m
        ∙ ap (λ a. field_of fd.peer_mgr.local_addr a) e'
        ∙ v.reaches;
    control = e'';
    queue = queued;
    heard = calls;
    listening = cb ∙ v.listening;
  }

  pub found : without_cr addr ≡ addr → address_field_to_peer fd.peer_mgr addr ≡ 0
  found = field-found addr fd v.peer v.only v.reaches
