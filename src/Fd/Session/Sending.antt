-- ===== src/Fd/Session/Sending.antt =====
-- What `send_packet` and the turn of the I-frames of src/proto/fd/protocol.rs do for a direction of a connection.
use tinyproto_rust.Base.{
  ℕ, true, false, not, Option, none, some, List, ◌∷◌, Bytes, length, ltb, ◌==◌, ◌>>=◌, ◌≡◌, refl,
  inl, inr, Bool-cases, if-both, Whenever,
}
use mathlib.Core.Path.{subst}
use tinyproto_rust.Error.{ok, err}
use tinyproto_rust.Hdlc.Ll.Defs.{put_frame}
use tinyproto_rust.Fd.Defines.{fd_event_queue_has_free_slots, fd_event_tx_data_available}
use tinyproto_rust.Fd.Frames.{i_frame, FrameInfo, FrameHeader, to_bytes}
use tinyproto_rust.Fd.IQueueControl.{
  IQueueControl, tx_full, all_frames_are_sent, move_to_next_ns, advance_next_ns,
}
use tinyproto_rust.Fd.FrameQueue.{FrameQueue, allocate, has_free_slots, get_next}
use tinyproto_rust.Fd.Protocol.Events as Events
use tinyproto_rust.Fd.Protocol.Defs.{TinyFd, set_events}
use tinyproto_rust.Fd.Protocol.Send.{
  Answer, i_control, queued_i, put_i_frame_of, put_i_frame, announce, send_to, send_packet,
}
use tinyproto_rust.Fd.Protocol.Transmit.{Round, sent_peer, hand_i, send_i_of}
use tinyproto_rust.Fd.Session.Station.{Station, known, addressed, Station-parts, Station-moved}

-- The header under which a payload is queued.
abbrev pub header_for : ℕ → IQueueControl → FrameHeader
header_for addr c = record {
  address = addr;
  control = i_control c.tx_state.last_ns c.rx_state.next_nr;
}

-- A payload was accepted: the window had room and a slot was free.
pub record Accepted (addr : ℕ) (c : IQueueControl) (q : FrameQueue) (given : List Bytes)
    (payload : Bytes) (fd' : TinyFd) : Type 0 where
  pub room : tx_full c ≡ false
  pub queue' : FrameQueue
  pub idx : ℕ
  pub stored : allocate q i_frame (header_for addr c) payload ≡ (queue', some idx)
  pub after : Station addr (move_to_next_ns c) queue' given fd'

-- A frame was handed to the framer: there was one to send, and the queue had it.
pub record Handed (addr : ℕ) (c : IQueueControl) (q : FrameQueue) (given : List Bytes)
    (fd' : TinyFd) : Type 0 where
  pub unsent : all_frames_are_sent c ≡ false
  pub idx : ℕ
  pub frame : FrameInfo
  pub queued : get_next q i_frame addr c.tx_state.next_ns ≡ some (idx, frame)
  pub bytes :
      fd'.hdlc.tx_data
      ≡ some
          (frame.header.address ∷ i_control c.tx_state.next_ns c.rx_state.next_nr ∷ frame.payload)
  pub after : Station addr (advance_next_ns c) q given fd'

module _ (addr : ℕ) (c : IQueueControl) (q : FrameQueue) (given : List Bytes) (fd : TinyFd)
    (v : Station addr c q given fd) where
  abbrev own : IQueueControl
  own = v.peer.i_queue_control

  abbrev Took : Bytes → Answer → Type 0
  Took payload (fd', err e) = Unit
  Took payload (fd', ok u) = Accepted addr own fd.frames.i_queue given payload fd'

  queued_i-Took :
      (payload : Bytes) (r : FrameQueue × Option ℕ)
      → tx_full own ≡ false
      → allocate fd.frames.i_queue i_frame (header_for addr own) payload ≡ r
      → Took payload (queued_i fd 0 v.peer r)
  queued_i-Took payload (q', none) full e = tt
  queued_i-Took payload (q', some i) full e = record {
    room = full;
    queue' = q';
    idx = i;
    stored = e;
    after =
        Station-moved addr c q given fd v
          (record (v.peer) { i_queue_control = move_to_next_ns own }) (move_to_next_ns own) q' given
          _ refl (refl, refl, refl) refl v.heard refl;
  }

  put_i_frame_of-Took : (payload : Bytes) → Took payload (put_i_frame_of fd 0 addr payload v.peer)
  put_i_frame_of-Took payload = elim (Bool-cases (tx_full own)) [
    | inl e ↦ rw (e, put_i_frame_of) tt
    | inr e ↦ rw (e, put_i_frame_of) (queued_i-Took payload _ e refl)
  ]

  announce-Took : (payload : Bytes) (r : Answer) → Took payload r → Took payload (announce r)
  announce-Took payload (fd', err e) t = tt
  announce-Took payload (fd', ok u) t =
      let fd1 = set_events fd' fd_event_tx_data_available in
      let fd2 : TinyFd = record fd1 {
        events = Events.clear fd1.events fd_event_queue_has_free_slots;
      } in
      let same : (fd'' : TinyFd)
          → Station addr (move_to_next_ns own) t.queue' given fd''
          → Accepted addr own fd.frames.i_queue given payload fd'' =
        λ fd'' after. record {
          room = t.room;
          queue' = t.queue';
          idx = t.idx;
          stored = t.stored;
          after = after;
        } in
      let keep : (fd'' : TinyFd)
          → fd''.peer_mgr ≡ fd'.peer_mgr
          → fd''.frames.i_queue ≡ fd'.frames.i_queue
          → fd''.calls ≡ fd'.calls
          → fd''.on_read_cb ≡ fd'.on_read_cb
          → Accepted addr own fd.frames.i_queue given payload fd'' =
        λ fd'' a b d e.
          same fd''
            (Station-parts addr (move_to_next_ns own) t.queue' given fd' t.after fd'' a b d e) in
      if-both (Took payload) {x = (fd2, ok tt)} {y = (fd1, ok tt)}
        (not (has_free_slots fd1.frames.i_queue)) (keep fd2 refl refl refl refl)
        (keep fd1 refl refl refl refl)

  announced-Took :
      (payload : Bytes) (o : Option Answer)
      → Whenever (Took payload) o
      → Whenever (Took payload) (o >>= λ r. some (announce r))
  announced-Took payload none t = tt
  announced-Took payload (some r) t = announce-Took payload r t

  send_to-Took : (payload : Bytes) → Whenever (Took payload) (send_to fd 0 payload)
  unfolding put_i_frame
  send_to-Took payload =
      rw (addressed addr c q given fd v, known addr c q given fd v)
        (announced-Took payload (some (put_i_frame_of fd 0 addr payload v.peer))
          (put_i_frame_of-Took payload))

  some_peer : (length fd.peer_mgr.peers == 0) ≡ false
  some_peer = rw (v.only) refl

  send_packet-Took : (payload : Bytes) → Whenever (Took payload) (send_packet fd 0 payload)
  unfolding send_packet
  send_packet-Took payload = elim (Bool-cases (ltb fd.mtu (length payload))) [
    | inl e ↦ rw (e, send_packet) tt
    | inr e ↦ elim (Bool-cases (Events.wait fd.events fd_event_queue_has_free_slots == 0)) [
      | inl z ↦ rw (e, send_packet, some_peer, z) tt
      | inr z ↦ rw (e, send_packet, some_peer, z) (send_to-Took payload)
    ]
  ]

  -- A payload that `send_packet` takes in.
  pub send_packet-Accepted :
      (payload : Bytes) (fd' : TinyFd)
      → send_packet fd 0 payload ≡ some (fd', ok tt)
      → Accepted addr c q given payload fd'
  send_packet-Accepted payload fd' e =
      subst (λ c. Accepted addr c q given payload fd') v.control
        (subst (λ q. Accepted addr own q given payload fd') v.queue
          (subst (Whenever (Took payload)) e (send_packet-Took payload)))

  abbrev Gave : Round → Type 0
  Gave (fd', false) = Unit
  Gave (fd', true) = Handed addr own fd.frames.i_queue given fd'

  hand_i-Gave :
      (now : ℕ) (o : Option (ℕ × FrameInfo)) (data' : Option Bytes)
      → all_frames_are_sent own ≡ false
      → get_next fd.frames.i_queue i_frame addr own.tx_state.next_ns ≡ o
      → fd.hdlc.tx_data ≡ data'
      → Gave (hand_i now fd 0 v.peer o)
  unfolding put_frame to_bytes
  hand_i-Gave now none data' unsent e h = tt
  hand_i-Gave now (some (idx, f)) (some b) unsent e busy = rw (busy, put_frame) tt
  hand_i-Gave now (some (idx, f)) none unsent e idle =
      rw (idle, put_frame)
        (record {
          unsent = unsent;
          idx = idx;
          frame = f;
          queued = e;
          bytes = refl;
          after =
              Station-moved addr c q given fd v (sent_peer now fd v.peer) (advance_next_ns own)
                fd.frames.i_queue given _ refl (refl, refl, refl) refl v.heard refl;
        })

  send_i_of-Gave : (now : ℕ) → Whenever Gave (send_i_of now fd 0)
  unfolding send_i_of
  send_i_of-Gave now = elim (Bool-cases (all_frames_are_sent own)) [
    | inl e ↦ rw (known addr c q given fd v, v.up, e) tt
    | inr e ↦
        rw (known addr c q given fd v, v.up, e, addressed addr c q given fd v)
          (hand_i-Gave now _ _ e refl refl)
  ]

  -- A frame that the turn of the I-frames hands over.
  pub send_i_of-Handed :
      (now : ℕ) (fd' : TinyFd) → send_i_of now fd 0 ≡ some (fd', true) → Handed addr c q given fd'
  send_i_of-Handed now fd' e =
      subst (λ c. Handed addr c q given fd') v.control
        (subst (λ q. Handed addr own q given fd') v.queue
          (subst (Whenever Gave) e (send_i_of-Gave now)))
