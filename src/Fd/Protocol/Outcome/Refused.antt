-- ===== src/Fd/Protocol/Outcome/Refused.antt =====
-- A packet that `send_packet` of src/proto/fd/protocol.rs refuses leaves no trace.
use tinyproto_rust.Base.{
  ℕ, ◌≤◌, ◌<◌, true, false, not, Option, none, some, Bytes, length, ltb, ◌==◌, ◌≡◌, refl, arith,
  inl, inr, ◌⊎◌, if-both, ◌>>=◌, Bool-cases, Whenever, Whenever-bind,
}
use mathlib.Core.Path.{subst}
use tinyproto_rust.Error.{TinyError, busy, data_too_large, unknown_peer, timeout, ok, err}
use tinyproto_rust.Fd.Defines.{hdlc_invalid_peer_index, fd_event_queue_has_free_slots}
use tinyproto_rust.Fd.IQueueControl.{tx_full}
use tinyproto_rust.Fd.FrameQueue.{FrameQueue, has_free_slots, allocate}
use tinyproto_rust.Fd.Frames.{FrameHeader, i_frame}
use tinyproto_rust.Fd.Peers.{PeerInfo}
use tinyproto_rust.Fd.Protocol.Events as Events
use tinyproto_rust.Fd.Protocol.Defs.{TinyFd, peer_at}
use tinyproto_rust.Fd.Protocol.Send.{
  Answer, queued_i, put_i_frame_of, put_i_frame, resolve_peer, announce, send_to, send_packet,
}

-- The peer that a packet is for, in a handle that waits for no slot.
abbrev pub Reaches : TinyFd → ℕ → PeerInfo → Type 0
Reaches fd address p =
    ((resolve_peer fd address == hdlc_invalid_peer_index) ≡ false)
    × (peer_at fd (resolve_peer fd address) ≡ some p)
    × ((Events.wait fd.events fd_event_queue_has_free_slots == 0) ≡ false)

-- No slot is found for the frame that the packet becomes.
abbrev pub NoSlot : TinyFd → Bytes → Type 0
NoSlot fd payload =
    (header : FrameHeader) × (q : FrameQueue) × (allocate fd.frames.i_queue i_frame header payload
      ≡ (q, none))

-- The errors of `send_packet`: the reasons for a refusal, of which each excludes the others.
abbrev pub Reason : TinyFd → ℕ → Bytes → TinyError → Type 0
Reason fd address payload data_too_large = fd.mtu < length payload
Reason fd address payload unknown_peer =
    (length payload ≤ fd.mtu) × ((resolve_peer fd address == hdlc_invalid_peer_index) ≡ true)
Reason fd address payload timeout =
    (length payload ≤ fd.mtu)
    × ((resolve_peer fd address == hdlc_invalid_peer_index) ≡ false)
    × (Events.wait fd.events fd_event_queue_has_free_slots ≡ 0)
Reason fd address payload busy =
    (length payload ≤ fd.mtu)
    × ((p : PeerInfo) × Reaches fd address p
        × ((tx_full p.i_queue_control ≡ true) ⊎ NoSlot fd payload))
Reason fd address payload e = ⊥

-- An answer that is an error comes with the handle as it was, and for a reason.
abbrev Fair : TinyFd → ℕ → Bytes → Answer → Type 0
Fair fd address payload (fd', err e) = (fd' ≡ fd) × Reason fd address payload e
Fair fd address payload (fd', ok u) = length payload ≤ fd.mtu

module _ (fd : TinyFd) (address : ℕ) (payload : Bytes) (fits : length payload ≤ fd.mtu)
    (known : (resolve_peer fd address == hdlc_invalid_peer_index) ≡ false)
    (free : (Events.wait fd.events fd_event_queue_has_free_slots == 0) ≡ false) where
  abbrev W : Option Answer → Type 0
  W = Whenever (Fair fd address payload)

  queued_i-Fair :
      (p : PeerInfo)
      → peer_at fd (resolve_peer fd address) ≡ some p
      → (header : FrameHeader) (r : FrameQueue × Option ℕ)
      → allocate fd.frames.i_queue i_frame header payload ≡ r
      → Fair fd address payload (queued_i fd (resolve_peer fd address) p r)
  queued_i-Fair p e header (q, some i) ran = fits
  queued_i-Fair p e header (q, none) ran =
      (refl, (fits, (p, (known, e, free), inr (header, q, ran))))

  put_i_frame_of-Fair :
      (addr : ℕ) (p : PeerInfo)
      → peer_at fd (resolve_peer fd address) ≡ some p
      → Fair fd address payload (put_i_frame_of fd (resolve_peer fd address) addr payload p)
  put_i_frame_of-Fair addr p e = elim (Bool-cases (tx_full p.i_queue_control)) [
    | inl full ↦ rw (full, put_i_frame_of) (refl, (fits, (p, (known, e, free), inl full)))
    | inr room ↦ rw (room, put_i_frame_of) (queued_i-Fair p e _ _ refl)
  ]

  at_peer :
      (addr : ℕ) (o : Option PeerInfo)
      → peer_at fd (resolve_peer fd address) ≡ o
      → W (o >>= λ p. some (put_i_frame_of fd (resolve_peer fd address) addr payload p))
  at_peer addr none e = tt
  at_peer addr (some p) e = put_i_frame_of-Fair addr p e

  put_i_frame-Fair : (addr : ℕ) → W (put_i_frame fd (resolve_peer fd address) addr payload)
  unfolding put_i_frame
  put_i_frame-Fair addr = at_peer addr (peer_at fd (resolve_peer fd address)) refl

  announce-Fair : (r : Answer) → Fair fd address payload r → Fair fd address payload (announce r)
  announce-Fair (fd', err e) h = h
  announce-Fair (fd', ok u) h =
      if-both (Fair fd address payload) (not (has_free_slots fd'.frames.i_queue)) h h

  announced-Fair : (o : Option Answer) → W o → W (o >>= λ r. some (announce r))
  announced-Fair none h = tt
  announced-Fair (some r) h = announce-Fair r h

  send_to-Fair : W (send_to fd (resolve_peer fd address) payload)
  send_to-Fair =
      Whenever-bind (Fair fd address payload) _ _ (λ addr. announced-Fair _ (put_i_frame-Fair addr))

send_packet-Fair :
    (fd : TinyFd) (address : ℕ) (payload : Bytes)
    → Whenever (Fair fd address payload) (send_packet fd address payload)
unfolding send_packet
send_packet-Fair fd address payload = elim (Bool-cases (ltb fd.mtu (length payload))) [
  | inl e ↦ rw (e, send_packet) (refl, ground arith)
  | inr e ↦
      let fits : length payload ≤ fd.mtu = ground arith in
      elim (Bool-cases (resolve_peer fd address == hdlc_invalid_peer_index)) [
        | inl none_such ↦ rw (e, send_packet, none_such) (refl, (fits, none_such))
        | inr known ↦ elim (Bool-cases (Events.wait fd.events fd_event_queue_has_free_slots == 0)) [
          | inl z ↦ rw (e, send_packet, known, z) (refl, (fits, known, ground arith))
          | inr z ↦ rw (e, send_packet, known, z) (send_to-Fair fd address payload fits known z)
        ]
      ]
]

-- When `send_packet` refuses a packet with an error, the handle is the one it had before, nothing half done, and the error tells the reason: `DataTooLarge` comes
-- only for a packet longer than the MTU; `UnknownPeer` only for one that fits, with an address that means no peer; `Timeout` only for one that fits, with an
-- address that means a peer, when the event that a slot is free is not set; `Busy` only for one that fits, with such an address and the event set, when the window
-- of that peer is full or no slot is found for the frame. No other error is returned.
pub send_packet-refused :
    (fd fd' : TinyFd) (address : ℕ) (payload : Bytes) (e : TinyError)
    → send_packet fd address payload ≡ some (fd', err e)
    → (fd' ≡ fd) × Reason fd address payload e
send_packet-refused fd fd' address payload e returned =
    subst (Whenever (Fair fd address payload)) returned (send_packet-Fair fd address payload)
