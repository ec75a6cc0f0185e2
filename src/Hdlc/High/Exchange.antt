-- ===== src/Hdlc/High/Exchange.antt =====
-- A packet from one handle of src/proto/hdlc/high_level.rs to another.
use tinyproto_rust.Base.{
  ℕ, suc, ◌+◌, ◌≤◌, bit_and, Bool, none, some, [], ◌∷◌, ◌++◌, append-nil, Bytes, IsBytes, length,
  take, drop, take_long, drop_long, ◌≡◌, refl, sym, ap, ◌∙◌, arith,
}
use mathlib.Core.Path.{subst}
use tinyproto_rust.Base.Int.{ℤ}
use tinyproto_rust.Crc.{get_crc_field_size}
use tinyproto_rust.Error.{ok}
use tinyproto_rust.Hdlc.Ll.Defs.{HdlcLl, TxState, put_frame}
use tinyproto_rust.Hdlc.Ll.Rx.Frame.{Ready, wire}
use tinyproto_rust.Hdlc.Ll.Rx.Chunks.{wires}
use tinyproto_rust.Hdlc.Ll.Tx.Pending.{queued}
use tinyproto_rust.Hdlc.Ll.Link.{idle, put_frame-pending}
use tinyproto_rust.Hdlc.High.Events as Events
use tinyproto_rust.Hdlc.High.{
  Hdlc, tx_accept_bit, tx_data_ready_bit, set_events, run_rx, get_tx_data, send,
}
use tinyproto_rust.Hdlc.High.Notify.{told, get_tx_data-told}
use tinyproto_rust.Hdlc.High.Reads.{given, run_rx-reads}

-- All of the bytes are consumed without an error, and the callback is given the packet.
abbrev pub ReadsAll : Hdlc → Bytes → Bytes → Type 0
ReadsAll b out packet =
    let (count, error, b') = run_rx b out in
    (count ≡ length out)
    × (error ≡ none)
    × (b'.calls ≡ given b.on_frame_read b.calls (packet ∷ []))
    × (b'.ll.rx_frames ≡ [])

module _ {S : Type 0} (send_fn : S → Bytes → ℤ × S) (elapsed : S → ℕ) where
  -- A packet that is queued with no time to wait.
  send-queues :
      (fuel : ℕ) (has_send_fn : Bool) (h : Hdlc) (payload : Bytes) (s : S) (bits : ℕ) (ll' : HdlcLl)
      → bit_and h.events tx_accept_bit ≡ suc bits
      → put_frame h.ll payload ≡ (ll', ok tt)
      → send send_fn elapsed fuel has_send_fn h payload 0 s
        ≡ some (
          s,
          set_events
              (record h { ll = ll'; events = Events.clear h.events tx_accept_bit })
              tx_data_ready_bit,
          ok tt,
        )
  unfolding send Events.wait
  send-queues fuel has_send_fn h payload s bits ll' accepts put = rw (accepts, put, send) refl

  -- A packet of bytes that is not empty goes from one handle to another. `send` with a timeout of 0 queues it on a handle that is idle and accepts packets,
  -- whatever its callback for the channel does; one call of `get_tx_data`, with an output that is large enough, returns its whole frame and tells the callback for sent
  -- frames, where one is set, of it; `run_rx` of a handle with the same CRC type that is ready, holds no frame and is large enough consumes all of
  -- that without an error and gives its callback, where one is set, the packet. No notice and no frame is left behind on either side.
  pub send-get_tx_data-run_rx :
      (a b : Hdlc) (x : ℕ) (xs : Bytes) (n fuel bits : ℕ) (has_send_fn : Bool) (s : S)
      → a.ll.tx_state ≡ TxState.start_phase
      → a.ll.tx_data ≡ none
      → a.ll.tx_sent_frames ≡ []
      → bit_and a.events tx_accept_bit ≡ suc bits
      → Ready b.ll
      → b.ll.rx_frames ≡ []
      → b.ll.crc_type ≡ a.ll.crc_type
      → IsBytes (x ∷ xs)
      → length (x ∷ xs) + get_crc_field_size b.ll.crc_type ≤ b.ll.phys_mtu
      → length (wire a.ll.crc_type (x ∷ xs)) ≤ n
      → (a1 a2 : Hdlc) × (out : Bytes) × (send send_fn elapsed fuel has_send_fn a (x ∷ xs) 0 s
          ≡ some (s, a1, ok tt))
        × (get_tx_data a1 n ≡ some (out, a2))
        × (a2.calls ≡ told a.on_frame_send a.calls ((x ∷ xs) ∷ []))
        × (a2.ll.tx_sent_frames ≡ [])
        × ReadsAll b out (x ∷ xs)
  send-get_tx_data-run_rx a b x xs n fuel bits has_send_fn s start empty unsent accepts ready
        nothing same bytes fits enough =
      let (ll', put, whole, sane, holds) = put_frame-pending a.ll x xs start empty in
      let out = wire a.ll.crc_type (x ∷ xs) in
      let a1 =
        set_events (record a { ll = ll'; events = Events.clear a.events tx_accept_bit })
          tx_data_ready_bit in
      let (a2, fs, ran, left, sane', all, calls, none_left) = get_tx_data-told a1 n sane in
      let done = left ∙ ap (drop n) whole ∙ drop_long n out enough in
      let sent : fs ≡ (x ∷ xs) ∷ [] =
        sym (append-nil fs)
        ∙ ap (λ o. fs ++ queued o) (sym (idle a2.ll sane' done))
        ∙ all
        ∙ holds
        ∙ ap (λ fs. fs ++ (x ∷ xs) ∷ []) unsent in
      let (count, error, reads, len, no_frames, ready') =
        run_rx-reads b ((x ∷ xs) ∷ []) ready nothing ((bytes, omega arith, fits), tt) in
      let sound : wires b.ll.crc_type ((x ∷ xs) ∷ []) ≡ out =
        append-nil _ ∙ ap (λ t. wire t (x ∷ xs)) same in
      (
        a1,
        a2,
        out,
        send-queues fuel has_send_fn a (x ∷ xs) s bits ll' accepts put,
        ran ∙ ap (λ t. some (t, a2)) (ap (take n) whole ∙ take_long n out enough),
        calls ∙ ap (told a.on_frame_send a.calls) sent,
        none_left,
        subst (λ o. ReadsAll b o (x ∷ xs)) sound (count, error, reads, no_frames),
      )
