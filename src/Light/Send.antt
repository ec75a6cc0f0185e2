-- ===== src/Light/Send.antt =====
-- `send` of src/proto/light.rs on a channel that takes every byte, and a clock that stands still.
use tinyproto_rust.Base.{
  ℕ, zero, suc, ◌+◌, ◌≤◌, ◌<◌, false, none, some, [], ◌∷◌, ◌++◌, append-nil, append_assoc, ◌≡◌,
  refl, sym, ap, ◌∙◌, arith, Bytes, IsBytes, length, take, drop, leb,
}
use tinyproto_rust.Base.Int.{ℤ, pos}
use tinyproto_rust.Crc.{get_crc_field_size}
use tinyproto_rust.Error.{ok}
use tinyproto_rust.Hdlc.Ll.Defs.{TxState, get_tx_sent_frame}
use tinyproto_rust.Hdlc.Ll.Tx.{run_tx}
use tinyproto_rust.Hdlc.Ll.Tx.Pending.{pending, TxOk}
use tinyproto_rust.Hdlc.Ll.Tx.Stream.{run_tx-stream}
use tinyproto_rust.Hdlc.Ll.Rx.Frame.{Ready, wire}
use tinyproto_rust.Hdlc.Ll.Link.{put_frame-pending}
use tinyproto_rust.Light.{Light, write_loop, send_loop, send_queued, send, read}
use tinyproto_rust.Light.Read.{deliver, no_time, read-wire}

-- The bytes written so far are the channel's state.
abbrev pub accept : Bytes → Bytes → ℤ × Bytes
accept written buf = (pos (length buf), written ++ buf)

write_loop-accept :
    (fuel timeout_ms x : ℕ) (s : Bytes)
    → 0 < timeout_ms
    → write_loop accept no_time (suc fuel) timeout_ms (x ∷ []) 1 s ≡ some (s ++ x ∷ [], none)
unfolding write_loop
write_loop-accept fuel timeout_ms x s h =
    let running : leb timeout_ms 0 ≡ false = ground arith in rw (running, write_loop) refl

abbrev Sends : ℕ → ℕ → Light → Bytes → Bytes → Type 0
Sends fuel len l s out =
    (l' : Light) × (send_loop accept no_time fuel len l s ≡ some (s ++ out, l', ok len))

send_loop-accept :
    (out : Bytes) (fuel len : ℕ) (l : Light) (s : Bytes)
    → TxOk l.ll
    → pending l.ll ≡ out
    → 0 < l.timeout_ms
    → length out + 1 < fuel
    → Sends fuel len l s out
unfolding send_loop
send_loop-accept out zero len l s sane left lt enough = absurd (omega arith)
send_loop-accept [] (suc fuel) len l s sane left lt enough =
    let (ll', ran, gone, sane', kept) = run_tx-stream l.ll 1 sane in
    let nothing : run_tx l.ll 1 ≡ some ([], ll') = ran ∙ ap (λ t. some (take 1 t, ll')) left in
    (record l { ll = (get_tx_sent_frame ll').1 }, rw (nothing, send_loop, append-nil s) refl)
send_loop-accept (x ∷ xs) (suc zero) len l s sane left lt enough = absurd (omega arith)
send_loop-accept (x ∷ xs) (suc (suc fuel)) len l s sane left lt enough =
    let (ll', ran, gone, sane', kept) = run_tx-stream l.ll 1 sane in
    let one : run_tx l.ll 1 ≡ some (x ∷ [], ll') = ran ∙ ap (λ t. some (take 1 t, ll')) left in
    let (l2, eq) =
      send_loop-accept xs (suc fuel) len (record l { ll = ll' }) (s ++ x ∷ []) sane'
        (gone ∙ ap (drop 1) left) lt (omega arith) in
    (
      l2,
      rw (one, send_loop, write_loop-accept fuel l.timeout_ms x s lt) eq
          ∙ ap (λ t. some (t, l2, ok len)) (append_assoc s (x ∷ []) xs),
    )

-- A frame put into an idle framer is written whole, and `send` reports the length of its payload.
send-wire :
    (l : Light) (b : ℕ) (bs s : Bytes) (fuel : ℕ)
    → l.ll.tx_state ≡ TxState.start_phase
    → l.ll.tx_data ≡ none
    → 0 < l.timeout_ms
    → length (wire l.ll.crc_type (b ∷ bs)) + 1 < fuel
    → (l' : Light) × (send accept no_time fuel l (b ∷ bs) s
        ≡ some (s ++ wire l.ll.crc_type (b ∷ bs), l', ok (length (b ∷ bs))))
unfolding send
send-wire l b bs s fuel start idle lt enough =
    let (queued, put, whole, sane, kept) = put_frame-pending l.ll b bs start idle in
    let (l', eq) =
      send_loop-accept (wire l.ll.crc_type (b ∷ bs)) fuel (length (b ∷ bs))
        (record l { ll = queued }) s sane whole lt enough in
    (l', ap (send_queued accept no_time fuel l (b ∷ bs) s) put ∙ eq)

-- Over a channel that takes and delivers every byte, and with no time passing, what `send` writes for a payload that is not
-- empty is read by `read`: with enough rounds both end, `send` returns the payload's length, and
-- `read` the payload, if the sender is idle and the reader is ready, holds no earlier frame, has the same CRC type and
-- is large enough.
pub send-read :
    (tx rx : Light) (b : ℕ) (bs : Bytes) (fuel fuel' : ℕ)
    → tx.ll.tx_state ≡ TxState.start_phase
    → tx.ll.tx_data ≡ none
    → Ready rx.ll
    → rx.ll.rx_frames ≡ []
    → rx.ll.crc_type ≡ tx.ll.crc_type
    → 0 < tx.timeout_ms
    → 0 < rx.timeout_ms
    → IsBytes (b ∷ bs)
    → length (b ∷ bs) + get_crc_field_size rx.ll.crc_type ≤ rx.ll.phys_mtu
    → length (wire tx.ll.crc_type (b ∷ bs)) + 1 < fuel
    → length (wire rx.ll.crc_type (b ∷ bs)) ≤ fuel'
    → (out : Bytes) × (tx' : Light) × (left : Bytes) × (rx' : Light) × (send accept no_time fuel tx
          (b ∷ bs)
          []
        ≡ some (out, tx', ok (length (b ∷ bs))))
      × (read deliver no_time fuel' rx out ≡ some (left, rx', ok (b ∷ bs)))
send-read tx rx b bs fuel fuel' start idle ready no_frames same lt lt' h fits enough enough' =
    let (tx', sent) = send-wire tx b bs [] fuel start idle lt enough in
    let (left, rx', got) =
      read-wire rx (b ∷ bs) [] fuel' ready no_frames lt' h fits (omega arith) enough' in
    (
      wire tx.ll.crc_type (b ∷ bs),
      tx',
      left,
      rx',
      sent,
      ap (read deliver no_time fuel' rx) (ap (λ t. wire t (b ∷ bs)) (sym same) ∙ sym (append-nil _))
          ∙ got,
    )
