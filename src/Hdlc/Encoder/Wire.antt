-- ===== src/Hdlc/Encoder/Wire.antt =====
-- `encode` of src/proto/hdlc/low_level.rs writes the wire format, and for a payload that is not empty the streaming framer
-- writes the same bytes.
use native.Mathlib.Nat.{div-one}
use tinyproto_rust.Base.{
  ℕ, zero, suc, ◌+◌, ◌*◌, [], ◌∷◌, ◌++◌, ◌≡◌, ◌≢◌, refl, sym, ap, ap₂, ◌∙◌, arith, append_assoc,
  append-nil, ◌≤◌, none, some, length, take, drop, take_long, drop_long, u8, ◌>>>◌, Bytes,
  Bool-cases, inl, inr,
}
use tinyproto_rust.Base.Bits.{shift-shift_byte}
use tinyproto_rust.Crc.{
  HdlcCrcT, hdlc_crc_default, hdlc_crc8, hdlc_crc16, hdlc_crc32, hdlc_crc_off, get_crc_field_size,
}
use tinyproto_rust.Hdlc.Stuffing.{flag_sequence, is_special, stuff, stuff_all, le_bytes, frame_wire}
use tinyproto_rust.Hdlc.Encoder.{
  HdlcEncoder, success, push_byte, push_bytes, push_crc, encoder_crc, encode,
}
use tinyproto_rust.Hdlc.Ll.Defs.{HdlcLl, TxState, put_frame, calculate_crc}
use tinyproto_rust.Hdlc.Ll.Tx.{run_tx}
use tinyproto_rust.Hdlc.Ll.Tx.Pending.{pending}
use tinyproto_rust.Hdlc.Ll.Tx.Stream.{run_tx-stream}
use tinyproto_rust.Hdlc.Ll.Link.{put_frame-pending, idle}
use tinyproto_rust.Hdlc.Ll.Rx.Frame.{wire}

push_byte-stuff : (result : Bytes) (b : ℕ) → push_byte result b ≡ result ++ stuff b
unfolding push_byte
push_byte-stuff result b = elim (Bool-cases (is_special b)) [
  | inl e ↦ rw (e) (append_assoc result _ _)
  | inr e ↦ rw (e)
]

push_bytes-stuff_all : (result bs : Bytes) → push_bytes result bs ≡ result ++ stuff_all bs
unfolding push_bytes stuff_all
push_bytes-stuff_all result [] = sym (append-nil result)
push_bytes-stuff_all result (b ∷ bs) =
    push_bytes-stuff_all (push_byte result b) bs
    ∙ ap (λ t. t ++ stuff_all bs) (push_byte-stuff result b)
    ∙ append_assoc result (stuff b) (stuff_all bs)

push_crc-stuff_all :
    (result : Bytes) (crc i n : ℕ)
    → push_crc result crc i n ≡ result ++ stuff_all (le_bytes n (crc >>> (i * 8)))
unfolding push_crc stuff_all
push_crc-stuff_all result crc i zero = sym (append-nil result)
push_crc-stuff_all result crc i (suc n) =
    let b = u8 (crc >>> (i * 8)) in
    let next : crc >>> ((i + 1) * 8) ≡ crc >>> (i * 8) >>> 8 =
      ap (λ k. crc >>> k) {x = (i + 1) * 8} {y = i * 8 + 8} (omega arith)
      ∙ sym (shift-shift_byte crc (i * 8)) in
    push_crc-stuff_all (push_byte result b) crc (i + 1) n
    ∙ ap (λ t. push_byte result b ++ stuff_all (le_bytes n t)) next
    ∙ ap (λ t. t ++ stuff_all (le_bytes n (crc >>> (i * 8) >>> 8))) (push_byte-stuff result b)
    ∙ append_assoc result (stuff b) _

-- `encode` always succeeds with the wire format of the payload and its check sequence.
pub encode-frame_wire :
    (e : HdlcEncoder) (bs : Bytes)
    → encode e bs ≡ (
      frame_wire bs (le_bytes (get_crc_field_size e.crc_type) (encoder_crc e.crc_type bs)),
      success,
    )
unfolding encode frame_wire
encode-frame_wire e bs =
    let crc = encoder_crc e.crc_type bs in
    let size = get_crc_field_size e.crc_type in
    ap (λ t. (t ++ flag_sequence ∷ [], success))
      (push_crc-stuff_all (push_bytes (flag_sequence ∷ []) bs) crc 0 size
        ∙ ap₂ (λ r x. r ++ stuff_all (le_bytes size x))
            (push_bytes-stuff_all (flag_sequence ∷ []) bs) (div-one crc))
    ∙ ap (λ t. (t, success))
        (append_assoc (flag_sequence ∷ stuff_all bs) (stuff_all (le_bytes size crc))
          (flag_sequence ∷ []))

-- Unless the CRC type is `HdlcCrcDefault`, the check sequence is that of the streaming framer.
pub encode-wire :
    (e : HdlcEncoder) (bs : Bytes)
    → e.crc_type ≢ hdlc_crc_default
    → (encode e bs).0 ≡ wire e.crc_type bs
encode-wire e bs h =
    ap (λ r. r.0) (encode-frame_wire e bs)
    ∙ ap (λ c. frame_wire bs (le_bytes (get_crc_field_size e.crc_type) c)) (agree e.crc_type h)
  where
    agree : (t : HdlcCrcT) → t ≢ hdlc_crc_default → encoder_crc t bs ≡ calculate_crc t bs
    agree hdlc_crc_default ne = absurd (ne refl)
    agree hdlc_crc8 ne = unfold encoder_crc calculate_crc in refl
    agree hdlc_crc16 ne = unfold encoder_crc calculate_crc in refl
    agree hdlc_crc32 ne = unfold encoder_crc calculate_crc in refl
    agree hdlc_crc_off ne = unfold encoder_crc calculate_crc in refl

-- A payload that is not empty is put into an idle transmitter, and `run_tx` is called once, for as many bytes as `encode` writes for it
-- or more. Unless the CRC type that both have is `HdlcCrcDefault`, the call writes exactly the bytes of `encode`, and the
-- transmitter is idle again and reports the payload as sent.
pub encode-run_tx :
    (e : HdlcEncoder) (tx : HdlcLl) (b : ℕ) (bs : Bytes) (n : ℕ)
    → tx.crc_type ≡ e.crc_type
    → e.crc_type ≢ hdlc_crc_default
    → tx.tx_state ≡ TxState.start_phase
    → tx.tx_data ≡ none
    → length (encode e (b ∷ bs)).0 ≤ n
    → (tx' : HdlcLl) × (run_tx (put_frame tx (b ∷ bs)).0 n ≡ some ((encode e (b ∷ bs)).0, tx'))
      × (tx'.tx_data ≡ none)
      × (tx'.tx_sent_frames ≡ tx.tx_sent_frames ++ (b ∷ bs) ∷ [])
encode-run_tx e tx b bs n same h s d enough =
    let (queued, put, whole, sane, holds) = put_frame-pending tx b bs s d in
    let (tx', ran, left, sane', kept) = run_tx-stream queued n sane in
    let all : pending queued ≡ (encode e (b ∷ bs)).0 =
      whole ∙ ap (λ t. wire t (b ∷ bs)) same ∙ sym (encode-wire e (b ∷ bs) h) in
    let none_left = idle tx' sane' (left ∙ ap (drop n) all ∙ drop_long n _ enough) in
    (
      tx',
      ap (λ r. run_tx r.0 n) put
          ∙ ran
          ∙ ap (λ t. some (t, tx')) (ap (take n) all ∙ take_long n _ enough),
      none_left,
      sym (append-nil tx'.tx_sent_frames) ∙ rw none_left at kept ∙ holds,
    )
