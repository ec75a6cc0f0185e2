-- ===== src/Hdlc/Encoder/RoundTrip.antt =====
-- `decode` of src/proto/hdlc/low_level.rs reads back what `encode` writes.
use native.Mathlib.Nat.{sub-le}
use tinyproto_rust.Base.{
  ℕ, suc, ◌+◌, ◌-◌, ◌*◌, ◌^◌, ◌<◌, false, [], ◌∷◌, ◌++◌, ◌≡◌, refl, sym, ap, ap₂, ◌∙◌, arith,
  append_assoc, append-nil, Bytes, IsBytes, length, length-append, take, take-length-append,
}
use tinyproto_rust.Crc.{
  HdlcCrcT, hdlc_crc_default, hdlc_crc8, hdlc_crc16, hdlc_crc32, hdlc_crc_off, get_crc_field_size,
}
use tinyproto_rust.Crc.Crc8
use tinyproto_rust.Crc.Crc16
use tinyproto_rust.Crc.Crc32
use tinyproto_rust.Hdlc.Stuffing.{flag_sequence, stuff, stuff_all, le_bytes, frame_wire-stuff_all}
use tinyproto_rust.Hdlc.Encoder.{
  HdlcEncoder, success, encoder_crc, encode, decode_loop, decoder_crc, finish, decode,
}
use tinyproto_rust.Crc.Burst.{checksum8-lt, checksum16-lt, checksum32-lt}
use tinyproto_rust.Hdlc.Ll.Rx.Check.{length-le_bytes, read_crc_loop-le_bytes}
use tinyproto_rust.Hdlc.Encoder.Wire.{encode-frame_wire}

decode_loop-stuff :
    (c : ℕ) (result rest : Bytes) (b : ℕ)
    → decode_loop c false result (stuff b ++ rest)
      ≡ decode_loop (c + length (stuff b)) false (result ++ b ∷ []) rest
unfolding decode_loop
decode_loop-stuff c result rest b = ground arith

decode_loop-stuff_all :
    (c : ℕ) (result xs rest : Bytes)
    → decode_loop c false result (stuff_all xs ++ rest)
      ≡ decode_loop (c + length (stuff_all xs)) false (result ++ xs) rest
unfolding stuff_all
decode_loop-stuff_all c result [] rest =
    ap₂ (λ n r. decode_loop n false r rest) {x = c} {y = c + 0} (omega arith)
      (sym (append-nil result))
decode_loop-stuff_all c result (x ∷ xs) rest = rw (append_assoc (stuff x) (stuff_all xs) rest) (
    decode_loop-stuff c result (stuff_all xs ++ rest) x
    ∙ decode_loop-stuff_all (c + length (stuff x)) (result ++ x ∷ []) xs rest
    ∙ ap₂ (λ n r. decode_loop n false r rest) {x = c + length (stuff x) + length (stuff_all xs)}
        {y = c + length (stuff x ++ stuff_all xs)}
        (omega (arith, length-append {0} (stuff x) (stuff_all xs)))
        (append_assoc result (x ∷ []) xs))

decode_loop-flag : (c : ℕ) (xs : Bytes) → decode_loop c false xs (flag_sequence ∷ []) ≡ (c + 1, xs)
unfolding decode_loop
decode_loop-flag c xs = ground arith

decode_loop-frame :
    (xs : Bytes)
    → decode_loop 0 false [] (flag_sequence ∷ (stuff_all xs ++ flag_sequence ∷ []))
      ≡ (length (flag_sequence ∷ (stuff_all xs ++ flag_sequence ∷ [])), xs)
unfolding decode_loop
decode_loop-frame xs =
    decode_loop-stuff_all 1 [] xs (flag_sequence ∷ [])
    ∙ decode_loop-flag (1 + length (stuff_all xs)) xs
    ∙ ap (λ n. (n, xs)) {x = 1 + length (stuff_all xs) + 1}
        {y = suc (length (stuff_all xs ++ flag_sequence ∷ []))}
        (omega (arith, length-append {0} (stuff_all xs) (flag_sequence ∷ [])))

module _ (bs check : Bytes) (size : ℕ) (l : length check ≡ size) where
  payload_len : length (bs ++ check) - size ≡ length bs
  payload_len = omega (arith, length-append {0} bs check)

  take-payload : take (length (bs ++ check) - size) (bs ++ check) ≡ bs
  take-payload = ap (λ n. take n (bs ++ check)) payload_len ∙ take-length-append bs check

  decoder_crc-encoder_crc : (t : HdlcCrcT) → decoder_crc t (bs ++ check) size ≡ encoder_crc t bs
  unfolding decoder_crc encoder_crc
  decoder_crc-encoder_crc hdlc_crc8 =
      Crc8.get-sum_bytes-take (bs ++ check) _ (sub-le _ size) ∙ ap Crc8.checksum take-payload
  decoder_crc-encoder_crc hdlc_crc16 =
      Crc16.get-sum_bytes-take (bs ++ check) _ (sub-le _ size) ∙ ap Crc16.checksum take-payload
  decoder_crc-encoder_crc hdlc_crc32 =
      Crc32.get-sum_bytes-take (bs ++ check) _ (sub-le _ size) ∙ ap Crc32.checksum take-payload
  decoder_crc-encoder_crc hdlc_crc_default = refl
  decoder_crc-encoder_crc hdlc_crc_off = refl

encoder_crc-lt :
    (t : HdlcCrcT) (bs : Bytes) → IsBytes bs → encoder_crc t bs < 2 ^ (8 * get_crc_field_size t)
unfolding encoder_crc
encoder_crc-lt hdlc_crc8 bs h = checksum8-lt bs
encoder_crc-lt hdlc_crc16 bs h = checksum16-lt bs h
encoder_crc-lt hdlc_crc32 bs h = checksum32-lt bs h
encoder_crc-lt hdlc_crc_default bs h = omega arith
encoder_crc-lt hdlc_crc_off bs h = omega arith

finish-checked :
    (t : HdlcCrcT) (bs : Bytes)
    → IsBytes bs
    → finish t (bs ++ le_bytes (get_crc_field_size t) (encoder_crc t bs)) ≡ (success, bs)
unfolding finish
finish-checked t bs h =
    let size = get_crc_field_size t in
    let crc = encoder_crc t bs in
    let check = le_bytes size crc in
    let l = length-le_bytes size crc in
    ground (
      arith,
      length-append {0} bs check,
      l,
      payload_len bs check size l,
      take-payload bs check size l,
      decoder_crc-encoder_crc bs check size l t,
      read_crc_loop-le_bytes bs size crc (encoder_crc-lt t bs h),
    )

-- `decode` gives back every payload of bytes that `encode` has framed, with any CRC type, and
-- consumes the whole frame.
pub decode-encode :
    (e : HdlcEncoder) (bs : Bytes)
    → IsBytes bs
    → decode e (encode e bs).0 ≡ (length (encode e bs).0, success, bs)
unfolding decode
decode-encode e bs h =
    let size = get_crc_field_size e.crc_type in
    let check = le_bytes size (encoder_crc e.crc_type bs) in
    let framed : (encode e bs).0 ≡ flag_sequence ∷ (stuff_all (bs ++ check) ++ flag_sequence ∷ []) =
      ap (λ r. r.0) (encode-frame_wire e bs) ∙ frame_wire-stuff_all bs check in
    rw (framed, decode_loop-frame (bs ++ check), finish-checked e.crc_type bs h) refl
