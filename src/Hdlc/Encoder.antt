-- ===== src/Hdlc/Encoder.antt =====
-- src/proto/hdlc/low_level.rs: the one-shot encoder and decoder. The output vector is emptied
-- first, so what it held is no argument here; the new vector is part of the result.
pub mod Wire
pub mod RoundTrip
use native.Mathlib.Nat.{sub-le}
use tinyproto_rust.Base.{
  ℕ, zero, suc, ◌+◌, ◌-◌, ◌*◌, bit_xor, Bool, true, false, not, [], ◌∷◌, ◌++◌, ltb, ◌==◌,
  if◌then◌else◌, u8, ◌>>>◌, Bytes, length, take,
}
use tinyproto_rust.Crc.{
  HdlcCrcT, hdlc_crc_default, hdlc_crc8, hdlc_crc16, hdlc_crc32, hdlc_crc_off, get_crc_field_size,
}
use tinyproto_rust.Crc.Crc8
use tinyproto_rust.Crc.Crc16
use tinyproto_rust.Crc.Crc32
use tinyproto_rust.Hdlc.Stuffing.{flag_sequence, escape_char, escape_bit, is_special}
use tinyproto_rust.Hdlc.Ll.Rx.{read_crc_loop}

pub data ResultT : Type 0 where
  success invalid_data error busy data_too_large wrong_crc : ResultT

pub record HdlcEncoder : Type 0 where
  pub crc_type : HdlcCrcT

-- The MTU is ignored.
unfoldable pub new : HdlcCrcT → ℕ → HdlcEncoder
new t mtu = record { crc_type = t }

-- The match in front of the encoding loop. `HdlcCrcDefault` falls under `_`, like `HdlcCrcOff`.
unfoldable pub encoder_crc : HdlcCrcT → Bytes → ℕ
encoder_crc hdlc_crc8 bytes = Crc8.checksum bytes
encoder_crc hdlc_crc16 bytes = Crc16.checksum bytes
encoder_crc hdlc_crc32 bytes = Crc32.checksum bytes
encoder_crc _ bytes = 0

-- One byte of either loop.
unfoldable pub push_byte : Bytes → ℕ → Bytes
push_byte result byte =
    if is_special byte
    then (result ++ escape_char ∷ []) ++ bit_xor byte escape_bit ∷ []
    else result ++ byte ∷ []

unfoldable pub push_bytes : Bytes → Bytes → Bytes
unfolding push_byte
push_bytes result [] = result
push_bytes result (byte ∷ bytes) = push_bytes (push_byte result byte) bytes

-- The loop over the check sequence: the index, and the rounds left.
unfoldable pub push_crc : Bytes → ℕ → ℕ → ℕ → Bytes
unfolding push_byte
push_crc result crc i zero = result
push_crc result crc i (suc n) = push_crc (push_byte result (u8 (crc >>> (i * 8)))) crc (i + 1) n

unfoldable pub encode : HdlcEncoder → Bytes → Bytes × ResultT
unfolding push_bytes push_crc encoder_crc
encode encoder bytes =
    let crc = encoder_crc encoder.crc_type bytes in
    let pushed = push_bytes (flag_sequence ∷ []) bytes in
    let checked = push_crc pushed crc 0 (get_crc_field_size encoder.crc_type) in
    (checked ++ flag_sequence ∷ [], success)

-- The loop of the decoder: the bytes consumed, the escape flag and the bytes decoded.
unfoldable pub decode_loop : ℕ → Bool → Bytes → Bytes → ℕ × Bytes
decode_loop consumed escape result [] = (consumed, result)
decode_loop consumed escape result (byte ∷ bytes) =
    let skipped = decode_loop (consumed + 1) escape result bytes in
    let escaped = decode_loop (consumed + 1) true result bytes in
    let decoded = if escape then bit_xor byte escape_bit else byte in
    let stored = decode_loop (consumed + 1) false (result ++ decoded ∷ []) bytes in
    if byte == flag_sequence
    then if not (length result == 0) then (consumed + 1, result) else skipped
    else if byte == escape_char
    then escaped
    else stored

-- The match behind the decoding loop, over the first `result.len() - crc_size` bytes.
unfoldable pub decoder_crc : HdlcCrcT → Bytes → ℕ → ℕ
decoder_crc hdlc_crc8 result crc_size =
    Crc8.get
      (Crc8.sum_bytes Crc8.new result (length result - crc_size) (sub-le (length result) crc_size))
decoder_crc hdlc_crc16 result crc_size =
    Crc16.get (
      Crc16.sum_bytes Crc16.new result (length result - crc_size) (sub-le (length result) crc_size))
decoder_crc hdlc_crc32 result crc_size =
    Crc32.get (
      Crc32.sum_bytes Crc32.new result (length result - crc_size) (sub-le (length result) crc_size))
decoder_crc _ result crc_size = 0

-- What follows the loop: the result code, and what the output vector holds then. The loop that adds
-- up the check sequence is the one of the streaming framer.
unfoldable pub finish : HdlcCrcT → Bytes → ResultT × Bytes
unfolding decoder_crc read_crc_loop
finish t result =
    let crc_size = get_crc_field_size t in
    if ltb (length result) crc_size
    then (invalid_data, result)
    else let crc_data = read_crc_loop result (length result - crc_size) 0 crc_size 0 in
      if not (decoder_crc t result crc_size == crc_data)
      then (wrong_crc, result)
      else (success, take (length result - crc_size) result)

-- The bytes consumed, the result code and the output vector.
unfoldable pub decode : HdlcEncoder → Bytes → ℕ × ResultT × Bytes
unfolding decode_loop finish
decode encoder bytes =
    let (consumed, result) = decode_loop 0 false [] bytes in
    let (code, out) = finish encoder.crc_type result in (consumed, code, out)
