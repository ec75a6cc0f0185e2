-- ===== src/Hdlc/Ll/Rx/Check.antt =====
-- The check sequence that the receiver of src/proto/hdlc/low_level_ll.rs reads is the one that the
-- transmitter writes.
use tinyproto_rust.Base.{
  ℕ, zero, suc, ◌+◌, ◌*◌, ◌^◌, ◌<◌, [], ◌∷◌, ◌++◌, ◌≡◌, refl, sym, ap, ◌∙◌, arith, Bytes, IsBytes,
  length, drop, get_or, get_or-drop, drop-drop, drop-length-append, Bool-cases, inl, inr, ◌==◌,
  ==_iff, ◌>>>◌, bit_or,
}
use tinyproto_rust.Base.Bits.{or_add, two_pow-add_eight}
use tinyproto_rust.Crc.{
  HdlcCrcT, hdlc_crc_default, hdlc_crc8, hdlc_crc16, hdlc_crc32, hdlc_crc_off, get_crc_field_size,
}
use tinyproto_rust.Crc.Register.{le_value}
use tinyproto_rust.Crc.Burst.{checksum8-lt, checksum16-lt, checksum32-lt}
use tinyproto_rust.Hdlc.Stuffing.{le_bytes}
use tinyproto_rust.Hdlc.Ll.Defs.{HdlcLl, calculate_crc}
use tinyproto_rust.Hdlc.Ll.Rx.{read_crc_loop, read_crc_from_buffer}

-- The bytes at `start` onwards, as the loop adds them up.
read_crc_loop-le_value :
    (buf rest : Bytes) (p i n acc : ℕ)
    → drop (p + i) buf ≡ rest
    → length rest ≡ n
    → IsBytes rest
    → acc < 2 ^ (i * 8)
    → read_crc_loop buf p i n acc ≡ acc + le_value rest * 2 ^ (i * 8)
unfolding read_crc_loop
read_crc_loop-le_value buf [] p i zero acc d l b h = omega arith
read_crc_loop-le_value buf (x ∷ xs) p i zero acc d l b h = absurd (omega arith)
read_crc_loop-le_value buf [] p i (suc n) acc d l b h = absurd (omega arith)
read_crc_loop-le_value buf (x ∷ xs) p i (suc n) acc d l b h =
    let unit = 2 ^ (i * 8) in
    let next_unit : 2 ^ ((i + 1) * 8) ≡ unit * 256 =
      ap (◌^◌ 2) {x = (i + 1) * 8} {y = i * 8 + 8} (omega arith) ∙ two_pow-add_eight (i * 8) in
    let value : bit_or acc (get_or buf (p + i) 0 * unit) ≡ acc + x * unit =
      rw (get_or-drop (p + i) buf 0, d) (or_add (i * 8) acc x h) in
    let left : drop (p + (i + 1)) buf ≡ xs =
      ap (λ k. drop k buf) {x = p + (i + 1)} {y = p + i + 1} (omega arith)
      ∙ sym (drop-drop (p + i) 1 buf)
      ∙ ap (drop 1) d in
    rw value (
      read_crc_loop-le_value buf xs p (i + 1) n (acc + x * unit) left (omega arith) b.1
        (rw next_unit (byte-lt acc x unit h b.0))
      ∙ rw next_unit (omega arith))
  where
    byte-lt : (a x unit : ℕ) → a < unit → x < 256 → a + x * unit < unit * 256
    byte-lt a x unit p q = grind arith

le_value-le_bytes : (n x : ℕ) → x < 2 ^ (8 * n) → le_value (le_bytes n x) ≡ x
le_value-le_bytes zero x h = omega arith
le_value-le_bytes (suc n) x h =
    let whole : 2 ^ (8 * suc n) ≡ 2 ^ (8 * n) * 256 =
      ap (◌^◌ 2) {x = 8 * suc n} {y = 8 * n + 8} (omega arith) ∙ two_pow-add_eight (8 * n) in
    omega (arith, le_value-le_bytes n (x >>> 8) (omega (arith, whole)))

pub length-le_bytes : (n x : ℕ) → length (le_bytes n x) ≡ n
length-le_bytes zero x = refl
length-le_bytes (suc n) x = ap suc (length-le_bytes n (x >>> 8))

pub le_bytes-IsBytes : (n x : ℕ) → IsBytes (le_bytes n x)
le_bytes-IsBytes zero x = tt
le_bytes-IsBytes (suc n) x = (omega arith, le_bytes-IsBytes n (x >>> 8))

calculate_crc-lt :
    (t : HdlcCrcT) (bs : Bytes) → IsBytes bs → calculate_crc t bs < 2 ^ (8 * get_crc_field_size t)
unfolding calculate_crc
calculate_crc-lt hdlc_crc8 bs h = checksum8-lt bs
calculate_crc-lt hdlc_crc16 bs h = checksum16-lt bs h
calculate_crc-lt hdlc_crc32 bs h = checksum32-lt bs h
calculate_crc-lt hdlc_crc_default bs h = checksum32-lt bs h
calculate_crc-lt hdlc_crc_off bs h = omega arith

-- Bytes behind the payload are read back as the number that was written there.
pub read_crc_loop-le_bytes :
    (payload : Bytes) (size crc : ℕ)
    → crc < 2 ^ (8 * size)
    → read_crc_loop (payload ++ le_bytes size crc) (length payload) 0 size 0 ≡ crc
read_crc_loop-le_bytes payload size crc h =
    let buf = payload ++ le_bytes size crc in
    let behind : drop (length payload + 0) buf ≡ le_bytes size crc =
      ap (λ k. drop k buf) {x = length payload + 0} {y = length payload} (omega arith)
      ∙ drop-length-append payload (le_bytes size crc) in
    read_crc_loop-le_value buf (le_bytes size crc) (length payload) 0 size 0 behind
      (length-le_bytes size crc) (le_bytes-IsBytes size crc) (omega arith)
    ∙ omega (arith, le_value-le_bytes size crc h)

-- What follows the payload in the buffer is read back as the checksum that was written there.
pub read_crc-le_bytes :
    (ll : HdlcLl) (payload : Bytes)
    → IsBytes payload
    → ll.rx_buf
      ≡ payload ++ le_bytes (get_crc_field_size ll.crc_type) (calculate_crc ll.crc_type payload)
    → read_crc_from_buffer ll (length payload) ≡ calculate_crc ll.crc_type payload
unfolding read_crc_from_buffer
read_crc-le_bytes ll payload h e =
    let size = get_crc_field_size ll.crc_type in
    let crc = calculate_crc ll.crc_type payload in
    let fits = calculate_crc-lt ll.crc_type payload h in
    let read =
      ap (λ b. read_crc_loop b (length payload) 0 size 0) e
      ∙ read_crc_loop-le_bytes payload size crc fits in
    elim (Bool-cases (size == 0)) [
      | inl off ↦
          let none_left : size ≡ 0 = (==_iff size 0).0 off in
          rw off (omega (arith, rw none_left at fits))
      | inr on ↦ rw on read
    ]
