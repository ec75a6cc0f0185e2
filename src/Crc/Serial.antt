-- ===== src/Crc/Serial.antt =====
-- The table-driven CRCs of src/proto/crc.rs compute the bit-serial shift register.
use native.Mathlib.Nat.{le_refl}
use tinyproto_rust.Base.{
  ℕ, zero, suc, ◌≤◌, ◌<◌, bit_xor, [], ◌∷◌, ◌≡◌, refl, ap, ◌∙◌, Bytes, IsBytes, length, take,
  take_all,
}
use tinyproto_rust.Base.Bits.{holds_below, xor_comm}
use tinyproto_rust.Crc.Register.{rounds, feed}
use tinyproto_rust.Crc.Table.{Tabulates, lookup-rounds}
use tinyproto_rust.Crc.Crc16
use tinyproto_rust.Crc.Crc16.{Crc16, init_fcs16}
use tinyproto_rust.Crc.Crc32
use tinyproto_rust.Crc.Crc32.{Crc32, init_fcs32}

-- The CCITT polynomial and the polynomial of IEEE 802.3, reflected.
abbrev pub poly16 : ℕ
poly16 = 0x8408

abbrev pub poly32 : ℕ
poly32 = 0xedb88320

entry16-Tabulates : Tabulates poly16 Crc16.entry
unfolding holds_below rounds Crc16.entry
entry16-Tabulates = refl

sum_byte16-rounds :
    (c : Crc16) (byte : ℕ)
    → byte < 256
    → (Crc16.sum_byte c byte).crc ≡ rounds poly16 8 (bit_xor c.crc byte)
unfolding Crc16.sum_byte
sum_byte16-rounds c byte h = lookup-rounds poly16 Crc16.entry entry16-Tabulates c.crc byte h

sum_bytes16-feed :
    (c : Crc16) (bytes : Bytes) (len : ℕ) (h : len ≤ length bytes)
    → IsBytes bytes
    → (Crc16.sum_bytes c bytes len h).crc ≡ feed poly16 c.crc (take len bytes)
unfolding Crc16.sum_bytes feed
sum_bytes16-feed c bytes zero h b = refl
sum_bytes16-feed c [] (suc len) h b = elim h [ ]
sum_bytes16-feed c (byte ∷ bytes) (suc len) h b =
    sum_bytes16-feed (Crc16.sum_byte c byte) bytes len _ b.1
    ∙ ap (λ x. feed poly16 x (take len bytes)) (sum_byte16-rounds c byte b.0)

-- `Crc16` over a whole slice of bytes is the bit-serial register over that slice, started
-- with all ones and read with all bits flipped.
pub crc16-feed :
    (bytes : Bytes)
    → IsBytes bytes
    → Crc16.checksum bytes ≡ bit_xor (feed poly16 init_fcs16 bytes) init_fcs16
unfolding Crc16.get Crc16.new
crc16-feed bytes b =
    ap (λ x. bit_xor x init_fcs16)
      (sum_bytes16-feed Crc16.new bytes (length bytes) (le_refl (length bytes)) b
        ∙ ap (feed poly16 init_fcs16) (take_all bytes))

entry32-Tabulates : Tabulates poly32 Crc32.entry
unfolding holds_below rounds Crc32.entry
entry32-Tabulates = refl

sum_byte32-rounds :
    (c : Crc32) (byte : ℕ)
    → byte < 256
    → (Crc32.sum_byte c byte).crc ≡ rounds poly32 8 (bit_xor c.crc byte)
unfolding Crc32.sum_byte
sum_byte32-rounds c byte h =
    xor_comm _ _ ∙ lookup-rounds poly32 Crc32.entry entry32-Tabulates c.crc byte h

sum_bytes32-feed :
    (c : Crc32) (bytes : Bytes) (len : ℕ) (h : len ≤ length bytes)
    → IsBytes bytes
    → (Crc32.sum_bytes c bytes len h).crc ≡ feed poly32 c.crc (take len bytes)
unfolding Crc32.sum_bytes feed
sum_bytes32-feed c bytes zero h b = refl
sum_bytes32-feed c [] (suc len) h b = elim h [ ]
sum_bytes32-feed c (byte ∷ bytes) (suc len) h b =
    sum_bytes32-feed (Crc32.sum_byte c byte) bytes len _ b.1
    ∙ ap (λ x. feed poly32 x (take len bytes)) (sum_byte32-rounds c byte b.0)

-- `Crc32` over a whole slice of bytes is the bit-serial register over that slice, started
-- with all ones and read with all bits flipped.
pub crc32-feed :
    (bytes : Bytes)
    → IsBytes bytes
    → Crc32.checksum bytes ≡ bit_xor (feed poly32 init_fcs32 bytes) init_fcs32
unfolding Crc32.get Crc32.new
crc32-feed bytes b =
    ap (λ x. bit_xor x init_fcs32)
      (sum_bytes32-feed Crc32.new bytes (length bytes) (le_refl (length bytes)) b
        ∙ ap (feed poly32 init_fcs32) (take_all bytes))
