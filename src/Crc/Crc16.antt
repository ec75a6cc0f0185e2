-- ===== src/Crc/Crc16.antt =====
-- `Crc16` of src/proto/crc.rs. The index of the table is masked to a byte, so a read out of the
-- table's range, for which `entry` has a default, does not happen.
use native.Mathlib.Nat.{le_of_suc-le-suc, le_refl}
use tinyproto_rust.Base.{
  ℕ, zero, suc, ◌≤◌, bit_and, bit_xor, [], ◌∷◌, ◌>>>◌, u8, Bytes, length, take, length-take, ◌≡◌,
  refl, ap, arith, get_or,
}
use tinyproto_rust.Crc.Tables.{fcstab_16}

pub record Crc16 : Type 0 where
  pub crc : ℕ

abbrev pub init_fcs16 : ℕ
init_fcs16 = 0xffff

unfoldable pub new : Crc16
new = record { crc = init_fcs16 }

-- `reset` gives the field its first value again.
unfoldable pub reset : Crc16 → Crc16
reset c = record c { crc = init_fcs16 }

unfoldable pub entry : ℕ → ℕ
unfolding fcstab_16
entry i = get_or fcstab_16 i 0

unfoldable pub sum_byte : Crc16 → ℕ → Crc16
unfolding entry
sum_byte c byte = record c {
  crc = bit_xor (c.crc >>> 8) (entry (bit_and (bit_xor (u8 c.crc) byte) 0xff));
}

-- The loop reads `data[i]` for `i` below `len`, and a longer `len` panics: hence the premise.
unfoldable pub sum_bytes : Crc16 → (bytes : Bytes) (len : ℕ) → len ≤ length bytes → Crc16
unfolding sum_byte
sum_bytes c bytes zero h = c
sum_bytes c [] (suc len) h = elim h [ ]
sum_bytes c (byte ∷ bytes) (suc len) h = sum_bytes (sum_byte c byte) bytes len (le_of_suc-le-suc h)

unfoldable pub get : Crc16 → ℕ
get c = bit_xor c.crc 0xffff

-- The calls by which the crate computes a checksum: `new`, `sum_bytes` over the slice, `get`.
abbrev pub checksum : Bytes → ℕ
checksum bytes = get (sum_bytes new bytes (length bytes) (le_refl (length bytes)))

sum_bytes-take :
    (c : Crc16) (bytes : Bytes) (len m : ℕ) (h : len ≤ length bytes)
    (k : m ≤ length (take len bytes))
    → m ≡ len
    → sum_bytes c bytes len h ≡ sum_bytes c (take len bytes) m k
unfolding sum_bytes
sum_bytes-take c bytes zero zero h k e = refl
sum_bytes-take c bytes zero (suc m) h k e = absurd (omega arith)
sum_bytes-take c bytes (suc len) zero h k e = absurd (omega arith)
sum_bytes-take c [] (suc len) (suc m) h k e = elim h [ ]
sum_bytes-take c (byte ∷ bytes) (suc len) (suc m) h k e =
    sum_bytes-take (sum_byte c byte) bytes len m _ _ (omega arith)

-- A sum over the first `len` bytes is the checksum of those bytes.
pub get-sum_bytes-take :
    (bytes : Bytes) (len : ℕ) (h : len ≤ length bytes)
    → get (sum_bytes new bytes len h) ≡ checksum (take len bytes)
get-sum_bytes-take bytes len h = ap get (
    sum_bytes-take new bytes len (length (take len bytes)) h (le_refl _)
      (omega (arith, length-take len bytes)))
