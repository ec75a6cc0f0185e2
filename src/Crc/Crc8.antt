-- ===== src/Crc/Crc8.antt =====
-- `Crc8` of src/proto/crc.rs, a sum of the bytes.
use native.Mathlib.Nat.{le_of_suc-le-suc, le_refl}
use tinyproto_rust.Base.{
  ℕ, zero, suc, ◌+◌, ◌-◌, ◌≤◌, [], ◌∷◌, u8, Bytes, length, take, length-take, ◌≡◌, refl, ap, arith,
}

pub record Crc8 : Type 0 where
  pub crc : ℕ

abbrev init_checksum8 : ℕ
init_checksum8 = 0x00

unfoldable pub new : Crc8
new = record { crc = init_checksum8 }

unfoldable pub reset : Crc8 → Crc8
reset c = record c { crc = init_checksum8 }

-- `wrapping_add`
unfoldable pub sum_byte : Crc8 → ℕ → Crc8
sum_byte c byte = record c { crc = u8 (c.crc + byte) }

-- The loop reads `data[i]` for `i` below `len`, and a longer `len` panics: hence the premise.
unfoldable pub sum_bytes : Crc8 → (bytes : Bytes) (len : ℕ) → len ≤ length bytes → Crc8
unfolding sum_byte
sum_bytes c bytes zero h = c
sum_bytes c [] (suc len) h = elim h [ ]
sum_bytes c (byte ∷ bytes) (suc len) h = sum_bytes (sum_byte c byte) bytes len (le_of_suc-le-suc h)

-- The sum is a byte, so the subtraction does not go below 0.
unfoldable pub get : Crc8 → ℕ
get c = 0xff - c.crc

-- The calls by which the crate computes a checksum: `new`, `sum_bytes` over the slice, `get`.
abbrev pub checksum : Bytes → ℕ
checksum bytes = get (sum_bytes new bytes (length bytes) (le_refl (length bytes)))

sum_bytes-take :
    (c : Crc8) (bytes : Bytes) (len m : ℕ) (h : len ≤ length bytes)
    (k : m ≤ length (take len bytes))
    → m ≡ len
    → sum_bytes c bytes len h ≡ sum_bytes c (take len bytes) m k
unfolding sum_bytes
sum_bytes-take c bytes zero zero h k e = refl
sum_bytes-take c bytes zero (suc m) h k e = absurd (omega arith)
sum_bytes-take c bytes (suc len) zero h k e = absurd (omega arith)
sum_bytes-take c [] (suc len) (suc m) h k e = elim h [ ]
sum_bytes-take c (byte ∷ bytes) (suc len) (suc m) h k e =
    sum_bytes-take (sum_byte c byte) bytes len m _ _ (omega arith)

-- A sum over the first `len` bytes is the checksum of those bytes.
pub get-sum_bytes-take :
    (bytes : Bytes) (len : ℕ) (h : len ≤ length bytes)
    → get (sum_bytes new bytes len h) ≡ checksum (take len bytes)
get-sum_bytes-take bytes len h = ap get (
    sum_bytes-take new bytes len (length (take len bytes)) h (le_refl _)
      (omega (arith, length-take len bytes)))
