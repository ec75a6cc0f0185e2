-- ===== src/Hdlc/Stuffing.antt =====
-- The bytes with a meaning of their own in src/proto/hdlc, and the escaped form of a slice: the
-- wire format that both encoders are compared with.
use tinyproto_rust.Base.{
  ℕ, zero, suc, ◌+◌, ◌*◌, ◌/◌, ◌≤◌, ◌<◌, bit_xor, Bool, ◌||◌, [], ◌∷◌, ◌++◌, ◌≡◌, refl, sym, ap,
  ◌∙◌, arith, append_assoc, ◌==◌, if◌then◌else◌, u8, ◌>>>◌, Bytes, drop,
}
use tinyproto_rust.Base.Bits.{shift_byte}

abbrev pub flag_sequence : ℕ
flag_sequence = 0x7E

abbrev pub escape_char : ℕ
escape_char = 0x7D

abbrev pub escape_bit : ℕ
escape_bit = 0x20

-- `byte == FLAG_SEQUENCE || byte == ESCAPE_CHAR`
abbrev pub is_special : ℕ → Bool
is_special byte = byte == flag_sequence || byte == escape_char

-- One byte on the wire.
abbrev pub stuff : ℕ → Bytes
stuff byte = if is_special byte then escape_char ∷ bit_xor byte escape_bit ∷ [] else byte ∷ []

-- A slice on the wire.
unfoldable pub stuff_all : Bytes → Bytes
stuff_all [] = []
stuff_all (b ∷ bs) = stuff b ++ stuff_all bs

-- The first `n` bytes of a number, low byte first.
abbrev pub le_bytes : ℕ → ℕ → Bytes
le_bytes zero x = []
le_bytes (suc n) x = u8 x ∷ le_bytes n (x >>> 8)

-- A frame on the wire: a flag, the payload and its check sequence escaped, a flag.
unfoldable pub frame_wire : Bytes → Bytes → Bytes
frame_wire payload check =
    flag_sequence ∷ (stuff_all payload ++ (stuff_all check ++ flag_sequence ∷ []))

pub stuff_all-append : (xs ys : Bytes) → stuff_all (xs ++ ys) ≡ stuff_all xs ++ stuff_all ys
unfolding stuff_all
stuff_all-append [] ys = refl
stuff_all-append (x ∷ xs) ys =
    rw (stuff_all-append xs ys) (sym (append_assoc (stuff x) (stuff_all xs) (stuff_all ys)))

pub le_bytes-drop_past : (n i x : ℕ) → n ≤ i → drop i (le_bytes n x) ≡ []
le_bytes-drop_past zero zero x h = refl
le_bytes-drop_past zero (suc i) x h = refl
le_bytes-drop_past (suc n) zero x h = absurd (omega arith)
le_bytes-drop_past (suc n) (suc i) x h = le_bytes-drop_past n i (x >>> 8) (omega arith)

-- Byte `i` of a number, and those above it.
pub le_bytes-drop :
    (n i x : ℕ) → i < n → drop i (le_bytes n x) ≡ u8 (x >>> (8 * i)) ∷ drop (suc i) (le_bytes n x)
le_bytes-drop zero i x h = absurd (omega arith)
le_bytes-drop (suc n) zero x h =
    ap (λ t. t ∷ le_bytes n (x >>> 8)) {x = u8 x} {y = u8 (x / 1)} (omega arith)
le_bytes-drop (suc n) (suc i) x h =
    le_bytes-drop n i (x >>> 8) (omega arith)
    ∙ ap (λ t. u8 t ∷ drop (suc i) (le_bytes n (x >>> 8)))
        (shift_byte x (8 * i) ∙ ap (λ k. x >>> k) {x = 8 * i + 8} {y = 8 * suc i} (omega arith))

-- The payload and its check sequence are escaped as one slice.
pub frame_wire-stuff_all :
    (payload check : Bytes)
    → frame_wire payload check
      ≡ flag_sequence ∷ (stuff_all (payload ++ check) ++ flag_sequence ∷ [])
unfolding frame_wire
frame_wire-stuff_all payload check = simp (stuff_all-append, append_assoc)
