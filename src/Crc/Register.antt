-- ===== src/Crc/Register.antt =====
-- The bit-serial shift register that the tables of src/proto/crc.rs tabulate: the
-- textbook definition of a reflected CRC, stated for any polynomial.
use tinyproto_rust.Base.{
  ℕ, zero, suc, ◌+◌, ◌*◌, ◌/◌, ◌%◌, ◌^◌, ◌≤◌, ◌<◌, bit_xor, ◌≡◌, refl, sym, ap, ◌∙◌, ◌≢◌, inl, inr,
  [], ◌∷◌, ◌++◌, arith, Bytes, length, IsBytes, ap₂, Bool-cases, ◌==◌,
}
use native.Mathlib.Nat.{zero-mul, one-mul, pow-suc}
use tinyproto_rust.Base.Bits.{
  xor_comm, xor_assoc, xor_self, xor-zero, zero-xor, xor_cancel, xor_left_comm, xor_injective,
  xor-lt, xor-half, xor-parity, add-xor, two_pow-add_eight,
}

-- One bit: the register moves right, and the bit that falls out feeds the polynomial back.
abbrev pub shift : ℕ → ℕ → ℕ
shift poly x = bit_xor (x / 2) (x % 2 * poly)

unfoldable pub rounds : ℕ → ℕ → ℕ → ℕ
rounds poly zero x = x
rounds poly (suc n) x = rounds poly n (shift poly x)

-- The register after a message: eight bits for each byte.
unfoldable pub feed : ℕ → ℕ → Bytes → ℕ
feed poly c [] = c
feed poly c (b ∷ bs) = feed poly (rounds poly 8 (bit_xor c b)) bs

-- A little-endian number.
abbrev pub le_value : Bytes → ℕ
le_value [] = 0
le_value (b ∷ bs) = b + 256 * le_value bs

module _ (poly : ℕ) where
  parity_mul-xor : (x y : ℕ) → x < 2 → y < 2 → (x + y) % 2 * poly ≡ bit_xor (x * poly) (y * poly)
  parity_mul-xor zero zero p q = simp (zero-mul, xor-zero)
  parity_mul-xor zero (suc zero) p q = simp (zero-mul, zero-xor)
  parity_mul-xor (suc zero) zero p q = simp (zero-mul, xor-zero)
  parity_mul-xor (suc zero) (suc zero) p q = simp (zero-mul, xor_self)
  parity_mul-xor zero (suc (suc y)) p q = absurd (omega arith)
  parity_mul-xor (suc zero) (suc (suc y)) p q = absurd (omega arith)
  parity_mul-xor (suc (suc x)) y p q = absurd (omega arith)

  shift-xor : (a b : ℕ) → shift poly (bit_xor a b) ≡ bit_xor (shift poly a) (shift poly b)
  shift-xor a b =
      let low : bit_xor a b % 2 ≡ (a % 2 + b % 2) % 2 = omega (arith, xor-parity a b) in
      rw (xor-half a b, low, parity_mul-xor (a % 2) (b % 2) (omega arith) (omega arith))
        (simp (xor_assoc, xor_left_comm (a % 2 * poly) (b / 2)))

  pub rounds-xor :
      (n a b : ℕ) → rounds poly n (bit_xor a b) ≡ bit_xor (rounds poly n a) (rounds poly n b)
  unfolding rounds
  rounds-xor zero a b = refl
  rounds-xor (suc n) a b =
      ap (rounds poly n) (shift-xor a b) ∙ rounds-xor n (shift poly a) (shift poly b)

  -- Eight rounds take a multiple of 256 to its quotient: no set bit falls out.
  pub rounds-times : (n a : ℕ) → rounds poly n (2 ^ n * a) ≡ a
  unfolding rounds
  rounds-times zero a = omega arith
  rounds-times (suc n) a =
      let half : 2 ^ suc n * a / 2 ≡ 2 ^ n * a =
        omega (arith, ap (λ (t : ℕ). t * a) (pow-suc 2 n)) in
      let even : 2 ^ suc n * a % 2 ≡ 0 = omega (arith, ap (λ (t : ℕ). t * a) (pow-suc 2 n)) in
      rw (half, even, zero-mul, xor-zero) (rounds-times n a)

  rounds-rounds : (n m a : ℕ) → rounds poly n (rounds poly m a) ≡ rounds poly (m + n) a
  unfolding rounds
  rounds-rounds n zero a = ap (λ k. rounds poly k a) {x = n} {y = 0 + n} (omega arith)
  rounds-rounds n (suc m) a =
      rounds-rounds n m (shift poly a)
      ∙ ap (λ k. rounds poly k a) {x = suc (m + n)} {y = suc m + n} (omega arith)

  -- A message enters the register all at once.
  pub feed-le_value :
      (c : ℕ) (bs : Bytes)
      → IsBytes bs
      → feed poly c bs ≡ rounds poly (8 * length bs) (bit_xor c (le_value bs))
  unfolding feed rounds
  feed-le_value c [] h = sym (xor-zero c)
  feed-le_value c (b ∷ bs) h =
      feed-le_value (rounds poly 8 (bit_xor c b)) bs h.1
      ∙ ap (rounds poly (8 * length bs)) (
          ap (bit_xor (rounds poly 8 (bit_xor c b))) (sym (rounds-times 8 (le_value bs)))
          ∙ sym (rounds-xor 8 (bit_xor c b) (256 * le_value bs)))
      ∙ rounds-rounds (8 * length bs) 8 (bit_xor (bit_xor c b) (256 * le_value bs))
      ∙ ap₂ (rounds poly) {x = 8 + 8 * length bs} {y = 8 * suc (length bs)} (omega arith)
          (xor_assoc c b (256 * le_value bs) ∙ ap (bit_xor c) (sym (add-xor b (le_value bs) h.0)))

-- A polynomial of degree `suc v`, reflected: its top bit is set.
module _ (poly v : ℕ) (top : 2 ^ v ≤ poly) (fits : poly < 2 ^ suc v) where
  feedback-lt : (x : ℕ) → x % 2 * poly < 2 ^ suc v
  feedback-lt x = elim (Bool-cases (x % 2 == 0)) [
    | inl e ↦ let z : x % 2 ≡ 0 = ground arith in rw (z, zero-mul) (omega arith)
    | inr e ↦ let z : x % 2 ≡ 1 = ground arith in rw (z, one-mul) fits
  ]

  shift-lt : (x : ℕ) → x < 2 ^ suc v → shift poly x < 2 ^ suc v
  shift-lt x h = xor-lt (suc v) (x / 2) (x % 2 * poly) (omega arith) (feedback-lt x)

  -- The top bit shows the bit that fell out.
  shift-odd_ne_even :
      (x y : ℕ)
      → x < 2 ^ suc v
      → y < 2 ^ suc v
      → x % 2 ≡ 0
      → y % 2 ≡ 1
      → shift poly x ≢ shift poly y
  shift-odd_ne_even x y hx hy ex ey e =
      let apart : x / 2 ≡ bit_xor (y / 2) poly =
        sym (xor-zero (x / 2)) ∙ rw (ex, ey, zero-mul, one-mul) at e in
      let back : poly ≡ bit_xor (y / 2) (x / 2) =
        sym (xor_cancel (y / 2) poly) ∙ ap (bit_xor (y / 2)) (sym apart) in
      omega (
        arith,
        back,
        pow-suc 2 v,
        xor-lt v (y / 2) (x / 2) (omega (arith, pow-suc 2 v)) (omega (arith, pow-suc 2 v)),
      )

  parity_eq :
      (x y : ℕ) → x < 2 ^ suc v → y < 2 ^ suc v → shift poly x ≡ shift poly y → x % 2 ≡ y % 2
  parity_eq x y hx hy e =
      grind (arith, shift-odd_ne_even x y hx hy, shift-odd_ne_even y x hy hx, e, sym e)

  shift_injective : (x y : ℕ) → x < 2 ^ suc v → y < 2 ^ suc v → shift poly x ≡ shift poly y → x ≡ y
  shift_injective x y hx hy e =
      let par = parity_eq x y hx hy e in
      let halves =
        xor_injective (y % 2 * poly) (x / 2) (y / 2)
          (xor_comm (y % 2 * poly) (x / 2) ∙ rw par at e ∙ xor_comm (y / 2) (y % 2 * poly)) in
      omega arith

  pub rounds_injective :
      (n x y : ℕ) → x < 2 ^ suc v → y < 2 ^ suc v → rounds poly n x ≡ rounds poly n y → x ≡ y
  unfolding rounds
  rounds_injective zero x y hx hy e = e
  rounds_injective (suc n) x y hx hy e =
      shift_injective x y hx hy
        (rounds_injective n (shift poly x) (shift poly y) (shift-lt x hx) (shift-lt y hy) e)

  pub rounds-lt : (n x : ℕ) → x < 2 ^ suc v → rounds poly n x < 2 ^ suc v
  unfolding rounds
  rounds-lt zero x h = h
  rounds-lt (suc n) x h = rounds-lt n (shift poly x) (shift-lt x h)

-- Slices of one length are one slice if they have one value.
pub le_value_injective :
    (xs ys : Bytes)
    → IsBytes xs
    → IsBytes ys
    → length xs ≡ length ys
    → le_value xs ≡ le_value ys
    → xs ≡ ys
le_value_injective [] [] hx hy l e = refl
le_value_injective [] (y ∷ ys) hx hy l e = absurd (omega arith)
le_value_injective (x ∷ xs) [] hx hy l e = absurd (omega arith)
le_value_injective (x ∷ xs) (y ∷ ys) hx hy l e =
    ap₂ ◌∷◌ {x = x} {y = y} (omega (arith, hx.0, hy.0, e))
      (le_value_injective xs ys hx.1 hy.1 (omega arith) (omega (arith, hx.0, hy.0, e)))

pub le_value-lt : (xs : Bytes) → IsBytes xs → le_value xs < 2 ^ (8 * length xs)
le_value-lt [] h = omega arith
le_value-lt (x ∷ xs) h =
    let more : 2 ^ (8 * suc (length xs)) ≡ 2 ^ (8 * length xs) * 256 =
      ap (◌^◌ 2) {x = 8 * suc (length xs)} {y = 8 * length xs + 8} (omega arith)
      ∙ two_pow-add_eight (8 * length xs) in
    omega (arith, h.0, more, le_value-lt xs h.1)

pub feed-append :
    (poly c : ℕ) (xs ys : Bytes) → feed poly c (xs ++ ys) ≡ feed poly (feed poly c xs) ys
unfolding feed
feed-append poly c [] ys = refl
feed-append poly c (x ∷ xs) ys = feed-append poly (rounds poly 8 (bit_xor c x)) xs ys
