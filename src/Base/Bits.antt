-- ===== src/Base/Bits.antt =====
-- Laws of the exclusive or at variables, by recursion on the binary digits.
use Prim.Native.Nat.{digits, differ, max, bit_or, bit_xor-bitwise, bit_or-bitwise}
use Prim.Native.Nat.{ℕ, zero, suc, ◌+◌, ◌*◌, ◌/◌, ◌%◌, ◌^◌, ◌≤◌, ◌<◌, bit_xor}
use mathlib.Core.Bool.{Bool, true, ◌&&◌}
use mathlib.Core.Path.{◌≡◌, refl, sym, ap, ◌∙◌}
use native.Mathlib.Omega.{arith}
use native.Mathlib.Numerals.{towards_suc}
use native.Mathlib.Nat.{pow-suc, pow-succ', div-one, mod-one, div-div-eq-div-mul, div-add-mod}

differ_fuel :
    (n m a b : ℕ) → a ≤ n → a ≤ m → digits (λ y. y) differ n a b ≡ digits (λ y. y) differ m a b
differ_fuel zero zero a b p q = refl
differ_fuel zero (suc m) zero b p q = refl
differ_fuel zero (suc m) (suc a) b p q = absurd (omega arith)
differ_fuel (suc n) zero zero b p q = refl
differ_fuel (suc n) zero (suc a) b p q = absurd (omega arith)
differ_fuel (suc n) (suc m) zero b p q = refl
differ_fuel (suc n) (suc m) (suc a) b p q =
    rw (differ_fuel n m (suc a / 2) (b / 2) (omega arith) (omega arith))

-- The lowest digit, and the rest.
xor_digit : (a b : ℕ) → bit_xor a b ≡ bit_xor (a / 2) (b / 2) * 2 + differ (a % 2) (b % 2)
xor_digit zero b = simp bit_xor-bitwise (omega arith)
xor_digit (suc a) b =
    simp bit_xor-bitwise
      (omega (arith, differ_fuel a (suc a / 2) (suc a / 2) (b / 2) (omega arith) (omega arith)))

-- Two digits by a number: what `omega` reads.
differ_digit : (a b : ℕ) → differ (a % 2) (b % 2) ≡ (a + b) % 2
differ_digit a b = bits (a % 2) (b % 2) (omega arith) (omega arith) ∙ omega arith
  where
    bits : (x y : ℕ) → x < 2 → y < 2 → differ x y ≡ (x + y) % 2
    bits zero y p q = omega arith
    bits (suc zero) zero p q = refl
    bits (suc zero) (suc zero) p q = refl
    bits (suc zero) (suc (suc y)) p q = absurd (omega arith)
    bits (suc (suc x)) y p q = absurd (omega arith)

xor_step : (a b : ℕ) → bit_xor a b ≡ bit_xor (a / 2) (b / 2) * 2 + (a + b) % 2
xor_step a b = omega (arith, xor_digit a b, differ_digit a b)

pub xor-half : (a b : ℕ) → bit_xor a b / 2 ≡ bit_xor (a / 2) (b / 2)
xor-half a b = omega (arith, xor_step a b)

pub xor-parity : (a b : ℕ) → bit_xor a b % 2 ≡ (a + b) % 2
xor-parity a b = omega (arith, xor_step a b)

-- Each law goes from the halves to the numbers; `n` bounds the numbers.
xor_comm_below : (n a b : ℕ) → a ≤ n → b ≤ n → bit_xor a b ≡ bit_xor b a
xor_comm_below zero zero zero p q = refl
xor_comm_below zero zero (suc b) p q = absurd (omega arith)
xor_comm_below zero (suc a) b p q = absurd (omega arith)
xor_comm_below (suc n) a b p q = omega (
  arith,
  xor_step a b,
  xor_step b a,
  xor_comm_below n (a / 2) (b / 2) (omega arith) (omega arith),
)

xor_self_below : (n a : ℕ) → a ≤ n → bit_xor a a ≡ 0
xor_self_below zero zero p = refl
xor_self_below zero (suc a) p = absurd (omega arith)
xor_self_below (suc n) a p = omega (arith, xor_step a a, xor_self_below n (a / 2) (omega arith))

xor_zero_right_below : (n a : ℕ) → a ≤ n → bit_xor a 0 ≡ a
xor_zero_right_below zero zero p = refl
xor_zero_right_below zero (suc a) p = absurd (omega arith)
xor_zero_right_below (suc n) a p =
    omega (arith, xor_step a 0, xor_zero_right_below n (a / 2) (omega arith))

xor_assoc_below :
    (n a b c : ℕ) → a ≤ n → b ≤ n → c ≤ n → bit_xor (bit_xor a b) c ≡ bit_xor a (bit_xor b c)
xor_assoc_below zero zero zero zero p q r = refl
xor_assoc_below zero zero zero (suc c) p q r = absurd (omega arith)
xor_assoc_below zero zero (suc b) c p q r = absurd (omega arith)
xor_assoc_below zero (suc a) b c p q r = absurd (omega arith)
xor_assoc_below (suc n) a b c p q r = omega (
  arith,
  rw (xor-half a b) at (xor_step (bit_xor a b) c),
  rw (xor-half b c) at (xor_step a (bit_xor b c)),
  xor-parity a b,
  xor-parity b c,
  xor_assoc_below n (a / 2) (b / 2) (c / 2) (omega arith) (omega arith) (omega arith),
)

pub xor_comm : (a b : ℕ) → bit_xor a b ≡ bit_xor b a
xor_comm a b = xor_comm_below (a + b) a b (omega arith) (omega arith)

pub xor_self : (a : ℕ) → bit_xor a a ≡ 0
xor_self a = xor_self_below a a (omega arith)

pub xor-zero : (a : ℕ) → bit_xor a 0 ≡ a
xor-zero a = xor_zero_right_below a a (omega arith)

pub zero-xor : (a : ℕ) → bit_xor 0 a ≡ a
zero-xor a = xor_comm 0 a ∙ xor-zero a

pub xor_assoc : (a b c : ℕ) → bit_xor (bit_xor a b) c ≡ bit_xor a (bit_xor b c)
xor_assoc a b c = xor_assoc_below (a + b + c) a b c (omega arith) (omega arith) (omega arith)

pub xor_cancel : (a b : ℕ) → bit_xor a (bit_xor a b) ≡ b
xor_cancel a b = sym (xor_assoc a a b) ∙ rw (xor_self a) (zero-xor b)

pub xor_left_comm : (a b c : ℕ) → bit_xor a (bit_xor b c) ≡ bit_xor b (bit_xor a c)
xor_left_comm a b c = sym (xor_assoc a b c) ∙ rw (xor_comm a b) (xor_assoc b a c)

pub xor_injective : (a b c : ℕ) → bit_xor a b ≡ bit_xor a c → b ≡ c
xor_injective a b c e = sym (xor_cancel a b) ∙ ap (bit_xor a) e ∙ xor_cancel a c

pub xor-double : (a b : ℕ) → bit_xor (a * 2) (b * 2) ≡ bit_xor a b * 2
xor-double a b =
    let ha : a * 2 / 2 ≡ a = omega arith in
    let hb : b * 2 / 2 ≡ b = omega arith in omega (arith, rw (ha, hb) at (xor_step (a * 2) (b * 2)))

div-pow-suc : (k n : ℕ) → n / 2 ^ suc k ≡ n / 2 / 2 ^ k
div-pow-suc k n = rw pow-succ' (sym (div-div-eq-div-mul n 2 (2 ^ k)))

mod-pow-suc : (k n : ℕ) → n % 2 ^ suc k ≡ n / 2 % 2 ^ k * 2 + n % 2
mod-pow-suc k n =
    let whole : 2 ^ suc k * (n / 2 ^ suc k) ≡ 2 ^ k * 2 * (n / 2 / 2 ^ k) =
      rw (div-pow-suc k n, pow-suc) in
    omega (arith, div-add-mod n (2 ^ suc k), whole, div-add-mod (n / 2) (2 ^ k))

-- A shift to the right and a low mask go under the exclusive or.
pub xor-shift : (k a b : ℕ) → bit_xor a b / 2 ^ k ≡ bit_xor (a / 2 ^ k) (b / 2 ^ k)
xor-shift zero a b = simp div-one
xor-shift (suc k) a b =
    rw (div-pow-suc k (bit_xor a b), div-pow-suc k a, div-pow-suc k b, xor-half a b)
      (xor-shift k (a / 2) (b / 2))

pub xor-low : (k a b : ℕ) → bit_xor a b % 2 ^ k ≡ bit_xor (a % 2 ^ k) (b % 2 ^ k)
xor-low zero a b = rw (mod-one (bit_xor a b), mod-one a, mod-one b)
xor-low (suc k) a b =
    let ha : a % 2 ^ suc k / 2 ≡ a / 2 % 2 ^ k = omega (arith, mod-pow-suc k a) in
    let hb : b % 2 ^ suc k / 2 ≡ b / 2 % 2 ^ k = omega (arith, mod-pow-suc k b) in
    omega (
      arith,
      mod-pow-suc k a,
      mod-pow-suc k b,
      rw (xor-half a b) at (mod-pow-suc k (bit_xor a b)),
      rw (ha, hb) at (xor_step (a % 2 ^ suc k) (b % 2 ^ suc k)),
      xor-parity a b,
      xor-low k (a / 2) (b / 2),
    )

pub xor-lt : (k a b : ℕ) → a < 2 ^ k → b < 2 ^ k → bit_xor a b < 2 ^ k
xor-lt zero a b p q =
    let ha : a ≡ 0 = omega arith in let hb : b ≡ 0 = omega arith in rw (ha, hb) (omega arith)
xor-lt (suc k) a b p q = omega (
  arith,
  pow-suc 2 k,
  xor_step a b,
  xor-lt k (a / 2) (b / 2) (omega (arith, pow-suc 2 k)) (omega (arith, pow-suc 2 k)),
)

-- A byte below a multiple of 256 is added by the exclusive or.
pub add-xor : (b m : ℕ) → b < 256 → b + 256 * m ≡ bit_xor b (256 * m)
add-xor b m h =
    let low_b : b % 2 ^ 8 ≡ b = omega arith in
    let low_m : 256 * m % 2 ^ 8 ≡ 0 = omega arith in
    let high_b : b / 2 ^ 8 ≡ 0 = omega arith in
    let high_m : 256 * m / 2 ^ 8 ≡ m = omega arith in
    omega (
      arith,
      rw (low_b, low_m, xor-zero) at (xor-low 8 b (256 * m)),
      rw (high_b, high_m, zero-xor) at (xor-shift 8 b (256 * m)),
    )

-- A test that passes at every number below `n`, by evaluation.
unfoldable pub holds_below : ℕ → (ℕ → Bool) → Bool
holds_below zero test = true
holds_below (suc n) test = test n && holds_below n test

pub holds_below-lt :
    (n : ℕ) (test : ℕ → Bool) (x : ℕ) → holds_below n test ≡ true → x < n → test x ≡ true
unfolding holds_below
holds_below-lt zero test x all h = absurd (omega arith)
holds_below-lt (suc n) test x all h = ground (arith, holds_below-lt n test x)

or_digit : (a b : ℕ) → bit_or a b ≡ bit_or (a / 2) (b / 2) * 2 + max (a % 2) (b % 2)
or_digit zero b = simp bit_or-bitwise (omega arith)
or_digit (suc a) b =
    simp bit_or-bitwise
      (omega (arith, max_fuel a (suc a / 2) (suc a / 2) (b / 2) (omega arith) (omega arith)))
  where
    max_fuel : (n m a b : ℕ) → a ≤ n → a ≤ m → digits (λ y. y) max n a b ≡ digits (λ y. y) max m a b
    max_fuel zero zero a b p q = refl
    max_fuel zero (suc m) zero b p q = refl
    max_fuel zero (suc m) (suc a) b p q = absurd (omega arith)
    max_fuel (suc n) zero zero b p q = refl
    max_fuel (suc n) zero (suc a) b p q = absurd (omega arith)
    max_fuel (suc n) (suc m) zero b p q = refl
    max_fuel (suc n) (suc m) (suc a) b p q =
        rw (max_fuel n m (suc a / 2) (b / 2) (omega arith) (omega arith))

or-zero_left : (b : ℕ) → bit_or 0 b ≡ b
or-zero_left b = simp bit_or-bitwise

or-zero_below : (n a : ℕ) → a ≤ n → bit_or a 0 ≡ a
or-zero_below zero zero p = refl
or-zero_below zero (suc a) p = absurd (omega arith)
or-zero_below (suc n) a p = omega (arith, or_digit a 0, or-zero_below n (a / 2) (omega arith))

-- Fields that do not overlap are added by the inclusive or.
pub or_add : (k a b : ℕ) → a < 2 ^ k → bit_or a (b * 2 ^ k) ≡ a + b * 2 ^ k
or_add zero a b h = let z : a ≡ 0 = omega arith in rw (z) (or-zero_left (b * 2 ^ 0) ∙ omega arith)
or_add (suc k) a b h =
    let double : b * 2 ^ suc k ≡ b * 2 ^ k * 2 =
      omega (arith, ap (λ (t : ℕ). b * t) (pow-suc 2 k)) in
    let half : b * 2 ^ k * 2 / 2 ≡ b * 2 ^ k = omega arith in
    rw double (
      omega (
        arith,
        rw half at (or_digit a (b * 2 ^ k * 2)),
        or_add k (a / 2) b (omega (arith, pow-suc 2 k)),
      ))

pub two_pow-add_eight : (k : ℕ) → 2 ^ (k + 8) ≡ 2 ^ k * 256
two_pow-add_eight k = simp towards_suc (omega arith)

pub shift_byte : (x k : ℕ) → x / 2 ^ 8 / 2 ^ k ≡ x / 2 ^ (k + 8)
shift_byte x k =
    div-div-eq-div-mul x (2 ^ 8) (2 ^ k)
    ∙ ap (λ t. x / t) {x = 2 ^ 8 * 2 ^ k} {y = 2 ^ (k + 8)} (omega (arith, two_pow-add_eight k))

pub shift-shift_byte : (x k : ℕ) → x / 2 ^ k / 2 ^ 8 ≡ x / 2 ^ (k + 8)
shift-shift_byte x k =
    div-div-eq-div-mul x (2 ^ k) (2 ^ 8)
    ∙ ap (λ t. x / t) {x = 2 ^ k * 2 ^ 8} {y = 2 ^ (k + 8)} (omega (arith, two_pow-add_eight k))
