-- ===== src/Crc/Table.antt =====
-- Looking a byte up in a remainder table is the same as eight rounds of the register.
use tinyproto_rust.Base.{
  ℕ, ◌/◌, ◌%◌, ◌*◌, ◌<◌, ◌^◌, bit_and, bit_xor, true, ◌≡◌, refl, sym, ap, ◌∙◌, arith, ◌==◌, ==_iff,
}
use tinyproto_rust.Base.Bits.{add-xor, holds_below, holds_below-lt, xor-lt, xor_assoc, xor_comm}
use tinyproto_rust.Crc.Register.{rounds, rounds-xor, rounds-times}

byte_mask_table : holds_below 256 (λ x. bit_and x 0xff == x) ≡ true
unfolding holds_below
byte_mask_table = refl

byte_mask : (x : ℕ) → x < 256 → bit_and x 0xff ≡ x
byte_mask x h = (==_iff _ x).0 (holds_below-lt 256 _ x byte_mask_table h)

-- The table's entries, checked one by one.
abbrev pub Tabulates : ℕ → (ℕ → ℕ) → Type 0
Tabulates poly entry = holds_below 256 (λ i. entry i == rounds poly 8 i) ≡ true

module _ (poly : ℕ) (entry : ℕ → ℕ) (tabulates : Tabulates poly entry) where
  entry-rounds : (i : ℕ) → i < 256 → entry i ≡ rounds poly 8 i
  entry-rounds i h = (==_iff _ (rounds poly 8 i)).0 (holds_below-lt 256 _ i tabulates h)

  pub lookup-rounds :
      (c byte : ℕ)
      → byte < 256
      → bit_xor (c / 2 ^ 8) (entry (bit_and (bit_xor (c % 2 ^ 8) byte) 0xff))
        ≡ rounds poly 8 (bit_xor c byte)
  lookup-rounds c byte h =
      let low = xor-lt 8 (c % 2 ^ 8) byte (omega arith) (omega arith) in
      let split : bit_xor (c % 2 ^ 8) (256 * (c / 2 ^ 8)) ≡ c =
        sym (add-xor (c % 2 ^ 8) (c / 2 ^ 8) (omega arith)) ∙ omega arith in
      let regroup : bit_xor (256 * (c / 2 ^ 8)) (bit_xor (c % 2 ^ 8) byte) ≡ bit_xor c byte =
        sym (xor_assoc _ _ byte) ∙ ap (λ t. bit_xor t byte) (xor_comm _ _ ∙ split) in
      rw (byte_mask _ low, entry-rounds _ low, sym (rounds-times poly 8 (c / 2 ^ 8)))
        (sym (rounds-xor poly 8 (256 * (c / 2 ^ 8)) (bit_xor (c % 2 ^ 8) byte))
          ∙ ap (rounds poly 8) regroup)
