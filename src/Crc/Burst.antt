-- ===== src/Crc/Burst.antt =====
-- What the CRC-16 and CRC-32 of src/proto/crc.rs detect, and the constant that they leave behind.
use native.Mathlib.Nat.{le_trans, pow-le-pow_right}
use tinyproto_rust.Base.{
  ℕ, suc, ◌*◌, ◌≤◌, ◌<◌, ◌^◌, bit_xor, [], ◌∷◌, ◌++◌, ◌≡◌, sym, ap, ◌∙◌, arith, Bytes, IsBytes,
  IsBytes-append, length,
}
use tinyproto_rust.Base.Bits.{xor-lt, xor_injective, xor_comm, xor_cancel}
use tinyproto_rust.Crc.Register.{
  rounds, rounds_injective, rounds-lt, feed, feed-append, feed-le_value, le_value,
  le_value_injective, le_value-lt,
}
use tinyproto_rust.Crc.Serial.{poly16, poly32, crc16-feed, crc32-feed}
use tinyproto_rust.Crc.Crc8
use tinyproto_rust.Crc.Crc16
use tinyproto_rust.Crc.Crc16.{init_fcs16}
use tinyproto_rust.Crc.Crc32
use tinyproto_rust.Crc.Crc32.{init_fcs32}

module _ (poly v : ℕ) (top : 2 ^ v ≤ poly) (fits : poly < 2 ^ suc v)
    (wide : 2 ^ 8 ≤ 2 ^ suc v) where
  round-lt : (c byte : ℕ) → c < 2 ^ suc v → byte < 256 → rounds poly 8 (bit_xor c byte) < 2 ^ suc v
  round-lt c byte hc hb =
      rounds-lt poly v top fits 8 (bit_xor c byte) (xor-lt (suc v) c byte hc (omega arith))

  feed-lt : (c : ℕ) (bs : Bytes) → c < 2 ^ suc v → IsBytes bs → feed poly c bs < 2 ^ suc v
  unfolding feed
  feed-lt c [] hc hb = hc
  feed-lt c (b ∷ bs) hc hb = feed-lt (rounds poly 8 (bit_xor c b)) bs (round-lt c b hc hb.0) hb.1

  -- What follows a difference does not undo it.
  feed_start_injective :
      (c d : ℕ) (bs : Bytes)
      → c < 2 ^ suc v
      → d < 2 ^ suc v
      → IsBytes bs
      → feed poly c bs ≡ feed poly d bs
      → c ≡ d
  unfolding feed
  feed_start_injective c d [] hc hd hb e = e
  feed_start_injective c d (b ∷ bs) hc hd hb e =
      let rounded =
        feed_start_injective (rounds poly 8 (bit_xor c b)) (rounds poly 8 (bit_xor d b)) bs
          (round-lt c b hc hb.0) (round-lt d b hd hb.0) hb.1 e in
      let mixed =
        rounds_injective poly v top fits 8 (bit_xor c b) (bit_xor d b)
          (xor-lt (suc v) c b hc (omega arith)) (xor-lt (suc v) d b hd (omega arith)) rounded in
      xor_injective b c d (xor_comm b c ∙ mixed ∙ xor_comm d b)

  window-lt :
      (c : ℕ) (us : Bytes)
      → c < 2 ^ suc v
      → IsBytes us
      → 8 * length us ≤ suc v
      → bit_xor c (le_value us) < 2 ^ suc v
  window-lt c us hc hu fit =
      xor-lt (suc v) c (le_value us) hc
        (le_trans (le_value-lt us hu) (pow-le-pow_right (omega arith) fit))

  -- Two windows that fit the register leave it in one state only if they are equal.
  feed_injective :
      (c : ℕ) (us vs : Bytes)
      → c < 2 ^ suc v
      → IsBytes us
      → IsBytes vs
      → length us ≡ length vs
      → 8 * length us ≤ suc v
      → feed poly c us ≡ feed poly c vs
      → us ≡ vs
  feed_injective c us vs hc hu hv l fit e =
      let entered : rounds poly (8 * length us) (bit_xor c (le_value us))
          ≡ rounds poly (8 * length us) (bit_xor c (le_value vs)) =
        sym (feed-le_value poly c us hu)
        ∙ e
        ∙ feed-le_value poly c vs hv
        ∙ ap (λ n. rounds poly (8 * n) (bit_xor c (le_value vs))) (sym l) in
      le_value_injective us vs hu hv l (
        xor_injective c (le_value us) (le_value vs) (
          rounds_injective poly v top fits (8 * length us) _ _ (window-lt c us hc hu fit)
            (window-lt c vs hc hv (omega arith)) entered))

  -- A changed window of at most the register's width always changes the result.
  pub burst :
      (c : ℕ) (pre us vs post : Bytes)
      → c < 2 ^ suc v
      → IsBytes pre
      → IsBytes us
      → IsBytes vs
      → IsBytes post
      → length us ≡ length vs
      → 8 * length us ≤ suc v
      → feed poly c (pre ++ us ++ post) ≡ feed poly c (pre ++ vs ++ post)
      → us ≡ vs
  burst c pre us vs post hc hp hu hv hq l fit e =
      let start = feed-lt c pre hc hp in
      let parts : (ws : Bytes)
          → feed poly c (pre ++ ws ++ post) ≡ feed poly (feed poly (feed poly c pre) ws) post =
        λ ws.
          feed-append poly c (pre ++ ws) post
          ∙ ap (λ t. feed poly t post) (feed-append poly c pre ws) in
      feed_injective (feed poly c pre) us vs start hu hv l fit (
        feed_start_injective _ _ post (feed-lt _ us start hu) (feed-lt _ vs start hv) hq
          (sym (parts us) ∙ e ∙ parts vs))

-- The check sequence of a message, sent low byte first behind the message, leaves one constant.
residue :
    (poly c ones : ℕ) (bs check : Bytes)
    → IsBytes bs
    → IsBytes check
    → le_value check ≡ bit_xor (feed poly c bs) ones
    → feed poly c (bs ++ check) ≡ rounds poly (8 * length check) ones
residue poly c ones bs check hb hc e =
    feed-append poly c bs check
    ∙ feed-le_value poly (feed poly c bs) check hc
    ∙ ap (rounds poly (8 * length check)) (ap (bit_xor (feed poly c bs)) e ∙ xor_cancel _ ones)

-- `Crc16` detects every burst: of two slices of one length that differ only within a window of
-- at most 2 bytes, the checksums are equal only if the slices are.
pub crc16-burst :
    (pre us vs post : Bytes)
    → IsBytes pre
    → IsBytes us
    → IsBytes vs
    → IsBytes post
    → length us ≡ length vs
    → length us ≤ 2
    → Crc16.checksum (pre ++ us ++ post) ≡ Crc16.checksum (pre ++ vs ++ post)
    → us ≡ vs
crc16-burst pre us vs post hp hu hv hq l fit e =
    let joined : (ws : Bytes) → IsBytes ws → IsBytes (pre ++ ws ++ post) =
      λ ws hw. IsBytes-append (pre ++ ws) post (IsBytes-append pre ws hp hw) hq in
    burst poly16 15 (omega arith) (omega arith) (omega arith) init_fcs16 pre us vs post
      (omega arith) hp hu hv hq l (omega arith)
      (xor_injective init_fcs16 _ _ (
        xor_comm init_fcs16 _
        ∙ sym (crc16-feed _ (joined us hu))
        ∙ e
        ∙ crc16-feed _ (joined vs hv)
        ∙ xor_comm _ init_fcs16))

-- The receiver's check: a slice followed by its own `Crc16`, low byte first, has a checksum that
-- does not depend on the slice.
pub crc16-residue :
    (bs check : Bytes)
    → IsBytes bs
    → IsBytes check
    → length check ≡ 2
    → le_value check ≡ Crc16.checksum bs
    → Crc16.checksum (bs ++ check) ≡ bit_xor 0xf0b8 0xffff
unfolding rounds
crc16-residue bs check hb hc l e =
    crc16-feed (bs ++ check) (IsBytes-append bs check hb hc)
    ∙ ap (λ t. bit_xor t init_fcs16)
        (residue poly16 init_fcs16 init_fcs16 bs check hb hc (e ∙ crc16-feed bs hb)
          ∙ ap (λ n. rounds poly16 (8 * n) init_fcs16) l)

-- `Crc32` detects every burst: of two slices of one length that differ only within a window of
-- at most 4 bytes, the checksums are equal only if the slices are.
pub crc32-burst :
    (pre us vs post : Bytes)
    → IsBytes pre
    → IsBytes us
    → IsBytes vs
    → IsBytes post
    → length us ≡ length vs
    → length us ≤ 4
    → Crc32.checksum (pre ++ us ++ post) ≡ Crc32.checksum (pre ++ vs ++ post)
    → us ≡ vs
crc32-burst pre us vs post hp hu hv hq l fit e =
    let joined : (ws : Bytes) → IsBytes ws → IsBytes (pre ++ ws ++ post) =
      λ ws hw. IsBytes-append (pre ++ ws) post (IsBytes-append pre ws hp hw) hq in
    burst poly32 31 (omega arith) (omega arith) (omega arith) init_fcs32 pre us vs post
      (omega arith) hp hu hv hq l (omega arith)
      (xor_injective init_fcs32 _ _ (
        xor_comm init_fcs32 _
        ∙ sym (crc32-feed _ (joined us hu))
        ∙ e
        ∙ crc32-feed _ (joined vs hv)
        ∙ xor_comm _ init_fcs32))

-- The receiver's check: a slice followed by its own `Crc32`, low byte first, has a checksum that
-- does not depend on the slice.
crc32-residue :
    (bs check : Bytes)
    → IsBytes bs
    → IsBytes check
    → length check ≡ 4
    → le_value check ≡ Crc32.checksum bs
    → Crc32.checksum (bs ++ check) ≡ bit_xor 0xdebb20e3 0xffffffff
unfolding rounds
crc32-residue bs check hb hc l e =
    crc32-feed (bs ++ check) (IsBytes-append bs check hb hc)
    ∙ ap (λ t. bit_xor t init_fcs32)
        (residue poly32 init_fcs32 init_fcs32 bs check hb hc (e ∙ crc32-feed bs hb)
          ∙ ap (λ n. rounds poly32 (8 * n) init_fcs32) l)

pub checksum8-lt : (bs : Bytes) → Crc8.checksum bs < 2 ^ 8
unfolding Crc8.get
checksum8-lt bs = omega arith

pub checksum16-lt : (bs : Bytes) → IsBytes bs → Crc16.checksum bs < 2 ^ 16
checksum16-lt bs h = rw (crc16-feed bs h) (
    xor-lt 16 _ init_fcs16
      (feed-lt poly16 15 (omega arith) (omega arith) (omega arith) init_fcs16 bs (omega arith) h)
      (omega arith))

pub checksum32-lt : (bs : Bytes) → IsBytes bs → Crc32.checksum bs < 2 ^ 32
checksum32-lt bs h = rw (crc32-feed bs h) (
    xor-lt 32 _ init_fcs32
      (feed-lt poly32 31 (omega arith) (omega arith) (omega arith) init_fcs32 bs (omega arith) h)
      (omega arith))
