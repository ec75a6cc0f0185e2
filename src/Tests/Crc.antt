-- ===== src/Tests/Crc.antt =====
-- src/proto/crc.rs on concrete inputs.
use tinyproto_rust.Base.{bit_xor, [], ◌∷◌, Bytes, ◌≡◌, refl, arith}
use tinyproto_rust.Crc.Crc16
use tinyproto_rust.Crc.Crc32
use tinyproto_rust.Crc.Register.{feed}
use tinyproto_rust.Crc.Serial.{poly16, poly32, crc16-feed, crc32-feed}
use tinyproto_rust.Crc.Burst.{crc16-burst, crc32-burst, crc16-residue}

abbrev digits : Bytes
digits = 0x31 ∷ 0x32 ∷ 0x33 ∷ 0x34 ∷ 0x35 ∷ 0x36 ∷ 0x37 ∷ 0x38 ∷ 0x39 ∷ []

-- The check values that catalogues give for these two checksums.
digits16 : Crc16.checksum digits ≡ 0x906e
unfolding Crc16.new Crc16.sum_bytes Crc16.get
digits16 = refl

digits32 : Crc32.checksum digits ≡ 0xcbf43926
unfolding Crc32.new Crc32.sum_bytes Crc32.get
digits32 = refl

crc16-feed_example : Crc16.checksum (1 ∷ 2 ∷ []) ≡ bit_xor (feed poly16 0xffff (1 ∷ 2 ∷ [])) 0xffff
crc16-feed_example = crc16-feed (1 ∷ 2 ∷ []) (omega arith, (omega arith, tt))

crc32-feed_example :
    Crc32.checksum (1 ∷ 2 ∷ []) ≡ bit_xor (feed poly32 0xffffffff (1 ∷ 2 ∷ [])) 0xffffffff
crc32-feed_example = crc32-feed (1 ∷ 2 ∷ []) (omega arith, (omega arith, tt))

crc16-burst_example : ◌≡◌ {A = Bytes} (2 ∷ 3 ∷ []) (2 ∷ 3 ∷ [])
crc16-burst_example =
    crc16-burst (1 ∷ []) (2 ∷ 3 ∷ []) (2 ∷ 3 ∷ []) (4 ∷ []) (omega arith, tt)
      (omega arith, (omega arith, tt)) (omega arith, (omega arith, tt)) (omega arith, tt) refl
      (omega arith) refl

crc32-burst_example : ◌≡◌ {A = Bytes} (2 ∷ 3 ∷ []) (2 ∷ 3 ∷ [])
crc32-burst_example =
    crc32-burst (1 ∷ []) (2 ∷ 3 ∷ []) (2 ∷ 3 ∷ []) (4 ∷ []) (omega arith, tt)
      (omega arith, (omega arith, tt)) (omega arith, (omega arith, tt)) (omega arith, tt) refl
      (omega arith) refl

crc16-residue_example : Crc16.checksum (1 ∷ 2 ∷ 141 ∷ 53 ∷ []) ≡ bit_xor 0xf0b8 0xffff
unfolding Crc16.new Crc16.sum_bytes Crc16.get
crc16-residue_example =
    crc16-residue (1 ∷ 2 ∷ []) (141 ∷ 53 ∷ []) (omega arith, (omega arith, tt))
      (omega arith, (omega arith, tt)) refl refl
