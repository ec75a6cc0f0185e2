-- ===== src/Hdlc/Ll/Rx/Corrupt.antt =====
-- The receiver of src/proto/hdlc/low_level_ll.rs on a frame that was changed on its way.
use tinyproto_rust.Base.{
  ℕ, ◌+◌, ◌-◌, ◌*◌, ◌^◌, ◌≤◌, ◌<◌, false, some, ◌++◌, ◌≡◌, ◌≢◌, refl, sym, ap, ◌∙◌, arith, Bytes,
  IsBytes, IsBytes-append, length, length-append, take, take-length-append, ◌==◌, ltb,
}
use tinyproto_rust.Crc.{hdlc_crc16, hdlc_crc32, get_crc_field_size}
use tinyproto_rust.Crc.Crc16
use tinyproto_rust.Crc.Crc32
use tinyproto_rust.Crc.Burst.{crc16-burst, crc32-burst, checksum16-lt, checksum32-lt}
use tinyproto_rust.Error.{wrong_crc}
use tinyproto_rust.Hdlc.Stuffing.{le_bytes}
use tinyproto_rust.Hdlc.Ll.Defs.{HdlcLl, calculate_crc}
use tinyproto_rust.Hdlc.Ll.Rx.{read_crc_loop, read_crc_from_buffer, rx_check}
use tinyproto_rust.Hdlc.Ll.Rx.Check.{length-le_bytes, read_crc_loop-le_bytes}

read_back :
    (ll : HdlcLl) (payload : Bytes) (crc : ℕ)
    → 0 < get_crc_field_size ll.crc_type
    → crc < 2 ^ (8 * get_crc_field_size ll.crc_type)
    → ll.rx_buf ≡ payload ++ le_bytes (get_crc_field_size ll.crc_type) crc
    → read_crc_from_buffer ll (length payload) ≡ crc
unfolding read_crc_from_buffer
read_back ll payload crc on lt e =
    let size = get_crc_field_size ll.crc_type in
    let on' : (size == 0) ≡ false = ground arith in
    rw on' (
      ap (λ b. read_crc_loop b (length payload) 0 size 0) e
      ∙ read_crc_loop-le_bytes payload size crc lt)

-- A buffer whose check sequence is not that of its payload is refused.
rx_check-rejects :
    (ll : HdlcLl) (payload : Bytes) (crc : ℕ)
    → 0 < get_crc_field_size ll.crc_type
    → crc < 2 ^ (8 * get_crc_field_size ll.crc_type)
    → ll.rx_buf ≡ payload ++ le_bytes (get_crc_field_size ll.crc_type) crc
    → length ll.rx_buf ≤ ll.phys_mtu
    → calculate_crc ll.crc_type payload ≢ crc
    → rx_check ll ≡ (ll, some wrong_crc)
unfolding rx_check
rx_check-rejects ll payload crc on lt e fits differ =
    let size = get_crc_field_size ll.crc_type in
    let len : length ll.rx_buf ≡ length payload + size =
      ap length e
      ∙ omega (arith, length-append {0} payload (le_bytes size crc), length-le_bytes size crc) in
    let small : ltb ll.phys_mtu (length ll.rx_buf) ≡ false = ground arith in
    let long : ltb (length ll.rx_buf) size ≡ false = ground arith in
    let front : length ll.rx_buf - size ≡ length payload = omega (arith, len) in
    let kept : take (length payload) ll.rx_buf ≡ payload =
      ap (take (length payload)) e ∙ take-length-append payload (le_bytes size crc) in
    let wrong : (calculate_crc ll.crc_type payload == crc) ≡ false = ground arith in
    rw (small, rx_check, long, front, kept, read_back ll payload crc on lt e, wrong) refl

-- With `HdlcCrc16` the receiver refuses every frame that fits its buffer and in which the payload was
-- changed within two bytes next to each other: the check reports `WrongCrc` and delivers nothing.
pub rx_check-burst16 :
    (ll : HdlcLl) (pre us vs post : Bytes)
    → ll.crc_type ≡ hdlc_crc16
    → IsBytes pre
    → IsBytes us
    → IsBytes vs
    → IsBytes post
    → length us ≡ length vs
    → length us ≤ 2
    → us ≢ vs
    → ll.rx_buf ≡ (pre ++ vs ++ post) ++ le_bytes 2 (Crc16.checksum (pre ++ us ++ post))
    → length ll.rx_buf ≤ ll.phys_mtu
    → rx_check ll ≡ (ll, some wrong_crc)
unfolding calculate_crc
rx_check-burst16 ll pre us vs post t hp hu hv hq l short differ e fits =
    let size : get_crc_field_size ll.crc_type ≡ 2 = ap get_crc_field_size t in
    let sent = pre ++ us ++ post in
    let lt =
      checksum16-lt sent (IsBytes-append (pre ++ us) post (IsBytes-append pre us hp hu) hq) in
    rx_check-rejects ll (pre ++ vs ++ post) (Crc16.checksum sent) (omega (arith, size)) (rw size lt)
      (rw size e) fits
      (λ same. differ (
        crc16-burst pre us vs post hp hu hv hq l short
          (sym same ∙ ap (λ u. calculate_crc u (pre ++ vs ++ post)) t)))

-- With `HdlcCrc32` the receiver refuses every frame that fits its buffer and in which the payload was
-- changed within four bytes in a row: the check reports `WrongCrc` and delivers nothing.
pub rx_check-burst32 :
    (ll : HdlcLl) (pre us vs post : Bytes)
    → ll.crc_type ≡ hdlc_crc32
    → IsBytes pre
    → IsBytes us
    → IsBytes vs
    → IsBytes post
    → length us ≡ length vs
    → length us ≤ 4
    → us ≢ vs
    → ll.rx_buf ≡ (pre ++ vs ++ post) ++ le_bytes 4 (Crc32.checksum (pre ++ us ++ post))
    → length ll.rx_buf ≤ ll.phys_mtu
    → rx_check ll ≡ (ll, some wrong_crc)
unfolding calculate_crc
rx_check-burst32 ll pre us vs post t hp hu hv hq l short differ e fits =
    let size : get_crc_field_size ll.crc_type ≡ 4 = ap get_crc_field_size t in
    let sent = pre ++ us ++ post in
    let lt =
      checksum32-lt sent (IsBytes-append (pre ++ us) post (IsBytes-append pre us hp hu) hq) in
    rx_check-rejects ll (pre ++ vs ++ post) (Crc32.checksum sent) (omega (arith, size)) (rw size lt)
      (rw size e) fits
      (λ same. differ (
        crc32-burst pre us vs post hp hu hv hq l short
          (sym same ∙ ap (λ u. calculate_crc u (pre ++ vs ++ post)) t)))
