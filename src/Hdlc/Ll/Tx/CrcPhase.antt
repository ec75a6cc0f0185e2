-- ===== src/Hdlc/Ll/Tx/CrcPhase.antt =====
-- The rounds of the transmitter in the phase of the check sequence (src/proto/hdlc/low_level_ll.rs) write what stands
-- next in the pending bytes.
use native.Mathlib.Decide.{dec_lt}
use tinyproto_rust.Base.{
  ℕ, suc, ◌+◌, ◌*◌, ◌/◌, ◌%◌, bit_xor, Bool, true, false, some, [], ◌∷◌, ◌≡◌, refl, sym, ap, arith,
  inl, inr, leb, Bool-cases, u8, ◌>>>◌, Bytes, drop,
}
use tinyproto_rust.Crc.{get_crc_field_size}
use tinyproto_rust.Hdlc.Stuffing.{
  escape_char, escape_bit, is_special, stuff_all, le_bytes-drop, le_bytes-drop_past,
}
use tinyproto_rust.Hdlc.Ll.Defs.{HdlcLl, crc_phase, end_phase}
use tinyproto_rust.Hdlc.Ll.Tx.{tx_send_crc}
use tinyproto_rust.Hdlc.Ll.Tx.Pending.{check_bytes, EscapeOk, writes, advances, Steps}

no_escape : (escape : Bool) → EscapeOk escape [] → escape ≡ false
no_escape false h = refl
no_escape true h = absurd h

module _ (ll : HdlcLl) (room : ℕ) where
  crc_done-Steps :
      (frame : Bytes)
      → ll.tx_state ≡ crc_phase
      → ll.tx_data ≡ some frame
      → leb (get_crc_field_size ll.crc_type * 8) ll.tx_crc_bits_sent ≡ true
      → drop (ll.tx_crc_bits_sent / 8) (check_bytes ll) ≡ []
      → ll.tx_escape ≡ false
      → Steps (some (tx_send_crc ll (suc room))) ll (suc room)
  unfolding tx_send_crc stuff_all
  crc_done-Steps frame s d past hr he = (
    [],
    record ll { tx_state = end_phase },
    rw past (ground arith),
    record {
      emitted = rw (s, hr, he) refl;
      ok = rw d tt;
      fits = omega arith;
      kept = refl;
      moves = advances refl (rw s (omega arith));
    },
  )

  crc_byte-Steps :
      (frame : Bytes) (b : ℕ) (bs : Bytes) (escape : Bool)
      → ll.tx_state ≡ crc_phase
      → ll.tx_data ≡ some frame
      → leb (get_crc_field_size ll.crc_type * 8) ll.tx_crc_bits_sent ≡ false
      → u8 (ll.tx_crc >>> ll.tx_crc_bits_sent) ≡ b
      → ll.tx_crc_bits_sent % 8 ≡ 0
      → drop (ll.tx_crc_bits_sent / 8) (check_bytes ll) ≡ b ∷ bs
      → drop ((ll.tx_crc_bits_sent + 8) / 8) (check_bytes ll) ≡ bs
      → ll.tx_escape ≡ escape
      → EscapeOk escape (b ∷ bs)
      → Steps (some (tx_send_crc ll (suc room))) ll (suc room)
  unfolding tx_send_crc stuff_all
  crc_byte-Steps frame b bs true s d more hb m hr hn he h = (
    bit_xor b escape_bit ∷ [],
    record ll { tx_escape = false; tx_crc_bits_sent = ll.tx_crc_bits_sent + 8 },
    rw (more, hb) (ground arith),
    record {
      emitted = rw (s, hr, he, hn, h) refl;
      ok = rw (s, d) (omega arith, tt);
      fits = omega arith;
      kept = refl;
      moves = writes (omega arith);
    },
  )
  crc_byte-Steps frame b bs false s d more hb m hr hn he h = elim (Bool-cases (is_special b)) [
    | inl sp ↦ (
      escape_char ∷ [],
      record ll { tx_escape = true },
      rw (more, hb) (ground arith),
      record {
        emitted = rw (s, hr, he, sp) refl;
        ok = rw (s, d, hr) (m, sp);
        fits = omega arith;
        kept = refl;
        moves = writes (omega arith);
      },
    )
    | inr sp ↦ (
      b ∷ [],
      record ll { tx_crc_bits_sent = ll.tx_crc_bits_sent + 8 },
      rw (more, hb) (ground arith),
      record {
        emitted = rw (s, hr, he, hn, sp) refl;
        ok = rw (s, d, he) (omega arith, tt);
        fits = omega arith;
        kept = refl;
        moves = writes (omega arith);
      },
    )
  ]

  pub crc-Steps :
      (frame : Bytes)
      → ll.tx_state ≡ crc_phase
      → ll.tx_data ≡ some frame
      → ll.tx_crc_bits_sent % 8 ≡ 0
      → EscapeOk ll.tx_escape (drop (ll.tx_crc_bits_sent / 8) (check_bytes ll))
      → Steps (some (tx_send_crc ll (suc room))) ll (suc room)
  crc-Steps frame s d m h =
      let size = get_crc_field_size ll.crc_type in
      let index = ll.tx_crc_bits_sent / 8 in
      elim (dec_lt index size) [
        | yes more ↦
            let left = le_bytes-drop size index ll.tx_crc more in
            let bits : 8 * index ≡ ll.tx_crc_bits_sent = omega arith in
            crc_byte-Steps frame _ _ ll.tx_escape s d (ground arith)
              (ap (λ k. u8 (ll.tx_crc >>> k)) (sym bits)) m left
              (ap (λ k. drop k (check_bytes ll)) {x = (ll.tx_crc_bits_sent + 8) / 8} {y = suc index}
                (omega arith))
              refl (rw left at h)
        | no past ↦
            let left = le_bytes-drop_past size index ll.tx_crc (omega arith) in
            crc_done-Steps frame s d (ground arith) left (no_escape ll.tx_escape (rw left at h))
      ]
