-- ===== src/Hdlc/Ll/Tx/DataPhase.antt =====
-- The rounds of the transmitter in its data phase (src/proto/hdlc/low_level_ll.rs) write what stands next in the
-- pending bytes.
use tinyproto_rust.Base.{
  ℕ, zero, suc, ◌+◌, ◌≤◌, ◌<◌, bit_xor, Bool, true, false, some, [], ◌∷◌, ◌++◌, ◌≡◌, refl, sym, ap,
  ◌∙◌, arith, append_assoc, inl, inr, Bool-cases, Bytes, length, drop, drop-drop, get_elem?-drop,
}
use tinyproto_rust.Hdlc.Stuffing.{flag_sequence, escape_char, escape_bit, is_special, stuff_all}
use tinyproto_rust.Hdlc.Ll.Defs.{HdlcLl, data_phase, crc_phase}
use tinyproto_rust.Hdlc.Ll.Tx.{plain_run, tx_send_data}
use tinyproto_rust.Hdlc.Ll.Tx.Pending.{check_bytes, EscapeOk, writes, advances, Steps}

-- A run of ordinary bytes stands for itself on the wire.
stuff_all-plain_run :
    (room : ℕ) (bs : Bytes)
    → stuff_all bs ≡ plain_run room bs ++ stuff_all (drop (length (plain_run room bs)) bs)
unfolding plain_run stuff_all
stuff_all-plain_run zero bs = refl
stuff_all-plain_run (suc room) [] = refl
stuff_all-plain_run (suc room) (b ∷ bs) = ground (arith, stuff_all-plain_run room bs)

length-plain_run : (room : ℕ) (bs : Bytes) → length (plain_run room bs) ≤ room
unfolding plain_run
length-plain_run zero bs = omega arith
length-plain_run (suc room) [] = omega arith
length-plain_run (suc room) (b ∷ bs) = ground (arith, length-plain_run room bs)

plain_run-pos :
    (room b : ℕ) (bs : Bytes) → is_special b ≡ false → 0 < length (plain_run (suc room) (b ∷ bs))
unfolding plain_run
plain_run-pos room b bs e = rw e (omega arith)

module _ (ll : HdlcLl) (room : ℕ) where
  -- The end of the frame.
  data_done-Steps :
      (frame : Bytes)
      → ll.tx_state ≡ data_phase
      → ll.tx_data ≡ some frame
      → drop ll.tx_pos frame ≡ []
      → ll.tx_escape ≡ false
      → Steps (tx_send_data ll (suc room)) ll (suc room)
  unfolding tx_send_data stuff_all
  data_done-Steps frame s d hr he = (
    [],
    record ll { tx_state = crc_phase; tx_crc_bits_sent = 0; tx_escape = false },
    rw (d, get_elem?-drop ll.tx_pos frame, hr) (ground arith),
    record {
      emitted = rw (s, d, hr, he) refl;
      ok = rw d (refl, tt);
      fits = omega arith;
      kept = refl;
      moves = advances refl (rw s (omega arith));
    },
  )

  -- A byte that is escaped goes out in two rounds.
  data_special-Steps :
      (frame : Bytes) (b : ℕ) (bs : Bytes) (escape : Bool)
      → ll.tx_state ≡ data_phase
      → ll.tx_data ≡ some frame
      → drop ll.tx_pos frame ≡ b ∷ bs
      → ll.tx_escape ≡ escape
      → is_special b ≡ true
      → Steps (tx_send_data ll (suc room)) ll (suc room)
  unfolding tx_send_data stuff_all
  data_special-Steps frame b bs false s d hr he sp = (
    escape_char ∷ [],
    record ll { tx_escape = true },
    rw (d, get_elem?-drop ll.tx_pos frame, hr) (ground arith),
    record {
      emitted = rw (s, d, hr, he, sp) refl;
      ok = rw (s, d, hr) sp;
      fits = omega arith;
      kept = refl;
      moves = writes (omega arith);
    },
  )
  data_special-Steps frame b bs true s d hr he sp = (
    bit_xor b escape_bit ∷ [],
    record ll { tx_escape = false; tx_pos = ll.tx_pos + 1 },
    rw (d, get_elem?-drop ll.tx_pos frame, hr) (ground arith),
    record {
      emitted = rw (s, d, sym (drop-drop ll.tx_pos 1 frame), hr, he, sp) refl;
      ok = rw (s, d) tt;
      fits = omega arith;
      kept = refl;
      moves = writes (omega arith);
    },
  )

  -- Ordinary bytes go out as far as the room allows.
  data_plain-Steps :
      (frame : Bytes) (b : ℕ) (bs : Bytes)
      → ll.tx_state ≡ data_phase
      → ll.tx_data ≡ some frame
      → drop ll.tx_pos frame ≡ b ∷ bs
      → ll.tx_escape ≡ false
      → is_special b ≡ false
      → Steps (tx_send_data ll (suc room)) ll (suc room)
  unfolding tx_send_data
  data_plain-Steps frame b bs s d hr he sp =
      let run = plain_run (suc room) (b ∷ bs) in
      let tail = stuff_all (check_bytes ll) ++ flag_sequence ∷ [] in
      (
        run,
        record ll { tx_pos = ll.tx_pos + length run },
        rw (d, get_elem?-drop ll.tx_pos frame, hr) (ground arith),
        record {
          emitted =
              rw (s, d, sym (drop-drop ll.tx_pos (length run) frame), hr, he)
                (ap (λ t. t ++ tail) (stuff_all-plain_run (suc room) (b ∷ bs))
                  ∙ append_assoc run _ tail);
          ok = rw (s, d, he) tt;
          fits = length-plain_run (suc room) (b ∷ bs);
          kept = refl;
          moves = writes (plain_run-pos room b bs sp);
        },
      )

  pub data-Steps :
      (frame : Bytes) (rest : Bytes) (escape : Bool)
      → ll.tx_state ≡ data_phase
      → ll.tx_data ≡ some frame
      → drop ll.tx_pos frame ≡ rest
      → ll.tx_escape ≡ escape
      → EscapeOk escape rest
      → Steps (tx_send_data ll (suc room)) ll (suc room)
  data-Steps frame [] false s d hr he h = data_done-Steps frame s d hr he
  data-Steps frame [] true s d hr he h = absurd h
  data-Steps frame (b ∷ bs) true s d hr he h = data_special-Steps frame b bs true s d hr he h
  data-Steps frame (b ∷ bs) false s d hr he h = elim (Bool-cases (is_special b)) [
    | inl sp ↦ data_special-Steps frame b bs false s d hr he sp
    | inr sp ↦ data_plain-Steps frame b bs s d hr he sp
  ]
