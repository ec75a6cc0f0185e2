-- ===== src/Hdlc/Ll/Tx/Step.antt =====
-- Each round of the transmitter of src/proto/hdlc/low_level_ll.rs writes what stands next in the pending bytes.
use tinyproto_rust.Base.{
  ℕ, suc, false, Option, none, some, [], ◌∷◌, ◌≡◌, refl, arith, append-nil, Bytes,
}
use tinyproto_rust.Hdlc.Stuffing.{flag_sequence, frame_wire}
use tinyproto_rust.Hdlc.Ll.Defs.{
  HdlcLl, TxState, start_phase, data_phase, crc_phase, end_phase, calculate_crc,
}
use tinyproto_rust.Hdlc.Ll.Tx.{notify_sent, tx_send_start, tx_send_end, tx_step_in, tx_step}
use tinyproto_rust.Hdlc.Ll.Tx.Pending.{TxOk, TxOkIn, writes, rests, Steps}
use tinyproto_rust.Hdlc.Ll.Tx.DataPhase.{data-Steps}
use tinyproto_rust.Hdlc.Ll.Tx.CrcPhase.{crc-Steps}

module _ (ll : HdlcLl) (room : ℕ) where
  start-Steps :
      (o : Option Bytes)
      → ll.tx_state ≡ start_phase
      → ll.tx_data ≡ o
      → Steps (some (tx_send_start ll (suc room))) ll (suc room)
  unfolding tx_send_start frame_wire
  start-Steps none s d = (
    [],
    ll,
    ground arith,
    record {
      emitted = refl;
      ok = ground arith;
      fits = omega arith;
      kept = refl;
      moves = rests refl refl (ground arith);
    },
  )
  start-Steps (some frame) s d = (
    flag_sequence ∷ [],
    record ll {
      tx_crc = calculate_crc ll.crc_type frame;
      tx_state = data_phase;
      tx_pos = 0;
      tx_escape = false;
    },
    ground arith,
    record {
      emitted = ground arith;
      ok = ground arith;
      fits = omega arith;
      kept = refl;
      moves = writes (omega arith);
    },
  )

  end-Steps :
      (frame : Bytes)
      → ll.tx_state ≡ end_phase
      → ll.tx_data ≡ some frame
      → Steps (some (tx_send_end ll (suc room))) ll (suc room)
  unfolding tx_send_end
  end-Steps frame s d = (
    flag_sequence ∷ [],
    notify_sent (some frame) (record ll { tx_state = start_phase; tx_escape = false }),
    ground arith,
    record {
      emitted = ground arith;
      ok = tt;
      fits = omega arith;
      kept = rw d (append-nil _);
      moves = writes (omega arith);
    },
  )

  -- The round in each phase.
  step_in-Steps :
      (state : TxState) (o : Option Bytes)
      → ll.tx_state ≡ state
      → ll.tx_data ≡ o
      → TxOkIn state o ll
      → Steps (tx_step_in state ll (suc room)) ll (suc room)
  step_in-Steps start_phase o s d ok = start-Steps o s d
  step_in-Steps data_phase none s d ok = absurd ok
  step_in-Steps data_phase (some frame) s d ok = data-Steps ll room frame _ _ s d refl refl ok
  step_in-Steps crc_phase none s d ok = absurd ok
  step_in-Steps crc_phase (some frame) s d ok = crc-Steps ll room frame s d ok.0 ok.1
  step_in-Steps end_phase none s d ok = absurd ok
  step_in-Steps end_phase (some frame) s d ok = end-Steps frame s d

  pub step-Steps : TxOk ll → Steps (tx_step ll (suc room)) ll (suc room)
  unfolding tx_step
  step-Steps ok = step_in-Steps ll.tx_state ll.tx_data refl refl ok
