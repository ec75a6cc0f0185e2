-- ===== src/Hdlc/Ll/Rx/Steady.antt =====
-- What a call of `run_rx` (src/proto/hdlc/low_level_ll.rs) consumes in any state, and that it leaves the
-- transmitter alone.
use tinyproto_rust.Base.{
  ℕ, ◌+◌, ◌≤◌, Bool, false, not, ◌==◌, ltb, ◌-◌, take, bit_xor, List, none, some, [], ◌∷◌, inl, inr,
  arith, Bytes, length, Option-cases, if-both, Option,
}
use tinyproto_rust.Error.{TinyError}
use tinyproto_rust.Crc.{get_crc_field_size}
use tinyproto_rust.Hdlc.Stuffing.{flag_sequence, escape_char, escape_bit}
use tinyproto_rust.Hdlc.Ll.Defs.{
  HdlcLl, RxState, TxState, start_phase, data_phase, crc_phase, end_phase, calculate_crc,
}
use tinyproto_rust.Hdlc.Ll.Tx.Pending.{TxOk, TxOkIn}
use tinyproto_rust.Hdlc.Ll.Rx.{
  read_crc_from_buffer, rx_store, rx_byte, rx_byte_in, rx_check, rx_end, settle, settle_in,
  run_rx_from, run_rx,
}
use tinyproto_rust.Hdlc.Ll.Rx.Rounds.{
  IsSettled, run_rx_from-goes_on, run_rx_from-stops, run_rx_from-nil, run_rx_from-byte,
  settle_settles,
}

-- The framer with other fields for the receiver.
abbrev receiving : HdlcLl → Bytes → RxState → ℕ → Bool → List Bytes → HdlcLl
receiving ll buf state ptr escape frames = record ll {
  rx_buf = buf;
  rx_state = state;
  rx_ptr = ptr;
  rx_escape = escape;
  rx_frames = frames;
}

module _ (ll : HdlcLl) (buf : Bytes) (rx : RxState) (ptr : ℕ) (escape : Bool)
    (frames : List Bytes) where
  receiving-TxOkIn :
      (s : TxState) (o : Option Bytes)
      → TxOkIn s o ll
      → TxOkIn s o (receiving ll buf rx ptr escape frames)
  receiving-TxOkIn start_phase o ok = tt
  receiving-TxOkIn data_phase none ok = ok
  receiving-TxOkIn data_phase (some f) ok = ok
  receiving-TxOkIn crc_phase none ok = ok
  receiving-TxOkIn crc_phase (some f) ok = ok
  receiving-TxOkIn end_phase none ok = ok
  receiving-TxOkIn end_phase (some f) ok = ok

  pub receiving-TxOk : TxOk ll → TxOk (receiving ll buf rx ptr escape frames)
  receiving-TxOk ok = receiving-TxOkIn ll.tx_state ll.tx_data ok

rx_store-TxOk : (ll : HdlcLl) (b : ℕ) → TxOk ll → TxOk (rx_store ll b)
rx_store-TxOk ll b ok = if-both TxOk (ltb ll.rx_ptr ll.phys_mtu) (receiving-TxOk ll _ _ _ _ _ ok) ok

rx_byte_in-TxOk : (s : RxState) (ll : HdlcLl) (b : ℕ) → TxOk ll → TxOk (rx_byte_in s ll b)
rx_byte_in-TxOk RxState.start_phase ll b ok =
    if-both TxOk (b == flag_sequence) (receiving-TxOk ll _ _ _ _ _ ok) ok
rx_byte_in-TxOk RxState.data_phase ll b ok =
    if-both TxOk (b == flag_sequence) (receiving-TxOk ll _ _ _ _ _ ok) (
      if-both TxOk (b == escape_char) (receiving-TxOk ll _ _ _ _ _ ok) (
        if-both TxOk ll.rx_escape
          (rx_store-TxOk (record ll { rx_escape = false }) (bit_xor b escape_bit)
            (receiving-TxOk ll _ _ _ _ _ ok))
          (rx_store-TxOk ll b ok)))
rx_byte_in-TxOk RxState.end_phase ll b ok = ok

rx_byte-TxOk : (ll : HdlcLl) (b : ℕ) → TxOk ll → TxOk (rx_byte ll b)
unfolding rx_byte
rx_byte-TxOk ll b ok = rx_byte_in-TxOk ll.rx_state ll b ok

abbrev TxOkAfter : HdlcLl × Option TinyError → Type 0
TxOkAfter (ll, error) = TxOk ll

rx_check-TxOk : (ll : HdlcLl) → TxOk ll → TxOkAfter (rx_check ll)
unfolding rx_check
rx_check-TxOk ll ok =
    let size = get_crc_field_size ll.crc_type in
    let frame = take (length ll.rx_buf - size) ll.rx_buf in
    if-both TxOkAfter (ltb ll.phys_mtu (length ll.rx_buf)) ok (
      if-both TxOkAfter (ltb (length ll.rx_buf) size) ok (
        if-both TxOkAfter
          (not
            (calculate_crc ll.crc_type frame == read_crc_from_buffer ll (length ll.rx_buf - size)))
          ok (receiving-TxOk ll _ _ _ _ _ ok)))

settle_in-TxOk : (s : RxState) (ll : HdlcLl) → TxOk ll → TxOkAfter (settle_in s ll)
unfolding rx_end
settle_in-TxOk RxState.start_phase ll ok = ok
settle_in-TxOk RxState.data_phase ll ok = ok
settle_in-TxOk RxState.end_phase ll ok =
    if-both TxOkAfter (length ll.rx_buf == 0) (receiving-TxOk ll _ _ _ _ _ ok) (
      rx_check-TxOk (record ll { rx_state = RxState.start_phase }) (receiving-TxOk ll _ _ _ _ _ ok))

settle-TxOk : (ll : HdlcLl) → TxOk ll → TxOk (settle ll).0
unfolding settle
settle-TxOk ll ok = settle_in-TxOk ll.rx_state ll ok

-- A call started with `c` bytes consumed.
abbrev Steady : ℕ → Bytes → ℕ × Option TinyError × HdlcLl → Type 0
Steady c bs (n, error, ll) = (c ≤ n) × (n ≤ c + length bs) × IsSettled ll.rx_state × TxOk ll

run_rx_from-Steady :
    (c : ℕ) (ll : HdlcLl) (bs : Bytes) → TxOk ll → Steady c bs (run_rx_from c ll bs)
run_rx_from-Steady c ll [] ok =
    rw (run_rx_from-nil c ll) (omega arith, omega arith, settle_settles ll, settle-TxOk ll ok)
run_rx_from-Steady c ll (b ∷ bs) ok = elim (Option-cases (settle ll).1) [
  | inl fine ↦
      let (least, most, settled, ok') =
        run_rx_from-Steady (c + 1) (rx_byte (settle ll).0 b) bs
          (rx_byte-TxOk (settle ll).0 b (settle-TxOk ll ok)) in
      rw (run_rx_from-goes_on c ll b bs fine)
        (omega (arith, least), omega (arith, most), settled, ok')
  | inr (e, failed) ↦
      rw (run_rx_from-stops c ll b bs e failed)
        (omega arith, omega arith, settle_settles ll, settle-TxOk ll ok)
]

pub run_rx-Steady :
    (ll : HdlcLl) (bs : Bytes)
    → TxOk ll
    → let (n, error, ll') = run_rx ll bs in (n ≤ length bs) × IsSettled ll'.rx_state × TxOk ll'
unfolding run_rx
run_rx-Steady ll bs ok =
    let (least, most, settled, ok') = run_rx_from-Steady 0 ll bs ok in
    (omega (arith, most), settled, ok')

-- With no flag unprocessed a byte is consumed.
pub run_rx-progress :
    (ll : HdlcLl) (b : ℕ) (bs : Bytes)
    → TxOk ll
    → IsSettled ll.rx_state
    → 1 ≤ (run_rx ll (b ∷ bs)).0
unfolding run_rx
run_rx-progress ll b bs ok settled =
    rw (run_rx_from-byte 0 ll b bs settled)
      (omega (arith, (run_rx_from-Steady 1 (rx_byte ll b) bs (rx_byte-TxOk ll b ok)).0))
