-- ===== src/Hdlc/Ll/Tx.antt =====
-- `run_tx` of src/proto/hdlc/low_level_ll.rs and the four steps of the transmitter. A step gets the
-- room left in the output, `out[written..].len()`, and returns the bytes that it writes with the new
-- framer; the source returns their number. `none` is a panic, of an `unwrap`, or fuel run out.
pub mod Pending
mod DataPhase
mod CrcPhase
mod Step
pub mod Stream
pub mod Queues
use tinyproto_rust.Base.{
  ℕ, zero, suc, ◌+◌, ◌-◌, ◌*◌, bit_xor, Bool, true, false, not, Option, none, some, List, [], ◌∷◌,
  ◌++◌, leb, ◌==◌, if◌then◌else◌, u8, ◌>>>◌, Bytes, length, get_elem?, drop,
}
use tinyproto_rust.Crc.{get_crc_field_size}
use tinyproto_rust.Hdlc.Stuffing.{flag_sequence, escape_char, escape_bit, is_special}
use tinyproto_rust.Hdlc.Ll.Defs.{
  HdlcLl, TxState, start_phase, data_phase, crc_phase, end_phase, calculate_crc,
}

abbrev pub Sent : Type 0
Sent = Bytes × HdlcLl

abbrev send_start_of : Option Bytes → HdlcLl → ℕ → Sent
send_start_of none ll room = ([], ll)
send_start_of (some frame) ll room = if room == 0 then ([], ll) else (
  flag_sequence ∷ [],
  record ll {
    tx_crc = calculate_crc ll.crc_type frame;
    tx_state = data_phase;
    tx_pos = 0;
    tx_escape = false;
  },
)

unfoldable pub tx_send_start : HdlcLl → ℕ → Sent
tx_send_start ll room = send_start_of ll.tx_data ll room

-- The run of ordinary bytes that fits the room.
unfoldable pub plain_run : ℕ → Bytes → Bytes
plain_run zero bytes = []
plain_run (suc room) [] = []
plain_run (suc room) (b ∷ bs) = if is_special b then [] else b ∷ plain_run room bs

-- The byte at `tx_pos`, or `none` where the frame ends.
abbrev send_data_byte : Option ℕ → Bytes → HdlcLl → ℕ → Sent
send_data_byte none frame ll room =
    ([], record ll { tx_state = crc_phase; tx_crc_bits_sent = 0; tx_escape = false })
send_data_byte (some byte) frame ll room =
    if is_special byte
    then if not ll.tx_escape
      then (escape_char ∷ [], record ll { tx_escape = true })
      else (bit_xor byte escape_bit ∷ [], record ll { tx_escape = false; tx_pos = ll.tx_pos + 1 })
    else let run = plain_run room (drop ll.tx_pos frame) in
      (run, record ll { tx_pos = ll.tx_pos + length run })

-- `self.tx_data.as_ref().unwrap()`
abbrev send_data_of : Option Bytes → HdlcLl → ℕ → Option Sent
send_data_of none ll room = none
send_data_of (some frame) ll room = some (send_data_byte (get_elem? frame ll.tx_pos) frame ll room)

unfoldable pub tx_send_data : HdlcLl → ℕ → Option Sent
unfolding plain_run
tx_send_data ll room = if room == 0 then some ([], ll) else send_data_of ll.tx_data ll room

abbrev send_crc_byte : ℕ → HdlcLl → Sent
send_crc_byte byte ll =
    if is_special byte
    then if not ll.tx_escape then (escape_char ∷ [], record ll { tx_escape = true }) else (
      bit_xor byte escape_bit ∷ [],
      record ll { tx_escape = false; tx_crc_bits_sent = ll.tx_crc_bits_sent + 8 },
    )
    else (byte ∷ [], record ll { tx_crc_bits_sent = ll.tx_crc_bits_sent + 8 })

-- `crc_size * 8` is at most 32, so it is a `u8`.
unfoldable pub tx_send_crc : HdlcLl → ℕ → Sent
tx_send_crc ll room =
    if room == 0
    then ([], ll)
    else let crc_size = get_crc_field_size ll.crc_type in
      if leb (crc_size * 8) ll.tx_crc_bits_sent
      then ([], record ll { tx_state = end_phase })
      else send_crc_byte (u8 (ll.tx_crc >>> ll.tx_crc_bits_sent)) ll

-- `if let Some(frame) = self.tx_data.take()`
abbrev notify_sent : Option Bytes → HdlcLl → HdlcLl
notify_sent none ll = ll
notify_sent (some frame) ll = record ll {
  tx_data = none;
  tx_sent_frames = ll.tx_sent_frames ++ frame ∷ [];
}

unfoldable pub tx_send_end : HdlcLl → ℕ → Sent
tx_send_end ll room = if room == 0 then ([], ll) else (
  flag_sequence ∷ [],
  notify_sent ll.tx_data (record ll { tx_state = start_phase; tx_escape = false }),
)

abbrev tx_step_in : TxState → HdlcLl → ℕ → Option Sent
tx_step_in start_phase ll room = some (tx_send_start ll room)
tx_step_in data_phase ll room = tx_send_data ll room
tx_step_in crc_phase ll room = some (tx_send_crc ll room)
tx_step_in end_phase ll room = some (tx_send_end ll room)

unfoldable pub tx_step : HdlcLl → ℕ → Option Sent
unfolding tx_send_start tx_send_data tx_send_crc tx_send_end
tx_step ll room = tx_step_in ll.tx_state ll room

-- `self.tx_state == prev_state`
abbrev same_state : TxState → TxState → Bool
same_state start_phase start_phase = true
same_state data_phase data_phase = true
same_state crc_phase crc_phase = true
same_state end_phase end_phase = true
same_state _ _ = false

-- The loop, with the room left.
unfoldable pub run_tx_loop : ℕ → HdlcLl → ℕ → Option Sent
run_tx_loop zero ll room = none
run_tx_loop (suc fuel) ll zero = some ([], ll)
run_tx_loop (suc fuel) ll (suc room) = elim (tx_step ll (suc room)) [
  | none ↦ none
  | some (bytes, ll') ↦ elim (length bytes == 0) [
    | true ↦ elim (same_state ll'.tx_state ll.tx_state) [
      | true ↦ some ([], ll')
      | false ↦ run_tx_loop fuel ll' (suc room)
    ]
    | false ↦ elim (run_tx_loop fuel ll' (suc room - length bytes)) [
      | none ↦ none
      | some (rest, ll'') ↦ some (bytes ++ rest, ll'')
    ]
  ]
]

-- Three rounds for each byte of the output are enough, and two for the last changes of state.
unfoldable pub run_tx : HdlcLl → ℕ → Option Sent
run_tx ll out_len = run_tx_loop (3 * out_len + 3) ll out_len
