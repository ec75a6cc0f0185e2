-- ===== src/Hdlc/Ll/Rx.antt =====
-- `run_rx` of src/proto/hdlc/low_level_ll.rs. Each round of the source's loop runs one arm of the
-- match: the arms of Start and Data take a byte, and the arm of End takes none and leaves End.
pub mod Rounds
pub mod Bounds
pub mod Steady
pub mod Check
pub mod Frame
pub mod Chunks
pub mod Corrupt
use tinyproto_rust.Base.{
  ℕ, zero, suc, ◌+◌, ◌-◌, ◌*◌, bit_or, bit_xor, Bool, true, false, not, Option, none, some, List,
  [], ◌∷◌, ◌++◌, ltb, ◌==◌, if◌then◌else◌, ◌<<<◌, Bytes, length, get_or, take,
}
use tinyproto_rust.Error.{TinyError, data_too_large, wrong_crc}
use tinyproto_rust.Crc.{get_crc_field_size}
use tinyproto_rust.Hdlc.Stuffing.{flag_sequence, escape_char, escape_bit}
use tinyproto_rust.Hdlc.Ll.Defs.{HdlcLl, RxState, start_phase, data_phase, end_phase, calculate_crc}

-- The loop over the bytes of the check sequence: `i` is the index, the number the rounds left.
unfoldable pub read_crc_loop : Bytes → ℕ → ℕ → ℕ → ℕ → ℕ
read_crc_loop buf payload_len i zero crc_val = crc_val
read_crc_loop buf payload_len i (suc n) crc_val =
    read_crc_loop buf payload_len (i + 1) n
      (bit_or crc_val (get_or buf (payload_len + i) 0 <<< (i * 8)))

-- An index past the buffer panics. The only caller passes a `payload_len` that is `crc_size` below
-- the buffer's length, so the default of `get_or` is never read.
unfoldable pub read_crc_from_buffer : HdlcLl → ℕ → ℕ
unfolding read_crc_loop
read_crc_from_buffer ll payload_len =
    let crc_size = get_crc_field_size ll.crc_type in
    if crc_size == 0 then 0 else read_crc_loop ll.rx_buf payload_len 0 crc_size 0

-- The arm of Start.
abbrev pub rx_start : HdlcLl → ℕ → HdlcLl
rx_start ll byte =
    if byte == flag_sequence
    then record ll { rx_escape = false; rx_buf = []; rx_ptr = 0; rx_state = data_phase }
    else ll

-- Bytes beyond the MTU are dropped.
abbrev pub rx_store : HdlcLl → ℕ → HdlcLl
rx_store ll decoded =
    if ltb ll.rx_ptr ll.phys_mtu
    then record ll { rx_buf = ll.rx_buf ++ decoded ∷ []; rx_ptr = ll.rx_ptr + 1 }
    else ll

-- The arm of Data.
abbrev pub rx_data : HdlcLl → ℕ → HdlcLl
rx_data ll byte =
    if byte == flag_sequence
    then record ll { rx_state = end_phase }
    else if byte == escape_char
    then record ll { rx_escape = true }
    else if ll.rx_escape
    then rx_store (record ll { rx_escape = false }) (bit_xor byte escape_bit)
    else rx_store ll byte

abbrev pub rx_byte_in : RxState → HdlcLl → ℕ → HdlcLl
rx_byte_in start_phase ll byte = rx_start ll byte
rx_byte_in data_phase ll byte = rx_data ll byte
rx_byte_in end_phase ll byte = ll

unfoldable pub rx_byte : HdlcLl → ℕ → HdlcLl
rx_byte ll byte = rx_byte_in ll.rx_state ll byte

-- The arm of End on a buffer that holds something, once the state is Start.
unfoldable pub rx_check : HdlcLl → HdlcLl × Option TinyError
rx_check ll =
    let len = length ll.rx_buf in
    let crc_size = get_crc_field_size ll.crc_type in
    if ltb ll.phys_mtu len
    then (ll, some data_too_large)
    else if ltb len crc_size
    then (ll, some wrong_crc)
    else let payload_len = len - crc_size in
      let frame = take payload_len ll.rx_buf in
      if not (calculate_crc ll.crc_type frame == read_crc_from_buffer ll payload_len)
      then (ll, some wrong_crc)
      else (record ll { rx_frames = ll.rx_frames ++ frame ∷ []; rx_buf = [] }, none)

-- The arm of End: an error ends the loop.
unfoldable pub rx_end : HdlcLl → HdlcLl × Option TinyError
rx_end ll =
    if length ll.rx_buf == 0
    then (record ll { rx_escape = false; rx_state = data_phase }, none)
    else rx_check (record ll { rx_state = start_phase })

abbrev pub settle_in : RxState → HdlcLl → HdlcLl × Option TinyError
settle_in start_phase ll = (ll, none)
settle_in data_phase ll = (ll, none)
settle_in end_phase ll = rx_end ll

-- The round that takes no byte, where the state is End.
unfoldable pub settle : HdlcLl → HdlcLl × Option TinyError
settle ll = settle_in ll.rx_state ll

-- The loop, over the bytes not yet consumed: in state End a round without a byte, then a byte.
-- The loop runs on in state End when no byte is left.
unfoldable pub run_rx_from : ℕ → HdlcLl → Bytes → ℕ × Option TinyError × HdlcLl
run_rx_from consumed ll [] = let (ll', error) = settle ll in (consumed, error, ll')
run_rx_from consumed ll (byte ∷ bytes) =
    let (ll', error) = settle ll in
    let rest = run_rx_from (consumed + 1) (rx_byte ll' byte) bytes in
    elim error [ some e ↦ (consumed, some e, ll') | none ↦ rest ]

-- The bytes consumed, the error and the new framer.
unfoldable pub run_rx : HdlcLl → Bytes → ℕ × Option TinyError × HdlcLl
run_rx ll bytes = run_rx_from 0 ll bytes
