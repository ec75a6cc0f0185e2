-- ===== src/Hdlc/Ll/Defs.antt =====
-- The framer's state, its creation and reset, and the operations on its queues
-- (src/proto/hdlc/low_level_ll.rs).
use tinyproto_rust.Base.{
  ℕ, ◌+◌, Bool, true, false, Option, none, some, List, [], ◌∷◌, ltb, ◌==◌, if◌then◌else◌, Bytes,
}
use tinyproto_rust.Error.{TinyResult, ok, err, invalid_data, busy}
use tinyproto_rust.Crc.{
  HdlcCrcT, hdlc_crc_default, hdlc_crc8, hdlc_crc16, hdlc_crc32, hdlc_crc_off, get_crc_field_size,
}
use tinyproto_rust.Crc.Crc8
use tinyproto_rust.Crc.Crc16
use tinyproto_rust.Crc.Crc32

pub data ResetFlags : Type 0 where
  both tx_only rx_only : ResetFlags

pub data RxState : Type 0 where
  start_phase data_phase end_phase : RxState

pub data TxState : Type 0 where
  start_phase data_phase crc_phase end_phase : TxState

pub record HdlcLlInit : Type 0 where
  pub crc_type : HdlcCrcT
  pub mtu : ℕ
  pub rx_buf_size : ℕ

-- `Default for HdlcLlInit`
abbrev pub default_init : HdlcLlInit
default_init = record { crc_type = hdlc_crc16; mtu = 0; rx_buf_size = 256 }

pub record HdlcLl : Type 0 where
  pub crc_type : HdlcCrcT
  pub phys_mtu : ℕ
  pub rx_buf : Bytes
  pub rx_state : RxState
  pub rx_ptr : ℕ
  pub rx_escape : Bool
  pub tx_state : TxState
  pub tx_data : Option Bytes
  pub tx_pos : ℕ
  pub tx_crc : ℕ
  pub tx_crc_bits_sent : ℕ
  pub tx_escape : Bool
  pub rx_frames : List Bytes
  pub tx_sent_frames : List Bytes

-- A `usize` sum of lengths does not wrap: no slice is longer than half the address space.
unfoldable pub new : HdlcLlInit → TinyResult HdlcLl
new init =
    if init.rx_buf_size == 0
    then err invalid_data
    else let crc_size = get_crc_field_size init.crc_type in
      let phys_mtu = if ltb 0 init.mtu then init.mtu + crc_size else init.rx_buf_size in
      ok (record {
        crc_type = init.crc_type;
        phys_mtu = phys_mtu;
        rx_buf = [];
        rx_state = RxState.start_phase;
        rx_ptr = 0;
        rx_escape = false;
        tx_state = TxState.start_phase;
        tx_data = none;
        tx_pos = 0;
        tx_crc = 0;
        tx_crc_bits_sent = 0;
        tx_escape = false;
        rx_frames = [];
        tx_sent_frames = [];
      })

abbrev reset_rx : HdlcLl → HdlcLl
reset_rx ll = record ll {
  rx_state = RxState.start_phase;
  rx_buf = [];
  rx_ptr = 0;
  rx_escape = false;
}

abbrev reset_tx : HdlcLl → HdlcLl
reset_tx ll = record ll {
  tx_data = none;
  tx_pos = 0;
  tx_escape = false;
  tx_state = TxState.start_phase;
  tx_crc_bits_sent = 0;
}

-- The receiver is reset unless the flag is `TxOnly`, and the transmitter unless it is `RxOnly`.
unfoldable pub reset : HdlcLl → ResetFlags → HdlcLl
reset ll both = reset_tx (reset_rx ll)
reset ll tx_only = reset_tx ll
reset ll rx_only = reset_rx ll

abbrev put_new_frame : HdlcLl → Bytes → Option Bytes → HdlcLl × TinyResult (Unit {0})
put_new_frame ll bytes (some _) = (ll, err busy)
put_new_frame ll bytes none = (record ll { tx_data = some bytes; tx_pos = 0 }, ok tt)

-- An empty slice is accepted and not queued.
unfoldable pub put_frame : HdlcLl → Bytes → HdlcLl × TinyResult (Unit {0})
put_frame ll [] = (ll, ok tt)
put_frame ll (b ∷ bs) = put_new_frame ll (b ∷ bs) ll.tx_data

unfoldable pub is_tx_busy : HdlcLl → Bool
is_tx_busy ll = elim ll.tx_data [ none ↦ false | some _ ↦ true ]

abbrev pop_first : List Bytes → Option Bytes × List Bytes
pop_first [] = (none, [])
pop_first (f ∷ fs) = (some f, fs)

unfoldable pub get_rx_frame : HdlcLl → Option Bytes × HdlcLl
get_rx_frame ll =
    let (frame, rest) = pop_first ll.rx_frames in (frame, record ll { rx_frames = rest })

unfoldable pub get_tx_sent_frame : HdlcLl → Option Bytes × HdlcLl
get_tx_sent_frame ll =
    let (frame, rest) = pop_first ll.tx_sent_frames in (frame, record ll { tx_sent_frames = rest })

-- The method reads no field but `crc_type`.
unfoldable pub calculate_crc : HdlcCrcT → Bytes → ℕ
calculate_crc hdlc_crc8 bytes = Crc8.checksum bytes
calculate_crc hdlc_crc16 bytes = Crc16.checksum bytes
calculate_crc hdlc_crc32 bytes = Crc32.checksum bytes
calculate_crc hdlc_crc_default bytes = Crc32.checksum bytes
calculate_crc hdlc_crc_off bytes = 0

unfoldable pub get_buf_size : ℕ → HdlcCrcT → ℕ
get_buf_size mtu crc_type = mtu + get_crc_field_size crc_type
