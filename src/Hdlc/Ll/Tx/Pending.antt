-- ===== src/Hdlc/Ll/Tx/Pending.antt =====
-- The bytes that the transmitter of src/proto/hdlc/low_level_ll.rs has still to write, read off its
-- state, and the states that it reaches.
use tinyproto_rust.Base.{
  ℕ, ◌/◌, ◌%◌, ◌≤◌, Bool, true, false, Option, none, some, List, [], ◌∷◌, ◌++◌, ◌≡◌, ◌<◌, Bytes,
  drop, length, if◌then◌else◌,
}
use tinyproto_rust.Crc.{get_crc_field_size}
use tinyproto_rust.Hdlc.Ll.Tx.{Sent}
use tinyproto_rust.Hdlc.Stuffing.{flag_sequence, is_special, stuff_all, le_bytes, frame_wire}
use tinyproto_rust.Hdlc.Ll.Defs.{
  HdlcLl, TxState, start_phase, data_phase, crc_phase, end_phase, calculate_crc,
}

-- The escaped form of what is left, without the escape character where that has been written.
abbrev pub unsent : Bool → Bytes → Bytes
unsent escape bs = drop (if escape then 1 else 0) (stuff_all bs)

abbrev pub check_bytes : HdlcLl → Bytes
check_bytes ll = le_bytes (get_crc_field_size ll.crc_type) ll.tx_crc

abbrev pub pending_in : TxState → Option Bytes → HdlcLl → Bytes
pending_in start_phase none ll = []
pending_in start_phase (some frame) ll =
    frame_wire frame (le_bytes (get_crc_field_size ll.crc_type) (calculate_crc ll.crc_type frame))
pending_in data_phase none ll = []
pending_in data_phase (some frame) ll =
    unsent ll.tx_escape (drop ll.tx_pos frame) ++ (stuff_all (check_bytes ll) ++ flag_sequence ∷ [])
pending_in crc_phase frame ll =
    unsent ll.tx_escape (drop (ll.tx_crc_bits_sent / 8) (check_bytes ll)) ++ flag_sequence ∷ []
pending_in end_phase frame ll = flag_sequence ∷ []

abbrev pub pending : HdlcLl → Bytes
pending ll = pending_in ll.tx_state ll.tx_data ll

-- An escape character has been written only in front of a byte that wants one.
abbrev pub EscapeOk : Bool → Bytes → Type 0
EscapeOk false bs = Unit
EscapeOk true [] = ⊥
EscapeOk true (b ∷ bs) = is_special b ≡ true

abbrev pub TxOkIn : TxState → Option Bytes → HdlcLl → Type 0
TxOkIn start_phase frame ll = Unit
TxOkIn data_phase none ll = ⊥
TxOkIn data_phase (some frame) ll = EscapeOk ll.tx_escape (drop ll.tx_pos frame)
TxOkIn crc_phase none ll = ⊥
TxOkIn crc_phase (some frame) ll =
    (ll.tx_crc_bits_sent % 8 ≡ 0)
    × EscapeOk ll.tx_escape (drop (ll.tx_crc_bits_sent / 8) (check_bytes ll))
TxOkIn end_phase none ll = ⊥
TxOkIn end_phase (some frame) ll = Unit

-- A frame is there from the first flag to the last, and bits of the check sequence go out in bytes.
abbrev pub TxOk : HdlcLl → Type 0
TxOk ll = TxOkIn ll.tx_state ll.tx_data ll

abbrev pub queued : Option Bytes → List Bytes
queued none = []
queued (some frame) = frame ∷ []

-- The frames handed over, those that are sent first.
abbrev pub accepted : HdlcLl → List Bytes
accepted ll = ll.tx_sent_frames ++ queued ll.tx_data

-- How many rounds without output may follow.
abbrev pub rank : TxState → ℕ
rank start_phase = 0
rank data_phase = 2
rank crc_phase = 1
rank end_phase = 0

-- What a round does: it writes bytes, or goes on to the next phase, or has nothing left to send.
pub data Moves (ll : HdlcLl) (bytes : Bytes) (ll' : HdlcLl) : Type 0 where
  writes : 0 < length bytes → Moves ll bytes ll'
  advances : bytes ≡ [] → rank ll'.tx_state < rank ll.tx_state → Moves ll bytes ll'
  rests : bytes ≡ [] → ll' ≡ ll → pending ll ≡ [] → Moves ll bytes ll'

pub record Progress (ll : HdlcLl) (room : ℕ) (bytes : Bytes) (ll' : HdlcLl) : Type 0 where
  pub emitted : pending ll ≡ bytes ++ pending ll'
  pub ok : TxOk ll'
  pub fits : length bytes ≤ room
  pub kept : accepted ll' ≡ accepted ll
  pub moves : Moves ll bytes ll'

-- A round succeeds and makes progress.
abbrev pub Steps : Option Sent → HdlcLl → ℕ → Type 0
Steps result ll room =
    (bytes : Bytes) × (ll' : HdlcLl) × (result ≡ some (bytes, ll')) × Progress ll room bytes ll'
