-- ===== src/Fd/Defines.antt =====
-- src/proto/fd/defines.rs: the states, the frame types and the bits of the control field.
use tinyproto_rust.Base.{ℕ, ◌<<<◌}

pub data FdMode : Type 0 where
  abm nrm : FdMode

pub data FdState : Type 0 where
  idle disconnected connecting connected disconnecting : FdState

pub data FrameType : Type 0 where
  i s u : FrameType

-- The discriminant of a constructor.
abbrev pub frame_type_bits : FrameType → ℕ
frame_type_bits i = 0x00
frame_type_bits s = 0x01
frame_type_bits u = 0x02

pub data SFrameSubtype : Type 0 where
  rr rnr rej srej : SFrameSubtype

abbrev pub s_frame_subtype_bits : SFrameSubtype → ℕ
s_frame_subtype_bits rr = 0x00
s_frame_subtype_bits rnr = 0x04
s_frame_subtype_bits rej = 0x08
s_frame_subtype_bits srej = 0x0C

pub data UFrameSubtype : Type 0 where
  ua dm frmr rset sabm snrm disc ui : UFrameSubtype

abbrev pub u_frame_subtype_bits : UFrameSubtype → ℕ
u_frame_subtype_bits ua = 0x60
u_frame_subtype_bits dm = 0x0C
u_frame_subtype_bits frmr = 0x84
u_frame_subtype_bits rset = 0x8C
u_frame_subtype_bits sabm = 0x2C
u_frame_subtype_bits snrm = 0x80
u_frame_subtype_bits disc = 0x40
u_frame_subtype_bits ui = 0x00

pub data FrameDirection : Type 0 where
  incoming outgoing : FrameDirection

abbrev pub frame_direction_bits : FrameDirection → ℕ
frame_direction_bits incoming = 0x00
frame_direction_bits outgoing = 0x01

abbrev pub fd_primary_addr : ℕ
fd_primary_addr = 0

abbrev pub hdlc_i_frame_bits : ℕ
hdlc_i_frame_bits = 0x00

abbrev pub hdlc_i_frame_mask : ℕ
hdlc_i_frame_mask = 0x01

abbrev pub hdlc_s_frame_bits : ℕ
hdlc_s_frame_bits = 0x01

abbrev pub hdlc_s_frame_mask : ℕ
hdlc_s_frame_mask = 0x03

abbrev pub hdlc_s_frame_type_rr : ℕ
hdlc_s_frame_type_rr = 0x00

abbrev pub hdlc_s_frame_type_rnr : ℕ
hdlc_s_frame_type_rnr = 0x04

abbrev pub hdlc_s_frame_type_rej : ℕ
hdlc_s_frame_type_rej = 0x08

abbrev pub hdlc_s_frame_type_srej : ℕ
hdlc_s_frame_type_srej = 0x0C

abbrev pub hdlc_s_frame_type_mask : ℕ
hdlc_s_frame_type_mask = 0x0C

abbrev pub hdlc_u_frame_bits : ℕ
hdlc_u_frame_bits = 0x03

abbrev pub hdlc_u_frame_mask : ℕ
hdlc_u_frame_mask = 0x03

abbrev pub hdlc_u_frame_type_ua : ℕ
hdlc_u_frame_type_ua = 0x60

abbrev pub hdlc_u_frame_type_dm : ℕ
hdlc_u_frame_type_dm = 0x0C

abbrev pub hdlc_u_frame_type_frmr : ℕ
hdlc_u_frame_type_frmr = 0x84

abbrev pub hdlc_u_frame_type_rset : ℕ
hdlc_u_frame_type_rset = 0x8C

abbrev pub hdlc_u_frame_type_sabm : ℕ
hdlc_u_frame_type_sabm = 0x2C

abbrev pub hdlc_u_frame_type_snrm : ℕ
hdlc_u_frame_type_snrm = 0x80

abbrev pub hdlc_u_frame_type_disc : ℕ
hdlc_u_frame_type_disc = 0x40

abbrev pub hdlc_u_frame_type_ui : ℕ
hdlc_u_frame_type_ui = 0x00

abbrev pub hdlc_u_frame_type_mask : ℕ
hdlc_u_frame_type_mask = 0xEC

abbrev pub hdlc_p_bit : ℕ
hdlc_p_bit = 0x10

abbrev pub hdlc_f_bit : ℕ
hdlc_f_bit = 0x10

abbrev pub hdlc_cr_bit : ℕ
hdlc_cr_bit = 0x02

abbrev pub hdlc_e_bit : ℕ
hdlc_e_bit = 0x01

abbrev pub hdlc_primary_addr : ℕ
hdlc_primary_addr = fd_primary_addr <<< 2

abbrev pub hdlc_invalid_peer_index : ℕ
hdlc_invalid_peer_index = 0xFF

abbrev pub seq_bits_mask : ℕ
seq_bits_mask = 0x07

abbrev pub fd_event_tx_sending : ℕ
fd_event_tx_sending = 0x01

abbrev pub fd_event_tx_data_available : ℕ
fd_event_tx_data_available = 0x02

abbrev pub fd_event_queue_has_free_slots : ℕ
fd_event_queue_has_free_slots = 0x04

abbrev pub fd_event_can_accept_i_frames : ℕ
fd_event_can_accept_i_frames = 0x08

abbrev pub fd_event_has_marker : ℕ
fd_event_has_marker = 0x10

abbrev pub u_queue_max_size : ℕ
u_queue_max_size = 4
