-- ===== src/Tests/Hdlc.antt =====
-- src/proto/hdlc on concrete inputs.
use tinyproto_rust.Base.{
  ◌+◌, false, none, some, [], ◌∷◌, Bytes, length, take, drop, ◌≡◌, refl, arith,
}
use tinyproto_rust.Crc.{hdlc_crc16, hdlc_crc32}
use tinyproto_rust.Crc.Crc16
use tinyproto_rust.Hdlc.Stuffing.{stuff_all, frame_wire}
use tinyproto_rust.Hdlc.Encoder.{HdlcEncoder, success, encode, decode}
use tinyproto_rust.Hdlc.Encoder.Wire.{encode-run_tx}
use tinyproto_rust.Hdlc.Encoder.RoundTrip.{decode-encode}
use tinyproto_rust.Hdlc.Ll.Defs.{HdlcLl, RxState, TxState, put_frame, calculate_crc}
use tinyproto_rust.Hdlc.Ll.Rx.{rx_check, run_rx_from, run_rx}
use tinyproto_rust.Hdlc.Ll.Rx.Corrupt.{rx_check-burst16, rx_check-burst32}
use tinyproto_rust.Error.{wrong_crc}
use tinyproto_rust.Crc.Crc32
use tinyproto_rust.Hdlc.Ll.Rx.Bounds.{Sound, Consumes, run_rx-Sound}
use tinyproto_rust.Hdlc.Ll.Rx.Frame.{Ready, received}
use tinyproto_rust.Hdlc.Ll.Rx.Chunks.{resume, wires, run_rx_from-append, run_rx-wires}
use tinyproto_rust.Hdlc.Ll.Tx.{run_tx}
use tinyproto_rust.Hdlc.Ll.Tx.Pending.{pending, accepted, TxOk}
use tinyproto_rust.Hdlc.Ll.Tx.Stream.{run_tx-stream}
use tinyproto_rust.Hdlc.Ll.Link.{run_tx_calls, put-transmit-receive}

-- A framer for frames of up to 16 bytes with a `Crc16`.
abbrev framer : HdlcLl
framer = record {
  crc_type = hdlc_crc16;
  phys_mtu = 16;
  rx_buf = [];
  rx_state = RxState.start_phase;
  rx_ptr = 0;
  rx_escape = false;
  tx_state = TxState.start_phase;
  tx_data = none;
  tx_pos = 0;
  tx_crc = 0;
  tx_crc_bits_sent = 0;
  tx_escape = false;
  rx_frames = [];
  tx_sent_frames = [];
}

-- It has a flag in it, which is escaped on the wire.
abbrev payload : Bytes
payload = 1 ∷ 0x7E ∷ []

put-transmit-receive_example :
    (out : Bytes) × (tx' : HdlcLl) × (run_tx_calls (put_frame framer payload).0 (3 ∷ 1 ∷ 10 ∷ [])
      ≡ some (out, tx'))
    × (run_rx framer out ≡ (length out, none, received framer payload))
    × (tx'.tx_data ≡ none)
    × (tx'.tx_sent_frames ≡ payload ∷ [])
unfolding frame_wire stuff_all calculate_crc Crc16.new Crc16.sum_bytes Crc16.get
put-transmit-receive_example =
    put-transmit-receive framer framer 1 (0x7E ∷ []) (3 ∷ 1 ∷ 10 ∷ []) refl refl tt refl
      (omega arith, (omega arith, tt)) (omega arith) (omega arith)

run_rx-wires_example :
    let (n, error, ll') = run_rx_from 0 framer (wires hdlc_crc16 (payload ∷ (5 ∷ []) ∷ [])) in
    (n ≡ 0 + length (wires hdlc_crc16 (payload ∷ (5 ∷ []) ∷ [])))
    × (error ≡ none)
    × (ll'.rx_frames ≡ payload ∷ (5 ∷ []) ∷ [])
    × Ready ll'
run_rx-wires_example = run_rx-wires framer (payload ∷ (5 ∷ []) ∷ []) 0 tt (
  ((omega arith, (omega arith, tt)), omega arith, omega arith),
  (((omega arith, tt), omega arith, omega arith), tt),
)

run_rx_from-append_example :
    run_rx_from 0 framer (0x7E ∷ 1 ∷ 2 ∷ 0x7E ∷ 3 ∷ [])
    ≡ resume (run_rx_from 0 framer (0x7E ∷ 1 ∷ [])) (2 ∷ 0x7E ∷ 3 ∷ [])
run_rx_from-append_example = run_rx_from-append 0 framer (0x7E ∷ 1 ∷ []) (2 ∷ 0x7E ∷ 3 ∷ [])

run_rx-Sound_example :
    let (n, error, ll') = run_rx framer (0x7E ∷ 1 ∷ 2 ∷ 0x7E ∷ 3 ∷ []) in
    Consumes 0 (0x7E ∷ 1 ∷ 2 ∷ 0x7E ∷ 3 ∷ []) error n × Sound framer ll' error
run_rx-Sound_example = run_rx-Sound framer (0x7E ∷ 1 ∷ 2 ∷ 0x7E ∷ 3 ∷ []) (omega arith, tt)

abbrev sender : HdlcLl
sender = record framer { tx_data = some payload }

run_tx-stream_example :
    (ll' : HdlcLl) × (run_tx sender 3 ≡ some (take 3 (pending sender), ll'))
    × (pending ll' ≡ drop 3 (pending sender))
    × TxOk ll'
    × (accepted ll' ≡ payload ∷ [])
run_tx-stream_example = run_tx-stream sender 3 tt

abbrev encoder : HdlcEncoder
encoder = record { crc_type = hdlc_crc16 }

decode-encode_example :
    decode encoder (encode encoder payload).0
    ≡ (length (encode encoder payload).0, success, payload)
decode-encode_example = decode-encode encoder payload (omega arith, (omega arith, tt))

encode-run_tx_example :
    (tx' : HdlcLl) × (run_tx (put_frame framer payload).0 12
      ≡ some ((encode encoder payload).0, tx'))
    × (tx'.tx_data ≡ none)
    × (tx'.tx_sent_frames ≡ payload ∷ [])
unfolding encode Crc16.new Crc16.sum_bytes Crc16.get
encode-run_tx_example =
    encode-run_tx encoder framer 1 (0x7E ∷ []) 12 refl (λ e. cc) refl refl (omega arith)

-- The payload 1, 2 with its `Crc16`, of which the link has made 1, 3.
abbrev changed16 : HdlcLl
changed16 = record framer { rx_buf = 1 ∷ 3 ∷ 141 ∷ 53 ∷ [] }

rx_check-burst16_example : rx_check changed16 ≡ (changed16, some wrong_crc)
unfolding Crc16.new Crc16.sum_bytes Crc16.get
rx_check-burst16_example =
    rx_check-burst16 changed16 (1 ∷ []) (2 ∷ []) (3 ∷ []) [] refl (omega arith, tt)
      (omega arith, tt) (omega arith, tt) tt refl (omega arith) (λ e. cc) refl (omega arith)

abbrev changed32 : HdlcLl
changed32 = record framer { crc_type = hdlc_crc32; rx_buf = 1 ∷ 3 ∷ 146 ∷ 66 ∷ 204 ∷ 182 ∷ [] }

rx_check-burst32_example : rx_check changed32 ≡ (changed32, some wrong_crc)
unfolding Crc32.new Crc32.sum_bytes Crc32.get
rx_check-burst32_example =
    rx_check-burst32 changed32 (1 ∷ []) (2 ∷ []) (3 ∷ []) [] refl (omega arith, tt)
      (omega arith, tt) (omega arith, tt) tt refl (omega arith) (λ e. cc) refl (omega arith)
