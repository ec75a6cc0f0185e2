-- ===== src/Tests/Light.antt =====
-- src/proto/light.rs on concrete inputs.
use tinyproto_rust.Base.{ℕ, ◌+◌, false, none, some, [], ◌∷◌, ◌++◌, Bytes, ◌≡◌, refl, arith}
use tinyproto_rust.Crc.{hdlc_crc16}
use tinyproto_rust.Crc.Crc16
use tinyproto_rust.Error.{TinyResult, ok}
use tinyproto_rust.Hdlc.Stuffing.{stuff_all, frame_wire}
use tinyproto_rust.Hdlc.Ll.Defs.{RxState, TxState, calculate_crc}
use tinyproto_rust.Hdlc.Ll.Rx.Frame.{wire}
use tinyproto_rust.Light.{Light, send, read}
use tinyproto_rust.Light.Read.{deliver, no_time, read-wire}
use tinyproto_rust.Base.Int.{ℤ, pos}
use tinyproto_rust.Light.Timeout.{read-ends}
use tinyproto_rust.Light.Send.{accept, send-read}

abbrev light : Light
light = record {
  ll = record {
    crc_type = hdlc_crc16;
    phys_mtu = 256;
    rx_buf = [];
    rx_state = RxState.start_phase;
    rx_ptr = 0;
    rx_escape = false;
    tx_state = TxState.start_phase;
    tx_data = none;
    tx_pos = 0;
    tx_crc = 0;
    tx_crc_bits_sent = 0;
    tx_escape = false;
    rx_frames = [];
    tx_sent_frames = [];
  };
  timeout_ms = 1000;
}

read-wire_example :
    (left : Bytes) × (l' : Light) × (read deliver no_time 10 light
        (wire hdlc_crc16 (1 ∷ 2 ∷ []) ++ 5 ∷ [])
      ≡ some (left, l', ok (1 ∷ 2 ∷ [])))
unfolding frame_wire stuff_all calculate_crc Crc16.new Crc16.sum_bytes Crc16.get
read-wire_example =
    read-wire light (1 ∷ 2 ∷ []) (5 ∷ []) 10 tt refl (omega arith) (omega arith, (omega arith, tt))
      (omega arith) (omega arith) (omega arith)

send-read_example :
    (out : Bytes) × (tx' : Light) × (left : Bytes) × (rx' : Light) × (send accept no_time 20 light
        (1 ∷ 2 ∷ [])
        []
      ≡ some (out, tx', ok 2))
    × (read deliver no_time 20 light out ≡ some (left, rx', ok (1 ∷ 2 ∷ [])))
unfolding frame_wire stuff_all calculate_crc Crc16.new Crc16.sum_bytes Crc16.get
send-read_example =
    send-read light light 1 (2 ∷ []) 20 20 refl refl tt refl refl (omega arith) (omega arith)
      (omega arith, (omega arith, tt)) (omega arith) (omega arith) (omega arith)

-- Nothing comes, and a call takes half a second.
abbrev silence : ℕ → ℤ × ℕ × ℕ
silence t = (pos 0, 0, t + 500)

abbrev clock : ℕ → ℕ
clock t = t

read-ends_example :
    (s' : ℕ) × (l' : Light) × (r : TinyResult Bytes) × (read silence clock 2 light 0
      ≡ some (s', l', r))
read-ends_example = read-ends silence clock 1 light 0 (λ t. omega arith) (omega arith)
