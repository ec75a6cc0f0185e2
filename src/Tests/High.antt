-- ===== src/Tests/High.antt =====
-- src/proto/hdlc/high_level.rs on a concrete input.
use tinyproto_rust.Base.{
  ℕ, true, false, none, some, List, [], ◌∷◌, ◌++◌, Bytes, length, take, drop, ◌≡◌, refl, arith,
}
use tinyproto_rust.Base.Int.{ℤ, pos}
use tinyproto_rust.Error.{ok}
use tinyproto_rust.Crc.Crc16 as Crc16
use tinyproto_rust.Hdlc.Stuffing.{frame_wire, stuff_all}
use tinyproto_rust.Hdlc.Ll.Rx.Frame.{Ready}
use tinyproto_rust.Hdlc.Ll.Rx.Chunks.{wires}
use tinyproto_rust.Hdlc.High.Reads.{given, run_rx-reads}
use tinyproto_rust.Hdlc.High.Exchange.{ReadsAll, send-get_tx_data-run_rx}
use tinyproto_rust.Crc.{hdlc_crc16}
use tinyproto_rust.Hdlc.Ll.Defs.{HdlcLl, RxState, TxState, calculate_crc}
use tinyproto_rust.Hdlc.Ll.Tx.Pending.{pending, TxOk, queued, accepted}
use tinyproto_rust.Hdlc.High.{Hdlc, get_tx_data, run_rx, send}
use tinyproto_rust.Hdlc.High.Notify.{told, get_tx_data-told}

abbrev framer : HdlcLl
framer = record {
  crc_type = hdlc_crc16;
  phys_mtu = 32;
  rx_buf = [];
  rx_state = RxState.start_phase;
  rx_ptr = 0;
  rx_escape = false;
  tx_state = TxState.start_phase;
  tx_data = some (1 ∷ 0x7E ∷ 2 ∷ []);
  tx_pos = 0;
  tx_crc = 0;
  tx_crc_bits_sent = 0;
  tx_escape = false;
  rx_frames = [];
  tx_sent_frames = [];
}

-- A frame is queued, and the callback for sent frames is set.
abbrev handle : Hdlc
handle = record {
  ll = framer;
  events = 0x02;
  multithread_mode = false;
  on_frame_read = false;
  on_frame_send = true;
  rx_len = 0;
  calls = [];
}

get_tx_data-told_example :
    (h' : Hdlc) × (fs : List Bytes) × (get_tx_data handle 64 ≡ some (take 64 (pending framer), h'))
    × (pending h'.ll ≡ drop 64 (pending framer))
    × TxOk h'.ll
    × (fs ++ queued h'.ll.tx_data ≡ accepted framer)
    × (h'.calls ≡ told true [] fs)
    × (h'.ll.tx_sent_frames ≡ [])
get_tx_data-told_example = get_tx_data-told handle 64 tt

-- Two handles that are at rest.
abbrev writer : Hdlc
writer = record handle { ll = record framer { tx_data = none }; events = 1 }

abbrev reader : Hdlc
reader = record writer { on_frame_read = true }

-- Two frames in a row.
run_rx-reads_example :
    let (n, error, h') = run_rx reader (wires hdlc_crc16 ((1 ∷ 0x7E ∷ []) ∷ (5 ∷ []) ∷ [])) in
    (n ≡ length (wires hdlc_crc16 ((1 ∷ 0x7E ∷ []) ∷ (5 ∷ []) ∷ [])))
    × (error ≡ none)
    × (h'.calls ≡ given true [] ((1 ∷ 0x7E ∷ []) ∷ (5 ∷ []) ∷ []))
    × (h'.rx_len ≡ 1)
    × (h'.ll.rx_frames ≡ [])
    × Ready h'.ll
run_rx-reads_example = run_rx-reads reader ((1 ∷ 0x7E ∷ []) ∷ (5 ∷ []) ∷ []) tt refl (
  ((omega arith, (omega arith, tt)), omega arith, omega arith),
  (((omega arith, tt), omega arith, omega arith), tt),
)

abbrev keep_quiet : ℕ → Bytes → ℤ × ℕ
keep_quiet s bytes = (pos 0, s)

send-get_tx_data-run_rx_example :
    (a1 a2 : Hdlc) × (out : Bytes) × (send keep_quiet (λ s. s) 5 true writer (1 ∷ 0x7E ∷ []) 0 3
      ≡ some (3, a1, ok tt))
    × (get_tx_data a1 64 ≡ some (out, a2))
    × (a2.calls ≡ told true [] ((1 ∷ 0x7E ∷ []) ∷ []))
    × (a2.ll.tx_sent_frames ≡ [])
    × ReadsAll reader out (1 ∷ 0x7E ∷ [])
unfolding frame_wire stuff_all calculate_crc Crc16.new Crc16.sum_bytes Crc16.get
send-get_tx_data-run_rx_example =
    send-get_tx_data-run_rx keep_quiet (λ s. s) writer reader 1 (0x7E ∷ []) 64 5 0 true 3 refl refl
      refl refl tt refl refl (omega arith, (omega arith, tt)) (omega arith) (omega arith)
