-- ===== src/Hdlc/Ll/Tx/Queues.antt =====
-- The queues of the transmitter (src/proto/hdlc/low_level_ll.rs): a frame handed over, and the notices of sent ones.
use tinyproto_rust.Base.{ℕ, none, some, Option, List, [], ◌∷◌, ◌≡◌, refl, Bytes, Returns}
use tinyproto_rust.Hdlc.Ll.Defs.{
  HdlcLl, TxState, start_phase, data_phase, crc_phase, end_phase, put_frame, get_tx_sent_frame,
}
use tinyproto_rust.Hdlc.Ll.Tx.{run_tx}
use tinyproto_rust.Hdlc.Ll.Tx.Pending.{TxOk, TxOkIn}
use tinyproto_rust.Hdlc.Ll.Tx.Stream.{run_tx-stream}

put_frame-TxOk_in :
    (ll : HdlcLl) (b : ℕ) (bs : Bytes) (s : TxState) (o : Option Bytes)
    → ll.tx_state ≡ s
    → ll.tx_data ≡ o
    → TxOkIn s o ll
    → TxOk (put_frame ll (b ∷ bs)).0
unfolding put_frame
put_frame-TxOk_in ll b bs s (some f) e d ok = simp (d, e) ok
put_frame-TxOk_in ll b bs start_phase none e d ok = rw (d, e) tt
put_frame-TxOk_in ll b bs data_phase none e d ok = absurd ok
put_frame-TxOk_in ll b bs crc_phase none e d ok = absurd ok
put_frame-TxOk_in ll b bs end_phase none e d ok = absurd ok

pub put_frame-TxOk : (ll : HdlcLl) (bs : Bytes) → TxOk ll → TxOk (put_frame ll bs).0
unfolding put_frame
put_frame-TxOk ll [] ok = ok
put_frame-TxOk ll (b ∷ bs) ok = put_frame-TxOk_in ll b bs ll.tx_state ll.tx_data refl refl ok

notices-TxOkIn :
    (ll : HdlcLl) (fs : List Bytes) (s : TxState) (o : Option Bytes)
    → TxOkIn s o ll
    → TxOkIn s o (record ll { tx_sent_frames = fs })
notices-TxOkIn ll fs start_phase o ok = tt
notices-TxOkIn ll fs data_phase none ok = ok
notices-TxOkIn ll fs data_phase (some f) ok = ok
notices-TxOkIn ll fs crc_phase none ok = ok
notices-TxOkIn ll fs crc_phase (some f) ok = ok
notices-TxOkIn ll fs end_phase none ok = ok
notices-TxOkIn ll fs end_phase (some f) ok = ok

pub get_tx_sent_frame-TxOk : (ll : HdlcLl) → TxOk ll → TxOk (get_tx_sent_frame ll).1
unfolding get_tx_sent_frame
get_tx_sent_frame-TxOk ll ok = notices-TxOkIn ll _ ll.tx_state ll.tx_data ok

pub get_tx_sent_frame-nil :
    (ll : HdlcLl)
    → ll.tx_sent_frames ≡ []
    → ((get_tx_sent_frame ll).0 ≡ none) × ((get_tx_sent_frame ll).1.tx_sent_frames ≡ [])
unfolding get_tx_sent_frame
get_tx_sent_frame-nil ll e = rw e (refl, refl)

pub get_tx_sent_frame-cons :
    (ll : HdlcLl) (f : Bytes) (fs : List Bytes)
    → ll.tx_sent_frames ≡ f ∷ fs
    → ((get_tx_sent_frame ll).0 ≡ some f) × ((get_tx_sent_frame ll).1.tx_sent_frames ≡ fs)
unfolding get_tx_sent_frame
get_tx_sent_frame-cons ll f fs e = rw e (refl, refl)

pub run_tx-TxOk : (ll : HdlcLl) (n : ℕ) → TxOk ll → Returns (λ r. TxOk r.1) (run_tx ll n)
run_tx-TxOk ll n ok =
    let (ll', ran, left, ok', kept) = run_tx-stream ll n ok in
    record { result = _; returned = ran; holds = ok' }
