-- ===== src/Hdlc/Ll/Link.antt =====
-- A transmitter and a receiver of src/proto/hdlc/low_level_ll.rs joined by a wire.
use native.Mathlib.Nat.{zero-add}
use tinyproto_rust.Base.{
  ℕ, ◌+◌, ◌≤◌, Option, none, some, List, [], ◌∷◌, ◌++◌, ◌≡◌, refl, sym, ap, ◌∙◌, arith, append-nil,
  append_assoc, Bytes, IsBytes, length, take, drop, take_long, drop_long, drop-drop,
  take-append-take-drop,
}
use tinyproto_rust.Crc.{get_crc_field_size}
use tinyproto_rust.Error.{TinyResult}
use tinyproto_rust.Hdlc.Stuffing.{frame_wire, flag_sequence}
use tinyproto_rust.Hdlc.Ll.Defs.{
  HdlcLl, TxState, start_phase, data_phase, crc_phase, end_phase, put_frame,
}
use tinyproto_rust.Hdlc.Ll.Tx.{Sent, run_tx}
use tinyproto_rust.Hdlc.Ll.Tx.Pending.{pending, pending_in, TxOk, TxOkIn, accepted}
use tinyproto_rust.Hdlc.Ll.Tx.Stream.{run_tx-stream}
use tinyproto_rust.Hdlc.Ll.Rx.{run_rx_from, run_rx}
use tinyproto_rust.Hdlc.Ll.Rx.Frame.{Ready, wire, received, run_rx-wire}
use tinyproto_rust.Hdlc.Ll.Rx.Chunks.{Ready-rests}

-- Calls of `run_tx` for outputs of the given sizes, and what they write together.
abbrev and_then : Bytes → Option Sent → Option Sent
and_then out none = none
and_then out (some (rest, ll)) = some (out ++ rest, ll)

unfoldable pub run_tx_calls : HdlcLl → List ℕ → Option Sent
run_tx_calls ll [] = some ([], ll)
run_tx_calls ll (n ∷ ns) = elim (run_tx ll n) [
  | none ↦ none
  | some (out, ll') ↦ and_then out (run_tx_calls ll' ns)
]

abbrev pub sum : List ℕ → ℕ
sum [] = 0
sum (n ∷ ns) = n + sum ns

-- However the output is cut into calls, together they write the pending bytes from the front.
pub run_tx_calls-stream :
    (ll : HdlcLl) (ns : List ℕ)
    → TxOk ll
    → (ll' : HdlcLl) × (run_tx_calls ll ns ≡ some (take (sum ns) (pending ll), ll'))
      × (pending ll' ≡ drop (sum ns) (pending ll))
      × TxOk ll'
      × (accepted ll' ≡ accepted ll)
unfolding run_tx_calls
run_tx_calls-stream ll [] h = (ll, refl, refl, h, refl)
run_tx_calls-stream ll (n ∷ ns) h =
    let (l1, ran, left, h1, kept) = run_tx-stream ll n h in
    let (l2, ran2, left2, h2, kept2) = run_tx_calls-stream l1 ns h1 in
    (
      l2,
      rw (ran, run_tx_calls, ran2, left)
          (ap (λ t. some (t, l2)) (take-append-take-drop n (sum ns) (pending ll))),
      left2 ∙ ap (drop (sum ns)) left ∙ drop-drop n (sum ns) (pending ll),
      h2,
      kept2 ∙ kept,
    )

cons_ne_nil_behind : (xs : Bytes) (x : ℕ) → xs ++ x ∷ [] ≡ [] → ⊥
cons_ne_nil_behind [] x e = cc
cons_ne_nil_behind (y ∷ ys) x e = cc

-- With nothing pending no frame is in transmission.
idle_in :
    (s : TxState) (o : Option Bytes) (ll : HdlcLl)
    → TxOkIn s o ll
    → pending_in s o ll ≡ []
    → o ≡ none
unfolding frame_wire
idle_in start_phase none ll h e = refl
idle_in start_phase (some frame) ll h e = cc
idle_in data_phase none ll h e = refl
idle_in data_phase (some frame) ll h e =
    absurd (cons_ne_nil_behind _ flag_sequence (append_assoc _ _ (flag_sequence ∷ []) ∙ e))
idle_in crc_phase none ll h e = refl
idle_in crc_phase (some frame) ll h e = absurd (cons_ne_nil_behind _ flag_sequence e)
idle_in end_phase none ll h e = refl
idle_in end_phase (some frame) ll h e = cc

pub idle : (ll : HdlcLl) → TxOk ll → pending ll ≡ [] → ll.tx_data ≡ none
idle ll = idle_in ll.tx_state ll.tx_data ll

-- A frame that is handed to an idle transmitter is queued, and the whole of it is pending.
pub put_frame-pending :
    (tx : HdlcLl) (b : ℕ) (bs : Bytes)
    → tx.tx_state ≡ TxState.start_phase
    → tx.tx_data ≡ none
    → (tx' : HdlcLl) × (put_frame tx (b ∷ bs) ≡ (tx', TinyResult.ok tt))
      × (pending tx' ≡ wire tx.crc_type (b ∷ bs))
      × TxOk tx'
      × (accepted tx' ≡ tx.tx_sent_frames ++ (b ∷ bs) ∷ [])
unfolding put_frame
put_frame-pending tx b bs s d = (
  record tx { tx_data = some (b ∷ bs); tx_pos = 0 },
  rw (d, put_frame) refl,
  rw s refl,
  rw s tt,
  refl,
)

-- A frame goes through from end to end. It is put into an idle transmitter, whose output is fetched by calls of
-- any sizes that add up to the frame's length on the wire; what they write together is read by a
-- receiver that is ready, has the same CRC type and is large enough for the payload. Then nothing
-- panics, the receiver consumes all the bytes without an error and has the payload as its next frame,
-- and the transmitter is idle again and reports the payload as sent.
pub put-transmit-receive :
    (tx rx : HdlcLl) (b : ℕ) (bs : Bytes) (ns : List ℕ)
    → tx.tx_state ≡ TxState.start_phase
    → tx.tx_data ≡ none
    → Ready rx
    → rx.crc_type ≡ tx.crc_type
    → IsBytes (b ∷ bs)
    → length (b ∷ bs) + get_crc_field_size rx.crc_type ≤ rx.phys_mtu
    → length (wire tx.crc_type (b ∷ bs)) ≤ sum ns
    → (out : Bytes) × (tx' : HdlcLl) × (run_tx_calls (put_frame tx (b ∷ bs)).0 ns ≡ some (out, tx'))
      × (run_rx rx out ≡ (length out, none, received rx (b ∷ bs)))
      × (tx'.tx_data ≡ none)
      × (tx'.tx_sent_frames ≡ tx.tx_sent_frames ++ (b ∷ bs) ∷ [])
unfolding run_rx
put-transmit-receive tx rx b bs ns s d ready same h fits enough =
    let (queued, put, whole, sane, holds) = put_frame-pending tx b bs s d in
    let (tx', ran, left, sane', kept) = run_tx_calls-stream queued ns sane in
    let out = wire tx.crc_type (b ∷ bs) in
    let done = left ∙ ap (drop (sum ns)) whole ∙ drop_long (sum ns) out enough in
    let none_left = idle tx' sane' done in
    (
      out,
      tx',
      ap (λ r. run_tx_calls r.0 ns) put
          ∙ ran
          ∙ ap (λ t. some (t, tx')) (ap (take (sum ns)) whole ∙ take_long (sum ns) out enough),
      ap (run_rx_from 0 rx) (ap (λ t. wire t (b ∷ bs)) (sym same) ∙ sym (append-nil _))
          ∙ run_rx-wire rx (b ∷ bs) [] 0 ready h fits (omega arith)
          ∙ Ready-rests (received rx (b ∷ bs)) _ tt
          ∙ ap (λ n. (n, none, received rx (b ∷ bs)))
              (zero-add _ ∙ ap (λ t. length (wire t (b ∷ bs))) same),
      none_left,
      sym (append-nil tx'.tx_sent_frames) ∙ rw none_left at kept ∙ holds,
    )
