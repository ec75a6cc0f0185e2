-- ===== src/Hdlc/Ll/Rx/Chunks.antt =====
-- How the input is cut into calls makes no difference to `run_rx` of
-- src/proto/hdlc/low_level_ll.rs.
use tinyproto_rust.Base.{
  ℕ, ◌+◌, Option, none, some, List, [], ◌∷◌, ◌++◌, ◌≡◌, ◌≤◌, ◌<◌, refl, sym, ap, ◌∙◌, arith, Bytes,
  IsBytes, length, length-append, Option-cases, inl, inr, append_assoc, append-nil,
}
use tinyproto_rust.Crc.{HdlcCrcT, get_crc_field_size}
use tinyproto_rust.Error.{TinyError}
use tinyproto_rust.Hdlc.Ll.Defs.{HdlcLl, RxState, start_phase, data_phase, end_phase}
use tinyproto_rust.Hdlc.Ll.Rx.{rx_byte, settle, run_rx_from}
use tinyproto_rust.Hdlc.Ll.Rx.Frame.{Ready, ReadyIn, wire, received, run_rx-wire}
use tinyproto_rust.Hdlc.Ll.Rx.Rounds.{
  run_rx_from-goes_on, run_rx_from-stops, run_rx_from-nil, run_rx_from-settle, settle-IsSettled,
}

-- A second call, on the bytes that follow, unless the first one reported an error.
abbrev pub resume : ℕ × Option TinyError × HdlcLl → Bytes → ℕ × Option TinyError × HdlcLl
resume (n, none, ll) bs = run_rx_from n ll bs
resume (n, some e, ll) bs = (n, some e, ll)

pub stops_before :
    (c : ℕ) (ll : HdlcLl) (bs : Bytes) (e : TinyError)
    → (settle ll).1 ≡ some e
    → run_rx_from c ll bs ≡ (c, some e, (settle ll).0)
stops_before c ll [] e h = run_rx_from-nil c ll ∙ ap (λ t. (c, t, (settle ll).0)) h
stops_before c ll (b ∷ bs) e h = run_rx_from-stops c ll b bs e h

-- A call for two slices in a row is a call for the first one and, if that reports no error, one for the
-- second; an error is reported at the same byte, with the same state.
pub run_rx_from-append :
    (c : ℕ) (ll : HdlcLl) (xs ys : Bytes)
    → run_rx_from c ll (xs ++ ys) ≡ resume (run_rx_from c ll xs) ys
run_rx_from-append c ll [] ys = elim (Option-cases (settle ll).1) [
  | inl fine ↦
      run_rx_from-settle c ll ys fine
      ∙ ap (λ r. resume r ys) (sym (run_rx_from-nil c ll ∙ ap (λ t. (c, t, (settle ll).0)) fine))
  | inr (e, failed) ↦
      stops_before c ll ys e failed ∙ ap (λ r. resume r ys) (sym (stops_before c ll [] e failed))
]
run_rx_from-append c ll (x ∷ xs) ys = elim (Option-cases (settle ll).1) [
  | inl fine ↦
      run_rx_from-goes_on c ll x (xs ++ ys) fine
      ∙ run_rx_from-append (c + 1) (rx_byte (settle ll).0 x) xs ys
      ∙ ap (λ r. resume r ys) (sym (run_rx_from-goes_on c ll x xs fine))
  | inr (e, failed) ↦
      run_rx_from-stops c ll x (xs ++ ys) e failed
      ∙ ap (λ r. resume r ys) (sym (run_rx_from-stops c ll x xs e failed))
]

-- Frames one behind the other on the wire.
abbrev pub wires : HdlcCrcT → List Bytes → Bytes
wires t [] = []
wires t (p ∷ ps) = wire t p ++ wires t ps

abbrev pub AllFit : HdlcCrcT → ℕ → List Bytes → Type 0
AllFit t mtu [] = Unit
AllFit t mtu (p ∷ ps) =
    (IsBytes p × (0 < length p) × (length p + get_crc_field_size t ≤ mtu)) × AllFit t mtu ps

Ready-rests_in :
    (s : RxState) (ll : HdlcLl) (c : ℕ)
    → ll.rx_state ≡ s
    → ReadyIn s ll
    → run_rx_from c ll [] ≡ (c, none, ll)
Ready-rests_in start_phase ll c e h =
    run_rx_from-nil c ll ∙ ap (λ r. (c, r.1, r.0)) (settle-IsSettled ll (rw e tt))
Ready-rests_in data_phase ll c e h =
    run_rx_from-nil c ll ∙ ap (λ r. (c, r.1, r.0)) (settle-IsSettled ll (rw e tt))
Ready-rests_in end_phase ll c e h = absurd h

pub Ready-rests : (ll : HdlcLl) (c : ℕ) → Ready ll → run_rx_from c ll [] ≡ (c, none, ll)
Ready-rests ll c = Ready-rests_in ll.rx_state ll c refl

-- A framer that is ready for a flag receives frames in a row, whose payloads are not empty, consist
-- of bytes and fit with their check sequences: all bytes are consumed without an error, the
-- payloads join the received frames in their order, and the framer is ready again.
pub run_rx-wires :
    (ll : HdlcLl) (ps : List Bytes) (c : ℕ)
    → Ready ll
    → AllFit ll.crc_type ll.phys_mtu ps
    → let (n, error, ll') = run_rx_from c ll (wires ll.crc_type ps) in
      (n ≡ c + length (wires ll.crc_type ps))
      × (error ≡ none)
      × (ll'.rx_frames ≡ ll.rx_frames ++ ps)
      × Ready ll'
run_rx-wires ll [] c ready fit =
    rw (Ready-rests ll c ready) (omega arith, refl, sym (append-nil ll.rx_frames), ready)
run_rx-wires ll (p ∷ ps) c ready (fit, fits) =
    let rest = wires ll.crc_type ps in
    let (n, e, f, r) = run_rx-wires (received ll p) ps (c + length (wire ll.crc_type p)) tt fits in
    rw (run_rx-wire ll p rest c ready fit.0 fit.2 fit.1) (
      n ∙ omega (arith, length-append {0} (wire ll.crc_type p) rest),
      e,
      f ∙ append_assoc ll.rx_frames (p ∷ []) ps,
      r,
    )
