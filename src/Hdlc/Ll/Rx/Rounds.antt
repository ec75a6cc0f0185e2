-- ===== src/Hdlc/Ll/Rx/Rounds.antt =====
-- The rounds of the receive loop of src/proto/hdlc/low_level_ll.rs as equations.
use tinyproto_rust.Base.{ℕ, ◌+◌, none, some, [], ◌∷◌, ◌≡◌, refl, sym, ap, ◌∙◌, arith, Bytes}
use tinyproto_rust.Error.{TinyError}
use tinyproto_rust.Hdlc.Ll.Defs.{HdlcLl, RxState, start_phase, data_phase, end_phase}
use tinyproto_rust.Hdlc.Ll.Rx.{rx_byte, rx_check, rx_end, settle, run_rx_from}

module _ (c : ℕ) (ll : HdlcLl) (b : ℕ) (bs : Bytes) where
  pub run_rx_from-goes_on :
      (settle ll).1 ≡ none
      → run_rx_from c ll (b ∷ bs) ≡ run_rx_from (c + 1) (rx_byte (settle ll).0 b) bs
  unfolding run_rx_from
  run_rx_from-goes_on h = rw (h, run_rx_from)

  pub run_rx_from-stops :
      (e : TinyError)
      → (settle ll).1 ≡ some e
      → run_rx_from c ll (b ∷ bs) ≡ (c, some e, (settle ll).0)
  unfolding run_rx_from
  run_rx_from-stops e h = rw (h, run_rx_from)

-- Outside of End there is nothing to do before a byte.
abbrev pub IsSettled : RxState → Type 0
IsSettled start_phase = Unit
IsSettled data_phase = Unit
IsSettled end_phase = ⊥

settle-IsSettled_in :
    (s : RxState) (ll : HdlcLl) → ll.rx_state ≡ s → IsSettled s → settle ll ≡ (ll, none)
unfolding settle
settle-IsSettled_in start_phase ll e h = rw (e, settle)
settle-IsSettled_in data_phase ll e h = rw (e, settle)
settle-IsSettled_in end_phase ll e h = absurd h

pub settle-IsSettled : (ll : HdlcLl) → IsSettled ll.rx_state → settle ll ≡ (ll, none)
settle-IsSettled ll = settle-IsSettled_in ll.rx_state ll refl

pub run_rx_from-byte :
    (c : ℕ) (ll : HdlcLl) (b : ℕ) (bs : Bytes)
    → IsSettled ll.rx_state
    → run_rx_from c ll (b ∷ bs) ≡ run_rx_from (c + 1) (rx_byte ll b) bs
run_rx_from-byte c ll b bs h =
    let same = settle-IsSettled ll h in
    run_rx_from-goes_on c ll b bs (ap (λ r. r.1) same)
    ∙ ap (λ r. run_rx_from (c + 1) (rx_byte r.0 b) bs) same

settle_settles_in : (s : RxState) (ll : HdlcLl) → ll.rx_state ≡ s → IsSettled (settle ll).0.rx_state
unfolding settle rx_end rx_check
settle_settles_in start_phase ll e = ground arith
settle_settles_in _ ll e = ground arith

pub settle_settles : (ll : HdlcLl) → IsSettled (settle ll).0.rx_state
settle_settles ll = settle_settles_in ll.rx_state ll refl

pub run_rx_from-nil :
    (c : ℕ) (ll : HdlcLl) → run_rx_from c ll [] ≡ (c, (settle ll).1, (settle ll).0)
unfolding run_rx_from
run_rx_from-nil c ll = refl

-- The round in End may as well run before the call.
pub run_rx_from-settle :
    (c : ℕ) (ll : HdlcLl) (bs : Bytes)
    → (settle ll).1 ≡ none
    → run_rx_from c ll bs ≡ run_rx_from c (settle ll).0 bs
run_rx_from-settle c ll [] h =
    run_rx_from-nil c ll
    ∙ ap (λ e. (c, e, (settle ll).0)) h
    ∙ sym (
        run_rx_from-nil c (settle ll).0
        ∙ ap (λ r. (c, r.1, r.0)) (settle-IsSettled (settle ll).0 (settle_settles ll)))
run_rx_from-settle c ll (b ∷ bs) h =
    run_rx_from-goes_on c ll b bs h
    ∙ sym (run_rx_from-byte c (settle ll).0 b bs (settle_settles ll))
