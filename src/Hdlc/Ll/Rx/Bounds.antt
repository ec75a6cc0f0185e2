-- ===== src/Hdlc/Ll/Rx/Bounds.antt =====
-- The receive buffer of src/proto/hdlc/low_level_ll.rs never outgrows the physical MTU.
use tinyproto_rust.Base.{
  ℕ, ◌+◌, ◌≤◌, bit_xor, Option, none, some, [], ◌∷◌, ◌≡◌, refl, ◌∙◌, arith, Bytes, length,
  length-append, ◌⊎◌, inl, inr, Option-cases,
}
use tinyproto_rust.Error.{TinyError, wrong_crc}
use tinyproto_rust.Hdlc.Stuffing.{escape_bit}
use tinyproto_rust.Hdlc.Ll.Defs.{HdlcLl, RxState, start_phase, data_phase, end_phase}
use tinyproto_rust.Hdlc.Ll.Rx.Rounds.{IsSettled, run_rx_from-goes_on, run_rx_from-stops}
use tinyproto_rust.Hdlc.Ll.Rx.{rx_byte, rx_check, rx_end, settle, run_rx_from, run_rx}

-- While a frame is read, `rx_ptr` counts the buffer.
abbrev pub Counted : RxState → HdlcLl → Type 0
Counted start_phase ll = Unit
Counted data_phase ll = ll.rx_ptr ≡ length ll.rx_buf
Counted end_phase ll = ll.rx_ptr ≡ length ll.rx_buf

abbrev pub RxOk : HdlcLl → Type 0
RxOk ll = (length ll.rx_buf ≤ ll.phys_mtu) × Counted ll.rx_state ll

rx_byte-RxOk_in :
    (s : RxState) (ll : HdlcLl) (b : ℕ) → ll.rx_state ≡ s → RxOk ll → RxOk (rx_byte ll b)
unfolding rx_byte
rx_byte-RxOk_in data_phase ll b e ok = ground (
  arith,
  length-append {0} ll.rx_buf (b ∷ []),
  length-append {0} ll.rx_buf (bit_xor b escape_bit ∷ []),
)
rx_byte-RxOk_in _ ll b e ok = ground arith

rx_byte-RxOk : (ll : HdlcLl) (b : ℕ) → RxOk ll → RxOk (rx_byte ll b)
rx_byte-RxOk ll b = rx_byte-RxOk_in ll.rx_state ll b refl

-- The only error is a wrong check sequence.
abbrev pub OnlyCrc : Option TinyError → Type 0
OnlyCrc error = (error ≡ none) ⊎ (error ≡ some wrong_crc)

abbrev pub Sound : HdlcLl → HdlcLl → Option TinyError → Type 0
Sound ll ll' error =
    RxOk ll' × OnlyCrc error × IsSettled ll'.rx_state × (ll'.phys_mtu ≡ ll.phys_mtu)

settle-Sound_in :
    (s : RxState) (ll : HdlcLl) → ll.rx_state ≡ s → RxOk ll → Sound ll (settle ll).0 (settle ll).1
unfolding settle rx_end rx_check
settle-Sound_in start_phase ll e ok = ground arith
settle-Sound_in _ ll e ok = ground arith

settle-Sound : (ll : HdlcLl) → RxOk ll → Sound ll (settle ll).0 (settle ll).1
settle-Sound ll = settle-Sound_in ll.rx_state ll refl

rx_byte-phys_mtu : (ll : HdlcLl) (b : ℕ) → (rx_byte ll b).phys_mtu ≡ ll.phys_mtu
unfolding rx_byte
rx_byte-phys_mtu ll b = ground arith

-- A call started with `c` bytes consumed stops behind `bs`, or before its end on an error.
abbrev pub Consumes : ℕ → Bytes → Option TinyError → ℕ → Type 0
Consumes c bs none n = n ≡ c + length bs
Consumes c bs (some e) n = n ≤ c + length bs

Consumes-cons :
    (c b : ℕ) (bs : Bytes) (e : Option TinyError) (n : ℕ)
    → Consumes (c + 1) bs e n
    → Consumes c (b ∷ bs) e n
Consumes-cons c b bs none n h = omega arith
Consumes-cons c b bs (some e) n h = omega arith

run_rx_from-Sound :
    (c : ℕ) (ll : HdlcLl) (bs : Bytes)
    → RxOk ll
    → let (n, error, ll') = run_rx_from c ll bs in Consumes c bs error n × Sound ll ll' error
unfolding run_rx_from
run_rx_from-Sound c ll [] ok = (stops (settle ll).1, settle-Sound ll ok)
  where
    stops : (e : Option TinyError) → Consumes c [] e c
    stops none = omega arith
    stops (some e) = omega arith
run_rx_from-Sound c ll (b ∷ bs) ok =
    let s = settle-Sound ll ok in
    elim (Option-cases (settle ll).1) [
      | inl fine ↦
          let (n, rest) =
            run_rx_from-Sound (c + 1) (rx_byte (settle ll).0 b) bs
              (rx_byte-RxOk (settle ll).0 b s.0) in
          rw (run_rx_from-goes_on c ll b bs fine) (
            Consumes-cons c b bs _ _ n,
            (rest.0, rest.1, rest.2, rest.3 ∙ rx_byte-phys_mtu (settle ll).0 b ∙ s.3),
          )
      | inr (e, failed) ↦
          rw (run_rx_from-stops c ll b bs e failed)
            (omega arith, (s.0, rw failed at (s.1), s.2, s.3))
    ]

-- Whatever bytes come in, and in whatever state whose buffer fits the physical MTU and is counted
-- by `rx_ptr` while a frame is read: `run_rx` leaves such a state, in which no flag is unprocessed,
-- with the same MTU, reports no error but a wrong check sequence, never `DataTooLarge`, consumes
-- all bytes unless it reports an error, and never more.
pub run_rx-Sound :
    (ll : HdlcLl) (bs : Bytes)
    → RxOk ll
    → let (n, error, ll') = run_rx ll bs in Consumes 0 bs error n × Sound ll ll' error
unfolding run_rx
run_rx-Sound ll bs ok = run_rx_from-Sound 0 ll bs ok
