-- ===== src/Hdlc/Ll/Tx/Stream.antt =====
-- The transmitter of src/proto/hdlc/low_level_ll.rs as a stream: whatever output sizes it is called
-- with, it writes the pending bytes from the front.
use tinyproto_rust.Base.{
  ℕ, zero, suc, ◌+◌, ◌-◌, ◌*◌, ◌≤◌, ◌<◌, true, false, Option, some, [], ◌++◌, ◌≡◌, refl, sym, ap,
  ◌∙◌, arith, append_assoc, append-nil, ◌⊎◌, inl, inr, ◌==◌, Bytes, length, take, drop,
  length-append, take-length-append, drop-length-append, take_long, drop_long,
}
use tinyproto_rust.Hdlc.Ll.Defs.{HdlcLl, TxState, start_phase, data_phase, crc_phase, end_phase}
use tinyproto_rust.Hdlc.Ll.Tx.{Sent, same_state, tx_step, run_tx_loop, run_tx}
use tinyproto_rust.Hdlc.Ll.Tx.Step.{step-Steps}
use tinyproto_rust.Hdlc.Ll.Tx.Pending.{
  pending, TxOk, accepted, rank, writes, advances, rests, Progress,
}

-- What a call for `n` bytes gives.
record Streams (ll : HdlcLl) (n : ℕ) (out : Bytes) (ll' : HdlcLl) : Type 0 where
  emitted : pending ll ≡ out ++ pending ll'
  ok : TxOk ll'
  full : (length out ≡ n) ⊎ ((length out ≤ n) × (pending ll' ≡ []))
  kept : accepted ll' ≡ accepted ll

same_state-rank : (a b : TxState) → rank a < rank b → same_state a b ≡ false
same_state-rank start_phase data_phase h = refl
same_state-rank start_phase crc_phase h = refl
same_state-rank crc_phase data_phase h = refl
same_state-rank end_phase data_phase h = refl
same_state-rank end_phase crc_phase h = refl
same_state-rank data_phase start_phase h = absurd (omega arith)
same_state-rank _ _ h = absurd (omega arith)

same_state_refl : (a : TxState) → same_state a a ≡ true
same_state_refl start_phase = refl
same_state_refl data_phase = refl
same_state_refl crc_phase = refl
same_state_refl end_phase = refl

rank-le : (a : TxState) → rank a ≤ 2
rank-le start_phase = omega arith
rank-le data_phase = omega arith
rank-le crc_phase = omega arith
rank-le end_phase = omega arith

abbrev Runs : Option Sent → HdlcLl → ℕ → Type 0
Runs result ll n =
    (out : Bytes) × (ll' : HdlcLl) × (result ≡ some (out, ll')) × Streams ll n out ll'

no_bytes : (bytes : Bytes) → bytes ≡ [] → (length bytes == 0) ≡ true
no_bytes bytes e = rw e

some_bytes : (bytes : Bytes) → 0 < length bytes → (length bytes == 0) ≡ false
some_bytes bytes h = ground arith

-- One round in front of a loop on less fuel.
module _ (fuel : ℕ) (ll : HdlcLl) (room : ℕ) (bytes : Bytes) (ll' : HdlcLl)
    (stepped : tx_step ll (suc room) ≡ some (bytes, ll'))
    (p : Progress ll (suc room) bytes ll') where
  writes-Runs :
      0 < length bytes
      → Runs (run_tx_loop fuel ll' (suc room - length bytes)) ll' (suc room - length bytes)
      → Runs (run_tx_loop (suc fuel) ll (suc room)) ll (suc room)
  unfolding run_tx_loop
  writes-Runs h (rest, ll'', ran, st) = (
    bytes ++ rest,
    ll'',
    rw (stepped, some_bytes bytes h, ran, run_tx_loop) refl,
    record {
      emitted = p.emitted ∙ ap (λ t. bytes ++ t) st.emitted ∙ sym (append_assoc bytes rest _);
      ok = st.ok;
      full = elim (st.full) [
        | inl l ↦ inl (omega (arith, p.fits, length-append {0} bytes rest))
        | inr (l, done) ↦ inr (omega (arith, p.fits, length-append {0} bytes rest), done)
      ];
      kept = st.kept ∙ p.kept;
    },
  )

  advances-Runs :
      bytes ≡ []
      → rank ll'.tx_state < rank ll.tx_state
      → Runs (run_tx_loop fuel ll' (suc room)) ll' (suc room)
      → Runs (run_tx_loop (suc fuel) ll (suc room)) ll (suc room)
  unfolding run_tx_loop
  advances-Runs none_out down (rest, ll'', ran, st) = (
    rest,
    ll'',
    rw
        (
          stepped,
          no_bytes bytes none_out,
          same_state-rank ll'.tx_state ll.tx_state down,
          ran,
          run_tx_loop,
        )
        refl,
    record {
      emitted = rw none_out at (p.emitted) ∙ st.emitted;
      ok = st.ok;
      full = st.full;
      kept = st.kept ∙ p.kept;
    },
  )

  rests-Runs :
      bytes ≡ []
      → ll' ≡ ll
      → pending ll ≡ []
      → Runs (run_tx_loop (suc fuel) ll (suc room)) ll (suc room)
  unfolding run_tx_loop
  rests-Runs none_out same done = (
    [],
    ll',
    rw
        (
          stepped,
          no_bytes bytes none_out,
          ap (λ (l : HdlcLl). same_state l.tx_state ll.tx_state) same ∙ same_state_refl ll.tx_state,
          run_tx_loop,
        )
        refl,
    record {
      emitted = ap pending (sym same);
      ok = p.ok;
      full = inr (omega arith, ap pending same ∙ done);
      kept = p.kept;
    },
  )

run_tx_loop-Runs :
    (fuel : ℕ) (ll : HdlcLl) (room : ℕ)
    → TxOk ll
    → 3 * room + rank ll.tx_state < fuel
    → Runs (run_tx_loop fuel ll room) ll room
unfolding run_tx_loop
run_tx_loop-Runs zero ll room ok h = absurd (omega arith)
run_tx_loop-Runs (suc fuel) ll zero ok h =
    ([], ll, refl, record { emitted = refl; ok = ok; full = inl refl; kept = refl })
run_tx_loop-Runs (suc fuel) ll (suc room) ok h =
    let (bytes, ll', stepped, p) = step-Steps ll room ok in
    elim (p.moves) [
      | writes more ↦ writes-Runs fuel ll room bytes ll' stepped p more (
          run_tx_loop-Runs fuel ll' (suc room - length bytes) p.ok
            (omega (arith, more, p.fits, rank-le ll'.tx_state)))
      | advances none_out down ↦
          advances-Runs fuel ll room bytes ll' stepped p none_out down
            (run_tx_loop-Runs fuel ll' (suc room) p.ok (omega (arith, down)))
      | rests none_out same done ↦ rests-Runs fuel ll room bytes ll' stepped p none_out same done
    ]

split_at :
    (n : ℕ) (xs out rest : Bytes)
    → xs ≡ out ++ rest
    → (length out ≡ n) ⊎ ((length out ≤ n) × (rest ≡ []))
    → (out ≡ take n xs) × (rest ≡ drop n xs)
split_at n xs out rest e (inl l) =
    rw (e, ← l) (sym (take-length-append out rest), sym (drop-length-append out rest))
split_at n xs out rest e (inr (l, done)) =
    rw (e, done, append-nil) (sym (take_long n out l), sym (drop_long n out l))

-- In a state that the framer reaches, `run_tx` neither panics nor runs out of rounds: a call for `n` bytes
-- writes the first `n` of the pending bytes, or all of them if there are fewer, and leaves the rest
-- pending in such a state again. Together the frame in transmission and those reported as sent stay the
-- frames that were handed over, in their order.
pub run_tx-stream :
    (ll : HdlcLl) (n : ℕ)
    → TxOk ll
    → (ll' : HdlcLl) × (run_tx ll n ≡ some (take n (pending ll), ll'))
      × (pending ll' ≡ drop n (pending ll))
      × TxOk ll'
      × (accepted ll' ≡ accepted ll)
unfolding run_tx
run_tx-stream ll n ok =
    let (out, ll', ran, st) =
      run_tx_loop-Runs (3 * n + 3) ll n ok (omega (arith, rank-le ll.tx_state)) in
    let (front, back) = split_at n (pending ll) out (pending ll') st.emitted st.full in
    (ll', rw (← front) ran, back, st.ok, st.kept)
