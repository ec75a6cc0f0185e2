-- ===== src/Fd/IQueueControl/Confirm.antt =====
-- `confirm_sent_frames` of src/proto/fd/i_queue_control.rs with a callback that notes each number it is given.
use tinyproto_rust.Base.{
  ℕ, zero, suc, ◌+◌, ◌%◌, ◌≤◌, ◌<◌, Bool, true, false, not, none, some, List, [], ◌∷◌, ◌++◌, length,
  append_assoc, append-nil, ◌≡◌, ◌≢◌, refl, sym, ap, ◌∙◌, arith, ◌==◌, ==_iff,
}
use tinyproto_rust.Fd.IQueueControl.{IQueueControl, next_number, confirm_loop, confirm_sent_frames}
use tinyproto_rust.Fd.IQueueControl.Window.{next_number-mod, distance, InWindow, allocated, unsent}

abbrev pub note : List ℕ → ℕ → List ℕ × Bool
note seen n = (seen ++ (n ∷ []), true)

-- `n` numbers from `from` on, modulo 8.
abbrev pub numbers_from : ℕ → ℕ → List ℕ
numbers_from from zero = []
numbers_from from (suc n) = from ∷ numbers_from ((from + 1) % 8) n

abbrev pub with_confirm_ns : IQueueControl → ℕ → IQueueControl
with_confirm_ns c n = record c { tx_state = record (c.tx_state) { confirm_ns = n } }

-- The flag that the loop returns after `n` rounds.
abbrev confirmed_after : ℕ → Bool → Bool
confirmed_after zero b = b
confirmed_after (suc n) b = true

confirmed_after-true : (n : ℕ) → confirmed_after n true ≡ true
confirmed_after-true zero = refl
confirmed_after-true (suc n) = refl

confirmed_after-not :
    (n : ℕ) (b : Bool) → (b ≡ true → n ≡ 0) → (b ≡ false → n ≢ 0) → confirmed_after n false ≡ not b
confirmed_after-not zero true h k = refl
confirmed_after-not (suc n) true h k = absurd (omega (arith, h refl))
confirmed_after-not zero false h k = absurd (k refl refl)
confirmed_after-not (suc n) false h k = refl

confirm_loop-numbers :
    (fuel n nr : ℕ) (seen : List ℕ) (c : IQueueControl) (confirmed : Bool)
    → n < fuel
    → c.tx_state.confirm_ns < 8
    → nr < 8
    → distance c.tx_state.confirm_ns nr ≡ n
    → confirm_loop fuel note nr seen c confirmed
      ≡ some (
        seen ++ numbers_from c.tx_state.confirm_ns n,
        with_confirm_ns c nr,
        confirmed_after n confirmed,
      )
unfolding confirm_loop
confirm_loop-numbers zero n nr seen c confirmed h lt nr_lt d = absurd (omega arith)
confirm_loop-numbers (suc fuel) zero nr seen c confirmed h lt nr_lt d =
    let same : c.tx_state.confirm_ns ≡ nr = omega (arith, d) in
    rw ((==_iff c.tx_state.confirm_ns nr).1 same, confirm_loop, append-nil seen, sym same) refl
confirm_loop-numbers (suc fuel) (suc n) nr seen c confirmed h lt nr_lt d =
    let ns = c.tx_state.confirm_ns in
    let moved = with_confirm_ns c (next_number ns) in
    let differ : (ns == nr) ≡ false = ground arith in
    let next : next_number ns ≡ (ns + 1) % 8 = next_number-mod ns (omega arith) in
    let rest =
      confirm_loop-numbers fuel n nr (seen ++ (ns ∷ [])) moved true (omega arith)
        (omega (arith, next)) nr_lt (omega (arith, next)) in
    rw
      (
        differ,
        confirm_loop,
        rest,
        confirmed_after-true n,
        append_assoc seen (ns ∷ []) (numbers_from (next_number ns) n),
        next,
      )
      refl

-- With a number below 8, from one below 8, and with a callback that always goes on,
-- `confirm_sent_frames` ends: it gives the callback the numbers from the next one to be confirmed
-- up to, but without, `nr`, in order, makes `nr` the next one to be confirmed, changes nothing
-- else, and tells whether there were any. That holds of each such `nr`, also of one beyond the
-- numbers that were sent.
pub confirm_sent_frames-numbers :
    (c : IQueueControl) (nr : ℕ)
    → c.tx_state.confirm_ns < 8
    → nr < 8
    → confirm_sent_frames note [] c nr
      ≡ some (
        numbers_from c.tx_state.confirm_ns (distance c.tx_state.confirm_ns nr),
        with_confirm_ns c nr,
        not (c.tx_state.confirm_ns == nr),
      )
unfolding confirm_sent_frames
confirm_sent_frames-numbers c nr lt nr_lt =
    let from = c.tx_state.confirm_ns in
    let n = distance from nr in
    confirm_loop-numbers 8 n nr [] c false (omega arith) lt nr_lt refl
    ∙ ap (λ b. some (numbers_from from n, with_confirm_ns c nr, b))
        (confirmed_after-not n (from == nr) (λ e. ground arith) (λ e f. ground arith))

-- A number of 8 or more is never reached from one below 8: with a callback that always goes on, the
-- loop does not end, however many rounds are granted.
pub confirm_loop-diverges :
    (fuel nr : ℕ) (seen : List ℕ) (c : IQueueControl) (confirmed : Bool)
    → c.tx_state.confirm_ns < 8
    → 8 ≤ nr
    → confirm_loop fuel note nr seen c confirmed ≡ none
unfolding confirm_loop
confirm_loop-diverges zero nr seen c confirmed lt h = refl
confirm_loop-diverges (suc fuel) nr seen c confirmed lt h =
    let ns = c.tx_state.confirm_ns in
    let differ : (ns == nr) ≡ false = ground arith in
    rw (differ, confirm_loop)
      (confirm_loop-diverges fuel nr (seen ++ (ns ∷ [])) (with_confirm_ns c (next_number ns)) true
        (omega (arith, next_number-mod ns (omega arith))) h)

length-numbers_from : (n from : ℕ) → length (numbers_from from n) ≡ n
length-numbers_from zero from = refl
length-numbers_from (suc n) from = ap suc (length-numbers_from n ((from + 1) % 8))

moved-InWindow :
    (c : IQueueControl) (nr : ℕ)
    → InWindow c
    → nr < 8
    → distance c.tx_state.confirm_ns nr ≤ distance c.tx_state.confirm_ns c.tx_state.next_ns
    → InWindow (with_confirm_ns c nr)
      × (allocated (with_confirm_ns c nr) + distance c.tx_state.confirm_ns nr ≡ allocated c)
      × (unsent (with_confirm_ns c nr) ≡ unsent c)
moved-InWindow c nr w lt h = ground arith

-- With a callback that always goes on, an acknowledgement of a number that lies between the next
-- one to be confirmed and the next one to be sent keeps the queue control in its window: as many
-- frames are given to the callback as are no longer allocated, and as many as before are yet to be
-- sent.
pub confirm_sent_frames-InWindow :
    (c : IQueueControl) (nr : ℕ)
    → InWindow c
    → nr < 8
    → distance c.tx_state.confirm_ns nr ≤ distance c.tx_state.confirm_ns c.tx_state.next_ns
    → (seen : List ℕ) × (c' : IQueueControl) × (confirmed : Bool) × (confirm_sent_frames note [] c
          nr
        ≡ some (seen, c', confirmed))
      × InWindow c'
      × (allocated c' + length seen ≡ allocated c)
      × (unsent c' ≡ unsent c)
confirm_sent_frames-InWindow c nr w lt h =
    let from = c.tx_state.confirm_ns in
    let n = distance from nr in
    let (w', fewer, same) = moved-InWindow c nr w lt h in
    (
      numbers_from from n,
      with_confirm_ns c nr,
      not (from == nr),
      confirm_sent_frames-numbers c nr w.confirm_lt lt,
      w',
      omega (arith, fewer, length-numbers_from n from),
      same,
    )
