-- ===== src/Fd/Delivery/Free.antt =====
-- What the sender's queue holds once the confirmed numbers are freed, and what it finds for a number.
use tinyproto_rust.Base.{
  ℕ, zero, suc, ◌+◌, ◌%◌, ◌≤◌, ◌<◌, true, false, Option, none, some, List, Bytes, get_elem?, ◌==◌,
  ==_iff, ◌≡◌, ◌≢◌, sym, ◌∙◌, arith, inl, inr, Bool-cases,
}
use mathlib.Core.Path.{subst}
use tinyproto_rust.Fd.Frames.{i_frame, FrameInfo}
use tinyproto_rust.Fd.IQueueControl.Confirm.{numbers_from}
use tinyproto_rust.Fd.FrameQueue.{FrameQueue, get, get_next, is_next, free, free_by_ns}
use tinyproto_rust.Fd.FrameQueue.Keep.{free_by_ns-IsValid}
use tinyproto_rust.Fd.FrameQueue.Search.{free_by_ns-get_next}
use tinyproto_rust.Fd.Protocol.Handlers.{free_all}
use tinyproto_rust.Fd.Delivery.Queue.{Holds, get_next-none, get-free_same, get-free_other}

-- A number that the queue finds is that of an accepted payload that is not confirmed.
pub get_next-Holds :
    (addr c l : ℕ) (acc : List Bytes) (q : FrameQueue) (ns idx : ℕ) (f : FrameInfo)
    → Holds addr c l acc q
    → get_next q i_frame addr ns ≡ some (idx, f)
    → (k : ℕ) × (c ≤ k) × (k < l) × (ns ≡ k % 8) × (get_elem? acc k ≡ some f.payload)
get_next-Holds addr c l acc q ns idx f h found = elim (free_by_ns-get_next q addr ns) [
  | inl (nothing, kept) ↦ cc
  | inr (i, g, found', at, test, freed) ↦
      let same : ◌≡◌ {A = Option (ℕ × FrameInfo)} (some (i, g)) (some (idx, f)) =
        sym found' ∙ found in
      subst (λ o. (k : ℕ) × (c ≤ k) × (k < l) × (ns ≡ k % 8) × (get_elem? acc k ≡ some (o.payload)))
        {x = g} {y = f} (cc) (h.content i ns g at test)
]

-- What the freed queue still has in a slot was there before, and is not of the number freed.
left_over :
    (addr c l : ℕ) (acc : List Bytes) (q : FrameQueue) (i : ℕ) (f : FrameInfo)
    → Holds addr c l acc q
    → get (free_by_ns q addr (c % 8)) i ≡ some f
    → (get q i ≡ some f) × (is_next i_frame addr (c % 8) f ≡ false)
left_over addr c l acc q i f h at = elim (free_by_ns-get_next q addr (c % 8)) [
  | inl (nothing, kept) ↦
      let at' = rw kept at at in (at', get_next-none q addr (c % 8) i f nothing at')
  | inr (idx, g, found, there, test, freed) ↦
      let at' = rw freed at at in
      elim (Bool-cases (idx == i)) [
        | inl e ↦
            let same = (==_iff idx i).0 e in
            cc (subst (λ j. get (free q idx) j ≡ none) same (get-free_same q idx g there))
        | inr e ↦
            let differ : idx ≢ i = λ same. cc ((==_iff idx i).1 same) in
            let at'' = sym (get-free_other q idx i g there differ) ∙ at' in
            (
              at'',
              elim (Bool-cases (is_next i_frame addr (c % 8) f)) [
                | inl t ↦ absurd (differ (h.once idx i (c % 8) g f there at'' test t))
                | inr t ↦ t
              ],
            )
      ]
]

free-Holds :
    (addr c l : ℕ) (acc : List Bytes) (q : FrameQueue)
    → Holds addr c l acc q
    → Holds addr (suc c) l acc (free_by_ns q addr (c % 8))
free-Holds addr c l acc q h = record {
  valid = free_by_ns-IsValid q addr (c % 8) h.valid;
  content = λ i ns f at test.
      let (at', other) = left_over addr c l acc q i f h at in
      let (k, ge, lt, e, payload) = h.content i ns f at' test in
      let later : c ≢ k = λ same.
        cc (subst (λ j. is_next i_frame addr j f ≡ true) {x = ns} {y = c % 8} (omega arith) test) in
      (k, omega arith, lt, e, payload);
  once = λ i j ns f g at at' test test'.
      h.once i j ns f g (left_over addr c l acc q i f h at).0 (left_over addr c l acc q j g h at').0
        test test';
}

-- The numbers from the next one to be confirmed on are freed, each with its frame.
pub free_all-Holds :
    (n addr c l : ℕ) (acc : List Bytes) (q : FrameQueue)
    → Holds addr c l acc q
    → Holds addr (c + n) l acc (free_all q addr (numbers_from (c % 8) n))
unfolding free_all
free_all-Holds zero addr c l acc q h =
    subst (λ x. Holds addr x l acc q) {x = c} {y = c + 0} (omega arith) h
free_all-Holds (suc n) addr c l acc q h =
    let rest =
      free_all-Holds n addr (suc c) l acc (free_by_ns q addr (c % 8))
        (free-Holds addr c l acc q h) in
    let next : suc c % 8 ≡ (c % 8 + 1) % 8 = omega arith in
    subst
      (λ x.
        Holds addr x l acc
          (free_all (free_by_ns q addr (c % 8)) addr (numbers_from ((c % 8 + 1) % 8) n)))
      {x = suc c + n} {y = c + suc n} (omega arith) (rw next at rest)
