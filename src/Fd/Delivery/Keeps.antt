-- ===== src/Fd/Delivery/Keeps.antt =====
-- The sender's queue keeps the frame of each accepted payload until the payload is confirmed.
use tinyproto_rust.Base.{
  ℕ, zero, suc, ◌+◌, ◌*◌, ◌/◌, ◌%◌, ◌≤◌, ◌<◌, Bool, true, false, ◌&&◌, Option, none, some, List,
  Bytes, get_elem?, ◌==◌, ==_iff, ◌≡◌, ◌≢◌, refl, sym, ◌∙◌, arith, inl, inr, Bool-cases,
}
use mathlib.Core.Path.{subst}
use tinyproto_rust.Base.Bits.{holds_below-lt}
use tinyproto_rust.Fd.Frames.{i_frame, same_type, FrameInfo, FrameHeader}
use tinyproto_rust.Fd.Frames as Frames
use tinyproto_rust.Fd.IQueueControl.Confirm.{numbers_from}
use tinyproto_rust.Fd.FrameQueue.{
  FrameQueue, has_free_slots, allocate, get, get_next, is_next, frame_ns, free_by_ns,
}
use tinyproto_rust.Fd.FrameQueue.Allocate.{IsValid, allocate-has_free_slots, allocate_full}
use tinyproto_rust.Fd.FrameQueue.Search.{free_by_ns-get_next}
use tinyproto_rust.Fd.Protocol.Send.{i_control}
use tinyproto_rust.Fd.Protocol.Handlers.{free_all}
use tinyproto_rust.Fd.Delivery.Queue.{Holds, get_next-none, get-free_other}
use tinyproto_rust.Fd.Delivery.Free.{get_next-Holds}
use tinyproto_rust.Fd.Delivery.Store.{number_table}

-- Each place from `c` up to `l` has a frame in some slot.
abbrev pub Keeps : ℕ → ℕ → ℕ → FrameQueue → Type 0
Keeps addr c l q =
    (k : ℕ)
    → c ≤ k
    → k < l
    → (i : ℕ) × (f : FrameInfo) × (get q i ≡ some f) × (is_next i_frame addr (k % 8) f ≡ true)

and_both : (a b d : Bool) → (a && b && d) ≡ true → d ≡ true
and_both true true d e = e
and_both true false d e = cc
and_both false b d e = cc

is_next-number : (addr ns : ℕ) (f : FrameInfo) → is_next i_frame addr ns f ≡ true → frame_ns f ≡ ns
unfolding is_next
is_next-number addr ns f test =
    (==_iff _ ns).0 (and_both (same_type f.frame_type i_frame) (f.header.address == addr) _ test)

stored-is_next :
    (addr last nr : ℕ) (payload : Bytes)
    → last < 8
    → nr < 8
    → is_next i_frame addr last
        (Frames.new i_frame (record { address = addr; control = i_control last nr }) payload)
      ≡ true
unfolding is_next frame_ns
stored-is_next addr last nr payload a b =
    let x = last * 8 + nr in
    let high : x / 8 ≡ last = omega arith in
    let low : x % 8 ≡ nr = omega arith in
    rw ((==_iff addr addr).1 refl)
      (rw (high, low) at (holds_below-lt 64 _ x number_table (omega arith)))

pub allocate-Keeps :
    (addr c l : ℕ) (q q' : FrameQueue) (idx nr : ℕ) (payload : Bytes)
    → IsValid q
    → nr < 8
    → allocate q i_frame (record { address = addr; control = i_control (l % 8) nr }) payload
      ≡ (q', some idx)
    → Keeps addr c l q
    → Keeps addr c (suc l) q'
allocate-Keeps addr c l q q' idx nr payload valid small e keeps =
    let header : FrameHeader = record { address = addr; control = i_control (l % 8) nr } in
    elim (Bool-cases (has_free_slots q)) [
      | inr full ↦ cc (allocate_full q i_frame header payload full)
      | inl free ↦
          let (i, found, lt, empty, here, others, more, valid') =
            rw e at (allocate-has_free_slots q i_frame header payload valid free) in
          λ k ge lt'. elim (Bool-cases (k == l)) [
            | inl same ↦
                let same' : k ≡ l = (==_iff k l).0 same in
                (
                  i,
                  Frames.new i_frame header payload,
                  here,
                  subst
                      (λ j. is_next i_frame addr (j % 8) (Frames.new i_frame header payload) ≡ true)
                      (sym same') (stored-is_next addr (l % 8) nr payload (omega arith) small),
                )
            | inr differ ↦
                let (j, f, at, test) = keeps k ge (ground arith) in
                let apart : i ≢ j = λ same. cc (subst (λ j. get q j ≡ some f) (sym same) at) in
                (j, f, others j apart ∙ at, test)
          ]
    ]

free-Keeps :
    (addr c l : ℕ) (q : FrameQueue)
    → l ≤ c + 8
    → Keeps addr c l q
    → Keeps addr (suc c) l (free_by_ns q addr (c % 8))
free-Keeps addr c l q near keeps k ge lt =
    let (j, f, at, test) = keeps k (omega arith) lt in
    elim (free_by_ns-get_next q addr (c % 8)) [
      | inl (nothing, kept) ↦ (j, f, subst (λ q. get q j ≡ some f) (sym kept) at, test)
      | inr (i, g, found, there, test', freed) ↦
          let apart : i ≢ j = λ same.
            let alike : f ≡ g = cc (subst (λ j. get q j ≡ some g) same there) in
            absurd (
              omega (
                arith,
                is_next-number addr (k % 8) g
                    (subst (λ f. is_next i_frame addr (k % 8) f ≡ true) alike test),
                is_next-number addr (c % 8) g test',
              )) in
          (
            j,
            f,
            subst (λ q. get q j ≡ some f) (sym freed) (get-free_other q i j g there apart ∙ at),
            test,
          )
    ]

pub free_all-Keeps :
    (n addr c l : ℕ) (q : FrameQueue)
    → l ≤ c + 8
    → Keeps addr c l q
    → Keeps addr (c + n) l (free_all q addr (numbers_from (c % 8) n))
unfolding free_all
free_all-Keeps zero addr c l q near keeps =
    subst (λ x. Keeps addr x l q) {x = c} {y = c + 0} (omega arith) keeps
free_all-Keeps (suc n) addr c l q near keeps =
    let rest =
      free_all-Keeps n addr (suc c) l (free_by_ns q addr (c % 8)) (omega arith)
        (free-Keeps addr c l q near keeps) in
    let next : suc c % 8 ≡ (c % 8 + 1) % 8 = omega arith in
    subst
      (λ x.
        Keeps addr x l
          (free_all (free_by_ns q addr (c % 8)) addr (numbers_from ((c % 8 + 1) % 8) n)))
      {x = suc c + n} {y = c + suc n} (omega arith) (rw next at rest)

-- What the queue finds for the number of a place is the frame of that place.
abbrev pub Found : ℕ → List Bytes → FrameQueue → ℕ → Type 0
Found addr acc q k =
    (idx : ℕ) × (f : FrameInfo) × (get_next q i_frame addr (k % 8) ≡ some (idx, f))
    × (get_elem? acc k ≡ some f.payload)

looked_up :
    (addr c l : ℕ) (acc : List Bytes) (q : FrameQueue) (k : ℕ) (o : Option (ℕ × FrameInfo))
    → Holds addr c l acc q
    → Keeps addr c l q
    → l ≤ c + 8
    → c ≤ k
    → k < l
    → get_next q i_frame addr (k % 8) ≡ o
    → Found addr acc q k
looked_up addr c l acc q k none h keeps near ge lt e =
    let (i, f, at, test) = keeps k ge lt in cc (get_next-none q addr (k % 8) i f e at)
looked_up addr c l acc q k (some (idx, f)) h keeps near ge lt e =
    let (j, ge', lt', number, at) = get_next-Holds addr c l acc q (k % 8) idx f h e in
    (idx, f, e, subst (λ j. get_elem? acc j ≡ some f.payload) {x = j} {y = k} (omega arith) at)

pub get_next-Keeps :
    (addr c l : ℕ) (acc : List Bytes) (q : FrameQueue) (k : ℕ)
    → Holds addr c l acc q
    → Keeps addr c l q
    → l ≤ c + 8
    → c ≤ k
    → k < l
    → Found addr acc q k
get_next-Keeps addr c l acc q k h keeps near ge lt =
    looked_up addr c l acc q k (get_next q i_frame addr (k % 8)) h keeps near ge lt refl
