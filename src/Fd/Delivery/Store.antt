-- ===== src/Fd/Delivery/Store.antt =====
-- What the sender's queue holds once a payload is accepted.
use tinyproto_rust.Base.{
  ℕ, zero, suc, ◌+◌, ◌*◌, ◌/◌, ◌%◌, ◌^◌, ◌≤◌, ◌<◌, bit_and, Bool, true, false, ◌&&◌, Option, none,
  some, List, [], ◌∷◌, ◌++◌, Bytes, length, get_elem?, ◌==◌, ==_iff, ◌≡◌, ◌≢◌, refl, sym, ◌∙◌,
  arith, inl, inr, Bool-cases, replicate, get_or, ◌⊎◌,
}
use mathlib.Core.Path.{subst}
use tinyproto_rust.Base.Bits.{holds_below, holds_below-lt}
use tinyproto_rust.Fd.Frames.{i_frame, FrameInfo, FrameHeader}
use tinyproto_rust.Fd.Frames as Frames
use tinyproto_rust.Fd.FrameQueue.{FrameQueue, has_free_slots, allocate, get, is_next, frame_ns, new}
use tinyproto_rust.Fd.FrameQueue.Allocate.{IsValid, allocate-has_free_slots, allocate_full}
use tinyproto_rust.Fd.FrameQueue.Keep.{new-IsValid}
use tinyproto_rust.Fd.Protocol.Send.{i_control}
use tinyproto_rust.Fd.Delivery.Wire.{get_elem?-append_left, get_elem?-length-append}
use tinyproto_rust.Fd.Delivery.Queue.{Holds}

pub number_table :
    holds_below 64 (λ x. bit_and (i_control (x / 8) (x % 8) / 2 ^ 5) 0x07 == x / 8) ≡ true
unfolding holds_below
number_table = refl

and_right : (a b : Bool) → (a && b) ≡ true → b ≡ true
and_right true b e = e
and_right false b e = cc

-- The frame for a place is found under the place's number only.
new_frame-number :
    (addr ns last nr : ℕ) (payload : Bytes)
    → last < 8
    → nr < 8
    → is_next i_frame addr ns
        (Frames.new i_frame (record { address = addr; control = i_control last nr }) payload)
      ≡ true
    → ns ≡ last
unfolding is_next frame_ns
new_frame-number addr ns last nr payload a b test =
    let x = last * 8 + nr in
    let high : x / 8 ≡ last = omega arith in
    let low : x % 8 ≡ nr = omega arith in
    let table =
      rw (high, low) at ((==_iff _ (x / 8)).0 (holds_below-lt 64 _ x number_table (omega arith))) in
    sym ((==_iff last ns).0 (rw table at (and_right (addr == addr) _ test)))

-- The queue after the next payload, that of the place `l`, has gone into a slot.
module _ (addr c l : ℕ) (acc : List Bytes) (q q' : FrameQueue) (idx nr : ℕ) (payload : Bytes)
    (h : Holds addr c l acc q) (count : l ≡ length acc) (le : c ≤ l) (room : l < c + 7)
    (small : nr < 8) where
  abbrev stored : FrameInfo
  stored = Frames.new i_frame (record { address = addr; control = i_control (l % 8) nr }) payload

  -- A frame of the new queue is the new one in its slot, or an old one in another.
  abbrev Origin : ℕ → FrameInfo → Type 0
  Origin i f = ((idx ≡ i) × (f ≡ stored)) ⊎ ((idx ≢ i) × (get q i ≡ some f))

  origin :
      get q' idx ≡ some stored
      → ((j : ℕ) → idx ≢ j → get q' j ≡ get q j)
      → (i : ℕ) (f : FrameInfo) → get q' i ≡ some f
      → Origin i f
  origin here others i f at = elim (Bool-cases (idx == i)) [
    | inl e ↦
        let same = (==_iff idx i).0 e in
        inl (same, cc (subst (λ j. get q' j ≡ some stored) same here))
    | inr e ↦
        let differ : idx ≢ i = λ same. cc ((==_iff idx i).1 same) in
        inr (differ, sym (others i differ) ∙ at)
  ]

  old_number :
      (i ns : ℕ) (f : FrameInfo) → get q i ≡ some f → is_next i_frame addr ns f ≡ true → ns ≢ l % 8
  old_number i ns f at test e =
      let (k, ge, lt, e', payload') = h.content i ns f at test in omega (arith, e, e')

  new_number : (ns : ℕ) (f : FrameInfo) → f ≡ stored → is_next i_frame addr ns f ≡ true → ns ≡ l % 8
  new_number ns f e test =
      new_frame-number addr ns (l % 8) nr payload (omega arith) small
        (subst (λ g. is_next i_frame addr ns g ≡ true) e test)

  stored-Holds :
      IsValid q'
      → ((i : ℕ) (f : FrameInfo) → get q' i ≡ some f → Origin i f)
      → Holds addr c (suc l) (acc ++ payload ∷ []) q'
  stored-Holds valid from = record {
    valid = valid;
    content = λ i ns f at test. elim (from i f at) [
      | inl (here, e) ↦ (
        l,
        le,
        omega arith,
        new_number ns f e test,
        subst (λ g. get_elem? (acc ++ payload ∷ []) l ≡ some (g.payload)) (sym e)
            (subst (λ k. get_elem? (acc ++ payload ∷ []) k ≡ some payload) (sym count)
              (get_elem?-length-append acc payload)),
      )
      | inr (there, at') ↦
          let (k, ge, lt, e, payload') = h.content i ns f at' test in
          (k, ge, omega arith, e, get_elem?-append_left acc k f.payload (payload ∷ []) payload')
    ];
    once = λ i j ns f g at at' test test'. elim (from i f at) [
      | inl (here, e) ↦ elim (from j g at') [
        | inl (here', e') ↦ sym here ∙ here'
        | inr (there', old) ↦ absurd (old_number j ns g old test' (new_number ns f e test))
      ]
      | inr (there, old) ↦ elim (from j g at') [
        | inl (here', e') ↦ absurd (old_number i ns f old test (new_number ns g e' test'))
        | inr (there', old') ↦ h.once i j ns f g old old' test test'
      ]
    ];
  }

-- A payload that `allocate` puts into a slot, under the number of its place, is held there.
pub allocate-Holds :
    (addr c l : ℕ) (acc : List Bytes) (q q' : FrameQueue) (idx nr : ℕ) (payload : Bytes)
    → Holds addr c l acc q
    → l ≡ length acc
    → c ≤ l
    → l < c + 7
    → nr < 8
    → allocate q i_frame (record { address = addr; control = i_control (l % 8) nr }) payload
      ≡ (q', some idx)
    → Holds addr c (suc l) (acc ++ payload ∷ []) q'
allocate-Holds addr c l acc q q' idx nr payload h count le room small e =
    let header : FrameHeader = record { address = addr; control = i_control (l % 8) nr } in
    elim (Bool-cases (has_free_slots q)) [
      | inr full ↦ cc (allocate_full q i_frame header payload full)
      | inl free ↦
          let (i, found, lt, empty, here, others, more, valid) =
            rw e at (allocate-has_free_slots q i_frame header payload h.valid free) in
          stored-Holds addr c l acc q q' i nr payload h count le room small valid
            (origin addr c l acc q q' i nr payload h count le room small here others)
    ]

get_or-replicate : (n i : ℕ) → ◌≡◌ {A = Option FrameInfo} (get_or (replicate n none) i none) none
get_or-replicate zero i = refl
get_or-replicate (suc n) zero = refl
get_or-replicate (suc n) (suc i) = get_or-replicate n i

get-new : (max_frames mtu i : ℕ) → get (new max_frames mtu) i ≡ none
unfolding get new
get-new max_frames mtu i = get_or-replicate max_frames i

pub new-Holds : (addr max_frames mtu : ℕ) → Holds addr 0 0 [] (new max_frames mtu)
new-Holds addr max_frames mtu = record {
  valid = new-IsValid max_frames mtu;
  content = λ i ns f at test. cc (get-new max_frames mtu i);
  once = λ i j ns f g at at' test test'. cc (get-new max_frames mtu i);
}
