-- ===== src/Fd/Delivery/Queue.antt =====
-- What the sender's queue holds in a direction of a connection: the accepted payloads that are not confirmed,
-- each under its number.
use tinyproto_rust.Base.{
  ℕ, zero, suc, ◌%◌, ◌≤◌, ◌<◌, Bool, true, false, Option, none, some, List, [], ◌∷◌, Bytes, length,
  get_elem?, get_or, ltb, ◌≡◌, ◌≢◌, arith, inl, inr, Bool-cases,
}
use tinyproto_rust.Fd.Frames.{i_frame, FrameInfo}
use tinyproto_rust.Fd.FrameQueue.{FrameQueue, get, get_next, is_next, find_from, free}
use tinyproto_rust.Fd.FrameQueue.Slots.{get_or-set, get_or-set_other}
use tinyproto_rust.Fd.FrameQueue.Allocate.{IsValid}

-- The frames of an address are those of the places from `c` up to `l`, each in one slot.
pub record Holds (addr c l : ℕ) (acc : List Bytes) (q : FrameQueue) : Type 0 where
  pub valid : IsValid q
  pub content :
      (i ns : ℕ) (f : FrameInfo)
      → get q i ≡ some f
      → is_next i_frame addr ns f ≡ true
      → (k : ℕ) × (c ≤ k) × (k < l) × (ns ≡ k % 8) × (get_elem? acc k ≡ some f.payload)
  pub once :
      (i j ns : ℕ) (f g : FrameInfo)
      → get q i ≡ some f
      → get q j ≡ some g
      → is_next i_frame addr ns f ≡ true
      → is_next i_frame addr ns g ≡ true
      → i ≡ j

find_from-none :
    (p : FrameInfo → Bool) (i j : ℕ) (ss : List (Option FrameInfo)) (f : FrameInfo)
    → find_from p i ss ≡ none
    → get_or ss j none ≡ some f
    → p f ≡ false
unfolding find_from
find_from-none p i j [] f e at = cc
find_from-none p i zero (none ∷ ss) f e at = cc
find_from-none p i (suc j) (none ∷ ss) f e at = find_from-none p (suc i) j ss f e at
find_from-none p i zero (some g ∷ ss) f e at = elim (Bool-cases (p g)) [
  | inl t ↦ cc (rw (t, find_from) at e)
  | inr t ↦ cc
]
find_from-none p i (suc j) (some g ∷ ss) f e at = elim (Bool-cases (p g)) [
  | inl t ↦ cc (rw (t, find_from) at e)
  | inr t ↦ find_from-none p (suc i) j ss f (rw (t, find_from) at e) at
]

pub get_next-none :
    (q : FrameQueue) (addr ns j : ℕ) (f : FrameInfo)
    → get_next q i_frame addr ns ≡ none
    → get q j ≡ some f
    → is_next i_frame addr ns f ≡ false
unfolding get_next get
get_next-none q addr ns j f e at = find_from-none (is_next i_frame addr ns) 0 j q.frames f e at

get_or-lt :
    (ss : List (Option FrameInfo)) (i : ℕ) (f : FrameInfo)
    → get_or ss i none ≡ some f
    → i < length ss
get_or-lt [] i f e = cc
get_or-lt (s ∷ ss) zero f e = omega arith
get_or-lt (s ∷ ss) (suc i) f e = omega (arith, get_or-lt ss i f e)

ltb-true : (a b : ℕ) → a < b → ltb a b ≡ true
ltb-true a b h = ground arith

-- A slot that is freed is empty, and the others are as they were.
pub get-free_same :
    (q : FrameQueue) (i : ℕ) (f : FrameInfo) → get q i ≡ some f → get (free q i) i ≡ none
unfolding get free
get-free_same q i f e =
    let lt = get_or-lt q.frames i f e in
    rw (ltb-true i (length q.frames) lt) (get_or-set q.frames i none lt)

pub get-free_other :
    (q : FrameQueue) (i j : ℕ) (f : FrameInfo)
    → get q i ≡ some f
    → i ≢ j
    → get (free q i) j ≡ get q j
unfolding get free
get-free_other q i j f e ne =
    rw (ltb-true i (length q.frames) (get_or-lt q.frames i f e))
      (get_or-set_other q.frames i j none ne)
