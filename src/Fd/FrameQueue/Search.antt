-- ===== src/Fd/FrameQueue/Search.antt =====
-- The searches of src/proto/fd/frame_queue.rs: `get_next` finds the frames that `allocate` stored and
-- that `free_by_ns` and `free` remove.
use tinyproto_rust.Base.{
  ℕ, zero, suc, ◌+◌, ◌<◌, Bool, true, false, ◌&&◌, Option, none, some, List, [], ◌∷◌, length,
  get_or, set, ◌≡◌, refl, sym, ap, ◌∙◌, arith, Bool-cases, ◌⊎◌, inl, inr, ◌==◌, ltb, if◌then◌else◌,
}
use tinyproto_rust.Fd.Frames.{i_frame, same_type, FrameInfo}
use tinyproto_rust.Fd.FrameQueue.{
  FrameQueue, clear_where, clear_first, find_from, is_next, frame_ns, get_next, get, free,
  free_by_ns, reset_for,
}

-- Clearing the first match is clearing the slot that the search finds.
abbrev Cleared : (FrameInfo → Bool) → ℕ → List (Option FrameInfo) → Option (ℕ × FrameInfo) → Type 0
Cleared p i ss none = clear_first p ss ≡ ss
Cleared p i ss (some (k, f)) =
    (j : ℕ) × (k ≡ i + j)
    × (j < length ss)
    × (get_or ss j none ≡ some f)
    × (p f ≡ true)
    × (clear_first p ss ≡ set ss j none)

Cleared-none :
    (p : FrameInfo → Bool) (i : ℕ) (ss : List (Option FrameInfo)) (r : Option (ℕ × FrameInfo))
    → Cleared p (suc i) ss r
    → Cleared p i (none ∷ ss) r
unfolding clear_first
Cleared-none p i ss none h = ap (λ t. none ∷ t) h
Cleared-none p i ss (some (k, f)) (j, e, lt, g, t, c) =
    (suc j, omega arith, omega arith, g, t, ap (λ t. none ∷ t) c)

Cleared-some :
    (p : FrameInfo → Bool) (i : ℕ) (f : FrameInfo) (ss : List (Option FrameInfo))
    (r : Option (ℕ × FrameInfo))
    → p f ≡ false
    → Cleared p (suc i) ss r
    → Cleared p i (some f ∷ ss) r
unfolding clear_first
Cleared-some p i f ss none e h = rw (e, clear_first) (ap (λ t. some f ∷ t) h)
Cleared-some p i f ss (some (k, g)) e (j, eq, lt, at, t, c) =
    (suc j, omega arith, omega arith, at, t, rw (e, clear_first) (ap (λ t. some f ∷ t) c))

find_from-clear_first :
    (p : FrameInfo → Bool) (i : ℕ) (ss : List (Option FrameInfo))
    → Cleared p i ss (find_from p i ss)
unfolding clear_first find_from
find_from-clear_first p i [] = refl
find_from-clear_first p i (none ∷ ss) =
    Cleared-none p i ss (find_from p (suc i) ss) (find_from-clear_first p (suc i) ss)
find_from-clear_first p i (some f ∷ ss) = elim (Bool-cases (p f)) [
  | inl e ↦ rw (e, find_from) (0, omega arith, omega arith, refl, e, rw (e, clear_first) refl)
  | inr e ↦
      rw (e, find_from)
        (Cleared-some p i f ss (find_from p (suc i) ss) e (find_from-clear_first p (suc i) ss))
]

clear_first_ext :
    (p p' : FrameInfo → Bool) (ss : List (Option FrameInfo))
    → ((f : FrameInfo) → p f ≡ p' f)
    → clear_first p ss ≡ clear_first p' ss
unfolding clear_first
clear_first_ext p p' [] h = refl
clear_first_ext p p' (none ∷ ss) h = ap (λ t. none ∷ t) (clear_first_ext p p' ss h)
clear_first_ext p p' (some f ∷ ss) h = rw (h f, clear_first_ext p p' ss h) refl

and_comm : (a b : Bool) → (a && b) ≡ (b && a)
and_comm true true = refl
and_comm true false = refl
and_comm false true = refl
and_comm false false = refl

ltb-true : (a b : ℕ) → a < b → ltb a b ≡ true
ltb-true a b h = ground arith

is_next-i_frame :
    (address ns : ℕ) (f : FrameInfo)
    → ((f.header.address == address) && same_type f.frame_type i_frame && (frame_ns f == ns))
      ≡ is_next i_frame address ns f
unfolding is_next
is_next-i_frame address ns f =
    ap (λ b. b && (frame_ns f == ns))
      (and_comm (f.header.address == address) (same_type f.frame_type i_frame))

free_by_ns-clear_first :
    (q : FrameQueue) (address ns : ℕ)
    → free_by_ns q address ns
      ≡ record q { frames = clear_first (is_next i_frame address ns) q.frames }
unfolding free_by_ns
free_by_ns-clear_first q address ns =
    ap (λ ss. record q { frames = ss })
      (clear_first_ext
        (λ f. (f.header.address == address) && same_type f.frame_type i_frame && (frame_ns f == ns))
        (is_next i_frame address ns) q.frames (is_next-i_frame address ns))

free-lt :
    (q : FrameQueue) (i : ℕ)
    → i < length q.frames
    → free q i ≡ record q { frames = set q.frames i none }
unfolding free
free-lt q i h = rw (ltb-true i (length q.frames) h) refl

found_or_not :
    (q : FrameQueue) (address ns : ℕ) (r : Option (ℕ × FrameInfo))
    → get_next q i_frame address ns ≡ r
    → Cleared (is_next i_frame address ns) 0 q.frames r
    → ((get_next q i_frame address ns ≡ none) × (free_by_ns q address ns ≡ q))
      ⊎ ((idx : ℕ) × (f : FrameInfo) × (get_next q i_frame address ns ≡ some (idx, f))
          × (get q idx ≡ some f)
          × (is_next i_frame address ns f ≡ true)
          × (free_by_ns q address ns ≡ free q idx))
unfolding get
found_or_not q address ns none e c =
    inl (e, free_by_ns-clear_first q address ns ∙ ap (λ ss. record q { frames = ss }) c)
found_or_not q address ns (some (k, f)) e (j, eq, lt, at, t, c) = inr (
  j,
  f,
  e ∙ ap (λ x. some (x, f)) {x = k} {y = j} (omega arith),
  at,
  t,
  free_by_ns-clear_first q address ns
      ∙ ap (λ ss. record q { frames = ss }) c
      ∙ sym (free-lt q j lt),
)

-- `get_next` returns a slot of the queue together with the frame in it, which passes the test; and `free_by_ns`
-- frees the slot that `get_next` finds for an I-frame of that address and number: when it finds none the queue stays.
pub free_by_ns-get_next :
    (q : FrameQueue) (address ns : ℕ)
    → ((get_next q i_frame address ns ≡ none) × (free_by_ns q address ns ≡ q))
      ⊎ ((idx : ℕ) × (f : FrameInfo) × (get_next q i_frame address ns ≡ some (idx, f))
          × (get q idx ≡ some f)
          × (is_next i_frame address ns f ≡ true)
          × (free_by_ns q address ns ≡ free q idx))
unfolding get_next free_by_ns
free_by_ns-get_next q address ns =
    found_or_not q address ns (find_from (is_next i_frame address ns) 0 q.frames) refl
      (find_from-clear_first (is_next i_frame address ns) 0 q.frames)

-- What `clear_where` leaves of a slot.
abbrev kept : (FrameInfo → Bool) → Option FrameInfo → Option FrameInfo
kept p none = none
kept p (some f) = if p f then none else some f

get_or-clear_where :
    (p : FrameInfo → Bool) (ss : List (Option FrameInfo)) (i : ℕ)
    → get_or (clear_where p ss) i none ≡ kept p (get_or ss i none)
unfolding clear_where
get_or-clear_where p [] i = refl
get_or-clear_where p (none ∷ ss) zero = refl
get_or-clear_where p (some f ∷ ss) zero = refl
get_or-clear_where p (none ∷ ss) (suc i) = get_or-clear_where p ss i
get_or-clear_where p (some f ∷ ss) (suc i) = get_or-clear_where p ss i

-- `reset_for` empties the slots that hold a frame of the address, and keeps every other slot.
get-reset_for :
    (q : FrameQueue) (address index : ℕ)
    → get (reset_for q address) index ≡ elim (get q index) [
      | none ↦ none
      | some f ↦ (if f.header.address == address then none else some f)
    ]
unfolding get reset_for
get-reset_for q address index = get_or-clear_where (λ f. f.header.address == address) q.frames index
