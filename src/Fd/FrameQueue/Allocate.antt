-- ===== src/Fd/FrameQueue/Allocate.antt =====
-- `allocate` of src/proto/fd/frame_queue.rs: the search that starts at the remembered index and goes round.
use tinyproto_rust.Base.{
  ℕ, zero, suc, ◌+◌, ◌-◌, ◌%◌, ◌≤◌, ◌<◌, Bool, true, false, Option, none, some, Bytes, length,
  get_or, set, length-set, ◌≡◌, ◌≢◌, ◌⊎◌, inl, inr, refl, sym, ap, ◌∙◌, arith, Bool-cases, ◌==◌,
  leb, ==_iff,
}
use mathlib.Core.Path.{subst}
use native.Mathlib.Nat.{mod-lt, mod-eq_of_lt, add-mod_right}
use tinyproto_rust.Fd.Frames.{FrameHeader, QueuedFrameType, FrameInfo}
use tinyproto_rust.Fd.Frames as Frames
use tinyproto_rust.Fd.FrameQueue.{
  FrameQueue, is_none, allocate_loop, allocate, has_free_slots, get, count, occupied,
}
use tinyproto_rust.Fd.FrameQueue.Slots.{
  get_or-set, get_or-set_other, occupied-set, any_free-occupied, occupied_full, any_free-get_or,
}

-- The remembered index lies in the queue, unless the queue has no slots.
pub record IsValid (q : FrameQueue) : Type 0 where
  pub lookup_lt : 0 < length q.frames → q.lookup_index < length q.frames

abbrev pub place : FrameQueue → ℕ → FrameInfo → FrameQueue
place q idx info = record q {
  frames = set q.frames idx (some info);
  lookup_index = (idx + 1) % length q.frames;
}

is_none-true : (o : Option FrameInfo) → is_none o ≡ true → o ≡ none
is_none-true none e = refl
is_none-true (some f) e = cc

-- Either the rounds find a free slot, or each slot they look at is taken.
abbrev Outcome : ℕ → ℕ → FrameQueue → FrameInfo → Type 0
Outcome n i q info =
    ((idx : ℕ) × (idx < length q.frames)
      × (get_or q.frames idx none ≡ none)
      × (allocate_loop n i q info ≡ (place q idx info, some idx)))
    ⊎ (((k : ℕ)
          → i ≤ k
          → k < i + n
          → is_none (get_or q.frames ((q.lookup_index + k) % length q.frames) none) ≡ false)
        × (allocate_loop n i q info ≡ (q, none)))

later :
    (i n : ℕ) (p : ℕ → Bool)
    → p i ≡ false
    → ((k : ℕ) → suc i ≤ k → k < suc i + n → p k ≡ false)
    → (k : ℕ) → i ≤ k
    → k < i + suc n
    → p k ≡ false
later i n p e taken k a b = elim (Bool-cases (i == k)) [
  | inl same ↦ subst (λ j. p j ≡ false) ((==_iff i k).0 same) e
  | inr differ ↦ taken k (ground arith) (omega arith)
]

allocate_loop-cases :
    (n i : ℕ) (q : FrameQueue) (info : FrameInfo) → 0 < length q.frames → Outcome n i q info
unfolding allocate_loop
allocate_loop-cases zero i q info h = inr (λ k a b. absurd (omega arith), refl)
allocate_loop-cases (suc n) i q info h =
    let idx = (q.lookup_index + i) % length q.frames in
    elim (Bool-cases (is_none (get_or q.frames idx none))) [
      | inl e ↦ inl (
        idx,
        mod-lt (q.lookup_index + i) h,
        is_none-true (get_or q.frames idx none) e,
        rw (e, allocate_loop) refl,
      )
      | inr e ↦ elim (allocate_loop-cases n (suc i) q info h) [
        | inl (j, lt, free, eq) ↦ inl (j, lt, free, rw (e, allocate_loop) eq)
        | inr (taken, eq) ↦ inr (
          later i n (λ k. is_none (get_or q.frames ((q.lookup_index + k) % length q.frames) none)) e
              taken,
          rw (e, allocate_loop) eq,
        )
      ]
    ]

-- From the remembered index each slot is reached in one turn.
reached : (start len j : ℕ) → start < len → j < len → (k : ℕ) × (k < len) × ((start + k) % len ≡ j)
reached start len j a b = elim (Bool-cases (leb start j)) [
  | inl e ↦ (
    j - start,
    ground arith,
    ap (λ x. x % len) {x = start + (j - start)} {y = j} (ground arith) ∙ mod-eq_of_lt b,
  )
  | inr e ↦ (
    j + len - start,
    ground arith,
    ap (λ x. x % len) {x = start + (j + len - start)} {y = j + len} (ground arith)
        ∙ add-mod_right j len
        ∙ mod-eq_of_lt b,
  )
]

place-IsValid :
    (q : FrameQueue) (idx : ℕ) (info : FrameInfo) → 0 < length q.frames → IsValid (place q idx info)
place-IsValid q idx info h = record {
  lookup_lt = λ _. rw (length-set q.frames idx (some info)) (mod-lt (idx + 1) h);
}

all_taken :
    (q : FrameQueue)
    → q.lookup_index < length q.frames
    → ((k : ℕ)
        → 0 ≤ k
        → k < 0 + length q.frames
        → is_none (get_or q.frames ((q.lookup_index + k) % length q.frames) none) ≡ false)
    → occupied q.frames ≡ length q.frames
all_taken q h taken = occupied_full q.frames (λ j lt.
    let (k, k_lt, eq) = reached q.lookup_index (length q.frames) j h lt in
    subst (λ x. is_none (get_or q.frames x none) ≡ false) eq (taken k (omega arith) (omega arith)))

abbrev Placed : FrameQueue → FrameInfo → FrameQueue × Option ℕ → Type 0
Placed q info (q', r) =
    (idx : ℕ) × (r ≡ some idx)
    × (idx < length q.frames)
    × (get q idx ≡ none)
    × (get q' idx ≡ some info)
    × ((j : ℕ) → idx ≢ j → get q' j ≡ get q j)
    × (count q' ≡ count q + 1)
    × IsValid q'

-- In a queue whose remembered index is one of a slot, and when there is a free slot, `allocate`
-- finds one: it puts the frame there, counts one frame more and keeps the other slots, and the
-- remembered index stays one of a slot.
pub allocate-has_free_slots :
    (q : FrameQueue) (frame_type : QueuedFrameType) (header : FrameHeader) (payload : Bytes)
    → IsValid q
    → has_free_slots q ≡ true
    → let (q', r) = allocate q frame_type header payload in
      (idx : ℕ) × (r ≡ some idx)
      × (idx < length q.frames)
      × (get q idx ≡ none)
      × (get q' idx ≡ some (Frames.new frame_type header payload))
      × ((j : ℕ) → idx ≢ j → get q' j ≡ get q j)
      × (count q' ≡ count q + 1)
      × IsValid q'
unfolding has_free_slots get count allocate
allocate-has_free_slots q frame_type header payload v h =
    let info = Frames.new frame_type header payload in
    let lt = (any_free-occupied q.frames).0 h in
    let some_slot : 0 < length q.frames = omega (arith, lt) in
    elim (allocate_loop-cases (length q.frames) 0 q info some_slot) [
      | inl (idx, idx_lt, free, eq) ↦ subst (Placed q info) (sym eq) (
        idx,
        refl,
        idx_lt,
        free,
        get_or-set q.frames idx (some info) idx_lt,
        λ j ne. get_or-set_other q.frames idx j (some info) ne,
        occupied-set q.frames idx info idx_lt free,
        place-IsValid q idx info some_slot,
      )
      | inr (taken, eq) ↦ absurd (omega (arith, lt, all_taken q (v.lookup_lt some_slot) taken))
    ]

-- When all slots are taken, `allocate` returns nothing and leaves the queue as it is.
pub allocate_full :
    (q : FrameQueue) (frame_type : QueuedFrameType) (header : FrameHeader) (payload : Bytes)
    → has_free_slots q ≡ false
    → allocate q frame_type header payload ≡ (q, none)
unfolding has_free_slots allocate allocate_loop
allocate_full q frame_type header payload h =
    let info = Frames.new frame_type header payload in
    elim (Bool-cases (length q.frames == 0)) [
      | inl e ↦ rw ((==_iff (length q.frames) 0).0 e, allocate_loop) refl
      | inr e ↦ elim (allocate_loop-cases (length q.frames) 0 q info (ground arith)) [
        | inl (idx, lt, free, eq) ↦ absurd (cc (any_free-get_or q.frames idx lt free))
        | inr (taken, eq) ↦ eq
      ]
    ]
