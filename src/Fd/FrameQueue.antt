-- ===== src/Fd/FrameQueue.antt =====
-- src/proto/fd/frame_queue.rs: the queues of frames that wait to be sent or acknowledged. A slot is
-- an optional frame.
pub mod Slots
pub mod Allocate
pub mod Search
pub mod Keep
use tinyproto_rust.Base.{
  ℕ, zero, suc, ◌+◌, ◌%◌, bit_and, Bool, true, false, not, ◌&&◌, Option, none, some, List, [], ◌∷◌,
  Bytes, length, get_or, replicate, set, ◌==◌, ltb, if◌then◌else◌, ◌>>>◌,
}
use tinyproto_rust.Fd.Frames.{FrameHeader, QueuedFrameType, i_frame, same_type, FrameInfo}
use tinyproto_rust.Fd.Frames as Frames

pub record FrameQueue : Type 0 where
  pub frames : List (Option FrameInfo)
  pub mtu : ℕ
  pub lookup_index : ℕ

abbrev pub is_none : Option FrameInfo → Bool
is_none none = true
is_none (some f) = false

unfoldable pub new : ℕ → ℕ → FrameQueue
new max_frames mtu = record { frames = replicate max_frames none; mtu = mtu; lookup_index = 0 }

-- The loops over all slots that put `None` into those that a test chooses.
unfoldable pub clear_where : (FrameInfo → Bool) → List (Option FrameInfo) → List (Option FrameInfo)
clear_where p [] = []
clear_where p (none ∷ ss) = none ∷ clear_where p ss
clear_where p (some f ∷ ss) = (if p f then none else some f) ∷ clear_where p ss

unfoldable pub reset : FrameQueue → FrameQueue
reset q = record q { frames = clear_where (λ _. true) q.frames; lookup_index = 0 }

unfoldable pub reset_for : FrameQueue → ℕ → FrameQueue
reset_for q address = record q { frames = clear_where (λ f. f.header.address == address) q.frames }

unfoldable pub any_free : List (Option FrameInfo) → Bool
any_free [] = false
any_free (none ∷ ss) = true
any_free (some f ∷ ss) = any_free ss

unfoldable pub has_free_slots : FrameQueue → Bool
has_free_slots q = any_free q.frames

abbrev pub get_mtu : FrameQueue → ℕ
get_mtu q = q.mtu

-- The rounds `i`, `i + 1`, … of the loop in `allocate`; the first argument counts those that are left.
unfoldable pub allocate_loop : ℕ → ℕ → FrameQueue → FrameInfo → FrameQueue × Option ℕ
allocate_loop zero i q info = (q, none)
allocate_loop (suc n) i q info =
    let len = length q.frames in
    let idx = (q.lookup_index + i) % len in
    let rest = allocate_loop n (suc i) q info in
    if is_none (get_or q.frames idx none)
    then (
      record q { frames = set q.frames idx (some info); lookup_index = (idx + 1) % len },
      some idx,
    )
    else rest

unfoldable pub allocate : FrameQueue → QueuedFrameType → FrameHeader → Bytes → FrameQueue × Option ℕ
allocate q frame_type header payload =
    allocate_loop (length q.frames) 0 q (Frames.new frame_type header payload)

-- `(control >> 5) & 0x07`
unfoldable pub frame_ns : FrameInfo → ℕ
frame_ns f = bit_and (f.header.control >>> 5) 0x07

-- The tests of `get_next`: the number counts for I-frames only.
unfoldable pub is_next : QueuedFrameType → ℕ → ℕ → FrameInfo → Bool
is_next frame_type address arg f =
    same_type f.frame_type frame_type
    && (f.header.address == address)
    && (if same_type frame_type i_frame then frame_ns f == arg else true)

-- The first slot from number `i` on whose frame passes the test.
unfoldable pub find_from : (FrameInfo → Bool) → ℕ → List (Option FrameInfo) → Option (ℕ × FrameInfo)
find_from p i [] = none
find_from p i (none ∷ ss) = find_from p (suc i) ss
find_from p i (some f ∷ ss) = let rest = find_from p (suc i) ss in if p f then some (i, f) else rest

unfoldable pub get_next : FrameQueue → QueuedFrameType → ℕ → ℕ → Option (ℕ × FrameInfo)
get_next q frame_type address arg = find_from (is_next frame_type address arg) 0 q.frames

unfoldable pub get : FrameQueue → ℕ → Option FrameInfo
get q index = get_or q.frames index none

-- The frame that is lent out for writing, and what the queue becomes when another is left in its place.
unfoldable pub get_mut : FrameQueue → ℕ → Option (FrameInfo × (FrameInfo → FrameQueue))
get_mut q index = elim (get_or q.frames index none) [
  | none ↦ none
  | some f ↦ some (f, λ f'. record q { frames = set q.frames index (some f') })
]

unfoldable pub free : FrameQueue → ℕ → FrameQueue
free q index =
    if ltb index (length q.frames) then record q { frames = set q.frames index none } else q

-- The loops that put `None` into the first slot whose frame passes the test, and return.
unfoldable pub clear_first : (FrameInfo → Bool) → List (Option FrameInfo) → List (Option FrameInfo)
clear_first p [] = []
clear_first p (none ∷ ss) = none ∷ clear_first p ss
clear_first p (some f ∷ ss) =
    let rest = clear_first p ss in if p f then none ∷ ss else some f ∷ rest

unfoldable pub free_by_header : FrameQueue → ℕ → ℕ → FrameQueue
free_by_header q address control = record q {
  frames =
      clear_first (λ f. (f.header.address == address) && (f.header.control == control)) q.frames;
}

unfoldable pub free_by_ns : FrameQueue → ℕ → ℕ → FrameQueue
free_by_ns q address ns = record q {
  frames =
      clear_first
        (λ f. (f.header.address == address) && same_type f.frame_type i_frame && (frame_ns f == ns))
        q.frames;
}

unfoldable pub occupied : List (Option FrameInfo) → ℕ
occupied [] = 0
occupied (none ∷ ss) = occupied ss
occupied (some f ∷ ss) = suc (occupied ss)

unfoldable pub count : FrameQueue → ℕ
count q = occupied q.frames

abbrev pub capacity : FrameQueue → ℕ
capacity q = length q.frames

pub record FramesQueue : Type 0 where
  pub i_queue : FrameQueue
  pub s_queue : FrameQueue

unfoldable pub new_queues : ℕ → ℕ → ℕ → FramesQueue
new_queues i_queue_size s_queue_size mtu = record {
  i_queue = new i_queue_size mtu;
  s_queue = new s_queue_size mtu;
}

-- The body of `reset` is empty.
unfoldable pub reset_queues : FramesQueue → FramesQueue
reset_queues q = q
