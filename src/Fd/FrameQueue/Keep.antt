-- ===== src/Fd/FrameQueue/Keep.antt =====
-- The operations of src/proto/fd/frame_queue.rs keep the number of slots, and the remembered index in it.
use tinyproto_rust.Base.{
  ℕ, suc, Bool, Option, none, some, List, [], ◌∷◌, Bytes, length, ltb, ◌≡◌, refl, sym, ap, arith,
  Bool-cases, inl, inr, length-set, if-both,
}
use mathlib.Core.Path.{subst}
use tinyproto_rust.Fd.Frames.{FrameHeader, QueuedFrameType, FrameInfo}
use tinyproto_rust.Fd.FrameQueue.{
  FrameQueue, new, clear_where, clear_first, has_free_slots, allocate, reset_for, free, free_by_ns,
}
use tinyproto_rust.Fd.FrameQueue.Allocate.{IsValid, allocate-has_free_slots, allocate_full}

abbrev SameLength : List (Option FrameInfo) → List (Option FrameInfo) → Type 0
SameLength ss ss' = length ss' ≡ length ss

length-clear_where :
    (p : FrameInfo → Bool) (ss : List (Option FrameInfo)) → length (clear_where p ss) ≡ length ss
unfolding clear_where
length-clear_where p [] = refl
length-clear_where p (none ∷ ss) = ap suc (length-clear_where p ss)
length-clear_where p (some f ∷ ss) = ap suc (length-clear_where p ss)

length-clear_first :
    (p : FrameInfo → Bool) (ss : List (Option FrameInfo)) → length (clear_first p ss) ≡ length ss
unfolding clear_first
length-clear_first p [] = refl
length-clear_first p (none ∷ ss) = ap suc (length-clear_first p ss)
length-clear_first p (some f ∷ ss) =
    if-both (SameLength (some f ∷ ss)) (p f) refl (ap suc (length-clear_first p ss))

-- Other slots, as many as before.
with_frames-IsValid :
    (q : FrameQueue) (ss : List (Option FrameInfo))
    → length ss ≡ length q.frames
    → IsValid q
    → IsValid (record q { frames = ss })
with_frames-IsValid q ss e v = record {
  lookup_lt = λ h. omega (arith, e, v.lookup_lt (omega (arith, e)));
}

pub reset_for-IsValid : (q : FrameQueue) (address : ℕ) → IsValid q → IsValid (reset_for q address)
unfolding reset_for
reset_for-IsValid q address v = with_frames-IsValid q _ (length-clear_where _ q.frames) v

pub free_by_ns-IsValid :
    (q : FrameQueue) (address ns : ℕ) → IsValid q → IsValid (free_by_ns q address ns)
unfolding free_by_ns
free_by_ns-IsValid q address ns v = with_frames-IsValid q _ (length-clear_first _ q.frames) v

pub free-IsValid : (q : FrameQueue) (index : ℕ) → IsValid q → IsValid (free q index)
unfolding free
free-IsValid q index v =
    if-both IsValid (ltb index (length q.frames))
      (with_frames-IsValid q _ (length-set q.frames index none) v) v

pub allocate-IsValid :
    (q : FrameQueue) (frame_type : QueuedFrameType) (header : FrameHeader) (payload : Bytes)
    → IsValid q
    → IsValid (allocate q frame_type header payload).0
allocate-IsValid q frame_type header payload v = elim (Bool-cases (has_free_slots q)) [
  | inl e ↦
      let (idx, _, _, _, _, _, _, v') = allocate-has_free_slots q frame_type header payload v e in
      v'
  | inr e ↦ subst (λ r. IsValid r.0) (sym (allocate_full q frame_type header payload e)) v
]

pub new-IsValid : (max_frames mtu : ℕ) → IsValid (new max_frames mtu)
unfolding new
new-IsValid max_frames mtu = record { lookup_lt = λ h. h }
