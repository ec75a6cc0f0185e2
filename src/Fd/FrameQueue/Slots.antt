-- ===== src/Fd/FrameQueue/Slots.antt =====
-- The slots of src/proto/fd/frame_queue.rs: what putting a frame into a slot and taking one out do to
-- the other slots and to the count.
use tinyproto_rust.Base.{
  ℕ, zero, suc, ◌+◌, ◌≤◌, ◌<◌, true, false, Option, none, some, List, [], ◌∷◌, length, get_or, set,
  ◌≡◌, ◌≢◌, ◌↔◌, refl, ap, arith,
}
use tinyproto_rust.Fd.Frames.{FrameInfo}
use tinyproto_rust.Fd.FrameQueue.{any_free, occupied, is_none}

pub get_or-set :
    (ss : List (Option FrameInfo)) (i : ℕ) (s : Option FrameInfo)
    → i < length ss
    → get_or (set ss i s) i none ≡ s
get_or-set [] i s h = absurd (omega arith)
get_or-set (x ∷ ss) zero s h = refl
get_or-set (x ∷ ss) (suc i) s h = get_or-set ss i s (omega arith)

pub get_or-set_other :
    (ss : List (Option FrameInfo)) (i j : ℕ) (s : Option FrameInfo)
    → i ≢ j
    → get_or (set ss i s) j none ≡ get_or ss j none
get_or-set_other [] i j s h = refl
get_or-set_other (x ∷ ss) zero zero s h = absurd (h refl)
get_or-set_other (x ∷ ss) zero (suc j) s h = refl
get_or-set_other (x ∷ ss) (suc i) zero s h = refl
get_or-set_other (x ∷ ss) (suc i) (suc j) s h = get_or-set_other ss i j s (λ e. h (ap suc e))

pub occupied-set :
    (ss : List (Option FrameInfo)) (i : ℕ) (f : FrameInfo)
    → i < length ss
    → get_or ss i none ≡ none
    → occupied (set ss i (some f)) ≡ occupied ss + 1
unfolding occupied
occupied-set [] i f h e = absurd (omega arith)
occupied-set (none ∷ ss) zero f h e = omega arith
occupied-set (some g ∷ ss) zero f h e = cc
occupied-set (none ∷ ss) (suc i) f h e = occupied-set ss i f (omega arith) e
occupied-set (some g ∷ ss) (suc i) f h e = omega (arith, occupied-set ss i f (omega arith) e)

pub occupied_le : (ss : List (Option FrameInfo)) → occupied ss ≤ length ss
unfolding occupied
occupied_le [] = omega arith
occupied_le (none ∷ ss) = omega (arith, occupied_le ss)
occupied_le (some f ∷ ss) = omega (arith, occupied_le ss)

-- There is a free slot exactly when fewer slots are taken than there are.
pub any_free-occupied :
    (ss : List (Option FrameInfo)) → (any_free ss ≡ true) ↔ (occupied ss < length ss)
unfolding occupied any_free
any_free-occupied [] = (λ e. cc, λ h. absurd (omega arith))
any_free-occupied (none ∷ ss) = (λ e. omega (arith, occupied_le ss), λ h. refl)
any_free-occupied (some f ∷ ss) =
    (λ e. omega (arith, (any_free-occupied ss).0 e), λ h. (any_free-occupied ss).1 (omega arith))

pub occupied_full :
    (ss : List (Option FrameInfo))
    → ((j : ℕ) → j < length ss → is_none (get_or ss j none) ≡ false)
    → occupied ss ≡ length ss
unfolding occupied
occupied_full [] h = refl
occupied_full (none ∷ ss) h = cc (h 0 (omega arith))
occupied_full (some f ∷ ss) h = ap suc (occupied_full ss (λ j lt. h (suc j) (omega arith)))

pub any_free-get_or :
    (ss : List (Option FrameInfo)) (i : ℕ)
    → i < length ss
    → get_or ss i none ≡ none
    → any_free ss ≡ true
unfolding any_free
any_free-get_or [] i h e = absurd (omega arith)
any_free-get_or (none ∷ ss) i h e = refl
any_free-get_or (some f ∷ ss) zero h e = cc
any_free-get_or (some f ∷ ss) (suc i) h e = any_free-get_or ss i (omega arith) e
