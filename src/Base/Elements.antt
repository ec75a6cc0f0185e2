-- ===== src/Base/Elements.antt =====
-- A predicate of every element of a list, and the list's indices.
use Prim.Native.Nat.{ℕ, zero, suc, ◌<◌}
use mathlib.Core.Path.{◌≡◌, refl, ap}
use mathlib.Core.List.{List, [], ◌∷◌}
use native.Mathlib.Omega.{arith}
use tinyproto_rust.Base.Lists.{length, get_elem?, set}
use tinyproto_rust.Base.Options.{Returns, returns}

module _ {ℓ} {A : Type ℓ} where
  abbrev pub All : (A → Type 0) → List A → Type 0
  All P [] = Unit
  All P (x ∷ xs) = P x × All P xs

  pub get_elem?-All :
      (P : A → Type 0) (xs : List A) (i : ℕ) → All P xs → i < length xs → Returns P (get_elem? xs i)
  get_elem?-All P [] i h lt = absurd (omega arith)
  get_elem?-All P (x ∷ xs) zero h lt = returns h.0
  get_elem?-All P (x ∷ xs) (suc i) h lt = get_elem?-All P xs i h.1 (omega arith)

  pub set-All : (P : A → Type 0) (xs : List A) (i : ℕ) (y : A) → All P xs → P y → All P (set xs i y)
  set-All P [] i y h p = tt
  set-All P (x ∷ xs) zero y h p = (p, h.1)
  set-All P (x ∷ xs) (suc i) y h p = (h.0, set-All P xs i y h.1 p)

  pub length-set : (xs : List A) (i : ℕ) (y : A) → length (set xs i y) ≡ length xs
  length-set [] i y = refl
  length-set (x ∷ xs) zero y = refl
  length-set (x ∷ xs) (suc i) y = ap suc (length-set xs i y)
