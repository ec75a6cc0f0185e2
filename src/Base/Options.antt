-- ===== src/Base/Options.antt =====
-- Predicates through the branches and the chains of a handler.
use mathlib.Core.Path.{◌≡◌, refl, sym, ap, ◌∙◌, subst}
use mathlib.Core.Bool.{Bool, true, false}
use mathlib.Core.Option.{Option, none, some}
use tinyproto_rust.Base.Tests.{if◌then◌else◌, ◌>>=◌}

-- There is a result, and the predicate holds of it.
pub record Returns {ℓ} {A : Type ℓ} (P : A → Type 0) (o : Option A) : Type ℓ where
  pub result : A
  pub returned : o ≡ some result
  pub holds : P result

module _ {ℓ} {A : Type ℓ} {P : A → Type 0} where
  pub returns : {a : A} → P a → Returns P (some a)
  returns {a} p = record { result = a; returned = refl; holds = p }

  pub Returns-bind {κ} :
      {B : Type κ} {Q : B → Type 0} {o : Option A} {f : A → Option B}
      → Returns P o
      → ((a : A) → P a → Returns Q (f a))
      → Returns Q (o >>= f)
  Returns-bind {f} r k =
      let rest = k r.result r.holds in
      record {
        result = rest.result;
        returned = ap (λ x. x >>= f) r.returned ∙ rest.returned;
        holds = rest.holds;
      }

  pub Returns-weaken :
      {Q : A → Type 0} {o : Option A} → Returns P o → ((a : A) → P a → Q a) → Returns Q o
  Returns-weaken r k = record {
    result = r.result;
    returned = r.returned;
    holds = k r.result r.holds;
  }

-- What is returned is what is known to be.
pub Returns-at {ℓ} :
    {A : Type ℓ} (P : A → Type 0) (o : Option A) (a : A) → Returns P o → o ≡ some a → P a
Returns-at {A} P o a r e = subst P (some_inj (sym r.returned ∙ e)) r.holds
  where
    some_inj : {x y : A} → some x ≡ some y → x ≡ y
    some_inj h = cc

pub if-both {ℓ} :
    {A : Type ℓ} (P : A → Type 0) {x y : A} (b : Bool) → P x → P y → P (if b then x else y)
if-both P true p q = p
if-both P false p q = q

-- The predicate holds of the result, if there is one.
abbrev pub Whenever {ℓ} : {A : Type ℓ} → (A → Type 0) → Option A → Type 0
Whenever P none = Unit
Whenever P (some a) = P a

pub Whenever-bind {ℓ κ} :
    {A : Type ℓ} {B : Type κ} (P : B → Type 0) (o : Option A) (f : A → Option B)
    → ((a : A) → Whenever P (f a))
    → Whenever P (o >>= f)
Whenever-bind P none f h = tt
Whenever-bind P (some a) f h = h a
