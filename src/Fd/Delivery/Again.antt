-- ===== src/Fd/Delivery/Again.antt =====
-- A direction of a connection sends again all that is not confirmed but the last of it.
use tinyproto_rust.Base.{ℕ, zero, suc, ◌+◌, ◌≤◌, ◌≡◌, refl, sym, ◌∙◌, arith}
use mathlib.Core.Path.{subst}
use tinyproto_rust.Fd.Delivery.{Link}
use tinyproto_rust.Fd.Delivery.Course.{begin, Course-join}
use tinyproto_rust.Fd.Delivery.Keeps.{Found}
use tinyproto_rust.Fd.Delivery.Resend.{Going, Onward, round}

Onward-join : (addr : ℕ) (a b c : Link) → Onward addr a b → Onward addr b c → Onward addr a c
Onward-join addr a b c one two = record {
  steps = Course-join addr a b c one.steps two.steps;
  same_queue = two.same_queue ∙ one.same_queue;
  same_accepted = two.same_accepted ∙ one.same_accepted;
  same_acks = two.same_acks ∙ one.same_acks;
  same_confirm = two.same_confirm ∙ one.same_confirm;
}

-- All places from `k` on but the last, `m`, are sent again, after which the receiver expects the last.
pub resend :
    (n addr k r m : ℕ) (s : Link)
    → k + n ≡ m
    → r ≤ m
    → Going k r (suc m) s
    → ((j : ℕ) → k ≤ j → j ≤ m → Found addr s.accepted s.queue j)
    → (s' : Link) × Onward addr s s' × Going m m (suc m) s' × Found addr s'.accepted s'.queue m
resend zero addr k r m s e behind g found =
    let k_m : k ≡ m = omega arith in
    let r_m : r ≡ m = omega (arith, g.first) in
    (
      s,
      record {
        steps = begin s;
        same_queue = refl;
        same_accepted = refl;
        same_acks = refl;
        same_confirm = refl;
      },
      subst (λ j. Going j m (suc m) s) k_m (subst (λ i. Going k i (suc m) s) r_m g),
      found m (omega arith) (omega arith),
    )
resend (suc n) addr k r m s e behind g found =
    let (s', r', behind', onward, g') =
      round addr k r (suc m) s g (omega arith) (found k (omega arith) (omega arith)) (omega arith)
        (omega arith) in
    let found' : (j : ℕ) → suc k ≤ j → j ≤ m → Found addr s'.accepted s'.queue j = λ j ge le.
      subst (λ q. Found addr s'.accepted q j) (sym onward.same_queue)
        (subst (λ acc. Found addr acc s.queue j) (sym onward.same_accepted)
          (found j (omega arith) le)) in
    let (s'', onward', g'', last) =
      resend n addr (suc k) r' m s' (omega arith) (omega (arith, behind')) g' found' in
    (s'', Onward-join addr s s' s'' onward onward', g'', last)
