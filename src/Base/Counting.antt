-- ===== src/Base/Counting.antt =====
-- How many numbers pass a test.
use Prim.Native.Nat.{ℕ, zero, suc, ◌+◌, ◌<◌}
use mathlib.Core.Path.{◌≡◌, refl, sym, subst}
use mathlib.Core.Logic.{◌≢◌}
use mathlib.Core.Bool.{Bool, true, false}
use native.Mathlib.Omega.{arith}
use native.Mathlib.Decide.{ℕ_discrete}
use cs_1217_operating_system.Base.Tests.{ltb, if◌then◌else◌}

-- How many of the first `k` numbers pass a test.
unfoldable pub tally : (ℕ → Bool) → ℕ → ℕ
tally f zero = 0
tally f (suc k) = tally f k + (if f k then 1 else 0)

pub tally-none : (f : ℕ → Bool) (k : ℕ) → ((c : ℕ) → c < k → f c ≡ false) → tally f k ≡ 0
unfolding tally
tally-none f zero h = refl
tally-none f (suc k) h =
    ground (arith, h k (omega arith), tally-none f k (λ c lt. h c (omega arith)))

-- Taking the number `n` away takes one from the count.
pub tally-without :
    (f g : ℕ → Bool) (n k : ℕ)
    → f n ≡ true
    → g n ≡ false
    → ((c : ℕ) → c < k → c ≢ n → g c ≡ f c)
    → tally f k ≡ tally g k + (if ltb n k then 1 else 0)
unfolding tally
tally-without f g n zero t u h = ground arith
tally-without f g n (suc k) t u h =
    let ih = tally-without f g n k t u (λ c lt. h c (omega arith)) in
    elim (ℕ_discrete k n) [
      | yes e ↦
          let a : f k ≡ true = subst (λ x. f x ≡ true) (sym e) t in
          let b : g k ≡ false = subst (λ x. g x ≡ false) (sym e) u in ground (arith, ih)
      | no ne ↦ ground (arith, ih, h k (omega arith) ne)
    ]

pub tally-eq : (f g : ℕ → Bool) (k : ℕ) → ((c : ℕ) → c < k → f c ≡ g c) → tally f k ≡ tally g k
unfolding tally
tally-eq f g zero h = refl
tally-eq f g (suc k) h =
    let ih = tally-eq f g k (λ c lt. h c (omega arith)) in ground (arith, ih, h k (omega arith))
