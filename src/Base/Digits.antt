-- ===== src/Base/Digits.antt =====
-- The binary digits of the native numbers, and `|` and `&` with a single digit.
use Prim.Native.Nat.{
  ℕ, zero, suc, ◌+◌, ◌-◌, ◌*◌, ◌/◌, ◌%◌, ◌^◌, ◌≤◌, ◌<◌, min, max, bit_or, bit_and, digits,
  bit_and-bitwise,
}
use mathlib.Core.Path.{◌≡◌, refl, sym, ap, ◌∙◌}
use mathlib.Core.Logic.{◌⊎◌, ◌≢◌, inl, inr}
use mathlib.Core.Bool.{Bool, true, false, ◌&&◌, false≢true}
use native.Mathlib.Omega.{arith}
use native.Mathlib.Decide.{ℕ_discrete}
use cs_1217_operating_system.Base.Tests.{◌==◌, if◌then◌else◌, ne→false, ==_iff}
use cs_1217_operating_system.Base.Bits.{bit_or_digits, halve, halve-bit_or}

abbrev and_from : ℕ → ℕ → ℕ → ℕ
and_from k x y = digits (λ d. zero) min k x y

and_from_any : (j k x y : ℕ) → x ≤ j → x ≤ k → and_from k x y ≡ and_from j x y
and_from_any (suc j) (suc k) (suc x) y hj hk =
    let rest = and_from_any j k (suc x / 2) (y / 2) (omega arith) (omega arith) in
    omega (arith, rest)
and_from_any (suc j) (suc k) zero y hj hk = refl
and_from_any (suc j) zero zero y hj hk = refl
and_from_any zero (suc k) zero y hj hk = refl
and_from_any zero zero zero y hj hk = refl
and_from_any zero k (suc x) y hj hk = absurd (omega arith)
and_from_any (suc j) zero (suc x) y hj hk = absurd (omega arith)

zero-bit_and : (y : ℕ) → bit_and 0 y ≡ 0
zero-bit_and y = bit_and-bitwise 0 y

bit_and_digits : (x y : ℕ) → bit_and x y ≡ bit_and (x / 2) (y / 2) * 2 + min (x % 2) (y % 2)
bit_and_digits zero y = omega (arith, zero-bit_and y, zero-bit_and (y / 2))
bit_and_digits (suc x) y =
    let h = suc x / 2 in
    let low = bit_and-bitwise (suc x) y in
    let high = bit_and-bitwise h (y / 2) in
    let same = and_from_any h x h (y / 2) (omega arith) (omega arith) in
    omega (arith, low, high, same)

bit_and_half : (x y : ℕ) → bit_and x y / 2 ≡ bit_and (x / 2) (y / 2)
bit_and_half x y = omega (arith, bit_and_digits x y)

halve-bit_and : (k x y : ℕ) → halve k (bit_and x y) ≡ bit_and (halve k x) (halve k y)
unfolding halve
halve-bit_and zero x y = refl
halve-bit_and (suc k) x y = ap (halve k) (bit_and_half x y) ∙ halve-bit_and k (x / 2) (y / 2)

-- The digit at position `k`.
abbrev pub digit : ℕ → ℕ → ℕ
digit k x = halve k x % 2

pub digit-bit_or : (k x y : ℕ) → digit k (bit_or x y) ≡ max (digit k x) (digit k y)
digit-bit_or k x y =
    let a = halve-bit_or k x y in
    let b = bit_or_digits (halve k x) (halve k y) in omega (arith, a, b)

pub digit-bit_and : (k x y : ℕ) → digit k (bit_and x y) ≡ min (digit k x) (digit k y)
digit-bit_and k x y =
    let a = halve-bit_and k x y in
    let b = bit_and_digits (halve k x) (halve k y) in omega (arith, a, b)

and_nothing_from : (k x : ℕ) → x ≤ k → bit_and x 0 ≡ 0
and_nothing_from zero x h = let e : x ≡ 0 = omega arith in ap (λ z. bit_and z 0) e ∙ zero-bit_and 0
and_nothing_from (suc k) zero h = zero-bit_and 0
and_nothing_from (suc k) (suc x) h =
    let rest = and_nothing_from k (suc x / 2) (omega arith) in
    omega (arith, bit_and_digits (suc x) 0, rest)

-- `&` with a single digit is zero exactly when the digit is.
bit_and_power :
    (j x : ℕ)
    → ((digit j x ≡ 0) × (bit_and x (2 ^ j) ≡ 0)) ⊎ ((digit j x ≡ 1) × (bit_and x (2 ^ j) ≡ 2 ^ j))
unfolding halve
bit_and_power zero x =
    let z = and_nothing_from (x / 2) (x / 2) (omega arith) in
    let d = bit_and_digits x 1 in
    elim (ℕ_discrete (x % 2) 0) [
      | yes e ↦ inl (e, omega (arith, z, d))
      | no ne ↦ inr (omega arith, omega (arith, z, d))
    ]
bit_and_power (suc j) x =
    let d = bit_and_digits x (2 ^ suc j) in
    let half : 2 ^ suc j / 2 ≡ 2 ^ j = omega arith in
    let g : bit_and (x / 2) (2 ^ suc j / 2) ≡ bit_and (x / 2) (2 ^ j) = ap (bit_and (x / 2)) half in
    elim (bit_and_power j (x / 2)) [
      | inl (e, f) ↦ inl (e, omega (arith, d, f, g))
      | inr (e, f) ↦ inr (e, omega (arith, d, f, g))
    ]

every : ℕ → (ℕ → Bool) → Bool
every zero p = true
every (suc n) p = p n && every n p

both : (a b : Bool) → (a && b) ≡ true → (a ≡ true) × (b ≡ true)
both true b h = (refl, h)
both false b h = elim (false≢true h) [ ]

every_lem : (n : ℕ) (p : ℕ → Bool) (i : ℕ) → every n p ≡ true → i < n → p i ≡ true
unfolding every
every_lem zero p i h lt = absurd (omega arith)
every_lem (suc n) p i h lt = elim (ℕ_discrete i n) [
  | yes e ↦ ap p e ∙ (both (p n) (every n p) h).0
  | no ne ↦ every_lem n p i ((both (p n) (every n p) h).1) (omega arith)
]

-- The digits of a mask of a byte and of its complement.
abbrev of_mask : ℕ → ℕ → Bool
of_mask i k =
    (digit k (2 ^ i) == (if k == i then 1 else 0))
    && (digit k (255 - 2 ^ i) == (if k == i then 0 else 1))

masks : every 8 (λ i. every 8 (of_mask i)) ≡ true
unfolding every halve
masks = refl

mask_lem : (i k : ℕ) → i < 8 → k < 8 → of_mask i k ≡ true
mask_lem i k hi hk =
    every_lem 8 (of_mask i) k (every_lem 8 (λ j. every 8 (of_mask j)) i masks hi) hk

pub digit_mask : (i k : ℕ) → i < 8 → k < 8 → digit k (2 ^ i) ≡ (if k == i then 1 else 0)
digit_mask i k hi hk = (==_iff _ _).0 (both _ _ (mask_lem i k hi hk)).0

pub digit_rest : (i k : ℕ) → i < 8 → k < 8 → digit k (255 - 2 ^ i) ≡ (if k == i then 0 else 1)
digit_rest i k hi hk = (==_iff _ _).0 (both _ _ (mask_lem i k hi hk)).1

power_positive : (j : ℕ) → 2 ^ j ≢ 0
power_positive zero h = omega arith
power_positive (suc j) h = power_positive j (omega arith)

pub and_zero : (j x : ℕ) → (bit_and x (2 ^ j) == 0) ≡ (digit j x == 0)
and_zero j x = elim (bit_and_power j x) [
  | inl (e, f) ↦ ap (λ a. a == 0) f ∙ sym (ap (λ a. a == 0) e)
  | inr (e, f) ↦
      let positive : 2 ^ j ≢ 0 = power_positive j in
      ap (λ a. a == 0) f ∙ ne→false (2 ^ j) 0 positive ∙ sym (ap (λ a. a == 0) e)
]
