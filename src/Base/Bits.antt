-- ===== src/Base/Bits.antt =====
-- `|` on the native numbers: how it acts digit by digit, and on a multiple of a page's size.
use Prim.Native.Nat.{
  ℕ, zero, suc, ◌+◌, ◌*◌, ◌/◌, ◌%◌, ◌≤◌, ◌<◌, max, bit_or, digits, bit_or-bitwise,
}
use mathlib.Core.Path.{◌≡◌, refl, sym, ap, ◌∙◌}
use native.Mathlib.Omega.{arith}

-- The definition of `bit_or`, with the count of digits apart from the first number.
abbrev or_from : ℕ → ℕ → ℕ → ℕ
or_from k x y = digits (λ d. d) max k x y

-- Any two counts that are large enough give the same.
or_from_any : (j k x y : ℕ) → x ≤ j → x ≤ k → or_from k x y ≡ or_from j x y
or_from_any (suc j) (suc k) (suc x) y hj hk =
    let rest = or_from_any j k (suc x / 2) (y / 2) (omega arith) (omega arith) in
    omega (arith, rest)
or_from_any (suc j) (suc k) zero y hj hk = refl
or_from_any (suc j) zero zero y hj hk = refl
or_from_any zero (suc k) zero y hj hk = refl
or_from_any zero zero zero y hj hk = refl
or_from_any zero k (suc x) y hj hk = absurd (omega arith)
or_from_any (suc j) zero (suc x) y hj hk = absurd (omega arith)

zero-bit_or : (y : ℕ) → bit_or 0 y ≡ y
zero-bit_or y = bit_or-bitwise 0 y

pub bit_or_digits : (x y : ℕ) → bit_or x y ≡ bit_or (x / 2) (y / 2) * 2 + max (x % 2) (y % 2)
bit_or_digits zero y = omega (arith, zero-bit_or y, zero-bit_or (y / 2))
bit_or_digits (suc x) y =
    let h = suc x / 2 in
    let low = bit_or-bitwise (suc x) y in
    let high = bit_or-bitwise h (y / 2) in
    let same = or_from_any h x h (y / 2) (omega arith) (omega arith) in
    omega (arith, low, high, same)

pub bit_or_half : (x y : ℕ) → bit_or x y / 2 ≡ bit_or (x / 2) (y / 2)
bit_or_half x y = omega (arith, bit_or_digits x y)

-- The lowest digit of the result is set if that of an operand is.
pub bit_or_odd : (x y : ℕ) → y % 2 ≡ 1 → bit_or x y % 2 ≡ 1
bit_or_odd x y h = omega (arith, bit_or_digits x y)

pub bit_or_odd_left : (x y : ℕ) → x % 2 ≡ 1 → bit_or x y % 2 ≡ 1
bit_or_odd_left x y h = omega (arith, bit_or_digits x y)

unfoldable pub halve : ℕ → ℕ → ℕ
halve zero x = x
halve (suc k) x = halve k (x / 2)

pub halve-bit_or : (k x y : ℕ) → halve k (bit_or x y) ≡ bit_or (halve k x) (halve k y)
unfolding halve
halve-bit_or zero x y = refl
halve-bit_or (suc k) x y = ap (halve k) (bit_or_half x y) ∙ halve-bit_or k (x / 2) (y / 2)

halve_page : (x : ℕ) → halve 12 x ≡ x / 4096
unfolding halve
halve_page x = omega arith

bit_or-zero_from : (k x : ℕ) → x ≤ k → bit_or x 0 ≡ x
bit_or-zero_from zero x h =
    let e : x ≡ 0 = omega arith in ap (λ z. bit_or z 0) e ∙ zero-bit_or 0 ∙ sym e
bit_or-zero_from (suc k) zero h = zero-bit_or 0
bit_or-zero_from (suc k) (suc x) h =
    let rest = bit_or-zero_from k (suc x / 2) (omega arith) in
    omega (arith, bit_or_digits (suc x) 0, rest)

pub bit_or-zero : (x : ℕ) → bit_or x 0 ≡ x
bit_or-zero x = bit_or-zero_from x x (omega arith)

-- Or with an offset inside a page keeps the number of the page.
pub bit_or_page : (x y : ℕ) → y < 4096 → bit_or x y / 4096 ≡ x / 4096
bit_or_page x y h =
    let none_ : y / 4096 ≡ 0 = omega arith in
    sym (halve_page (bit_or x y))
    ∙ halve-bit_or 12 x y
    ∙ ap (bit_or (halve 12 x)) (halve_page y ∙ none_)
    ∙ bit_or-zero (halve 12 x)
    ∙ halve_page x
