-- ===== src/Fs/FreeMap.antt =====
-- assignment-3/fs.c: what `balloc` and `bfree` do to the free map.
use Prim.Native.Nat.{bit_and, bit_or}
use cs_1217_operating_system.Base.{
  ℕ, zero, suc, ◌+◌, ◌-◌, ◌/◌, ◌%◌, ◌≡◌, ◌≢◌, ◌≤◌, ◌<◌, refl, sym, ap, subst, ◌∙◌, true, false,
  Option, none, some, ltb, ◌==◌, if◌then◌else◌, update, update_self, update_ne, Bool-cases,
  ℕ_discrete, ne→false, inl, inr, arith, ==_refl, ltb→lt,
}
use cs_1217_operating_system.Base.Digits.{
  digit, digit-bit_or, digit-bit_and, digit_mask, digit_rest, and_zero,
}
use cs_1217_operating_system.Fs.Bytes.{Bytes}
use cs_1217_operating_system.Fs.Blocks.{mask, is_clear, mark, unmark, free_bit}

-- Two different bits are in different bytes, or at different places of one.
places : (i j : ℕ) → i ≢ j → i / 8 ≡ j / 8 → (j % 8 == i % 8) ≡ false
places i j ne e = ne→false (j % 8) (i % 8) (λ f. ne (omega arith))

clear_digit : (bytes : Bytes) (j : ℕ) → is_clear bytes j ≡ (digit (j % 8) (bytes (j / 8)) == 0)
clear_digit bytes j = and_zero (j % 8) (bytes (j / 8))

-- A bit of a map in which the byte of bit `i` is replaced by `w`.
module _ (bytes : Bytes) (i w : ℕ) where
  abbrev changed : Bytes
  changed = update bytes (i / 8) w

  same_byte : (j : ℕ) → i / 8 ≡ j / 8 → is_clear changed j ≡ (digit (j % 8) w == 0)
  same_byte j e =
      clear_digit changed j
      ∙ ap (λ x. digit (j % 8) (changed x) == 0) (sym e)
      ∙ ap (λ x. digit (j % 8) x == 0) (update_self bytes (i / 8) w)

  other_byte : (j : ℕ) → i / 8 ≢ j / 8 → is_clear changed j ≡ is_clear bytes j
  other_byte j ne =
      clear_digit changed j
      ∙ ap (λ x. digit (j % 8) x == 0) (update_ne bytes (i / 8) (j / 8) w ne)
      ∙ sym (clear_digit bytes j)

low : (i : ℕ) → i % 8 < 8
low i = omega arith

set_at : (i : ℕ) → digit (i % 8) (mask i) ≡ 1
set_at i =
    digit_mask (i % 8) (i % 8) (low i) (low i) ∙ ap (λ t. if t then 1 else 0) (==_refl (i % 8))

set_elsewhere : (i j : ℕ) → i ≢ j → i / 8 ≡ j / 8 → digit (j % 8) (mask i) ≡ 0
set_elsewhere i j ne e =
    digit_mask (i % 8) (j % 8) (low i) (low j) ∙ ap (λ t. if t then 1 else 0) (places i j ne e)

rest_at : (i : ℕ) → digit (i % 8) (255 - mask i) ≡ 0
rest_at i =
    digit_rest (i % 8) (i % 8) (low i) (low i) ∙ ap (λ t. if t then 0 else 1) (==_refl (i % 8))

rest_elsewhere : (i j : ℕ) → i ≢ j → i / 8 ≡ j / 8 → digit (j % 8) (255 - mask i) ≡ 1
rest_elsewhere i j ne e =
    digit_rest (i % 8) (j % 8) (low i) (low j) ∙ ap (λ t. if t then 0 else 1) (places i j ne e)

pub mark_self : (bytes : Bytes) (i : ℕ) → is_clear (mark bytes i) i ≡ false
mark_self bytes i =
    let d = digit-bit_or (i % 8) (bytes (i / 8)) (mask i) in
    let m = set_at i in
    same_byte bytes i (bit_or (bytes (i / 8)) (mask i)) i refl
    ∙ ne→false _ 0 (λ z. omega (arith, d, m, z))

pub unmark_self : (bytes : Bytes) (i : ℕ) → is_clear (unmark bytes i) i ≡ true
unmark_self bytes i =
    let d = digit-bit_and (i % 8) (bytes (i / 8)) (255 - mask i) in
    let m = rest_at i in
    let zero_ : digit (i % 8) (bit_and (bytes (i / 8)) (255 - mask i)) ≡ 0 = omega (arith, d, m) in
    same_byte bytes i (bit_and (bytes (i / 8)) (255 - mask i)) i refl ∙ ap (λ x. x == 0) zero_

-- A byte with the same digit at the place of `j` leaves the bit `j`.
keep_other :
    (bytes : Bytes) (i j w : ℕ)
    → (i / 8 ≡ j / 8 → digit (j % 8) w ≡ digit (j % 8) (bytes (i / 8)))
    → is_clear (update bytes (i / 8) w) j ≡ is_clear bytes j
keep_other bytes i j w same = elim (ℕ_discrete (i / 8) (j / 8)) [
  | no far ↦ other_byte bytes i w j far
  | yes e ↦
      same_byte bytes i w j e
      ∙ ap (λ x. x == 0) (same e)
      ∙ ap (λ x. digit (j % 8) (bytes x) == 0) e
      ∙ sym (clear_digit bytes j)
]

pub mark_other : (bytes : Bytes) (i j : ℕ) → i ≢ j → is_clear (mark bytes i) j ≡ is_clear bytes j
mark_other bytes i j ne = keep_other bytes i j (bit_or (bytes (i / 8)) (mask i)) (λ e.
    let d = digit-bit_or (j % 8) (bytes (i / 8)) (mask i) in
    let m = set_elsewhere i j ne e in omega (arith, d, m))

pub unmark_other :
    (bytes : Bytes) (i j : ℕ) → i ≢ j → is_clear (unmark bytes i) j ≡ is_clear bytes j
unmark_other bytes i j ne = keep_other bytes i j (bit_and (bytes (i / 8)) (255 - mask i)) (λ e.
    let d = digit-bit_and (j % 8) (bytes (i / 8)) (255 - mask i) in
    let m = rest_elsewhere i j ne e in omega (arith, d, m))

-- What the inner loop of `balloc` finds.
abbrev pub FindEnsures : Bytes → ℕ → ℕ → ℕ → ℕ → Option ℕ → Type 0
FindEnsures bytes size b k bi none =
    (x : ℕ) → bi ≤ x → x < bi + k → b + x < size → is_clear bytes x ≡ false
FindEnsures bytes size b k bi (some x) =
    (bi ≤ x) × (x < bi + k) × (b + x < size) × (is_clear bytes x ≡ true)

pub free_bit_lem :
    (bytes : Bytes) (size b k bi : ℕ) → FindEnsures bytes size b k bi (free_bit bytes size b k bi)
unfolding free_bit
free_bit_lem bytes size b zero bi = λ x lo hi _. absurd (omega arith)
free_bit_lem bytes size b (suc k) bi =
    let rest = free_bit bytes size b k (bi + 1) in
    let step = free_bit bytes size b (suc k) bi in
    elim (Bool-cases (ltb (b + bi) size)) [
      | inr h ↦
          let e : step ≡ none =
            ap (λ t. if t then (if is_clear bytes bi then some bi else rest) else none) h in
          subst (FindEnsures bytes size b (suc k) bi) (sym e)
            (λ x lo hi within. let out : size ≤ b + bi = ground arith in absurd (omega arith))
      | inl h ↦ elim (Bool-cases (is_clear bytes bi)) [
        | inl c ↦
            let e : step ≡ some bi =
              ap (λ t. if t then (if is_clear bytes bi then some bi else rest) else none) h
              ∙ ap (λ t. if t then some bi else rest) c in
            subst (FindEnsures bytes size b (suc k) bi) (sym e)
              (omega arith, omega arith, ltb→lt _ _ h, c)
        | inr c ↦
            let e : step ≡ rest =
              ap (λ t. if t then (if is_clear bytes bi then some bi else rest) else none) h
              ∙ ap (λ t. if t then some bi else rest) c in
            subst (FindEnsures bytes size b (suc k) bi) (sym e)
              (later rest (free_bit_lem bytes size b k (bi + 1)) c)
      ]
    ]
  where
    later :
        (r : Option ℕ)
        → FindEnsures bytes size b k (bi + 1) r
        → is_clear bytes bi ≡ false
        → FindEnsures bytes size b (suc k) bi r
    later none h c = λ x lo hi within. elim (ℕ_discrete x bi) [
      | yes e ↦ subst (λ y. is_clear bytes y ≡ false) (sym e) c
      | no ne ↦ h x (omega arith) (omega arith) within
    ]
    later (some x) (lo, hi, within, f) c = (omega arith, omega arith, within, f)
