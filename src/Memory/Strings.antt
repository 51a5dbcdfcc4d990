-- ===== src/Memory/Strings.antt =====
-- assignment-3/string.c: the routines on strings. A `char` and an `uchar` are one byte.
use cs_1217_operating_system.Base.{
  ℕ, zero, suc, ◌+◌, ◌<◌, ◌≡◌, false, ◌&&◌, not, arith, ◌==◌, if◌then◌else◌, update, ℕ_discrete,
  ne→false, Option, none, some,
}
use cs_1217_operating_system.Base.Int.{ℤ, pos, negsuc, ◌-ℤ◌}
use cs_1217_operating_system.Memory.{Mem, within}

-- `memcmp`
unfoldable pub memcmp : Mem → ℕ → ℕ → ℕ → ℤ
memcmp m v1 v2 zero = pos 0
memcmp m v1 v2 (suc n) =
    let rest = memcmp m (v1 + 1) (v2 + 1) n in
    if m v1 == m v2 then rest else pos (m v1) -ℤ pos (m v2)

-- `strncmp`
unfoldable pub strncmp : Mem → ℕ → ℕ → ℕ → ℤ
strncmp m p q zero = pos 0
strncmp m p q (suc n) =
    let rest = strncmp m (p + 1) (q + 1) n in
    if not (m p == 0) && (m p == m q) then rest else pos (m p) -ℤ pos (m q)

-- `while(n-- > 0) *s++ = 0;`
unfoldable pub fill_nul : ℕ → ℕ → Mem → Mem
fill_nul zero s m = m
fill_nul (suc n) s m = fill_nul n (s + 1) (update m s 0)

-- `strncpy`, its result being its argument
unfoldable pub strncpy : ℕ → ℕ → ℕ → Mem → Mem
unfolding fill_nul
strncpy s t zero m = m
strncpy s t (suc n) m =
    let m' = update m s (m t) in
    let rest = strncpy (s + 1) (t + 1) n m' in if m t == 0 then fill_nul n (s + 1) m' else rest

-- The loop of `safestrcpy` with `n - 1` rounds left, and the store behind it.
unfoldable pub copy_terminated : ℕ → ℕ → ℕ → Mem → Mem
copy_terminated s t zero m = update m s 0
copy_terminated s t (suc n) m =
    let m' = update m s (m t) in
    let rest = copy_terminated (s + 1) (t + 1) n m' in
    if m t == 0 then update m' (s + 1) 0 else rest

-- `safestrcpy`
unfoldable pub safestrcpy : ℕ → ℕ → ℤ → Mem → Mem
unfolding copy_terminated
safestrcpy s t (negsuc n) m = m
safestrcpy s t (pos zero) m = m
safestrcpy s t (pos (suc n)) m = copy_terminated s t n m

-- `strlen`, of memory in which a zero is found within `fuel` bytes
unfoldable pub strlen : Mem → ℕ → ℕ → Option ℕ
strlen m s zero = none
strlen m s (suc fuel) =
    let rest : Option ℕ = elim (strlen m (s + 1) fuel) [ none ↦ none | some n ↦ some (n + 1) ] in
    if m s == 0 then some 0 else rest

copy_terminated_outside :
    (s t n : ℕ) (m : Mem) (a : ℕ) → within s (n + 1) a ≡ false → copy_terminated s t n m a ≡ m a
unfolding copy_terminated
copy_terminated_outside s t zero m a h = ground arith
copy_terminated_outside s t (suc n) m a h =
    ground (arith, copy_terminated_outside (s + 1) (t + 1) n (update m s (m t)) a)

copy_terminated_ends :
    (s t n : ℕ) (m : Mem) → (i : ℕ) × (i < n + 1) × (copy_terminated s t n m (s + i) ≡ 0)
unfolding copy_terminated
copy_terminated_ends s t zero m = (0, omega arith, ground arith)
copy_terminated_ends s t (suc n) m = elim (ℕ_discrete (m t) 0) [
  | yes e ↦ (1, omega arith, ground arith)
  | no ne ↦
      let (i, lt, z) = copy_terminated_ends (s + 1) (t + 1) n (update m s (m t)) in
      let b : s + (i + 1) ≡ s + 1 + i = omega arith in
      (i + 1, omega arith, rw (ne→false (m t) 0 ne, b) z)
]

-- `safestrcpy` into `n` bytes leaves a terminated string in them, whatever the source holds, and
-- writes to no other byte.
pub safestrcpy_lem :
    (s t n : ℕ) (m : Mem)
    → 0 < n
    → ((i : ℕ) × (i < n) × (safestrcpy s t (pos n) m (s + i) ≡ 0))
      × ((a : ℕ) → within s n a ≡ false → safestrcpy s t (pos n) m a ≡ m a)
unfolding safestrcpy
safestrcpy_lem s t zero m h = absurd (omega arith)
safestrcpy_lem s t (suc n) m h =
    let (i, lt, z) = copy_terminated_ends s t n m in
    ((i, omega arith, z), λ a out. copy_terminated_outside s t n m a (ground arith))
