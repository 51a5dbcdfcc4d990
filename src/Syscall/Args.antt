-- ===== src/Syscall/Args.antt =====
-- assignment-3/syscall.c: what a fetched argument is known to be.
use cs_1217_operating_system.Base.{
  ℕ, zero, suc, ◌+◌, ◌-◌, ◌^◌, ◌≤◌, ◌<◌, ◌≡◌, ◌≢◌, refl, ap, ◌∙◌, true, false, ◌||◌, Bool, Option,
  none, some, arith, ltb, leb, if◌then◌else◌, Bool-cases, Option-cases, inl, inr, some_inj,
  none-ne-some, leb→le, ℕ_discrete, ne→false,
}
use cs_1217_operating_system.Base.Int.{ℤ, pos, negsuc, pos_part, ltb_ℤ}
use cs_1217_operating_system.Syscall.{User, add_uint, to_uint, find_nul, fetchstr, argint, argptr}

-- A string of length `n` at `a`, with its terminator inside the process.
abbrev pub IsString : User → ℕ → ℕ → Type 0
IsString u a n = (a + n < u.sz) × (u.memory (a + n) ≡ 0) × ((i : ℕ) → i < n → u.memory (a + i) ≢ 0)

-- What `fetchstr` answers.
abbrev pub FetchEnsures : User → ℕ → Option (ℕ × ℕ) → Type 0
FetchEnsures u addr none = (i : ℕ) → addr ≤ i → i < u.sz → u.memory i ≢ 0
FetchEnsures u addr (some (a, n)) = (a ≡ addr) × IsString u addr n

-- The same of the loop, from `s` on.
abbrev NulEnsures : (ℕ → ℕ) → ℕ → ℕ → ℕ → Option ℕ → Type 0
NulEnsures m start k s none = (i : ℕ) → s ≤ i → i < s + k → m i ≢ 0
NulEnsures m start k s (some e) =
    (s ≤ start + e)
    × (start + e < s + k)
    × (m (start + e) ≡ 0)
    × ((i : ℕ) → s ≤ i → i < start + e → m i ≢ 0)

nul_step :
    (m : ℕ → ℕ) (start k s : ℕ) (o : Option ℕ)
    → m s ≢ 0
    → NulEnsures m start k (s + 1) o
    → NulEnsures m start (suc k) s o
nul_step m start k s none ne h = λ i lo hi. elim (ℕ_discrete s i) [
  | yes e ↦ rw (← e) ne
  | no other ↦ h i (omega arith) (omega arith)
]
nul_step m start k s (some e) ne (a, b, z, before) = (
  omega arith,
  omega arith,
  z,
  λ i lo hi. elim (ℕ_discrete s i) [
    | yes same ↦ rw (← same) ne
    | no other ↦ before i (omega arith) hi
  ],
)

find_nul_lem :
    (m : ℕ → ℕ) (start k s : ℕ) → start ≤ s → NulEnsures m start k s (find_nul m start k s)
unfolding find_nul
find_nul_lem m start zero s le = λ i lo hi. absurd (omega arith)
find_nul_lem m start (suc k) s le = elim (ℕ_discrete (m s) 0) [
  | yes e ↦
      let back : start + (s - start) ≡ s = omega arith in
      rw e (omega arith, omega arith, ap m back ∙ e, λ i lo hi. absurd (omega arith))
  | no ne ↦ rw (ne→false (m s) 0 ne) (
      nul_step m start k s (find_nul m start k (s + 1)) ne
        (find_nul_lem m start k (s + 1) (omega arith)))
]

-- `fetchstr` answers exactly when a terminated string starts at the address: with the address and
-- the string's length, all of it inside the process; and it answers -1 when no byte of the process
-- from the address on is zero.
pub fetchstr_lem : (u : User) (addr : ℕ) → FetchEnsures u addr (fetchstr u addr)
unfolding fetchstr
fetchstr_lem u addr = elim (Bool-cases (leb u.sz addr)) [
  | inl out ↦ rw out (λ i lo hi. absurd (ground (arith, leb→le u.sz addr)))
  | inr in_ ↦ rw in_ (
      found (find_nul u.memory addr (u.sz - addr) addr)
        (find_nul_lem u.memory addr (u.sz - addr) addr (omega arith)) (ground arith))
]
  where
    found :
        (o : Option ℕ)
        → NulEnsures u.memory addr (u.sz - addr) addr o
        → addr < u.sz
        → FetchEnsures u addr (elim o [ none ↦ none | some n ↦ some (addr, n) ])
    found none h lt = λ i lo hi. h i lo (omega arith)
    found (some n) (a, b, z, before) lt =
        (refl, (omega arith, z, λ i h. before (addr + i) (omega arith) (omega arith)))

in_range :
    (sz i : ℕ) (size : ℤ)
    → sz ≤ 2 ^ 31
    → pos_part size < 2 ^ 31
    → (ltb_ℤ size (pos 0) || leb sz i || ltb sz (add_uint i (to_uint size))) ≡ false
    → (ltb_ℤ size (pos 0) ≡ false) × (i < sz) × (i + pos_part size ≤ sz)
in_range sz i (pos k) small int h = ground arith
in_range sz i (negsuc k) small int h = absurd (ground arith)

accepted : (b : Bool) (i a : ℕ) → (if b then none else some i) ≡ some a → (b ≡ false) × (i ≡ a)
accepted true i a h = absurd (none-ne-some a h)
accepted false i a h = (refl, some_inj i a h)

-- When `argptr` accepts an argument, the `size` bytes it points to lie inside the process, and
-- `size` was not negative. A process is at most 2 ^ 31 bytes, and `size` is an `int`.
pub argptr_lem :
    (u : User) (n : ℕ) (size : ℤ) (a : ℕ)
    → u.sz ≤ 2 ^ 31
    → pos_part size < 2 ^ 31
    → argptr u n size ≡ some a
    → (ltb_ℤ size (pos 0) ≡ false) × (a < u.sz) × (a + pos_part size ≤ u.sz) × (argint u n ≡ some a)
unfolding argptr
argptr_lem u n size a small int h = elim (Option-cases (argint u n)) [
  | inl e ↦ absurd (none-ne-some a (rw (argptr, e) at h))
  | inr (i, e) ↦
      let (good, same) =
        accepted (ltb_ℤ size (pos 0) || leb u.sz i || ltb u.sz (add_uint i (to_uint size))) i a
          (rw (argptr, e) at h) in
      let (x, y, z) = in_range u.sz i size small int good in
      (x, rw (← same) y, rw (← same) z, rw (← same) e)
]
