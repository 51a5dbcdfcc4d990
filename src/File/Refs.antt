-- ===== src/File/Refs.antt =====
-- assignment-3/file.c: what holding references to a file means.
use cs_1217_operating_system.Base.{
  ℕ, zero, suc, ◌+◌, ◌-◌, ◌≤◌, ◌<◌, ◌≡◌, ◌≢◌, refl, sym, subst, ap, ◌∙◌, true, false, Option, none,
  some, arith, ltb, ◌==◌, if◌then◌else◌, update, update_self, update_ne, ℕ_discrete, ne→false,
}
use cs_1217_operating_system.File.{
  File, Files, nfile, alloc_from, filealloc, fileclose, Release, keep, release_of, fd_none,
}

-- `n` calls of `fileclose`, and what the last of them released.
abbrev pub closes : ℕ → ℕ → Release → Files → Option (Release × Files)
closes zero f r t = some (r, t)
closes (suc n) f r t = elim (fileclose f t) [ none ↦ none | some (r', t') ↦ closes n f r' t' ]

-- What `filealloc` answers.
abbrev pub AllocEnsures : Files → Option ℕ × Files → Type 0
AllocEnsures t (none, t') = (t' ≡ t) × ((f : ℕ) → f < nfile → (t f).ref ≢ 0)
AllocEnsures t (some f, t') =
    (f < nfile) × ((t f).ref ≡ 0) × ((t' f).ref ≡ 1) × ((g : ℕ) → g ≢ f → t' g ≡ t g)

abbrev FromEnsures : Files → ℕ → ℕ → Option ℕ × Files → Type 0
FromEnsures t k i (none, t') = (t' ≡ t) × ((f : ℕ) → i ≤ f → f < i + k → (t f).ref ≢ 0)
FromEnsures t k i (some f, t') =
    (f < i + k) × ((t f).ref ≡ 0) × ((t' f).ref ≡ 1) × ((g : ℕ) → g ≢ f → t' g ≡ t g)

from_step :
    (t : Files) (k i : ℕ) (o : Option ℕ × Files)
    → (t i).ref ≢ 0
    → FromEnsures t k (i + 1) o
    → FromEnsures t (suc k) i o
from_step t k i (none, t') ne (e, h) = (
  e,
  λ f lo hi. elim (ℕ_discrete i f) [
    | yes same ↦ rw (← same) ne
    | no other ↦ h f (omega arith) (omega arith)
  ],
)
from_step t k i (some f, t') ne (lt, z, o, rest) = (omega arith, z, o, rest)

alloc_from_lem : (t : Files) (k i : ℕ) → FromEnsures t k i (alloc_from t k i)
unfolding alloc_from
alloc_from_lem t zero i = (refl, λ f lo hi. absurd (omega arith))
alloc_from_lem t (suc k) i = elim (ℕ_discrete (t i).ref 0) [
  | yes e ↦ rw e (
    omega arith,
    e,
    ap (λ (r : File). r.ref) (update_self t i _),
    λ g ne. update_ne t i g _ (λ same. ne (sym same)),
  )
  | no ne ↦
      rw (ne→false (t i).ref 0 ne)
        (from_step t k i (alloc_from t k (i + 1)) ne (alloc_from_lem t k (i + 1)))
]

-- `filealloc` answers a file that nothing refers to, with one reference now, and changes no other; it
-- answers the null pointer, and changes nothing, only when every file of the table is referred to.
pub filealloc_lem : (t : Files) → AllocEnsures t (filealloc t)
unfolding filealloc
filealloc_lem t = from_all (alloc_from t nfile 0) (alloc_from_lem t nfile 0)
  where
    from_all : (o : Option ℕ × Files) → FromEnsures t nfile 0 o → AllocEnsures t o
    from_all (none, t') (e, h) = (e, λ f lt. h f (omega arith) (omega arith))
    from_all (some f, t') (lt, z, o, rest) = (omega arith, z, o, rest)

-- What `n` calls of `fileclose` have come to, for a file with `ref` references.
abbrev pub CloseEnsures : ℕ → ℕ → Files → Option (Release × Files) → Type 0
CloseEnsures n f t none = ⊥
CloseEnsures n f t (some (r, t')) =
    (r ≡ (if n == (t f).ref then release_of (t f) else keep))
    × ((t' f).ref + n ≡ (t f).ref)
    × ((g : ℕ) → g ≢ f → t' g ≡ t g)

close_keeps :
    (f : ℕ) (t : Files)
    → 1 < (t f).ref
    → fileclose f t ≡ some (keep, update t f (record (t f) { ref = (t f).ref - 1 }))
unfolding fileclose
close_keeps f t e =
    let a : ltb (t f).ref 1 ≡ false = ground arith in
    let b : ltb 0 ((t f).ref - 1) ≡ true = ground arith in rw (fileclose, a, b) refl

close_ends :
    (f : ℕ) (t : Files)
    → (t f).ref ≡ 1
    → fileclose f t
      ≡ some (release_of (t f), update t f (record (t f) { ref = 0; type_ = fd_none }))
unfolding fileclose
close_ends f t e =
    let a : ltb (t f).ref 1 ≡ false = ground arith in
    let b : ltb 0 ((t f).ref - 1) ≡ false = ground arith in rw (fileclose, a, b) refl

close_again :
    (f n : ℕ) (t t1 : Files) (o : Option (Release × Files))
    → 1 < (t f).ref
    → t1 ≡ update t f (record (t f) { ref = (t f).ref - 1 })
    → CloseEnsures n f t1 o
    → CloseEnsures (suc n) f t o
close_again f n t t1 none more e h = absurd h
close_again f n t t1 (some (r, t')) more e (x, y, z) =
    let file : t1 f ≡ record (t f) { ref = (t f).ref - 1 } =
      ap (λ (q : Files). q f) e ∙ update_self t f _ in
    let count : (t1 f).ref ≡ (t f).ref - 1 = ap (λ (q : File). q.ref) file in
    let same : release_of (t1 f) ≡ release_of (t f) = ap release_of file in
    let test : (n == (t1 f).ref) ≡ (suc n == (t f).ref) = ground arith in
    (
      x
          ∙ ap (λ b. if b then release_of (t1 f) else keep) test
          ∙ ap (λ c. if suc n == (t f).ref then c else keep) same,
      omega arith,
      λ g ne. z g ne ∙ ap (λ (q : Files). q g) e ∙ update_ne t f g _ (λ eq. ne (sym eq)),
    )

-- Of a file with at least `n` references, `n` calls of `fileclose` drop `n` of them. They release the
-- pipe end or the inode behind the file if these were all, and nothing else; none of them panics
-- or changes another file.
pub closes_lem :
    (n f : ℕ) (t : Files) → 0 < n → n ≤ (t f).ref → CloseEnsures n f t (closes n f keep t)
closes_lem zero f t some_ le = absurd (omega arith)
closes_lem (suc zero) f t some_ le = elim (ℕ_discrete (t f).ref 1) [
  | yes e ↦
      subst (λ o. CloseEnsures 1 f t (elim o [ none ↦ none | some (r', t') ↦ closes 0 f r' t' ]))
        (sym (close_ends f t e))
        (
          rw e refl,
          ap (λ (q : File). q.ref + 1) (update_self t f _) ∙ sym e,
          λ g ne. update_ne t f g _ (λ eq. ne (sym eq)),
        )
  | no other ↦
      let miss : (1 == (t f).ref) ≡ false = ground arith in
      subst (λ o. CloseEnsures 1 f t (elim o [ none ↦ none | some (r', t') ↦ closes 0 f r' t' ]))
        (sym (close_keeps f t (omega arith)))
        (
          rw miss refl,
          ap (λ (q : File). q.ref + 1) (update_self t f _) ∙ omega arith,
          λ g ne. update_ne t f g _ (λ eq. ne (sym eq)),
        )
]
closes_lem (suc (suc n)) f t some_ le =
    let t1 : Files = update t f (record (t f) { ref = (t f).ref - 1 }) in
    let count : (t1 f).ref ≡ (t f).ref - 1 = ap (λ (q : File). q.ref) (update_self t f _) in
    subst
      (λ o.
        CloseEnsures (suc (suc n)) f t
          (elim o [ none ↦ none | some (r', t') ↦ closes (suc n) f r' t' ]))
      (sym (close_keeps f t (omega arith)))
      (close_again f (suc n) t t1 (closes (suc n) f keep t1) (omega arith) refl
        (closes_lem (suc n) f t1 (omega arith) (omega arith)))
