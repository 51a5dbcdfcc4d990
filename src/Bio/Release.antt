-- ===== src/Bio/Release.antt =====
-- assignment-3/bio.c: giving a buffer back.
use cs_1217_operating_system.Base.{
  ℕ, ◌+◌, ◌-◌, ◌%◌, ◌^◌, ◌<◌, ◌≡◌, ◌≢◌, ◌↔◌, refl, sym, ap, subst, ◌∙◌, true, false, Option, none,
  some, List, [], ◌∷◌, ◌==◌, if◌then◌else◌, Member, Bool-cases, ℕ_discrete, inl, inr, arith,
}
use cs_1217_operating_system.Bio.{Buf, Cache, set_buf, without, brelse}
use cs_1217_operating_system.Bio.View.{IsCache, SameView, set_buf-IsCache, view_same, put_here}

-- Another order of the same buffers.
abbrev reorder : List ℕ → Cache → Cache
reorder o s = record s { order = o }

module _ (s : Cache) (o : List ℕ) (same : (c : ℕ) → Member c o ↔ Member c s.order) where
  reorder-IsCache : IsCache s → IsCache (reorder o s)
  reorder-IsCache i = record {
    unique = λ c d dev n ok mc md. i.unique c d dev n ok ((same c).0 mc) ((same d).0 md);
    filled = λ c m. i.filled c ((same c).0 m);
    clean = λ c m. i.clean c ((same c).0 m);
  }

  reorder-SameView : SameView s (reorder o s)
  reorder-SameView dev n v ok h = elim h [
    | inl (c, m, f) ↦ inl (c, (same c).1 m, f)
    | inr (empty, e) ↦ inr (λ c m. empty c ((same c).0 m), e)
  ]

without_step : (b c : ℕ) (cs : List ℕ) → (c == b) ≡ false → without b (c ∷ cs) ≡ c ∷ without b cs
unfolding without
without_step b c cs h = rw (without, h) refl

Member-without : (b c : ℕ) (cs : List ℕ) → Member c (without b cs) → Member c cs
unfolding without
Member-without b c [] m = m
Member-without b c (d ∷ ds) m = elim (Bool-cases (d == b)) [
  | inl h ↦ inr (
      Member-without b c ds
        (subst (Member c) (ap (λ x. if x then without b ds else d ∷ without b ds) h) m))
  | inr h ↦ elim (subst (Member c) (without_step b d ds h) m) [
    | inl e ↦ inl e
    | inr n ↦ inr (Member-without b c ds n)
  ]
]

eq : (c d : ℕ) → (c == d) ≡ true → c ≡ d
eq c d h = ground arith

without-keeps : (b c : ℕ) (cs : List ℕ) → c ≢ b → Member c cs → Member c (without b cs)
unfolding without
without-keeps b c [] ne m = m
without-keeps b c (d ∷ ds) ne m = elim (Bool-cases (d == b)) [
  | inl h ↦
      subst (Member c) (sym (ap (λ x. if x then without b ds else d ∷ without b ds) h))
        (elim m [ inl e ↦ elim (ne (e ∙ eq d b h)) [ ] | inr n ↦ without-keeps b c ds ne n ])
  | inr h ↦
      subst (Member c) (sym (without_step b d ds h))
        (elim m [ inl e ↦ inl e | inr n ↦ inr (without-keeps b c ds ne n) ])
]

-- Moving a buffer to the front leaves the same buffers.
Member-front : (b c : ℕ) (cs : List ℕ) → Member b cs → Member c (b ∷ without b cs) ↔ Member c cs
Member-front b c cs m = (
  λ h. elim h [ inl e ↦ subst (λ x. Member x cs) (sym e) m | inr n ↦ Member-without b c cs n ],
  λ h. elim (ℕ_discrete c b) [ yes e ↦ inl e | no ne ↦ inr (without-keeps b c cs ne h) ],
)

-- What `brelse` promises.
abbrev pub ReleaseEnsures : ℕ → Cache → Option Cache → Type 0
ReleaseEnsures b s none = (s.buf b).locked ≡ false
ReleaseEnsures b s (some s') =
    ((s.buf b).locked ≡ true)
    × IsCache s'
    × SameView s s'
    × ((s'.buf b).locked ≡ false)
    × ((s'.buf b).refcnt + 1 ≡ (s.buf b).refcnt)
    × (s'.order ≡ (if (s.buf b).refcnt == 1 then b ∷ without b s.order else s.order))

abbrev given_up : ℕ → Cache → Buf
given_up b s = record (s.buf b) {
  refcnt = ((s.buf b).refcnt + (2 ^ 32 - 1)) % 2 ^ 32;
  locked = false;
}

abbrev IsMarked : ℕ → Cache → Type 0
IsMarked b s =
    (s.buf b).valid ≡ true
    → (s.buf b).dirty ≡ false
    → (s.buf b).contents ≡ s.disk (s.buf b).dev (s.buf b).blockno

given_up-IsCache :
    (b : ℕ) (s : Cache)
    → IsCache s
    → Member b s.order
    → IsMarked b s
    → IsCache (set_buf b (given_up b s) s)
given_up-IsCache b s i m marked =
    set_buf-IsCache s b (given_up b s) i
      (λ c d k ok mc ne ar ac. ne (i.unique c b d k ok mc m ac ar)) (i.filled b m) (λ _. marked)

given_up-SameView : (b : ℕ) (s : Cache) → SameView s (set_buf b (given_up b s) s)
given_up-SameView b s = view_same s b (given_up b s) (λ _ _ _ f. f) (λ _ _ a. (a, refl))

-- In a cache as it should be, `brelse` of a buffer with a reference panics if and only if it is not locked. It
-- otherwise gives up the lock and one reference, moves the buffer to the front when it was the last, and keeps what every
-- block holds, if contents that are not the disk's have been marked as changed.
pub brelse_lem :
    (b : ℕ) (s : Cache)
    → IsCache s
    → Member b s.order
    → 0 < (s.buf b).refcnt
    → (s.buf b).refcnt < 2 ^ 32
    → IsMarked b s
    → ReleaseEnsures b s (brelse b s)
unfolding brelse
brelse_lem b s i m one small marked = elim (Bool-cases (s.buf b).locked) [
  | inr l ↦
      let found : brelse b s ≡ none = rw (brelse, l) refl in
      subst (ReleaseEnsures b s) (sym found) l
  | inl l ↦ elim (Bool-cases ((s.buf b).refcnt == 1)) [
    | inl z ↦
        let s' : Cache = set_buf b (given_up b s) s in
        let o : List ℕ = b ∷ without b s.order in
        let k : ((s.buf b).refcnt + (2 ^ 32 - 1)) % 2 ^ 32 == 0 ≡ true = ground arith in
        let found : brelse b s ≡ some (reorder o s') = rw (brelse, l, k) refl in
        let same = λ (c : ℕ). Member-front b c s.order m in
        subst (ReleaseEnsures b s) (sym found) (
          l,
          reorder-IsCache s' o same (given_up-IsCache b s i m marked),
          λ d n v ok h. reorder-SameView s' o same d n v ok (given_up-SameView b s d n v ok h),
          put_here s b (given_up b s) (λ x. x.locked ≡ false) refl,
          put_here s b (given_up b s) (λ x. x.refcnt + 1 ≡ (s.buf b).refcnt) (omega arith),
          sym (ap (λ x. if x then o else s.order) z),
        )
    | inr z ↦
        let k : ((s.buf b).refcnt + (2 ^ 32 - 1)) % 2 ^ 32 == 0 ≡ false = ground arith in
        let found : brelse b s ≡ some (set_buf b (given_up b s) s) = rw (brelse, l, k) refl in
        subst (ReleaseEnsures b s) (sym found) (
          l,
          given_up-IsCache b s i m marked,
          given_up-SameView b s,
          put_here s b (given_up b s) (λ x. x.locked ≡ false) refl,
          put_here s b (given_up b s) (λ x. x.refcnt + 1 ≡ (s.buf b).refcnt) (omega arith),
          sym (ap (λ x. if x then b ∷ without b s.order else s.order) z),
        )
  ]
]
