-- ===== src/Bio/Get.antt =====
-- assignment-3/bio.c: the buffer that `bget` finds or recycles.
use cs_1217_operating_system.Base.{
  ℕ, ◌+◌, ◌%◌, ◌^◌, ◌<◌, ◌≡◌, ◌≢◌, ◌⊎◌, refl, sym, ap, subst, ◌∙◌, Bool, true, false, Option, none,
  some, List, [], ◌∷◌, ◌++◌, if◌then◌else◌, update_ne, Member, Bool-cases, Option-cases, some_inj,
  inl, inr, arith, none-ne-some,
}
use mathlib.Core.Bool.{true≢false}
use cs_1217_operating_system.Bio.{Buf, Cache, set_buf, holds, first, last, is_idle, bget}
use cs_1217_operating_system.Bio.View.{
  At, holds_iff, put_here, IsCache, SameView, set_buf-IsCache, view_same, view_emptied,
}

-- The buffer `b` passes the test and none after it does.
abbrev pub IsLast : (Buf → Bool) → (ℕ → Buf) → List ℕ → ℕ → Type 0
IsLast test buf bs b =
    (before : List ℕ) × (after : List ℕ) × (bs ≡ before ++ b ∷ after)
    × (test (buf b) ≡ true)
    × ((c : ℕ) → Member c after → test (buf c) ≡ false)

module _ (test : Buf → Bool) (buf : ℕ → Buf) where
  pub first_some :
      (bs : List ℕ) (b : ℕ) → first test buf bs ≡ some b → Member b bs × (test (buf b) ≡ true)
  unfolding first
  first_some [] b e = elim (none-ne-some b e) [ ]
  first_some (c ∷ cs) b e = elim (Bool-cases (test (buf c))) [
    | inl h ↦
        let f : c ≡ b =
          some_inj c b (sym (ap (λ x. if x then some c else first test buf cs) h) ∙ e) in
        (inl (sym f), subst (λ x. test (buf x) ≡ true) f h)
    | inr h ↦
        let f = first_some cs b (sym (ap (λ x. if x then some c else first test buf cs) h) ∙ e) in
        (inr f.0, f.1)
  ]

  pub first_none :
      (bs : List ℕ) → first test buf bs ≡ none → (c : ℕ) → Member c bs → test (buf c) ≡ false
  unfolding first
  first_none [] e c m = elim m [ ]
  first_none (b ∷ bs) e c m = elim (Bool-cases (test (buf b))) [
    | inl h ↦
        elim (none-ne-some b (sym e ∙ ap (λ x. if x then some b else first test buf bs) h)) [ ]
    | inr h ↦ elim m [
      | inl f ↦ subst (λ x. test (buf x) ≡ false) (sym f) h
      | inr n ↦ first_none bs (sym (ap (λ x. if x then some b else first test buf bs) h) ∙ e) c n
    ]
  ]

  abbrev last_step : ℕ → Option ℕ → Option ℕ
  last_step c o = elim o [ some d ↦ some d | none ↦ if test (buf c) then some c else none ]

  last-none : (bs : List ℕ) → last test buf bs ≡ none → (c : ℕ) → Member c bs → test (buf c) ≡ false
  unfolding last
  last-none [] e c m = elim m [ ]
  last-none (b ∷ bs) e c m = elim (Option-cases (last test buf bs)) [
    | inr (d, h) ↦ elim (none-ne-some d (sym e ∙ ap (last_step b) h)) [ ]
    | inl h ↦ elim m [
      | inr n ↦ last-none bs h c n
      | inl f ↦ elim (Bool-cases (test (buf b))) [
        | inl t ↦
            elim (none-ne-some b
              (sym e ∙ ap (last_step b) h ∙ ap (λ x. if x then some b else none) t)) [ ]
        | inr t ↦ subst (λ x. test (buf x) ≡ false) (sym f) t
      ]
    ]
  ]

  last-some : (bs : List ℕ) (b : ℕ) → last test buf bs ≡ some b → Member b bs × IsLast test buf bs b
  unfolding last
  last-some [] b e = elim (none-ne-some b e) [ ]
  last-some (c ∷ cs) b e = elim (Option-cases (last test buf cs)) [
    | inr (d, h) ↦
        let (m, (before, after, split, t, later)) =
          last-some cs b (h ∙ sym (ap (last_step c) h) ∙ e) in
        (inr m, (c ∷ before, after, ap (λ x. c ∷ x) split, t, later))
    | inl h ↦ elim (Bool-cases (test (buf c))) [
      | inl t ↦
          let f : c ≡ b =
            some_inj c b (sym (ap (last_step c) h ∙ ap (λ x. if x then some c else none) t) ∙ e) in
          (
            inl (sym f),
            ([], cs, ap (λ x. x ∷ cs) f, subst (λ x. test (buf x) ≡ true) f t, last-none cs h),
          )
      | inr t ↦
          elim (none-ne-some b
            (sym (ap (last_step c) h ∙ ap (λ x. if x then some c else none) t) ∙ e)) [ ]
    ]
  ]

-- The caller has a buffer for the block, locked and with a reference, in a cache that is as it should be and in
-- which every block holds what it held.
pub record IsGot (dev n : ℕ) (s : Cache) (b : ℕ) (s' : Cache) : Type 0 where
  pub member : Member b s'.order
  pub at : At dev n (s'.buf b)
  pub held : ((s'.buf b).locked ≡ true) × ((s'.buf b).refcnt ≢ 0)
  pub same_order : s'.order ≡ s.order
  pub same_disk : s'.disk ≡ s.disk
  pub others : (c : ℕ) → c ≢ b → s'.buf c ≡ s.buf c
  pub cache : IsCache s'
  pub view : SameView s s'

abbrev pub NotCached : ℕ → ℕ → Cache → Type 0
NotCached dev n s = (c : ℕ) → Member c s.order → ¬ At dev n (s.buf c)

-- There is room for another reference.
abbrev pub IsFew : Cache → Type 0
IsFew s = (c : ℕ) → Member c s.order → (s.buf c).refcnt + 1 < 2 ^ 32

-- What `bget` promises.
abbrev pub GetEnsures : ℕ → ℕ → Cache → Option (ℕ × Cache) → Type 0
GetEnsures dev n s none =
    NotCached dev n s × ((c : ℕ) → Member c s.order → is_idle (s.buf c) ≡ false)
GetEnsures dev n s (some (b, s')) =
    IsGot dev n s b s' × (At dev n (s.buf b) ⊎ (NotCached dev n s × IsLast is_idle s.buf s.order b))

module _ (dev n : ℕ) (s : Cache) (b : ℕ) (m : Member b s.order) (i : IsCache s) where
  got :
      (r : Buf)
      → At dev n r
      → r.locked ≡ true
      → r.refcnt ≢ 0
      → IsCache (set_buf b r s)
      → SameView s (set_buf b r s)
      → IsGot dev n s b (set_buf b r s)
  got r a l c cache view = record {
    member = m;
    at = put_here s b r (At dev n) a;
    held = (put_here s b r (λ x. x.locked ≡ true) l, put_here s b r (λ x. x.refcnt ≢ 0) c);
    same_order = refl;
    same_disk = refl;
    others = λ d ne. update_ne s.buf b d r (λ e. ne (sym e));
    cache = cache;
    view = view;
  }

  abbrev taken : Buf
  taken = record (s.buf b) { refcnt = ((s.buf b).refcnt + 1) % 2 ^ 32; locked = true }

  never : (k : ℕ) → k + 1 < 2 ^ 32 → (k + 1) % 2 ^ 32 ≢ 0
  never k few h = omega arith

  hit : (s.buf b).refcnt + 1 < 2 ^ 32 → At dev n (s.buf b) → IsGot dev n s b (set_buf b taken s)
  hit few a =
      got taken a refl (never (s.buf b).refcnt few)
        (set_buf-IsCache s b taken i (λ c d k ok mc ne ar ac. ne (i.unique c b d k ok mc m ac ar))
          (i.filled b m) (λ z. elim (never (s.buf b).refcnt few z) [ ]))
        (view_same s b taken (λ _ _ _ f. f) (λ _ _ a. (a, refl)))

  abbrev recycled : Buf
  recycled = record (s.buf b) {
    dev = dev;
    blockno = n;
    valid = false;
    dirty = false;
    refcnt = 1;
    locked = true;
  }

  recycle : is_idle (s.buf b) ≡ true → NotCached dev n s → IsGot dev n s b (set_buf b recycled s)
  recycle idle out =
      got recycled (refl, refl) refl (omega arith)
        (set_buf-IsCache s b recycled i
          (λ c d k ok mc ne ar ac. out c mc (ac.0 ∙ sym ar.0, ac.1 ∙ sym ar.1))
          (λ e. elim (true≢false (sym e)) [ ]) (λ _ e. elim (true≢false (sym e)) [ ]))
        (view_emptied s b recycled i m refl (λ v. i.clean b m (ground arith) v (ground arith)))

-- In a cache as it should be, with room for one more reference to each buffer, `bget` answers the buffer that has the
-- block if there is one, and else the last of the list that nobody uses and that has no changes; it panics exactly
-- when there is neither.
pub bget_lem : (dev n : ℕ) (s : Cache) → IsFew s → IsCache s → GetEnsures dev n s (bget dev n s)
unfolding bget
bget_lem dev n s few i = elim (Option-cases (first (holds dev n) s.buf s.order)) [
  | inr (b, e) ↦
      let (m, h) = first_some (holds dev n) s.buf s.order b e in
      let a : At dev n (s.buf b) = (holds_iff dev n (s.buf b)).0 h in
      let found : bget dev n s ≡ some (b, set_buf b (taken dev n s b m i) s) = rw (bget, e) refl in
      subst (GetEnsures dev n s) (sym found) (hit dev n s b m i (few b m) a, inl a)
  | inl e ↦
      let out : NotCached dev n s = λ c m a.
        true≢false
          (sym ((holds_iff dev n (s.buf c)).1 a) ∙ first_none (holds dev n) s.buf s.order e c m) in
      elim (Option-cases (last is_idle s.buf s.order)) [
        | inl f ↦
            let found : bget dev n s ≡ none = rw (bget, e, f) refl in
            subst (GetEnsures dev n s) (sym found) (out, last-none is_idle s.buf s.order f)
        | inr (b, f) ↦
            let (m, l) = last-some is_idle s.buf s.order b f in
            let found : bget dev n s ≡ some (b, set_buf b (recycled dev n s b m i) s) =
              rw (bget, e, f) refl in
            subst (GetEnsures dev n s) (sym found) (recycle dev n s b m i l.3 out, inr (out, l))
      ]
]
