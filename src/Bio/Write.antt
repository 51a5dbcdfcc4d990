-- ===== src/Bio/Write.antt =====
-- assignment-3/bio.c: writing a buffer to the disk.
use cs_1217_operating_system.Base.{
  ℕ, ◌≡◌, ◌≢◌, refl, sym, ap, subst, ◌∙◌, true, false, not, Option, none, some, if◌then◌else◌,
  update, update_self, update_ne, Member, Bool-cases, ℕ_discrete, inl, inr,
}
use mathlib.Core.Bool.{true≢false}
use cs_1217_operating_system.Bio.{Block, Buf, Cache, set_buf, iderw, bwrite}
use cs_1217_operating_system.Bio.View.{
  At, At-cases, IsCache, Filled, SameView, at_each, put_here, set_buf_unique, set_buf-IsCache,
  view_same,
}

-- The disks with one block written.
abbrev written : (ℕ → ℕ → Block) → ℕ → ℕ → Block → ℕ → ℕ → Block
written disk dev n v = update disk dev (update (disk dev) n v)

written_self : (disk : ℕ → ℕ → Block) (dev n : ℕ) (v : Block) → written disk dev n v dev n ≡ v
written_self disk dev n v =
    ap (λ f. f n) (update_self disk dev (update (disk dev) n v)) ∙ update_self (disk dev) n v

written_ne :
    (disk : ℕ → ℕ → Block) (dev n : ℕ) (v : Block) (d k : ℕ)
    → ¬ ((dev ≡ d) × (n ≡ k))
    → written disk dev n v d k ≡ disk d k
written_ne disk dev n v d k out = elim (ℕ_discrete dev d) [
  | no ne ↦ ap (λ f. f k) (update_ne disk dev d (update (disk dev) n v) ne)
  | yes e ↦
      let ne : n ≢ k = (λ f. out (e, f)) in
      subst (λ x. update disk dev (update (disk dev) n v) x k ≡ disk x k) e
        (ap (λ f. f k) (update_self disk dev (update (disk dev) n v))
          ∙ update_ne (disk dev) n k v ne)
]

-- A buffer with changes, written out.
module _ (s : Cache) (b : ℕ) (i : IsCache s) (m : Member b s.order) (ok : (s.buf b).dev ≢ 0)
    (d : (s.buf b).dirty ≡ true) where
  abbrev stored : Buf
  stored = record (s.buf b) { valid = true; dirty = false }

  abbrev disk : ℕ → ℕ → Block
  disk = written s.disk (s.buf b).dev (s.buf b).blockno (s.buf b).contents

  abbrev after : Cache
  after = record (set_buf b stored s) { disk = disk }

  iderw_dirty : iderw b s ≡ after
  unfolding iderw
  iderw_dirty = rw (iderw, d) refl

  apart :
      (c : ℕ)
      → c ≢ b
      → Member c s.order
      → ¬ (((s.buf b).dev ≡ (s.buf c).dev) × ((s.buf b).blockno ≡ (s.buf c).blockno))
  apart c ne mc e =
      ne (i.unique c b (s.buf b).dev (s.buf b).blockno ok mc m (sym e.0, sym e.1) (refl, refl))

  after-IsCache : IsCache after
  after-IsCache = record {
    unique =
        set_buf_unique s b stored i (λ c e k ok mc ne ar ac. ne (i.unique c b e k ok mc m ac ar));
    filled = λ c mc.
        at_each s b stored (λ x y. Member x s.order → y.dirty ≡ true → y.valid ≡ true) (λ _ _. refl)
          (λ x _ mx. i.filled x mx) c mc;
    clean = λ c mc.
        at_each s b stored
          (λ x y.
            Member x s.order
            → y.refcnt ≡ 0
            → y.valid ≡ true
            → y.dirty ≡ false
            → y.contents ≡ disk y.dev y.blockno)
          (λ _ _ _ _. sym (written_self s.disk (s.buf b).dev (s.buf b).blockno (s.buf b).contents))
          (λ x ne mx z v c. i.clean x mx z v c ∙ sym (written_ne s.disk _ _ _ _ _ (apart x ne mx)))
          c mc;
  }

  after-SameView : SameView s after
  after-SameView dev n v _ h = elim h [
    | inl (c, mc, f) ↦ inl (
      c,
      mc,
      at_each s b stored (λ x y. Filled dev n v (s.buf x) → Filled dev n v y)
          (λ g. (g.0, refl, g.2)) (λ _ _ g. g) c f,
    )
    | inr (empty, e) ↦ elim (At-cases dev n (s.buf b)) [
      | inl a ↦ elim (true≢false (sym (i.filled b m d) ∙ empty b m a)) [ ]
      | inr out ↦ inr (
        λ c mc.
            at_each s b stored (λ x y. Member x s.order → At dev n y → y.valid ≡ false)
              (λ _ a. elim (out a) [ ]) (λ x _ mx. empty x mx) c mc,
        written_ne s.disk _ _ _ dev n out ∙ e,
      )
    ]
  ]

-- What `bwrite` promises.
abbrev pub WriteEnsures : ℕ → Cache → Option Cache → Type 0
WriteEnsures b s none = (s.buf b).locked ≡ false
WriteEnsures b s (some s') =
    (s'.disk (s.buf b).dev (s.buf b).blockno ≡ (s.buf b).contents)
    × ((d n : ℕ) → ¬ At d n (s.buf b) → s'.disk d n ≡ s.disk d n)
    × IsCache s'
    × SameView s s'
    × ((s'.buf b).dirty ≡ false)

abbrev marked : ℕ → Cache → Cache
marked b s = set_buf b (record (s.buf b) { dirty = true }) s

-- In a cache as it should be, `bwrite` panics on a buffer that is not locked. It writes the contents of another, which
-- has been filled and is for a device other than 0, to its block on the disk, and changes no other block of a disk,
-- nor what any block holds.
pub bwrite_lem :
    (b : ℕ) (s : Cache)
    → IsCache s
    → Member b s.order
    → (s.buf b).dev ≢ 0
    → (s.buf b).valid ≡ true
    → WriteEnsures b s (bwrite b s)
unfolding bwrite
bwrite_lem b s i m ok v = elim (Bool-cases (s.buf b).locked) [
  | inr l ↦
      let found : bwrite b s ≡ none = rw (bwrite, l) refl in subst (WriteEnsures b s) (sym found) l
  | inl l ↦
      let r : Buf = record (s.buf b) { dirty = true } in
      let s1 : Cache = marked b s in
      let self : s1.buf b ≡ r = update_self s.buf b r in
      let i1 : IsCache s1 =
        set_buf-IsCache s b r i (λ c d k ok mc ne ar ac. ne (i.unique c b d k ok mc m ac ar))
          (λ _. v) (λ _ _ f. elim (true≢false f) [ ]) in
      let d1 : (s1.buf b).dirty ≡ true = ap (λ (x : Buf). x.dirty) self in
      let ok1 : (s1.buf b).dev ≢ 0 = subst (λ (x : Buf). x.dev ≢ 0) (sym self) ok in
      let found : bwrite b s ≡ some (after s1 b i1 m ok1 d1) =
        ap (λ x. if not x then none else some (iderw b (marked b s))) l
        ∙ ap some (iderw_dirty s1 b i1 m ok1 d1) in
      subst (WriteEnsures b s) (sym found) (
        put_here s b r
            (λ y.
              written s.disk y.dev y.blockno y.contents (s.buf b).dev (s.buf b).blockno
              ≡ (s.buf b).contents)
            (written_self s.disk (s.buf b).dev (s.buf b).blockno (s.buf b).contents),
        λ e k out.
            put_here s b r (λ y. written s.disk y.dev y.blockno y.contents e k ≡ s.disk e k)
              (written_ne s.disk (s.buf b).dev (s.buf b).blockno (s.buf b).contents e k out),
        after-IsCache s1 b i1 m ok1 d1,
        λ e k w ne h.
            after-SameView s1 b i1 m ok1 d1 e k w ne
              (view_same s b r (λ _ _ _ f. f) (λ _ _ a. (a, refl)) e k w ne h),
        put_here s1 b (stored s1 b i1 m ok1 d1) (λ (x : Buf). x.dirty ≡ false) refl,
      )
]
