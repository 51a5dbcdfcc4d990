-- ===== src/Bio/View.antt =====
-- assignment-3/bio.c: what a block holds, as the users of the cache see it, and changes to one buffer.
use cs_1217_operating_system.Base.{
  ℕ, ◌≡◌, ◌≢◌, ◌⊎◌, ◌↔◌, refl, sym, subst, ◌∙◌, true, false, update, update_self, update_ne, Member,
  ℕ_discrete, inl, inr, arith,
}
use mathlib.Core.Bool.{true≢false}
use cs_1217_operating_system.Bio.{Block, Buf, Cache, set_buf, holds, binit}

-- The buffer is for this block.
abbrev pub At : ℕ → ℕ → Buf → Type 0
At dev n r = (r.dev ≡ dev) × (r.blockno ≡ n)

pub holds_iff : (dev n : ℕ) (r : Buf) → (holds dev n r ≡ true) ↔ At dev n r
holds_iff dev n r = ground arith

pub At-cases : (dev n : ℕ) (r : Buf) → At dev n r ⊎ (¬ At dev n r)
At-cases dev n r = elim (ℕ_discrete r.dev dev) [
  | no ne ↦ inr (λ a. ne a.0)
  | yes e ↦ elim (ℕ_discrete r.blockno n) [ yes f ↦ inl (e, f) | no ne ↦ inr (λ a. ne a.1) ]
]

-- No block is in two buffers; a buffer with changes has been filled; and one without changes that nobody
-- uses is as its block on the disk. Device 0 stands for none: every buffer starts with it.
pub record IsCache (s : Cache) : Type 0 where
  pub unique :
      (b c dev n : ℕ)
      → dev ≢ 0
      → Member b s.order
      → Member c s.order
      → At dev n (s.buf b)
      → At dev n (s.buf c)
      → b ≡ c
  pub filled : (b : ℕ) → Member b s.order → (s.buf b).dirty ≡ true → (s.buf b).valid ≡ true
  pub clean :
      (b : ℕ)
      → Member b s.order
      → (s.buf b).refcnt ≡ 0
      → (s.buf b).valid ≡ true
      → (s.buf b).dirty ≡ false
      → (s.buf b).contents ≡ s.disk (s.buf b).dev (s.buf b).blockno

-- The buffer has the contents `v` of the block.
abbrev pub Filled : ℕ → ℕ → Block → Buf → Type 0
Filled dev n v r = At dev n r × (r.valid ≡ true) × (r.contents ≡ v)

-- The block holds `v`: in a buffer that has been filled, or on the disk when there is none.
abbrev pub Holds : Cache → ℕ → ℕ → Block → Type 0
Holds s dev n v =
    ((b : ℕ) × Member b s.order × Filled dev n v (s.buf b))
    ⊎ (((b : ℕ) → Member b s.order → At dev n (s.buf b) → (s.buf b).valid ≡ false)
        × (s.disk dev n ≡ v))

-- Every block holds what it held.
abbrev pub SameView : Cache → Cache → Type 0
SameView s s' = (dev n : ℕ) (v : Block) → dev ≢ 0 → Holds s dev n v → Holds s' dev n v

agreed :
    (s : Cache) (y : Buf) (dev n : ℕ) (v : Block)
    → Filled dev n v y
    → y.contents ≡ s.disk y.dev y.blockno
    → s.disk dev n ≡ v
agreed s y dev n v ((a, c), _, h) e = cc

fresh :
    (s : Cache) (y : Buf) (dev n : ℕ) (v : Block)
    → At dev n y
    → s.disk dev n ≡ v
    → y.contents ≡ s.disk y.dev y.blockno
    → y.contents ≡ v
fresh s y dev n v (a, c) e h = cc

module _ (s : Cache) (b : ℕ) (r : Buf) where
  -- What holds of the new buffer at `b` and of the old ones elsewhere holds of each buffer.
  pub at_each :
      (P : ℕ → Buf → Type 0)
      → P b r
      → ((c : ℕ) → c ≢ b → P c (s.buf c))
      → (c : ℕ) → P c (update s.buf b r c)
  at_each P here there c = elim (ℕ_discrete c b) [
    | yes e ↦
        subst (λ x. P x (update s.buf b r x)) (sym e)
          (subst (P b) (sym (update_self s.buf b r)) here)
    | no ne ↦ subst (P c) (sym (update_ne s.buf b c r (λ e. ne (sym e)))) (there c ne)
  ]

  -- What the two kinds of buffers are afterwards.
  pub here : (P : Buf → Type 0) (c : ℕ) → c ≡ b → P (update s.buf b r c) → P r
  here P c e h = subst P (update_self s.buf b r) (subst (λ x. P (update s.buf b r x)) e h)

  pub put_here : (P : Buf → Type 0) → P r → P (update s.buf b r b)
  put_here P h = subst P (sym (update_self s.buf b r)) h

  pub there : (P : Buf → Type 0) (c : ℕ) → c ≢ b → P (update s.buf b r c) → P (s.buf c)
  there P c ne h = subst P (update_ne s.buf b c r (λ e. ne (sym e))) h

  pub set_buf_unique :
      IsCache s
      → ((c dev n : ℕ) → dev ≢ 0 → Member c s.order → c ≢ b → At dev n r → ¬ At dev n (s.buf c))
      → (c d dev n : ℕ) → dev ≢ 0
      → Member c s.order
      → Member d s.order
      → At dev n (update s.buf b r c)
      → At dev n (update s.buf b r d)
      → c ≡ d
  set_buf_unique i apart c d dev n ok mc md ac ad = elim (ℕ_discrete c b) [
    | yes e ↦ elim (ℕ_discrete d b) [
      | yes f ↦ e ∙ sym f
      | no ne ↦
          elim (apart d dev n ok md ne (here (At dev n) c e ac) (there (At dev n) d ne ad)) [ ]
    ]
    | no nc ↦ elim (ℕ_discrete d b) [
      | yes f ↦
          elim (apart c dev n ok mc nc (here (At dev n) d f ad) (there (At dev n) c nc ac)) [ ]
      | no nd ↦ i.unique c d dev n ok mc md (there (At dev n) c nc ac) (there (At dev n) d nd ad)
    ]
  ]

  -- The invariant, once the new buffer meets it.
  pub set_buf-IsCache :
      IsCache s
      → ((c dev n : ℕ) → dev ≢ 0 → Member c s.order → c ≢ b → At dev n r → ¬ At dev n (s.buf c))
      → (r.dirty ≡ true → r.valid ≡ true)
      → (r.refcnt ≡ 0 → r.valid ≡ true → r.dirty ≡ false → r.contents ≡ s.disk r.dev r.blockno)
      → IsCache (set_buf b r s)
  set_buf-IsCache i apart filled clean = record {
    unique = set_buf_unique i apart;
    filled = λ c m.
        at_each (λ x y. Member x s.order → y.dirty ≡ true → y.valid ≡ true) (λ _. filled)
          (λ c ne mc. i.filled c mc) c m;
    clean = λ c m.
        at_each
          (λ x y.
            Member x s.order
            → y.refcnt ≡ 0
            → y.valid ≡ true
            → y.dirty ≡ false
            → y.contents ≡ s.disk y.dev y.blockno)
          (λ _. clean) (λ c ne mc. i.clean c mc) c m;
  }

  -- A buffer whose block, validity and contents stay.
  pub view_same :
      ((dev n : ℕ) (v : Block) → Filled dev n v (s.buf b) → Filled dev n v r)
      → ((dev n : ℕ) → At dev n r → At dev n (s.buf b) × (r.valid ≡ (s.buf b).valid))
      → SameView s (set_buf b r s)
  view_same keep back dev n v ok h = elim h [
    | inl (c, m, f) ↦ inl (
      c,
      m,
      at_each (λ x y. Filled dev n v (s.buf x) → Filled dev n v y) (keep dev n v) (λ _ _ g. g) c f,
    )
    | inr (empty, e) ↦ inr (
      λ c m.
          at_each (λ x y. Member x s.order → At dev n y → y.valid ≡ false)
            (λ mb a. (back dev n a).1 ∙ empty b mb (back dev n a).0) (λ x _ mx. empty x mx) c m,
      e,
    )
  ]

  -- A buffer that is emptied while it agrees with the disk.
  pub view_emptied :
      IsCache s
      → Member b s.order
      → r.valid ≡ false
      → ((s.buf b).valid ≡ true → (s.buf b).contents ≡ s.disk (s.buf b).dev (s.buf b).blockno)
      → SameView s (set_buf b r s)
  view_emptied i mb invalid agrees dev n v ok h = elim h [
    | inl (c, m, f) ↦ elim (ℕ_discrete c b) [
      | yes e ↦
          let g : Filled dev n v (s.buf b) = subst (λ y. Filled dev n v (s.buf y)) e f in
          inr (
            λ d md.
                at_each (λ x y. Member x s.order → At dev n y → y.valid ≡ false) (λ _ _. invalid)
                  (λ x ne mx ax. elim (ne (i.unique x b dev n ok mx mb ax g.0)) [ ]) d md,
            agreed s (s.buf b) dev n v g (agrees g.1),
          )
      | no ne ↦ inl (c, m, subst (Filled dev n v) (sym (update_ne s.buf b c r (λ e. ne (sym e)))) f)
    ]
    | inr (empty, e) ↦ inr (
      λ d md.
          at_each (λ x y. Member x s.order → At dev n y → y.valid ≡ false) (λ _ _. invalid)
            (λ x _ mx. empty x mx) d md,
      e,
    )
  ]

  -- An empty buffer that is filled from the disk.
  pub view_filled :
      IsCache s
      → Member b s.order
      → (s.buf b).valid ≡ false
      → r.valid ≡ true
      → r.dev ≡ (s.buf b).dev
      → r.blockno ≡ (s.buf b).blockno
      → r.contents ≡ s.disk r.dev r.blockno
      → SameView s (set_buf b r s)
  view_filled i mb invalid valid sd sb e dev n v ok h = elim h [
    | inl (c, m, f) ↦ inl (
      c,
      m,
      at_each (λ x y. Filled dev n v (s.buf x) → Filled dev n v y)
          (λ g. elim (true≢false (sym g.1 ∙ invalid)) [ ]) (λ _ _ g. g) c f,
    )
    | inr (empty, on_disk) ↦ elim (At-cases dev n (s.buf b)) [
      | inl a ↦ inl (
        b,
        mb,
        at_each (λ x y. x ≡ b → Filled dev n v y)
            (λ _. ((sd ∙ a.0, sb ∙ a.1), valid, fresh s r dev n v (sd ∙ a.0, sb ∙ a.1) on_disk e))
            (λ x ne same. elim (ne same) [ ]) b refl,
      )
      | inr out ↦ inr (
        λ d md.
            at_each (λ x y. Member x s.order → At dev n y → y.valid ≡ false)
              (λ _ a. elim (out (sym sd ∙ a.0, sym sb ∙ a.1)) [ ]) (λ x _ mx. empty x mx) d md,
        on_disk,
      )
    ]
  ]

-- The cache that `binit` makes of empty buffers is as it should be.
pub binit-IsCache :
    (buf : ℕ → Buf) (disk : ℕ → ℕ → Block)
    → ((b : ℕ) → ((buf b).dev ≡ 0) × ((buf b).valid ≡ false) × ((buf b).dirty ≡ false))
    → IsCache (binit buf disk)
unfolding binit
binit-IsCache buf disk empty = record {
  unique = λ c d dev n ok mc md ac ad. elim (ok (sym ac.0 ∙ (empty c).0)) [ ];
  filled = λ c m e. elim (true≢false (sym e ∙ (empty c).2)) [ ];
  clean = λ c m z v. elim (true≢false (sym v ∙ (empty c).1)) [ ];
}
