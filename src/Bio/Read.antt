-- ===== src/Bio/Read.antt =====
-- assignment-3/bio.c: what `bread` answers.
use cs_1217_operating_system.Base.{
  ℕ, ◌≡◌, ◌≢◌, refl, sym, subst, ◌∙◌, Bool, true, false, ◌&&◌, Option, none, some, update_ne,
  Member, Bool-cases, Option-cases, inl, inr, arith,
}
use mathlib.Core.Bool.{true≢false}
use cs_1217_operating_system.Bio.{
  Block, Buf, Cache, set_buf, holds, first, is_idle, bget, iderw, fill, bread,
}
use cs_1217_operating_system.Bio.View.{
  At, put_here, IsCache, Filled, Holds, SameView, set_buf-IsCache, view_filled,
}
use cs_1217_operating_system.Bio.Get.{
  IsGot, NotCached, IsFew, GetEnsures, bget_lem, first_some, first_none,
}

-- A block that is in no filled buffer is on the disk.
Holds-total : (s : Cache) (dev n : ℕ) → (v : Block) × Holds s dev n v
Holds-total s dev n = elim (Option-cases (first full s.buf s.order)) [
  | inr (b, e) ↦
      let (m, h) = first_some full s.buf s.order b e in
      let (a, v) = full_iff (s.buf b) h in ((s.buf b).contents, inl (b, m, (a, v, refl)))
  | inl e ↦ (
    s.disk dev n,
    inr (λ c m a. not_full (s.buf c) a (first_none full s.buf s.order e c m), refl),
  )
]
  where
    full : Buf → Bool
    full r = holds dev n r && r.valid

    full_iff : (r : Buf) → full r ≡ true → At dev n r × (r.valid ≡ true)
    full_iff r h = ground arith

    not_full : (r : Buf) → At dev n r → full r ≡ false → r.valid ≡ false
    not_full r a h = ground arith

-- A filled buffer has what its block holds.
pub Holds-Filled :
    (s : Cache) (b dev n : ℕ) (v : Block)
    → IsCache s
    → dev ≢ 0
    → Member b s.order
    → At dev n (s.buf b)
    → (s.buf b).valid ≡ true
    → Holds s dev n v
    → Filled dev n v (s.buf b)
Holds-Filled s b dev n v i ok m a f h = elim h [
  | inl (c, mc, g) ↦ subst (λ x. Filled dev n v (s.buf x)) (i.unique c b dev n ok mc m g.0 a) g
  | inr (empty, _) ↦ elim (true≢false (sym f ∙ empty b m a)) [ ]
]

-- What `bread` promises: a locked buffer with what the block holds, in a cache as it should be.
abbrev pub ReadEnsures : ℕ → ℕ → Cache → Option (ℕ × Cache) → Type 0
ReadEnsures dev n s none =
    NotCached dev n s × ((c : ℕ) → Member c s.order → is_idle (s.buf c) ≡ false)
ReadEnsures dev n s (some (b, s')) =
    ((v : Block) × Holds s dev n v × Filled dev n v (s'.buf b))
    × Member b s'.order
    × ((s'.buf b).locked ≡ true)
    × IsCache s'
    × SameView s s'

abbrev loaded : ℕ → Cache → Buf
loaded b s = record (s.buf b) { valid = true; contents = s.disk (s.buf b).dev (s.buf b).blockno }

-- Filling the buffer that `bget` has found keeps what `bget` promises.
loaded-IsGot :
    (dev n b : ℕ) (s s' : Cache)
    → IsGot dev n s b s'
    → (s'.buf b).valid ≡ false
    → IsGot dev n s b (set_buf b (loaded b s') s')
loaded-IsGot dev n b s s' g f =
    let r = loaded b s' in
    record {
      member = g.member;
      at = put_here s' b r (At dev n) g.at;
      held = (
        put_here s' b r (λ x. x.locked ≡ true) g.held.0,
        put_here s' b r (λ x. x.refcnt ≢ 0) g.held.1,
      );
      same_order = g.same_order;
      same_disk = g.same_disk;
      others = λ c ne. update_ne s'.buf b c r (λ e. ne (sym e)) ∙ g.others c ne;
      cache =
          set_buf-IsCache s' b r g.cache
            (λ c d k ok mc ne ar ac. ne (g.cache.unique c b d k ok mc g.member ac ar)) (λ _. refl)
            (λ _ _ _. refl);
      view = λ d k v ok h.
          view_filled s' b r g.cache g.member f refl refl refl refl d k v ok (g.view d k v ok h);
    }

full :
    (dev n b : ℕ) (s s' : Cache)
    → dev ≢ 0
    → IsGot dev n s b s'
    → (s'.buf b).valid ≡ true
    → ReadEnsures dev n s (some (b, s'))
full dev n b s s' ok g f =
    let (v, h) = Holds-total s dev n in
    (
      (v, h, Holds-Filled s' b dev n v g.cache ok g.member g.at f (g.view dev n v ok h)),
      g.member,
      g.held.0,
      g.cache,
      g.view,
    )

fill_lem :
    (dev n b : ℕ) (s s' : Cache) → dev ≢ 0 → IsGot dev n s b s' → ReadEnsures dev n s (fill (b, s'))
unfolding fill iderw
fill_lem dev n b s s' ok g = elim (Bool-cases (s'.buf b).valid) [
  | inl f ↦
      let found : fill (b, s') ≡ some (b, s') = rw (fill, f) refl in
      subst (ReadEnsures dev n s) (sym found) (full dev n b s s' ok g f)
  | inr f ↦
      let clean : (s'.buf b).dirty ≡ false = elim (Bool-cases (s'.buf b).dirty) [
        | inl d ↦ elim (true≢false (sym (g.cache.filled b g.member d) ∙ f)) [ ]
        | inr d ↦ d
      ] in
      let found : fill (b, s') ≡ some (b, set_buf b (loaded b s') s') =
        rw (fill, f, iderw, clean) refl in
      subst (ReadEnsures dev n s) (sym found) (
        full dev n b s (set_buf b (loaded b s') s') ok (loaded-IsGot dev n b s s' g f)
          (put_here s' b (loaded b s') (λ x. x.valid ≡ true) refl))
]

-- In a cache as it should be, with room for one more reference to each buffer, and for a device other than 0, `bread`
-- answers a locked buffer that holds what the block holds, and no block changes; it panics only when the block is not
-- cached and every buffer is in use or has changes.
pub bread_lem :
    (dev n : ℕ) (s : Cache) → dev ≢ 0 → IsFew s → IsCache s → ReadEnsures dev n s (bread dev n s)
unfolding bread
bread_lem dev n s ok few i = elim (Option-cases (bget dev n s)) [
  | inl e ↦
      let found : bread dev n s ≡ none = rw (bread, e) refl in
      subst (ReadEnsures dev n s) (sym found)
        (subst (GetEnsures dev n s) e (bget_lem dev n s few i))
  | inr ((b, s'), e) ↦
      let found : bread dev n s ≡ fill (b, s') = rw (bread, e) refl in
      let h : GetEnsures dev n s (some (b, s')) =
        subst (GetEnsures dev n s) e (bget_lem dev n s few i) in
      subst (ReadEnsures dev n s) (sym found) (fill_lem dev n b s s' ok h.0)
]
