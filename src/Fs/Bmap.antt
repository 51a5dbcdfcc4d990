-- ===== src/Fs/Bmap.antt =====
-- assignment-3/fs.c: `bmap` answers the same block again.
use cs_1217_operating_system.Base.{
  ℕ, ◌+◌, ◌-◌, ◌^◌, ◌≡◌, ◌≢◌, ◌≤◌, ◌<◌, ◌⊎◌, refl, sym, ap, subst, ◌∙◌, Bool, true, false, Option,
  none, some, ltb, if◌then◌else◌, Bool-cases, ℕ_discrete, inl, inr, arith, ltb→le,
}
use mathlib.Core.Bool.{true≢false}
use cs_1217_operating_system.Fs.{Fs, panic, and_then}
use cs_1217_operating_system.Fs.Bytes.{ndirect, nindirect}
use cs_1217_operating_system.Fs.Content.{own_block, indirect, bmap}
use cs_1217_operating_system.Fs.Allocation.{is_free}
use cs_1217_operating_system.Fs.Owned.{
  IsMade, IsFull, OwnEnsures, IndirectEnsures, own_same, own_lem, indirect_lem,
}

-- What `bmap` promises.
abbrev pub BmapEnsures : ℕ → ℕ → Fs → Option (ℕ × Fs) → Type 0
BmapEnsures p bn s none = (ndirect + nindirect ≤ bn) ⊎ IsFull (s.inode p).dev s
BmapEnsures p bn s (some (a, s')) = (a ≢ 0) × (bmap p bn s' ≡ some (a, s'))

module _ (p bn : ℕ) (s : Fs) where
  abbrev pub through : ℕ → Fs → Option (ℕ × Fs)
  through addr x = indirect (x.inode p).dev addr (bn - ndirect) x

  abbrev choosing : Bool → Bool → Option (ℕ × Fs)
  choosing t u =
      (if t
          then own_block p bn
          else if u
          then (λ x. and_then (own_block p ndirect x) through)
          else panic)
        s

  bmap-choosing : bmap p bn s ≡ choosing (ltb bn ndirect) (ltb (bn - ndirect) nindirect)
  unfolding bmap
  bmap-choosing = refl

  pub bmap_direct : ltb bn ndirect ≡ true → bmap p bn s ≡ own_block p bn s
  bmap_direct h = bmap-choosing ∙ ap (λ t. choosing t (ltb (bn - ndirect) nindirect)) h

  pub bmap_deep :
      ltb bn ndirect ≡ false
      → ltb (bn - ndirect) nindirect ≡ true
      → bmap p bn s ≡ and_then (own_block p ndirect s) through
  bmap_deep h k =
      bmap-choosing ∙ ap (λ t. choosing t (ltb (bn - ndirect) nindirect)) h ∙ ap (choosing false) k

  bmap_out : ltb bn ndirect ≡ false → ltb (bn - ndirect) nindirect ≡ false → bmap p bn s ≡ none
  bmap_out h k =
      bmap-choosing ∙ ap (λ t. choosing t (ltb (bn - ndirect) nindirect)) h ∙ ap (choosing false) k

-- A block that is free before and not after the first step is the one that this step took.
was_taken :
    (dev addr c : ℕ) (s s' : Fs)
    → ((x : ℕ) → x < s.sb.size → x ≢ addr → is_free s' dev x ≡ is_free s dev x)
    → c < s.sb.size
    → is_free s dev c ≡ true
    → is_free s' dev c ≡ false
    → c ≡ addr
was_taken dev addr c s s' kept small free used = elim (ℕ_discrete c addr) [
  | yes e ↦ e
  | no ne ↦ absurd (true≢false (sym free ∙ sym (kept c small ne) ∙ used))
]

deep_lem :
    (p bn addr : ℕ) (s s1 : Fs)
    → OwnEnsures p ndirect s (some (addr, s1))
    → s.sb.size < 2 ^ 32
    → ltb bn ndirect ≡ false
    → ltb (bn - ndirect) nindirect ≡ true
    → BmapEnsures p bn s (through p bn s addr s1)
deep_lem p bn addr s s1 (nz, at, same_dev, made, same_sb, kept) words h k =
    go (indirect (s1.inode p).dev addr (bn - ndirect) s1) (
      indirect_lem (s1.inode p).dev addr (bn - ndirect) s1
        (subst (λ d. IsMade d s1) (sym same_dev) made)
        (subst (λ x. x.size < 2 ^ 32) (sym same_sb) words))
  where
    go :
        (r : Option (ℕ × Fs))
        → IndirectEnsures (s1.inode p).dev addr (bn - ndirect) s1 r
        → BmapEnsures p bn s r
    go none used =
        let gone = λ (c : ℕ) (kc : c < s.sb.size) (f : is_free s (s.inode p).dev c ≡ true).
          was_taken (s.inode p).dev addr c s s1 kept kc f (
            ap (λ d. is_free s1 d c) (sym same_dev)
            ∙ used c (subst (λ x. c < x.size) (sym same_sb) kc)) in
        inr (λ c d kc kd fc fd. gone c kc fc ∙ sym (gone d kd fd))
    go (some (a, s2)) (ne, same, again) = (
      ne,
      bmap_deep p bn s2 h k
          ∙ ap (λ r. and_then r (through p bn s2))
              (own_same p ndirect addr s2 (ap (λ f. (f p).addrs ndirect) same ∙ at) nz)
          ∙ ap (λ f. indirect (f p).dev addr (bn - ndirect) s2) same
          ∙ again,
    )

-- If the blocks of the free map and block 0 are in use, and the size of the file system fits in 32 bits, `bmap` answers a
-- block other than 0, and the same one, without a change, when it is asked again, allocated or not at first. It
-- panics only for an index that is out of range, or when at most one block is free.
pub bmap_lem :
    (p bn : ℕ) (s : Fs)
    → IsMade (s.inode p).dev s
    → s.sb.size < 2 ^ 32
    → BmapEnsures p bn s (bmap p bn s)
bmap_lem p bn s made words = elim (Bool-cases (ltb bn ndirect)) [
  | inl h ↦
      subst (BmapEnsures p bn s) (sym (bmap_direct p bn s h))
        (direct (own_block p bn s) h (own_lem p bn s made))
  | inr h ↦ elim (Bool-cases (ltb (bn - ndirect) nindirect)) [
    | inr k ↦
        let out : nindirect ≤ bn - ndirect = ltb→le _ _ k in
        subst (BmapEnsures p bn s) (sym (bmap_out p bn s h k)) (inl (omega (arith, out)))
    | inl k ↦
        subst (BmapEnsures p bn s) (sym (bmap_deep p bn s h k))
          (deep (own_block p ndirect s) h k (own_lem p ndirect s made))
  ]
]
  where
    full :
        ((c : ℕ) → c < s.sb.size → is_free s (s.inode p).dev c ≡ false) → IsFull (s.inode p).dev s
    full used c d kc kd fc fd = absurd (true≢false (sym fc ∙ used c kc))

    direct :
        (r : Option (ℕ × Fs)) → ltb bn ndirect ≡ true → OwnEnsures p bn s r → BmapEnsures p bn s r
    direct none h used = inr (full used)
    direct (some (a, s')) h (ne, at, _, _, _, _) =
        (ne, bmap_direct p bn s' h ∙ own_same p bn a s' at ne)

    deep :
        (r : Option (ℕ × Fs))
        → ltb bn ndirect ≡ false
        → ltb (bn - ndirect) nindirect ≡ true
        → OwnEnsures p ndirect s r
        → BmapEnsures p bn s (and_then r (through p bn s))
    deep none h k used = inr (full used)
    deep (some (addr, s1)) h k own = deep_lem p bn addr s s1 own words h k
