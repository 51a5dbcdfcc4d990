-- ===== src/Fs/Extent/Find.antt =====
-- assignment-3/fs.c: `bmap` on an inode that owns its blocks.
use cs_1217_operating_system.Base.{
  ℕ, update, ◌+◌, ◌-◌, ◌*◌, ◌≡◌, ◌≢◌, ◌<◌, ◌≤◌, refl, sym, ap, subst, ◌∙◌, true, Option, some,
  lt→ltb, dec_lt, ℕ_discrete, inl, inr, arith,
}
use cs_1217_operating_system.Fs.{Fs, and_then, set_inode, set_block}
use cs_1217_operating_system.Fs.Bytes.{get32, put32}
use cs_1217_operating_system.Fs.Blocks.{balloc}
use cs_1217_operating_system.Fs.Content.{own_block, indirect, bmap}
use cs_1217_operating_system.Fs.Allocation.{is_free, allocated, balloc-cases}
use cs_1217_operating_system.Fs.Owned.{own_new, own_found, indirect_found, indirect_after}
use cs_1217_operating_system.Fs.Bmap.{bmap_direct, bmap_deep, through}
use cs_1217_operating_system.Fs.Extent.{
  indirect_at, home_of_last, home_of_listed, home_of_direct, home_of_none,
}
use cs_1217_operating_system.Base.Counting.{tally-none}
use cs_1217_operating_system.Fs.Extent.Supply.{supply}
use cs_1217_operating_system.Fs.Extent.Growth.{
  home, IsFile, IsReserved, SameInode, Grown, Grown-IsReserved, home_at, home_ne, nonzero,
  Grown-IsFile, Grown-supply,
}
use cs_1217_operating_system.Fs.Extent.Steps.{
  assigned, listed, direct-Grown, indirect-Grown, listed-Grown,
}

module _ (dev p : ℕ) where
  -- Blocks may have been added to the inode, at most `m` of them; those that it had are as they were.
  pub record Kept (m : ℕ) (s s' : Fs) : Type 0 where
    pub homes : (k : ℕ) → k ≤ indirect_at → home dev p s k ≢ 0 → home dev p s' k ≡ home dev p s k
    pub contents :
        (k : ℕ)
        → k < indirect_at
        → home dev p s k ≢ 0
        → s'.block dev (home dev p s k) ≡ s.block dev (home dev p s k)
    pub same_sb : s'.sb ≡ s.sb
    pub same_inode : SameInode dev p s s'
    pub reserved : (b : ℕ) → IsReserved dev p b s → IsReserved dev p b s'
    pub frame : (b : ℕ) → IsReserved dev p b s → s'.block dev b ≡ s.block dev b
    pub cost : supply dev s ≤ supply dev s' + m

  pub SameInode-trans :
      (s s' s'' : Fs) → SameInode dev p s s' → SameInode dev p s' s'' → SameInode dev p s s''
  SameInode-trans s s' s'' a b = record {
    same_dev = b.same_dev ∙ a.same_dev;
    same_inum = b.same_inum ∙ a.same_inum;
    same_type = b.same_type ∙ a.same_type;
    same_size = b.same_size ∙ a.same_size;
  }

  pub Kept-refl : (m : ℕ) (s : Fs) → Kept m s s
  Kept-refl m s = record {
    homes = λ k h ne. refl;
    contents = λ k h ne. refl;
    same_sb = refl;
    same_inode = record { same_dev = refl; same_inum = refl; same_type = refl; same_size = refl };
    reserved = λ b r. r;
    frame = λ b r. refl;
    cost = omega arith;
  }

  pub Kept-trans : (m n : ℕ) (s s' s'' : Fs) → Kept m s s' → Kept n s' s'' → Kept (m + n) s s''
  Kept-trans m n s s' s'' a b = record {
    homes = λ k h ne. b.homes k h (λ z. ne (sym (a.homes k h ne) ∙ z)) ∙ a.homes k h ne;
    contents = λ k h ne.
        let e = a.homes k (omega arith) ne in
        subst (λ x. s''.block dev x ≡ s'.block dev x) e (b.contents k h (λ z. ne (sym e ∙ z)))
        ∙ a.contents k h ne;
    same_sb = b.same_sb ∙ a.same_sb;
    same_inode = SameInode-trans s s' s'' a.same_inode b.same_inode;
    reserved = λ x r. b.reserved x (a.reserved x r);
    frame = λ x r. b.frame x (a.reserved x r) ∙ a.frame x r;
    cost = omega (arith, a.cost, b.cost);
  }

  Grown-Kept : (at n : ℕ) (s s' : Fs) → IsFile dev p s → Grown dev p at n s s' → Kept 1 s s'
  Grown-Kept at n s s' f g = record {
    homes = λ k h ne. home_ne dev p at n s s' f g k h (λ e. ne (ap (home dev p s) e ∙ g.empty));
    contents = g.contents;
    same_sb = g.same_sb;
    same_inode = g.same_inode;
    reserved = Grown-IsReserved dev p at n s s' f g;
    frame = g.frame;
    cost = omega (arith, Grown-supply dev p at n s s' f g);
  }

  -- A call answers the block at place `at`, which has been added if there was none.
  abbrev pub Finds : ℕ → ℕ → Fs → Option (ℕ × Fs) → Type 0
  Finds m at s r =
      (s' : Fs) × (r ≡ some (home dev p s' at, s'))
      × IsFile dev p s'
      × (home dev p s' at ≢ 0)
      × Kept m s s'

  Grown-Finds :
      (at n : ℕ) (s s' : Fs) (r : Option (ℕ × Fs))
      → at ≤ indirect_at
      → IsFile dev p s
      → Grown dev p at n s s'
      → r ≡ some (n, s')
      → Finds 1 at s r
  Grown-Finds at n s s' r h f g e =
      let same = home_at dev p at n s s' f g at h refl in
      let ne = nonzero dev p at n s s' f g in
      (
        s',
        e ∙ ap (λ x. some (x, s')) (sym same),
        Grown-IsFile dev p at n s s' f g,
        λ z. ne (sym same ∙ z),
        Grown-Kept at n s s' f g,
      )

  -- A free block is found while there is one.
  takes :
      (s : Fs)
      → IsFile dev p s
      → 1 ≤ supply dev s
      → (n : ℕ) × (balloc dev s ≡ some (n, allocated dev n s))
        × (n < s.sb.size)
        × (is_free s dev n ≡ true)
  takes s f some_ = elim (balloc-cases dev s) [
    | inr h ↦ h
    | inl (e, out) ↦ let zero_ = tally-none (is_free s dev) s.sb.size out in absurd (omega arith)
  ]

  own_at :
      (i n : ℕ) (s : Fs) (f : IsFile dev p s) (small : n < s.sb.size)
      (free : is_free s dev n ≡ true)
      → (s.inode p).addrs i ≡ 0
      → balloc dev s ≡ some (n, allocated dev n s)
      → own_block p i s ≡ some (n, assigned dev p n s f small free i)
  own_at i n s f small free z =
      subst
        (λ d.
          balloc d s ≡ some (n, allocated d n s)
          → own_block p i s
            ≡ some (
              n,
              set_inode p (record (s.inode p) { addrs = update (s.inode p).addrs i n })
                  (allocated d n s),
            ))
        f.on (own_new p i s n z)

  Finds-here :
      (m at : ℕ) (s : Fs) (r : Option (ℕ × Fs))
      → IsFile dev p s
      → home dev p s at ≢ 0
      → r ≡ some (home dev p s at, s)
      → Finds m at s r
  Finds-here m at s r f ne e = (s, e, f, ne, Kept-refl m s)

  own_direct :
      (i : ℕ) (s : Fs) → i < 12 → IsFile dev p s → 1 ≤ supply dev s → Finds 1 i s (own_block p i s)
  own_direct i s lt f some_ =
      let e = home_of_direct (s.inode p).addrs (s.block dev) i lt in
      elim (ℕ_discrete ((s.inode p).addrs i) 0) [
        | no ne ↦
            Finds-here 1 i s (own_block p i s) f (λ z. ne (sym e ∙ z))
              (own_found p i s ne ∙ ap (λ x. some (x, s)) (sym e))
        | yes z ↦
            let (n, run, small, free) = takes s f some_ in
            Grown-Finds i n s (assigned dev p n s f small free i) (own_block p i s) (omega arith) f
              (direct-Grown dev p n s f small free i lt (e ∙ z)) (own_at i n s f small free z run)
      ]

  own_last : (s : Fs) → IsFile dev p s → 1 ≤ supply dev s → Finds 1 indirect_at s (own_block p 12 s)
  own_last s f some_ =
      let e = home_of_last (s.inode p).addrs (s.block dev) in
      elim (ℕ_discrete ((s.inode p).addrs 12) 0) [
        | no ne ↦
            Finds-here 1 indirect_at s (own_block p 12 s) f (λ z. ne (sym e ∙ z))
              (own_found p 12 s ne ∙ ap (λ x. some (x, s)) (sym e))
        | yes z ↦
            let (n, run, small, free) = takes s f some_ in
            Grown-Finds indirect_at n s (assigned dev p n s f small free 12) (own_block p 12 s)
              (omega arith) f (indirect-Grown dev p n s f small free z)
              (own_at 12 n s f small free z run)
      ]

  listed_lem :
      (e : ℕ) (s : Fs)
      → e < 128
      → IsFile dev p s
      → (s.inode p).addrs 12 ≢ 0
      → 1 ≤ supply dev s
      → Finds 1 (e + 12) s (indirect dev ((s.inode p).addrs 12) e s)
  listed_lem e s lt f ne some_ =
      let addr : ℕ = (s.inode p).addrs 12 in
      let entry : ℕ = get32 (s.block dev addr) (4 * e) in
      let h = home_of_listed (s.inode p).addrs (s.block dev) e lt ne in
      elim (ℕ_discrete entry 0) [
        | no nz ↦
            Finds-here 1 (e + 12) s (indirect dev addr e s) f (λ z. nz (sym h ∙ z))
              (indirect_found dev addr e s nz ∙ ap (λ x. some (x, s)) (sym h))
        | yes z ↦
            let (n, run, small, free) = takes s f some_ in
            Grown-Finds (e + 12) n s (listed dev p n s f small free e) (indirect dev addr e s)
              (omega arith) f (listed-Grown dev p n s f small free e lt ne (h ∙ z))
              (indirect_after dev addr e s z
                ∙ ap
                    (λ r.
                      and_then r (λ x y.
                        some (x, set_block dev addr (put32 (s.block dev addr) (4 * e) x) y)))
                    run)
      ]

  -- `bmap` answers the block at the place that it is asked for, which is then the inode's, if two blocks are free.
  pub bmap-Finds :
      (k : ℕ) (s : Fs)
      → k < indirect_at
      → IsFile dev p s
      → 2 ≤ supply dev s
      → Finds 2 k s (bmap p k s)
  bmap-Finds k s lt f some_ = elim (dec_lt k 12) [
    | yes low ↦
        let (s', e, f', ne, kept) = own_direct k s low f (omega arith) in
        (
          s',
          bmap_direct p k s (lt→ltb _ _ low) ∙ e,
          f',
          ne,
          Kept-trans 1 1 s s' s' kept (Kept-refl 1 s'),
        )
    | no high ↦
        let (s1, e1, f1, ne1, kept1) = own_last s f (omega arith) in
        let last = home_of_last (s1.inode p).addrs (s1.block dev) in
        let back : k - 12 + 12 ≡ k = omega arith in
        let (s2, e2, f2, ne2, kept2) =
          listed_lem (k - 12) s1 (omega arith) f1 (λ z. ne1 (last ∙ z))
            (omega (arith, kept1.cost)) in
        (
          s2,
          bmap_deep p k s (ground arith) (ground arith)
              ∙ ap (λ r. and_then r (through p k s)) (e1 ∙ ap (λ x. some (x, s1)) last)
              ∙ ap (λ d. indirect d ((s1.inode p).addrs 12) (k - 12) s1) f1.on
              ∙ e2
              ∙ ap (λ x. some (home dev p s2 x, s2)) back,
          f2,
          subst (λ x. home dev p s2 x ≢ 0) back ne2,
          Kept-trans 1 1 s s1 s2 kept1 kept2,
        )
  ]

  -- A block that is there is answered without a change.
  pub bmap_has :
      (k : ℕ) (s : Fs)
      → k < indirect_at
      → IsFile dev p s
      → home dev p s k ≢ 0
      → bmap p k s ≡ some (home dev p s k, s)
  bmap_has k s lt f ne = elim (dec_lt k 12) [
    | yes low ↦
        let e = home_of_direct (s.inode p).addrs (s.block dev) k low in
        bmap_direct p k s (lt→ltb _ _ low)
        ∙ own_found p k s (λ z. ne (e ∙ z))
        ∙ ap (λ x. some (x, s)) (sym e)
    | no high ↦
        let addrs : ℕ → ℕ = (s.inode p).addrs in
        let back : k - 12 + 12 ≡ k = omega arith in
        let nz : addrs 12 ≢ 0 = (λ z. ne (
          sym (ap (home dev p s) back)
          ∙ home_of_none addrs (s.block dev) (k - 12) (omega arith) z)) in
        let e =
          sym (ap (home dev p s) back)
          ∙ home_of_listed addrs (s.block dev) (k - 12) (omega arith) nz in
        bmap_deep p k s (ground arith) (ground arith)
        ∙ ap (λ r. and_then r (through p k s)) (own_found p 12 s nz)
        ∙ ap (λ d. indirect d (addrs 12) (k - 12) s) f.on
        ∙ indirect_found dev (addrs 12) (k - 12) s (λ z. ne (e ∙ z))
        ∙ ap (λ x. some (x, s)) (sym e)
  ]
