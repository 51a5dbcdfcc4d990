-- ===== src/Fs/Extent/Steps.antt =====
-- assignment-3/fs.c: the three places where `bmap` stores a new block.
use cs_1217_operating_system.Base.{
  ℕ, ◌+◌, ◌*◌, ◌%◌, ◌≡◌, ◌≢◌, ◌<◌, ◌≤◌, refl, sym, ap, subst, ◌∙◌, true, ◌==◌, if◌then◌else◌,
  update, update_self, arith,
}
use mathlib.Core.Bool.{true≢false}
use cs_1217_operating_system.Fs.{Fs, Inode, set_inode, set_block}
use cs_1217_operating_system.Fs.Bytes.{Bytes, bblock, put32}
use cs_1217_operating_system.Fs.Blocks.{is_clear}
use cs_1217_operating_system.Fs.Allocation.{is_free, allocated, allocated_lem, block_ne}
use cs_1217_operating_system.Fs.Extent.{
  home_of, indirect_at, home_of-direct, home_of-indirect, home_of-entry, home_of-same, home_of_last,
}
use cs_1217_operating_system.Fs.Extent.Growth.{home, IsFile, IsReserved, SameInode, Grown}

module _ (dev p n : ℕ) (s : Fs) (f : IsFile dev p s) (small : n < s.sb.size)
    (free : is_free s dev n ≡ true) where
  abbrev addrs : ℕ → ℕ
  addrs = (s.inode p).addrs

  abbrev given : Fs
  given = allocated dev n s

  -- The new block is not one that the inode has, and neither is its block of the map.
  given_keeps :
      (k : ℕ)
      → k ≤ indirect_at
      → home dev p s k ≢ 0
      → given.block dev (home dev p s k) ≡ s.block dev (home dev p s k)
  given_keeps k h ne =
      (allocated_lem dev n s f.made.apart small free).5 (home dev p s k)
        (λ e. true≢false (sym free ∙ ap (is_free s dev) (sym e) ∙ f.used k h ne))
        (λ e. f.off_map k n h ne small (sym e))

  -- A block that is reserved is not the new one either.
  given_frame : (b : ℕ) → IsReserved dev p b s → given.block dev b ≡ s.block dev b
  given_frame b r =
      (allocated_lem dev n s f.made.apart small free).5 b
        (λ e. true≢false (sym free ∙ ap (is_free s dev) (sym e) ∙ r.used))
        (λ e. r.off_map n small (sym e))

  list_kept : addrs 12 ≢ 0 → given.block dev (addrs 12) ≡ s.block dev (addrs 12)
  list_kept ne =
      let e = home_of_last addrs (s.block dev) in
      subst (λ b. given.block dev b ≡ s.block dev b) e
        (given_keeps indirect_at (omega arith) (λ z. ne (sym e ∙ z)))

  abbrev entered : ℕ → Inode
  entered i = record (s.inode p) { addrs = update addrs i n }

  -- `addrs[i]` gets the block.
  abbrev pub assigned : ℕ → Fs
  assigned i = set_inode p (entered i) given

  assigned_self : (i : ℕ) → (assigned i).inode p ≡ entered i
  assigned_self i = update_self s.inode p (entered i)

  assigned_homes :
      (i k : ℕ) → home dev p (assigned i) k ≡ home_of (update addrs i n) (given.block dev) k
  assigned_homes i k = ap (λ (x : Inode). home_of x.addrs (given.block dev) k) (assigned_self i)

  assigned-SameInode : (i : ℕ) → SameInode dev p s (assigned i)
  assigned-SameInode i = record {
    same_dev = ap (λ (x : Inode). x.dev) (assigned_self i);
    same_inum = ap (λ (x : Inode). x.inum) (assigned_self i);
    same_type = ap (λ (x : Inode). x.type_) (assigned_self i);
    same_size = ap (λ (x : Inode). x.size) (assigned_self i);
  }

  assigned-Grown :
      (i at : ℕ)
      → home dev p s at ≡ 0
      → ((k : ℕ)
          → k ≤ indirect_at
          → home_of (update addrs i n) (given.block dev) k
            ≡ (if k == at then n else home_of addrs (given.block dev) k))
      → Grown dev p at n s (assigned i)
  assigned-Grown i at z moved =
      let h = allocated_lem dev n s f.made.apart small free in
      record {
        homes = λ k hk.
            assigned_homes i k
            ∙ moved k hk
            ∙ ap (λ b. if k == at then n else b)
                (home_of-same addrs (s.block dev) (given.block dev) k list_kept);
        empty = z;
        small = small;
        was_free = free;
        now_used = h.2;
        frees = h.3;
        contents = λ k hk ne. given_keeps k (omega arith) ne;
        frame = given_frame;
        same_sb = refl;
        same_inode = assigned-SameInode i;
      }

  pub direct-Grown : (i : ℕ) → i < 12 → home dev p s i ≡ 0 → Grown dev p i n s (assigned i)
  direct-Grown i lt z =
      assigned-Grown i i z (λ k hk. home_of-direct addrs (given.block dev) i n k lt)

  pub indirect-Grown : addrs 12 ≡ 0 → Grown dev p indirect_at n s (assigned 12)
  indirect-Grown z = assigned-Grown 12 indirect_at (home_of_last addrs (s.block dev) ∙ z) (λ k hk.
      home_of-indirect addrs (given.block dev) n k hk z
        (allocated_lem dev n s f.made.apart small free).4)

  -- Entry `e` of the indirect block gets the block.
  abbrev pub listed : ℕ → Fs
  listed e = set_block dev (addrs 12) (put32 (s.block dev (addrs 12)) (4 * e) n) given

  listed_homes :
      (e k : ℕ)
      → k ≤ indirect_at
      → e < 128
      → addrs 12 ≢ 0
      → home dev p (listed e) k ≡ (if k == e + 12 then n else home dev p s k)
  listed_homes e k hk lt ne =
      let bytes : Bytes = put32 (s.block dev (addrs 12)) (4 * e) n in
      ap (λ m. home_of addrs m k)
        (update_self given.block dev (update (given.block dev) (addrs 12) bytes))
      ∙ ap (λ m. home_of addrs (update (given.block dev) (addrs 12) (put32 m (4 * e) n)) k)
          (sym (list_kept ne))
      ∙ home_of-entry addrs (given.block dev) e n k hk lt ne (omega (arith, f.words))
      ∙ ap (λ b. if k == e + 12 then n else b)
          (home_of-same addrs (s.block dev) (given.block dev) k list_kept)

  listed_frees :
      (e c : ℕ) → addrs 12 ≢ 0 → c < s.sb.size → is_free (listed e) dev c ≡ is_free given dev c
  listed_frees e c ne kc =
      let last = home_of_last addrs (s.block dev) in
      ap (λ m. is_clear m (c % 4096))
        (block_ne dev (addrs 12) (put32 (s.block dev (addrs 12)) (4 * e) n) given (bblock c s.sb)
          (λ x. f.off_map indirect_at c (omega arith) (λ z. ne (sym last ∙ z)) kc (x ∙ sym last)))

  pub listed-Grown :
      (e : ℕ)
      → e < 128
      → addrs 12 ≢ 0
      → home dev p s (e + 12) ≡ 0
      → Grown dev p (e + 12) n s (listed e)
  listed-Grown e lt ne z =
      let h = allocated_lem dev n s f.made.apart small free in
      let last = home_of_last addrs (s.block dev) in
      record {
        homes = λ k hk. listed_homes e k hk lt ne;
        empty = z;
        small = small;
        was_free = free;
        now_used = listed_frees e n ne small ∙ h.2;
        frees = λ c kc nc. listed_frees e c ne kc ∙ h.3 c kc nc;
        contents = λ k hk nk.
            block_ne dev (addrs 12) (put32 (s.block dev (addrs 12)) (4 * e) n) given
              (home dev p s k)
              (λ x.
                let same = f.single k indirect_at (omega arith) (omega arith) nk (x ∙ sym last) in
                absurd (omega arith))
            ∙ given_keeps k (omega arith) nk;
        frame = λ b r.
            block_ne dev (addrs 12) (put32 (s.block dev (addrs 12)) (4 * e) n) given b
              (λ x. r.apart indirect_at (omega arith) (last ∙ sym x))
            ∙ given_frame b r;
        same_sb = refl;
        same_inode = record {
          same_dev = refl;
          same_inum = refl;
          same_type = refl;
          same_size = refl;
        };
      }
