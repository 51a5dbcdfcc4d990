-- ===== src/Fs/Extent/Saved.antt =====
-- assignment-3/fs.c: what `iupdate` leaves on the disk, read back field by field.
use cs_1217_operating_system.Base.{
  ℕ, zero, suc, ◌+◌, ◌*◌, ◌%◌, ◌^◌, ◌≡◌, ◌<◌, ◌≤◌, ◌⊎◌, refl, sym, ap, subst, ◌∙◌, ℕ_discrete,
  dec_lt, inl, arith,
}
use cs_1217_operating_system.Fs.{Fs, Inode}
use cs_1217_operating_system.Fs.Bytes.{
  Bytes, get16, get32, put16, put32, put_addrs, put_dinode, slot, iblock, ndirect,
}
use cs_1217_operating_system.Fs.Owned.{get32-put32}
use cs_1217_operating_system.Fs.Allocation.{block_self}
use cs_1217_operating_system.Fs.Extent.{indirect_at, home_of_direct, home_of_last}
use cs_1217_operating_system.Fs.Extent.Growth.{home}
use cs_1217_operating_system.Fs.Extent.Whole

-- The `struct dinode` at `at` has the fields of the inode, those of 16 bits cut to their size.
pub record IsDinode (at : ℕ) (ip : Inode) (bytes : Bytes) : Type 0 where
  pub type_ : get16 bytes at ≡ ip.type_ % 2 ^ 16
  pub major : get16 bytes (at + 2) ≡ ip.major % 2 ^ 16
  pub minor : get16 bytes (at + 4) ≡ ip.minor % 2 ^ 16
  pub nlink : get16 bytes (at + 6) ≡ ip.nlink % 2 ^ 16
  pub size : get32 bytes (at + 8) ≡ ip.size
  pub addrs : (k : ℕ) → k ≤ 12 → get32 bytes (at + 12 + 4 * k) ≡ ip.addrs k

get16-put16 : (bytes : Bytes) (i w : ℕ) → get16 (put16 bytes i w) i ≡ w % 2 ^ 16
get16-put16 bytes i w = ground arith

get16-before : (bytes : Bytes) (i j w : ℕ) → j + 2 ≤ i → get16 (put16 bytes i w) j ≡ get16 bytes j
get16-before bytes i j w lt = ground arith

put32-before : (bytes : Bytes) (i j w : ℕ) → j < i → put32 bytes i w j ≡ bytes j
put32-before bytes i j w lt = ground arith

get32_far :
    (bytes : Bytes) (i j w : ℕ)
    → (j + 4 ≤ i) ⊎ (i + 4 ≤ j)
    → get32 (put32 bytes i w) j ≡ get32 bytes j
get32_far bytes i j w far = ground arith

put_addrs-before :
    (addrs : ℕ → ℕ) (at k j : ℕ) (bytes : Bytes)
    → j < at + 12
    → put_addrs addrs at k bytes j ≡ bytes j
unfolding put_addrs
put_addrs-before addrs at zero j bytes lt = refl
put_addrs-before addrs at (suc k) j bytes lt =
    put32-before (put_addrs addrs at k bytes) (at + 12 + 4 * k) j (addrs k) (omega arith)
    ∙ put_addrs-before addrs at k j bytes lt

get32-put_addrs :
    (addrs : ℕ → ℕ) (at k j : ℕ) (bytes : Bytes)
    → j < k
    → addrs j < 2 ^ 32
    → get32 (put_addrs addrs at k bytes) (at + 12 + 4 * j) ≡ addrs j
unfolding put_addrs
get32-put_addrs addrs at zero j bytes lt small = absurd (omega arith)
get32-put_addrs addrs at (suc k) j bytes lt small =
    let before : Bytes = put_addrs addrs at k bytes in
    elim (ℕ_discrete j k) [
      | yes e ↦
          ap (λ x. get32 (put32 before (at + 12 + 4 * k) (addrs k)) (at + 12 + 4 * x)) e
          ∙ get32-put32 before (at + 12 + 4 * k) (addrs k) (subst (λ x. addrs x < 2 ^ 32) e small)
          ∙ ap addrs (sym e)
      | no ne ↦
          get32_far before (at + 12 + 4 * k) (at + 12 + 4 * j) (addrs k) (inl (omega arith))
          ∙ get32-put_addrs addrs at k j bytes (omega arith) small
    ]

get16_same :
    (bytes other : Bytes) (j : ℕ)
    → bytes j ≡ other j
    → bytes (j + 1) ≡ other (j + 1)
    → get16 bytes j ≡ get16 other j
get16_same bytes other j a b = omega (arith, a, b)

put32_beside : (bytes : Bytes) (i j w : ℕ) → (j < i) ⊎ (i + 4 ≤ j) → put32 bytes i w j ≡ bytes j
put32_beside bytes i j w far = ground arith

put_addrs_beside :
    (addrs : ℕ → ℕ) (at k j : ℕ) (bytes : Bytes)
    → (j < at) ⊎ (at + 12 + 4 * k ≤ j)
    → put_addrs addrs at k bytes j ≡ bytes j
unfolding put_addrs
put_addrs_beside addrs at zero j bytes far = refl
put_addrs_beside addrs at (suc k) j bytes far =
    put32_beside (put_addrs addrs at k bytes) (at + 12 + 4 * k) j (addrs k) (ground arith)
    ∙ put_addrs_beside addrs at k j bytes (ground arith)

put16_beside : (bytes : Bytes) (i j w : ℕ) → (j < i) ⊎ (i + 2 ≤ j) → put16 bytes i w j ≡ bytes j
put16_beside bytes i j w far = ground arith

-- The other inodes of the block stay.
pub put_dinode_beside :
    (at : ℕ) (ip : Inode) (bytes : Bytes) (j : ℕ)
    → (j < at) ⊎ (at + 64 ≤ j)
    → put_dinode at ip bytes j ≡ bytes j
unfolding put_dinode
put_dinode_beside at ip bytes j far =
    let a : Bytes = put16 bytes at ip.type_ in
    let b : Bytes = put16 a (at + 2) ip.major in
    let c : Bytes = put16 b (at + 4) ip.minor in
    let d : Bytes = put16 c (at + 6) ip.nlink in
    put_addrs_beside ip.addrs at (ndirect + 1) j (put32 d (at + 8) ip.size) (ground arith)
    ∙ put32_beside d (at + 8) j ip.size (ground arith)
    ∙ put16_beside c (at + 6) j ip.nlink (ground arith)
    ∙ put16_beside b (at + 4) j ip.minor (ground arith)
    ∙ put16_beside a (at + 2) j ip.major (ground arith)
    ∙ put16_beside bytes at j ip.type_ (ground arith)

-- `iupdate` puts all the fields where `ilock` reads them.
put_dinode-IsDinode :
    (at : ℕ) (ip : Inode) (bytes : Bytes)
    → ip.size < 2 ^ 32
    → ((k : ℕ) → k ≤ 12 → ip.addrs k < 2 ^ 32)
    → IsDinode at ip (put_dinode at ip bytes)
unfolding put_dinode
put_dinode-IsDinode at ip bytes small words =
    let a : Bytes = put16 bytes at ip.type_ in
    let b : Bytes = put16 a (at + 2) ip.major in
    let c : Bytes = put16 b (at + 4) ip.minor in
    let d : Bytes = put16 c (at + 6) ip.nlink in
    let e : Bytes = put32 d (at + 8) ip.size in
    let low = λ (j : ℕ) (h : j < at + 12). put_addrs-before ip.addrs at (ndirect + 1) j e h in
    let half : (j : ℕ) → j + 2 ≤ at + 8 → get16 (put_dinode at ip bytes) j ≡ get16 d j = λ j h.
      get16_same (put_dinode at ip bytes) d j
        (low j (omega arith) ∙ put32-before d (at + 8) j ip.size (omega arith))
        (low (j + 1) (omega arith) ∙ put32-before d (at + 8) (j + 1) ip.size (omega arith)) in
    record {
      type_ =
          half at (omega arith)
          ∙ get16-before c (at + 6) at ip.nlink (omega arith)
          ∙ get16-before b (at + 4) at ip.minor (omega arith)
          ∙ get16-before a (at + 2) at ip.major (omega arith)
          ∙ get16-put16 bytes at ip.type_;
      major =
          half (at + 2) (omega arith)
          ∙ get16-before c (at + 6) (at + 2) ip.nlink (omega arith)
          ∙ get16-before b (at + 4) (at + 2) ip.minor (omega arith)
          ∙ get16-put16 a (at + 2) ip.major;
      minor =
          half (at + 4) (omega arith)
          ∙ get16-before c (at + 6) (at + 4) ip.nlink (omega arith)
          ∙ get16-put16 b (at + 4) ip.minor;
      nlink = half (at + 6) (omega arith) ∙ get16-put16 c (at + 6) ip.nlink;
      size = omega (
        arith,
        low (at + 8) (omega arith),
        low (at + 8 + 1) (omega arith),
        low (at + 8 + 2) (omega arith),
        low (at + 8 + 2 + 1) (omega arith),
        get32-put32 d (at + 8) ip.size small,
      );
      addrs = λ k h. get32-put_addrs ip.addrs at (ndirect + 1) k e (omega arith) (words k h);
    }

module _ (dev p : ℕ) where
  -- The inode on the disk is the one in memory.
  abbrev pub IsSaved : Fs → Type 0
  IsSaved s = IsDinode (slot (s.inode p).inum) (s.inode p) (s.block dev (Whole.inode_block dev p s))

  -- The block numbers of a file are words.
  addrs_small : (s : Fs) → Whole.IsWhole dev p s → (k : ℕ) → k ≤ 12 → (s.inode p).addrs k < 2 ^ 32
  addrs_small s w k h = elim (dec_lt k 12) [
    | yes lt ↦
        small_home s w k ((s.inode p).addrs k) (omega arith)
          (home_of_direct (s.inode p).addrs (s.block dev) k lt)
    | no ge ↦
        let last : k ≡ 12 = omega arith in
        small_home s w indirect_at ((s.inode p).addrs k) (omega arith)
          (home_of_last (s.inode p).addrs (s.block dev) ∙ ap (s.inode p).addrs (sym last))
  ]
    where
      small_home :
          (s : Fs)
          → Whole.IsWhole dev p s
          → (k a : ℕ) → k ≤ indirect_at
          → home dev p s k ≡ a
          → a < 2 ^ 32
      small_home s w k a h e = elim (ℕ_discrete a 0) [
        | yes z ↦ omega arith
        | no ne ↦ omega (arith, e, w.file.within k h (λ z. ne (sym e ∙ z)), w.file.words)
      ]

  pub updated-IsSaved :
      (s : Fs) (w : Whole.IsWhole dev p s) → IsSaved (Whole.updated dev p (Whole.image dev p s) s w)
  updated-IsSaved s w =
      subst (IsDinode (slot (s.inode p).inum) (s.inode p))
        (sym (block_self dev (Whole.inode_block dev p s) (Whole.image dev p s) s))
        (put_dinode-IsDinode (slot (s.inode p).inum) (s.inode p)
          (s.block dev (Whole.inode_block dev p s)) (omega (arith, w.limit)) (addrs_small s w))

  -- The bytes of the other inodes in the block of inode `inum` are as they were.
  abbrev pub KeepsOthers : ℕ → Fs → Fs → Type 0
  KeepsOthers inum s s' =
      (i : ℕ)
      → (i < slot inum) ⊎ (slot inum + 64 ≤ i)
      → s'.block dev (iblock inum s.sb) i ≡ s.block dev (iblock inum s.sb) i

  pub updated-KeepsOthers :
      (s : Fs) (w : Whole.IsWhole dev p s)
      → KeepsOthers (s.inode p).inum s (Whole.updated dev p (Whole.image dev p s) s w)
  updated-KeepsOthers s w i out =
      ap (λ m. m i) (block_self dev (Whole.inode_block dev p s) (Whole.image dev p s) s)
      ∙ put_dinode_beside (slot (s.inode p).inum) (s.inode p)
          (s.block dev (Whole.inode_block dev p s)) i out
