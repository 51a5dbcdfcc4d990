-- ===== src/Fs/Extent/Whole.antt =====
-- assignment-3/fs.c: an inode that owns a block for each byte of its size.
use cs_1217_operating_system.Base.{
  ℕ, ◌/◌, ◌%◌, ◌≡◌, ◌≢◌, ◌<◌, ◌≤◌, refl, sym, ap, subst, ◌∙◌, some, update_self, arith,
}
use cs_1217_operating_system.Fs.{Fs, Inode, set_block, set_inode}
use cs_1217_operating_system.Fs.Bytes.{Bytes, bblock, iblock, slot, put_dinode}
use cs_1217_operating_system.Fs.Blocks.{is_clear}
use cs_1217_operating_system.Fs.Inodes.{iupdate}
use cs_1217_operating_system.Fs.Allocation.{is_free, block_ne}
use cs_1217_operating_system.Fs.Extent.{indirect_at, home_of, home_of_last, home_of-same}
use cs_1217_operating_system.Fs.Extent.Growth.{home, IsFile, IsReserved}
use cs_1217_operating_system.Fs.Extent.Unchanged.{changed-IsFile, changed-IsReserved}
use cs_1217_operating_system.Fs.Extent.Write.{max_size, byte}

module _ (dev p : ℕ) where
  -- The block of the disk's copy of the inode
  abbrev pub inode_block : Fs → ℕ
  inode_block s = iblock (s.inode p).inum s.sb

  -- The inode owns its blocks, there is one for each byte of the size, and none is that of the disk's inode.
  pub record IsWhole (s : Fs) : Type 0 where
    pub file : IsFile dev p s
    pub saved : IsReserved dev p (inode_block s) s
    pub limit : (s.inode p).size ≤ max_size
    pub owned : (i : ℕ) → i < (s.inode p).size → home dev p s (i / 512) ≢ 0

  -- A size that is assigned
  module _ (size : ℕ) (s : Fs) where
    abbrev sized : Inode
    sized = record (s.inode p) { size = size }

    abbrev pub resized : Fs
    resized = set_inode p sized s

    pub resized_inode : resized.inode p ≡ sized
    resized_inode = update_self s.inode p sized

    pub resized-home : (k : ℕ) → home dev p resized k ≡ home dev p s k
    resized-home k = ap (λ (ip : Inode). home_of ip.addrs (s.block dev) k) resized_inode

    pub resized-IsWhole :
        IsFile dev p s
        → IsReserved dev p (inode_block s) s
        → size ≤ max_size
        → ((i : ℕ) → i < size → home dev p s (i / 512) ≢ 0)
        → IsWhole resized
    resized-IsWhole f saved limit owned = record {
      file =
          changed-IsFile dev p s s.block resized.inode (λ k h. resized-home k) (λ c kc. refl)
            (ap (λ (ip : Inode). ip.dev) resized_inode) (omega (arith, saved.within)) f;
      saved =
          changed-IsReserved dev p s s.block resized.inode (λ k h. resized-home k) (λ c kc. refl)
            (inode_block resized)
            (subst (λ b. IsReserved dev p b s)
              (sym (ap (λ (ip : Inode). iblock ip.inum s.sb) resized_inode)) saved);
      limit = subst (λ (ip : Inode). ip.size ≤ max_size) (sym resized_inode) limit;
      owned = λ i lt z.
          owned i (subst (λ (ip : Inode). i < ip.size) resized_inode lt)
            (sym (resized-home (i / 512)) ∙ z);
    }

  -- The disk's inode is written.
  module _ (bytes : Bytes) (s : Fs) (w : IsWhole s) where
    abbrev pub updated : Fs
    updated = set_block dev (inode_block s) bytes s

    pub updated-home : (k : ℕ) → home dev p updated k ≡ home dev p s k
    updated-home k = home_of-same (s.inode p).addrs (s.block dev) (updated.block dev) k (λ nz.
        block_ne dev (inode_block s) bytes s ((s.inode p).addrs 12) (λ e.
          w.saved.apart indirect_at (omega arith)
            (home_of_last (s.inode p).addrs (s.block dev) ∙ e)))

    updated_frees : (c : ℕ) → c < s.sb.size → is_free updated dev c ≡ is_free s dev c
    updated_frees c kc =
        ap (λ m. is_clear m (c % 4096))
          (block_ne dev (inode_block s) bytes s (bblock c s.sb) (w.saved.off_map c kc))

    pub updated-byte : (i : ℕ) → i < max_size → byte dev p updated i ≡ byte dev p s i
    updated-byte i lt =
        ap (λ b. updated.block dev b (i % 512)) (updated-home (i / 512))
        ∙ ap (λ m. m (i % 512))
            (block_ne dev (inode_block s) bytes s (home dev p s (i / 512))
              (w.saved.apart (i / 512) (omega arith)))

    pub updated-IsWhole : IsWhole updated
    updated-IsWhole = record {
      file =
          changed-IsFile dev p s updated.block s.inode (λ k h. updated-home k) updated_frees refl
            (omega (arith, w.saved.within)) w.file;
      saved =
          changed-IsReserved dev p s updated.block s.inode (λ k h. updated-home k) updated_frees
            (inode_block s) w.saved;
      limit = w.limit;
      owned = λ i lt z. w.owned i lt (sym (updated-home (i / 512)) ∙ z);
    }

  abbrev pub image : Fs → Bytes
  image s = put_dinode (slot (s.inode p).inum) (s.inode p) (s.block dev (inode_block s))

  pub iupdate-updated : (s : Fs) (w : IsWhole s) → iupdate p s ≡ some (tt, updated (image s) s w)
  unfolding iupdate
  iupdate-updated s w =
      ap
        (λ d. some (
          tt,
          set_block d (inode_block s)
              (put_dinode (slot (s.inode p).inum) (s.inode p) (s.block d (inode_block s))) s,
        ))
        w.file.on
