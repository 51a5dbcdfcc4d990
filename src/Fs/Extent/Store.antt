-- ===== src/Fs/Extent/Store.antt =====
-- assignment-3/fs.c: writing to a block of an inode.
use cs_1217_operating_system.Base.{ℕ, ◌%◌, ◌≡◌, ◌≢◌, ◌<◌, ◌≤◌, refl, sym, ap, subst, ◌∙◌, arith}
use cs_1217_operating_system.Fs.{Fs, set_block}
use cs_1217_operating_system.Fs.Bytes.{Bytes, bblock}
use cs_1217_operating_system.Fs.Blocks.{is_clear}
use cs_1217_operating_system.Fs.Allocation.{is_free, block_self, block_ne}
use cs_1217_operating_system.Fs.Extent.{indirect_at, home_of_last, home_of-same}
use cs_1217_operating_system.Fs.Extent.Supply.{supply}
use cs_1217_operating_system.Fs.Extent.Growth.{home, IsFile, IsReserved}
use cs_1217_operating_system.Fs.Extent.Unchanged.{
  changed-IsFile, changed-IsReserved, changed-supply,
}

module _ (dev p : ℕ) (k : ℕ) (bytes : Bytes) (s : Fs) (f : IsFile dev p s) (lt : k < indirect_at)
    (ne : home dev p s k ≢ 0) where
  abbrev pub stored : Fs
  stored = set_block dev (home dev p s k) bytes s

  pub stored_self : stored.block dev (home dev p s k) ≡ bytes
  stored_self = block_self dev (home dev p s k) bytes s

  pub stored_other :
      (j : ℕ)
      → j ≤ indirect_at
      → j ≢ k
      → home dev p s j ≢ 0
      → stored.block dev (home dev p s j) ≡ s.block dev (home dev p s j)
  stored_other j h nj some_ =
      block_ne dev (home dev p s k) bytes s (home dev p s j)
        (λ e. nj (f.single j k h (omega arith) some_ e))

  pub stored_homes : (j : ℕ) → home dev p stored j ≡ home dev p s j
  stored_homes j =
      let last = home_of_last (s.inode p).addrs (s.block dev) in
      home_of-same (s.inode p).addrs (s.block dev) (stored.block dev) j (λ nz.
        subst (λ b. stored.block dev b ≡ s.block dev b) last
          (stored_other indirect_at (omega arith) (omega arith) (λ z. nz (sym last ∙ z))))

  stored_frees : (c : ℕ) → c < s.sb.size → is_free stored dev c ≡ is_free s dev c
  stored_frees c kc =
      ap (λ m. is_clear m (c % 4096))
        (block_ne dev (home dev p s k) bytes s (bblock c s.sb) (f.off_map k c (omega arith) ne kc))

  pub stored-IsFile : IsFile dev p stored
  stored-IsFile =
      changed-IsFile dev p s stored.block s.inode (λ j h. stored_homes j) stored_frees refl
        (omega (arith, f.within k (omega arith) ne)) f

  pub stored-IsReserved : (b : ℕ) → IsReserved dev p b s → IsReserved dev p b stored
  stored-IsReserved =
      changed-IsReserved dev p s stored.block s.inode (λ j h. stored_homes j) stored_frees

  pub stored-supply : supply dev stored ≡ supply dev s
  stored-supply = changed-supply dev p s stored.block s.inode (λ j h. stored_homes j) stored_frees
