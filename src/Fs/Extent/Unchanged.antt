-- ===== src/Fs/Extent/Unchanged.antt =====
-- assignment-3/fs.c: a change of the disk or of inodes that keeps an inode's list of blocks and the free map.
use cs_1217_operating_system.Base.{ℕ, ◌≡◌, ◌≢◌, ◌<◌, ◌≤◌, sym, subst, ◌∙◌, false}
use cs_1217_operating_system.Fs.{Fs, Inode}
use cs_1217_operating_system.Fs.Bytes.{Bytes, bblock}
use cs_1217_operating_system.Fs.Allocation.{is_free}
use cs_1217_operating_system.Fs.Extent.{indirect_at}
use cs_1217_operating_system.Base.Counting.{tally-eq}
use cs_1217_operating_system.Fs.Extent.Supply.{supply}
use cs_1217_operating_system.Fs.Extent.Growth.{home, IsFile, IsReserved}

module _ (dev p : ℕ) (s : Fs) (block : ℕ → ℕ → Bytes) (inode : ℕ → Inode) where
  abbrev pub changed : Fs
  changed = record s { block = block; inode = inode }

  module _ (homes : (k : ℕ) → k ≤ indirect_at → home dev p changed k ≡ home dev p s k)
      (frees : (c : ℕ) → c < s.sb.size → is_free changed dev c ≡ is_free s dev c) where
    each :
        (P : ℕ → Type 0)
        → ((k : ℕ) → k ≤ indirect_at → home dev p s k ≢ 0 → P (home dev p s k))
        → (k : ℕ) → k ≤ indirect_at
        → home dev p changed k ≢ 0
        → P (home dev p changed k)
    each P h k hk nk = subst P (sym (homes k hk)) (h k hk (λ z. nk (homes k hk ∙ z)))

    pub changed-IsFile :
        (inode p).dev ≡ (s.inode p).dev → 0 < s.sb.size → IsFile dev p s → IsFile dev p changed
    changed-IsFile same_dev some_ f = record {
      on = same_dev ∙ f.on;
      made = record {
        apart = λ b c kb kc free. f.made.apart b c kb kc (sym (frees b kb) ∙ free);
        boot = frees 0 some_ ∙ f.made.boot;
      };
      words = f.words;
      within = each (λ b. b < s.sb.size) f.within;
      used =
          each (λ b. is_free changed dev b ≡ false)
            (λ j hj nj. frees (home dev p s j) (f.within j hj nj) ∙ f.used j hj nj);
      off_map =
          λ j c hj nj kc. each (λ b. bblock c s.sb ≢ b) (λ i hi ni. f.off_map i c hi ni kc) j hj nj;
      single = λ i j hi hj ni e.
          f.single i j hi hj (λ z. ni (homes i hi ∙ z)) (sym (homes i hi) ∙ e ∙ homes j hj);
    }

    pub changed-IsReserved : (b : ℕ) → IsReserved dev p b s → IsReserved dev p b changed
    changed-IsReserved b r = record {
      within = r.within;
      used = frees b r.within ∙ r.used;
      off_map = r.off_map;
      apart = λ j h e. r.apart j h (sym (homes j h) ∙ e);
    }

    pub changed-supply : supply dev changed ≡ supply dev s
    changed-supply = tally-eq (is_free changed dev) (is_free s dev) s.sb.size frees
