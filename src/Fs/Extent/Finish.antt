-- ===== src/Fs/Extent/Finish.antt =====
-- assignment-3/fs.c: the last steps of `writei`: the new size, and the inode on the disk.
use cs_1217_operating_system.Base.{
  ℕ, ◌+◌, ◌/◌, ◌%◌, ◌≡◌, ◌≢◌, ◌<◌, ◌≤◌, refl, ap, subst, ◌∙◌, true, false, ◌&&◌, Option, some,
  if◌then◌else◌, ltb, dec_lt, arith,
}
use cs_1217_operating_system.Fs.{Fs, Cmd, Inode, and_then, pure, write_inode, ◌>>◌}
use cs_1217_operating_system.Fs.Inodes.{iupdate}
use cs_1217_operating_system.Fs.Extent.Growth.{home, IsFile, IsReserved}
use cs_1217_operating_system.Fs.Extent.Write.{max_size, byte}
use cs_1217_operating_system.Fs.Extent.Whole
use cs_1217_operating_system.Fs.Extent.Saved

-- The size of a file after a write
abbrev pub extent : ℕ → ℕ → ℕ → ℕ
extent size off n = if ltb size (off + n) then off + n else size

module _ (dev p : ℕ) where
  module _ (off n : ℕ) where
    abbrev growing : ℕ → Cmd (Unit {0})
    growing size s1 =
        (if ltb 0 n && ltb size (off + n)
            then write_inode p (record (s1.inode p) { size = off + n }) >> iupdate p
            else pure tt)
          s1

    abbrev pub finish : Cmd (Option ℕ)
    finish s1 = and_then (growing (s1.inode p).size s1) (λ _. pure (some n))

  -- What the steps behind the loop leave
  pub record Finished (off n : ℕ) (s1 s' : Fs) : Type 0 where
    pub ran : finish off n s1 ≡ some (some n, s')
    pub whole : Whole.IsWhole dev p s'
    pub size : (s'.inode p).size ≡ extent (s1.inode p).size off n
    pub type_ : (s'.inode p).type_ ≡ (s1.inode p).type_
    pub bytes : (i : ℕ) → i < max_size → byte dev p s' i ≡ byte dev p s1 i
    pub saved : (s1.inode p).size < off + n → Saved.IsSaved dev p s'
    pub beside : Saved.KeepsOthers dev p (s1.inode p).inum s1 s'
    pub unsaved : off + n ≤ (s1.inode p).size → s' ≡ s1

  pub finish_lem :
      (off n : ℕ) (s1 : Fs)
      → IsFile dev p s1
      → IsReserved dev p (Whole.inode_block dev p s1) s1
      → (s1.inode p).size ≤ max_size
      → off + n ≤ max_size
      → off ≤ (s1.inode p).size
      → ((i : ℕ) → i < extent (s1.inode p).size off n → home dev p s1 (i / 512) ≢ 0)
      → (s' : Fs) × Finished off n s1 s'
  finish_lem off n s1 f saved limit room inside owned = elim (dec_lt (s1.inode p).size (off + n)) [
    | yes grows ↦
        let w =
          Whole.resized-IsWhole dev p (off + n) s1 f saved room (λ i lt. owned i (ground arith)) in
        let s2 : Fs = Whole.resized dev p (off + n) s1 in
        let s3 : Fs = Whole.updated dev p (Whole.image dev p s2) s2 w in
        let grown : (ltb 0 n && ltb (s1.inode p).size (off + n)) ≡ true = ground arith in
        (
          s3,
          record {
            ran =
                ap
                  (λ t.
                    and_then
                      ((if t
                          then write_inode p (record (s1.inode p) { size = off + n }) >> iupdate p
                          else pure tt)
                        s1)
                      (λ _. pure (some n)))
                  grown
                ∙ ap (λ r. and_then r (λ _. pure (some n))) (Whole.iupdate-updated dev p s2 w);
            whole = Whole.updated-IsWhole dev p (Whole.image dev p s2) s2 w;
            size =
                ap (λ (ip : Inode). ip.size) (Whole.resized_inode dev p (off + n) s1)
                ∙ ground arith;
            type_ = ap (λ (ip : Inode). ip.type_) (Whole.resized_inode dev p (off + n) s1);
            bytes = λ i lt.
                Whole.updated-byte dev p (Whole.image dev p s2) s2 w i lt
                ∙ ap (λ b. s1.block dev b (i % 512))
                    (Whole.resized-home dev p (off + n) s1 (i / 512));
            saved = λ _. Saved.updated-IsSaved dev p s2 w;
            beside =
                subst (λ inum. Saved.KeepsOthers dev p inum s1 s3)
                  (ap (λ (ip : Inode). ip.inum) (Whole.resized_inode dev p (off + n) s1))
                  (Saved.updated-KeepsOthers dev p s2 w);
            unsaved = λ within. absurd (omega arith);
          },
        )
    | no same ↦
        let kept : (ltb 0 n && ltb (s1.inode p).size (off + n)) ≡ false = ground arith in
        (
          s1,
          record {
            ran =
                ap
                  (λ t.
                    and_then
                      ((if t
                          then write_inode p (record (s1.inode p) { size = off + n }) >> iupdate p
                          else pure tt)
                        s1)
                      (λ _. pure (some n)))
                  kept;
            whole = record {
              file = f;
              saved = saved;
              limit = limit;
              owned = λ i lt. owned i (ground arith);
            };
            size = ground arith;
            type_ = refl;
            bytes = λ i lt. refl;
            saved = λ grows. absurd (same grows);
            beside = λ i out. refl;
            unsaved = λ within. refl;
          },
        )
  ]
