-- ===== src/Fs/Extent/Roundtrip.antt =====
-- assignment-3/fs.c: `readi` and `writei` on an inode that owns its blocks, and a read behind a write.
use cs_1217_operating_system.Base.{
  ℕ, ◌+◌, ◌-◌, ◌/◌, ◌%◌, ◌^◌, ◌≡◌, ◌≢◌, ◌<◌, ◌≤◌, ◌⊎◌, sym, ap, subst, ◌∙◌, Bool, false, ◌||◌,
  Option, some, List, ◌==◌, if◌then◌else◌, ltb, dec_lt, ne→false, inl, inr, arith,
}
use cs_1217_operating_system.Fs.{Fs, Cmd, and_then, pure}
use cs_1217_operating_system.Fs.Bytes.{Bytes, iblock}
use cs_1217_operating_system.Fs.Data.{
  Devices, t_dev, min, slice, splice, read_from, write_from, readi, writei,
}
use cs_1217_operating_system.Fs.Extent.Supply.{supply}
use cs_1217_operating_system.Fs.Extent.Growth.{home, IsReserved}
use cs_1217_operating_system.Fs.Extent.Write.{need, max_size, byte, Wrote, splice_in, splice_out}
use cs_1217_operating_system.Fs.Extent.Loops.{write_from_lem}
use cs_1217_operating_system.Fs.Extent.Read.{slice-eq, read_from_lem}
use cs_1217_operating_system.Fs.Extent.Whole
use cs_1217_operating_system.Fs.Extent.Saved
use cs_1217_operating_system.Fs.Extent.Finish.{extent, finish, finish_lem}

min_in : (n size off i : ℕ) → off ≤ size → off ≤ i → i < off + min n (size - off) → i < size
min_in n size off i inside lo hi = ground arith

min_end : (n size off : ℕ) → off ≤ size → size ≤ max_size → off + min n (size - off) ≤ max_size
min_end n size off inside limit = ground arith

extent_in :
    (size off n i : ℕ) → size ≤ max_size → off + n ≤ max_size → i < extent size off n → i < max_size
extent_in size off n i limit room lt = ground arith

-- The three tests before the loops, for what they let through
module _ {A : Type 0} (a b c d : A) where
  two_tests : (t u : Bool) → t ≡ false → u ≡ false → (if t then a else if u then b else c) ≡ c
  two_tests t u et eu =
      ap (λ x. if x then a else if u then b else c) et ∙ ap (λ x. if x then b else c) eu

  three_tests :
      (t u v : Bool)
      → t ≡ false
      → u ≡ false
      → v ≡ false
      → (if t then a else if u then b else if v then c else d) ≡ d
  three_tests t u v et eu ev =
      ap (λ x. if x then a else if u then b else if v then c else d) et
      ∙ ap (λ x. if x then b else if v then c else d) eu
      ∙ ap (λ x. if x then c else d) ev

module _ (devices : Devices) (dev p : ℕ) where
  abbrev bytes_of : ℕ → ℕ → Cmd (Option (List ℕ))
  bytes_of off m s = and_then (read_from p m off m s) (λ bytes. pure (some bytes))

  abbrev asked : ℕ → ℕ → ℕ → ℕ
  asked size off n = if ltb size ((off + n) % 2 ^ 32) then size - off else n

  -- `readi` yields the bytes from `off` on, as many as are asked for and are there.
  pub readi_lem :
      (off n : ℕ) (s : Fs)
      → Whole.IsWhole dev p s
      → (s.inode p).type_ ≢ t_dev
      → off ≤ (s.inode p).size
      → off + n < 2 ^ 32
      → readi devices p off n s
        ≡ some (some (slice (byte dev p s) off (min n ((s.inode p).size - off))), s)
  unfolding readi
  readi_lem off n s w ne inside small =
      let size : ℕ = (s.inode p).size in
      let many : asked size off n ≡ min n (size - off) = ground arith in
      ap (λ c. c s)
        (two_tests _ _ (bytes_of off (asked size off n)) (bytes_of off 0)
          ((s.inode p).type_ == t_dev) (ltb size off || ltb ((off + n) % 2 ^ 32) off)
          (ne→false _ _ ne) (ground arith))
      ∙ ap (λ m. bytes_of off m s) many
      ∙ ap (λ r. and_then r (λ bytes. pure (some bytes)))
          (read_from_lem dev p (min n (size - off)) off (min n (size - off)) s (omega arith)
            (min_end n size off inside w.limit) w.file
            (λ i lo hi. w.owned i (min_in n size off i inside lo hi)))

  abbrev writing : Bytes → ℕ → ℕ → Cmd (Option ℕ)
  writing src off n s = and_then (write_from p n src off n s) (λ _. finish dev p off n)

  writei_runs :
      (src : Bytes) (off n : ℕ) (s : Fs)
      → (s.inode p).type_ ≢ t_dev
      → off ≤ (s.inode p).size
      → off + n ≤ max_size
      → writei devices p src off n s ≡ writing src off n s
  unfolding writei
  writei_runs src off n s ne inside room =
      ap (λ c. c s)
        (three_tests _ _ _ (writing src off n) ((s.inode p).type_ == t_dev)
          (ltb (s.inode p).size off || ltb ((off + n) % 2 ^ 32) off)
          (ltb max_size ((off + n) % 2 ^ 32)) (ne→false _ _ ne) (ground arith) (ground arith))

  -- A file after a write: bytes `off` to `off + n` are those of `src`, and the others are as they were. The disk has
  -- the inode if the file grew, and its other inodes are as they were.
  pub record Written (src : Bytes) (off n : ℕ) (s s' : Fs) : Type 0 where
    pub ran : writei devices p src off n s ≡ some (some n, s')
    pub whole : Whole.IsWhole dev p s'
    pub type_ : (s'.inode p).type_ ≡ (s.inode p).type_
    pub size : (s'.inode p).size ≡ extent (s.inode p).size off n
    pub bytes :
        (i : ℕ)
        → i < extent (s.inode p).size off n
        → byte dev p s' i ≡ splice (byte dev p s) off src n i
    pub saved : (s.inode p).size < off + n → Saved.IsSaved dev p s'
    pub beside : Saved.KeepsOthers dev p (s.inode p).inum s s'
    pub unsaved :
        off + n ≤ (s.inode p).size
        → s'.block dev (Whole.inode_block dev p s) ≡ s.block dev (Whole.inode_block dev p s)

  -- The loop of `writei` on a file, before the size is set
  module _ (src : Bytes) (off n : ℕ) (s s1 : Fs) (w : Whole.IsWhole dev p s)
      (inside : off ≤ (s.inode p).size) (room : off + n ≤ max_size)
      (wrote : Wrote dev p src off n s s1) where
    saved_still : IsReserved dev p (Whole.inode_block dev p s1) s1
    saved_still =
        subst (λ b. IsReserved dev p b s1)
          (sym (
            ap (λ i. iblock i s1.sb) wrote.same_inode.same_inum
            ∙ ap (iblock (s.inode p).inum) wrote.same_sb))
          (wrote.reserved (Whole.inode_block dev p s) w.saved)

    -- A byte of the file that is written, or that was there
    part :
        (i : ℕ)
        → i < extent (s.inode p).size off n
        → ((off ≤ i) × (i < off + n)) ⊎ ((i < (s.inode p).size) × ¬ ((off ≤ i) × (i < off + n)))
    part i lt = elim (dec_lt i off) [
      | yes before ↦ inr (ground arith, λ x. omega arith)
      | no h ↦ elim (dec_lt i (off + n)) [
        | yes at ↦ inl (omega arith, at)
        | no behind ↦ inr (ground arith, λ x. omega arith)
      ]
    ]

    owned_now : (i : ℕ) → i < extent (s.inode p).size off n → home dev p s1 (i / 512) ≢ 0
    owned_now i lt = elim (part i lt) [
      | inl (lo, hi) ↦ wrote.owned i lo hi
      | inr (old, out) ↦
          let ne = w.owned i old in
          λ z. ne (sym (wrote.homes (i / 512) (omega (arith, w.limit)) ne) ∙ z)
    ]

    bytes_now :
        (i : ℕ)
        → i < extent (s.inode p).size off n
        → byte dev p s1 i ≡ splice (byte dev p s) off src n i
    bytes_now i lt = elim (part i lt) [
      | inl (lo, hi) ↦ wrote.written i lo hi ∙ sym (splice_in (byte dev p s) off src n i lo hi)
      | inr (old, out) ↦
          wrote.others i (omega (arith, w.limit)) (w.owned i old) out
          ∙ sym (splice_out (byte dev p s) off src n i out)
    ]

  -- On an inode that owns its blocks, at an offset within the file, up to an end within the largest size, and with two
  -- free blocks for each block that is written, `writei` yields the count of bytes, the file grows to the end of the
  -- write and no further, with the bytes of the write in place and the others as they were, and the inode still owns a
  -- block for each byte, none of them free, twice in the file, of the free map, or the block of the disk's inode. When the
  -- file grows, the disk's inode has the type, device numbers and link count (cut to 16 bits), size and block numbers of
  -- the one in memory, and the other inodes of its block are as they were; when it does not grow, the block is as it was.
  pub writei_lem :
      (src : Bytes) (off n : ℕ) (s : Fs)
      → Whole.IsWhole dev p s
      → (s.inode p).type_ ≢ t_dev
      → off ≤ (s.inode p).size
      → off + n ≤ max_size
      → need off n ≤ supply dev s
      → (s' : Fs) × Written src off n s s'
  writei_lem src off n s w ne inside room enough =
      let inum : ℕ = (s.inode p).inum in
      let size : ℕ = (s.inode p).size in
      let (s1, e1, wrote) =
        write_from_lem dev p n src off n s (omega arith) room w.file (λ _. enough) in
      let same : (s1.inode p).size ≡ size = wrote.same_inode.same_size in
      let (s', fin) =
        finish_lem dev p off n s1 wrote.file (saved_still src off n s s1 w inside room wrote)
          (omega (arith, w.limit, same)) room (omega (arith, same))
          (λ i lt.
            owned_now src off n s s1 w inside room wrote i
              (subst (λ z. i < extent z off n) same lt)) in
      (
        s',
        record {
          ran =
              writei_runs src off n s ne inside room
              ∙ ap (λ r. and_then r (λ _. finish dev p off n)) e1
              ∙ fin.ran;
          whole = fin.whole;
          type_ = fin.type_ ∙ wrote.same_inode.same_type;
          size = fin.size ∙ ap (λ z. extent z off n) same;
          bytes = λ i lt.
              fin.bytes i (extent_in size off n i w.limit room lt)
              ∙ bytes_now src off n s s1 w inside room wrote i lt;
          saved = λ grows. fin.saved (omega (arith, same, grows));
          beside = λ i out.
              subst (λ sb. s'.block dev (iblock inum sb) i ≡ s1.block dev (iblock inum sb) i)
                wrote.same_sb
                (subst (λ j. Saved.KeepsOthers dev p j s1 s') wrote.same_inode.same_inum fin.beside
                  i out)
              ∙ ap (λ m. m i) (wrote.frame (Whole.inode_block dev p s) w.saved);
          unsaved = λ within.
              ap (λ (x : Fs). x.block dev (Whole.inode_block dev p s))
                (fin.unsaved (omega (arith, same, within)))
              ∙ wrote.frame (Whole.inode_block dev p s) w.saved;
        },
      )

  -- A write and a read behind it
  abbrev pub ReadsBack : Bytes → (off n at m : ℕ) → Fs → Type 0
  ReadsBack src off n at m s =
      (s' : Fs) × (writei devices p src off n s ≡ some (some n, s'))
      × (readi devices p at m s'
          ≡ some (
            some (
                slice (splice (byte dev p s) off src n) at
                  (min m (extent (s.inode p).size off n - at))),
            s',
          ))

  -- After `writei`, a `readi` anywhere in the file yields what was written there, and elsewhere what the file had, up to
  -- the new end of the file, for an inode that owns its blocks, an offset within the file, an end within the largest
  -- size, and two free blocks for each block that is written.
  pub readi-writei :
      (src : Bytes) (off n at m : ℕ) (s : Fs)
      → Whole.IsWhole dev p s
      → (s.inode p).type_ ≢ t_dev
      → off ≤ (s.inode p).size
      → off + n ≤ max_size
      → need off n ≤ supply dev s
      → at ≤ extent (s.inode p).size off n
      → at + m < 2 ^ 32
      → ReadsBack src off n at m s
  readi-writei src off n at m s w ne inside room enough in_file small =
      let size : ℕ = extent (s.inode p).size off n in
      let (s', done) = writei_lem src off n s w ne inside room enough in
      (
        s',
        done.ran,
        readi_lem at m s' done.whole (λ e. ne (sym done.type_ ∙ e)) (omega (arith, done.size)) small
            ∙ ap (λ z. some (some (slice (byte dev p s') at (min m (z - at))), s')) done.size
            ∙ ap (λ l. some (some l, s'))
                (slice-eq (min m (size - at)) (byte dev p s') (splice (byte dev p s) off src n) at
                  at
                  (λ i lt.
                    done.bytes (at + i)
                      (min_in m size at (at + i) in_file (omega arith) (omega arith)))),
      )
