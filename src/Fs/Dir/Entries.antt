-- ===== src/Fs/Dir/Entries.antt =====
-- assignment-3/fs.c and sysfile.c: the entries of a directory that owns its blocks, and whether it is empty.
use cs_1217_operating_system.Base.{
  ℕ, ◌+◌, ◌-◌, ◌*◌, ◌%◌, ◌≡◌, ◌<◌, refl, ap, ◌∙◌, Bool, not, ◌&&◌, some, List, ◌==◌, arith,
}
use cs_1217_operating_system.Fs.{Fs, Cmd, and_then}
use cs_1217_operating_system.Fs.Bytes.{Bytes}
use cs_1217_operating_system.Fs.Data.{Devices, t_dir, min, slice, readi}
use cs_1217_operating_system.Fs.Dir.{Dirent, dirent_of, namecmp}
use cs_1217_operating_system.Fs.Extent.Write.{byte}
use cs_1217_operating_system.Fs.Extent.Whole.{IsWhole}
use cs_1217_operating_system.Fs.Extent.Roundtrip.{readi_lem}

-- The entry at an offset in the bytes of a directory
abbrev pub entry_at : Bytes → ℕ → Dirent
entry_at bytes off = record {
  inum = bytes off + 256 * bytes (off + 1);
  name = slice bytes (off + 1 + 1) 14;
}

dirent_of-slice :
    (bytes : Bytes) (off : ℕ) (s : Fs)
    → dirent_of (some (slice bytes off 16)) s ≡ some (entry_at bytes off, s)
unfolding dirent_of slice
dirent_of-slice bytes off s = refl

module _ (devices : Devices) (dev p : ℕ) where
  -- A directory that owns its blocks, and has whole entries only
  pub record IsDir (s : Fs) : Type 0 where
    pub whole : IsWhole dev p s
    pub is_dir : (s.inode p).type_ ≡ t_dir
    pub aligned : (s.inode p).size % 16 ≡ 0

  abbrev pub size_of : Fs → ℕ
  size_of s = (s.inode p).size

  -- `readi` of an entry, and what code does with it
  pub read_entry :
      {A : Type 0} (off : ℕ) (s : Fs) (k : Dirent → Cmd A)
      → IsDir s
      → off < size_of s
      → off % 16 ≡ 0
      → and_then (readi devices p off 16 s) (λ r v. and_then (dirent_of r v) k)
        ≡ k (entry_at (byte dev p s) off) s
  read_entry off s k d inside at =
      let all : min 16 (size_of s - off) ≡ 16 = ground (arith, d.aligned) in
      ap (λ r. and_then r (λ x v. and_then (dirent_of x v) k))
        (readi_lem devices dev p off 16 s d.whole (λ e. omega (arith, d.is_dir, e)) (omega arith)
            (omega (arith, d.whole.limit))
          ∙ ap (λ m. some (some (slice (byte dev p s) off m), s)) all)
      ∙ ap (λ r. and_then r k) (dirent_of-slice (byte dev p s) off s)

-- An entry that is in use and has a name
abbrev pub is_match : List ℕ → Dirent → Bool
is_match name de = not (de.inum == 0) && namecmp name de.name
