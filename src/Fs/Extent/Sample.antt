-- ===== src/Fs/Extent/Sample.antt =====
-- assignment-3/fs.c: a small disk with a file, for runs.
use cs_1217_operating_system.Base.{
  ℕ, ◌/◌, ◌≡◌, ◌≢◌, ◌≤◌, refl, ◌∙◌, sym, ap, false, true, arith, if◌then◌else◌, ltb, ◌==◌,
}
use mathlib.Core.Bool.{true≢false}
use cs_1217_operating_system.Fs.{Fs, Inode}
use cs_1217_operating_system.Fs.Bytes.{Bytes}
use cs_1217_operating_system.Fs.Allocation.{is_free, IsApart}
use cs_1217_operating_system.Fs.Extent.{home_of}
use cs_1217_operating_system.Base.Counting.{tally}
use cs_1217_operating_system.Fs.Extent.Supply.{supply}
use cs_1217_operating_system.Fs.Extent.Growth.{home, IsFile}
use cs_1217_operating_system.Fs.Extent.Whole.{IsWhole}

module _ (type_ size : ℕ) (bytes : Bytes) where
  -- A file with its bytes in block 60
  abbrev pub small_file : Inode
  small_file = record {
    dev = 1;
    inum = 5;
    ref = 1;
    locked = true;
    valid = true;
    type_ = type_;
    major = 0;
    minor = 0;
    nlink = 1;
    size = size;
    addrs = λ i. if i == 0 then 60 else 0;
  }

  -- A disk of 80 blocks on which the first 64 are in use, the map at 58 among them.
  abbrev pub disk : Fs
  disk = record {
    block =
        λ dev n i. if n == 58 then (if ltb i 8 then 255 else 0) else if n == 60 then bytes i else 0;
    sb = record { size = 80; ninodes = 200; inodestart = 32; bmapstart = 58 };
    inode = λ p. small_file;
  }

  disk-IsApart : IsApart 1 disk
  disk-IsApart b c kb kc free e =
      let same : b ≡ 58 = omega arith in
      let used : is_free disk 1 58 ≡ false = refl in
      true≢false (sym free ∙ ap (is_free disk 1) same ∙ used)

  home-disk : (k : ℕ) → home 1 0 disk k ≡ (if k == 0 then 60 else 0)
  unfolding home_of
  home-disk k = ground arith

  -- The file has block 60, first, and no other.
  one_home : (k : ℕ) → home 1 0 disk k ≢ 0 → (k ≡ 0) × (home 1 0 disk k ≡ 60)
  one_home k ne = let e = home-disk k in (ground (arith, e), ground (arith, e))

  disk-IsFile : IsFile 1 0 disk
  disk-IsFile = record {
    on = refl;
    made = record { apart = disk-IsApart; boot = refl };
    words = omega arith;
    within = λ k h ne. let (e, b) = one_home k ne in omega (arith, b);
    used = λ k h ne. let (e, b) = one_home k ne in ap (is_free disk 1) b;
    off_map = λ k c h ne kc z. let (e, b) = one_home k ne in omega (arith, b, z, kc);
    single = λ j k hj hk ne same.
        let (ej, bj) = one_home j ne in
        let (ek, bk) = one_home k (λ z. ne (same ∙ z)) in ej ∙ sym ek;
  }

  pub disk-IsWhole : size ≤ 512 → IsWhole 1 0 disk
  disk-IsWhole few = record {
    file = disk-IsFile;
    saved = record {
      within = omega arith;
      used = refl;
      off_map = λ c h e. omega arith;
      apart = λ k h e.
          let (z, b) = one_home k (λ z. absurd (omega (arith, e, z))) in omega (arith, e, b);
    };
    limit = omega arith;
    owned = λ i lt z. absurd (ground (arith, home-disk (i / 512)));
  }

  pub supply-disk : supply 1 disk ≡ 16
  unfolding tally
  supply-disk = refl
