-- ===== src/Fs/Tests.antt =====
-- assignment-3/fs.c: runs of the file system.
use cs_1217_operating_system.Base.{
  ℕ, ◌≡◌, ◌≤◌, refl, sym, true, false, none, some, List, [], ◌∷◌, map, arith, ap, ltb, ◌∙◌, ◌==◌,
  if◌then◌else◌,
}
use mathlib.Core.Bool.{true≢false}
use cs_1217_operating_system.Fs.{Fs, Inode, ◌>>=◌}
use cs_1217_operating_system.Fs.Bytes.{dirsiz}
use cs_1217_operating_system.Fs.Inodes.{iget, idup}
use cs_1217_operating_system.Fs.Icache.{IsIcache, IgetEnsures, iget_lem}
use cs_1217_operating_system.Fs.Blocks.{balloc, bfree}
use cs_1217_operating_system.Fs.Allocation.{
  is_free, IsApart, BallocEnsures, BfreeEnsures, balloc_lem, bfree_lem,
}
use cs_1217_operating_system.Fs.Content.{bmap}
use cs_1217_operating_system.Fs.Owned.{IsMade}
use cs_1217_operating_system.Fs.Bmap.{BmapEnsures, bmap_lem}
use cs_1217_operating_system.Fs.Data.{Devices}
use cs_1217_operating_system.Fs.Path.{skipelem, truncate, count, namex, is_absolute}
use cs_1217_operating_system.Fs.Path.Elements.{
  SkipEnsures, skipelem_lem, elements, words, elements_lem,
}
use cs_1217_operating_system.Fs.Path.Rounds.{follow, names_of, namex-follow}

-- "//a/bb"
abbrev path : List ℕ
path = 47 ∷ 47 ∷ 97 ∷ 47 ∷ 98 ∷ 98 ∷ []

skipelem-path : skipelem path ≡ some (97 ∷ [], 98 ∷ 98 ∷ [])
unfolding skipelem
skipelem-path = refl

skipelem_lem_example : SkipEnsures path (skipelem path)
skipelem_lem_example = skipelem_lem path

short : count path ≤ 6
unfolding count
short = omega arith

elements_lem_example : elements 6 path ≡ map (truncate dirsiz) (words [] path)
elements_lem_example = elements_lem 6 path short

abbrev no_devices : Devices
no_devices = record { read = λ major. none; write = λ major. none }

namex-follow_example : namex no_devices 3 path true ≡ (
    (if is_absolute path then iget 1 1 else idup 3) >>= λ ip.
    follow no_devices true ip [] (names_of path))
namex-follow_example = namex-follow no_devices 3 path true

abbrev unused : Inode
unused = record {
  dev = 0;
  inum = 0;
  ref = 0;
  locked = false;
  valid = false;
  type_ = 0;
  major = 0;
  minor = 0;
  nlink = 0;
  size = 0;
  addrs = λ i. 0;
}

abbrev booted : Fs
booted = record {
  block = λ dev n i. 0;
  sb = record { size = 1000; ninodes = 200; inodestart = 32; bmapstart = 58 };
  inode = λ p. unused;
}

booted-IsIcache : IsIcache booted
booted-IsIcache p q dev inum kp kq fp fq = elim (true≢false (sym fp)) [ ]

iget_lem_example : IgetEnsures 1 1 booted (iget 1 1 booted)
iget_lem_example = iget_lem 1 1 booted booted-IsIcache (λ p k. omega arith)

-- A disk on which the first 64 blocks are in use, the map at 58 among them.
abbrev formatted : Fs
formatted = record booted { block = λ dev n i. if n == 58 then (if ltb i 8 then 255 else 0) else 0 }

formatted-IsApart : IsApart 1 formatted
formatted-IsApart b c kb kc free e =
    let same : b ≡ 58 = omega arith in
    let used : is_free formatted 1 58 ≡ false = refl in
    true≢false (sym free ∙ ap (is_free formatted 1) same ∙ used)

balloc_lem_example : BallocEnsures 1 formatted (balloc 1 formatted)
balloc_lem_example = balloc_lem 1 formatted formatted-IsApart

bfree_lem_example : BfreeEnsures 1 10 formatted (bfree 1 10 formatted)
bfree_lem_example = bfree_lem 1 10 formatted

-- An empty file on this disk.
abbrev with_file : Fs
with_file = record formatted { inode = λ p. record unused { dev = 1 } }

with_file-IsMade : IsMade 1 with_file
with_file-IsMade = record { apart = formatted-IsApart; boot = refl }

bmap_lem_example : BmapEnsures 0 20 with_file (bmap 0 20 with_file)
bmap_lem_example = bmap_lem 0 20 with_file with_file-IsMade (omega arith)
