-- ===== src/Fs/Bytes.antt =====
-- assignment-3/fs.h: the layout of numbers and inodes in the bytes of a block.
use cs_1217_operating_system.Base.{ℕ, zero, suc, ◌+◌, ◌*◌, ◌/◌, ◌%◌, ltb, if◌then◌else◌, update}
use cs_1217_operating_system.Fs.{Super, Inode}

abbrev pub Bytes : Type 0
Bytes = ℕ → ℕ

-- Numbers of 16 and 32 bits, lowest byte first
abbrev pub get16 : Bytes → ℕ → ℕ
get16 bytes i = bytes i + 256 * bytes (i + 1)

abbrev pub put16 : Bytes → ℕ → ℕ → Bytes
put16 bytes i w = update (update bytes i (w % 256)) (i + 1) (w / 256 % 256)

abbrev pub get32 : Bytes → ℕ → ℕ
get32 bytes i = get16 bytes i + 65536 * get16 bytes (i + 2)

abbrev pub put32 : Bytes → ℕ → ℕ → Bytes
put32 bytes i w = put16 (put16 bytes i w) (i + 2) (w / 65536)

-- `NDIRECT` and `NINDIRECT`; `BSIZE`, `BPB`, `DIRSIZ` and the sizes of a `struct dinode` and a `struct dirent`
abbrev pub ndirect : ℕ
ndirect = 12

abbrev pub nindirect : ℕ
nindirect = 128

abbrev pub bsize : ℕ
bsize = 512

abbrev pub bpb : ℕ
bpb = 4096

abbrev pub dirsiz : ℕ
dirsiz = 14

abbrev pub dinode_size : ℕ
dinode_size = 64

abbrev pub dirent_size : ℕ
dirent_size = 16

-- `IBLOCK`, `BBLOCK`, and where an inode is in its block
abbrev pub iblock : ℕ → Super → ℕ
iblock inum sb = inum / 8 + sb.inodestart

abbrev pub bblock : ℕ → Super → ℕ
bblock b sb = b / bpb + sb.bmapstart

abbrev pub slot : ℕ → ℕ
slot inum = inum % 8 * dinode_size

-- The words `addrs` of a `struct dinode`, from its offset on
unfoldable pub put_addrs : (ℕ → ℕ) → ℕ → ℕ → Bytes → Bytes
put_addrs addrs at zero bytes = bytes
put_addrs addrs at (suc k) bytes = put32 (put_addrs addrs at k bytes) (at + 12 + 4 * k) (addrs k)

-- A `struct dinode` from an inode, and the fields of an inode from one
unfoldable pub put_dinode : ℕ → Inode → Bytes → Bytes
unfolding put_addrs
put_dinode at ip bytes = put_addrs ip.addrs at (ndirect + 1) (
    put32
      (put16 (put16 (put16 (put16 bytes at ip.type_) (at + 2) ip.major) (at + 4) ip.minor) (at + 6)
        ip.nlink)
      (at + 8) ip.size)

unfoldable pub get_dinode : ℕ → Bytes → Inode → Inode
get_dinode at bytes ip = record ip {
  type_ = get16 bytes at;
  major = get16 bytes (at + 2);
  minor = get16 bytes (at + 4);
  nlink = get16 bytes (at + 6);
  size = get32 bytes (at + 8);
  addrs = λ k. if ltb k (ndirect + 1) then get32 bytes (at + 12 + 4 * k) else ip.addrs k;
}

-- `memset(p, 0, n)`
unfoldable pub zeros : Bytes → ℕ → ℕ → Bytes
zeros bytes at zero = bytes
zeros bytes at (suc k) = update (zeros bytes at k) (at + k) 0
