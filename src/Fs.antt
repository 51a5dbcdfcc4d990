-- ===== src/Fs.antt =====
-- assignment-3/fs.c: the file system. This file has its state and how code acts on it; the children have the
-- layers, from blocks to path names. A block is what `bread` yields for it; a buffer that is changed, given to
-- `log_write` and released is a change of the block.
pub mod Bytes
pub mod Blocks
pub mod Inodes
pub mod Content
pub mod Data
pub mod Dir
pub mod Path
pub mod Icache
pub mod FreeMap
pub mod Allocation
pub mod Owned
pub mod Bmap
pub mod Extent
mod Tests
use cs_1217_operating_system.Base.{
  ℕ, ◌+◌, ◌*◌, Bool, Option, none, some, List, if◌then◌else◌, leb, update,
}

-- `struct superblock` of fs.h, the fields that fs.c reads
pub record Super : Type 0 where
  pub size : ℕ
  pub ninodes : ℕ
  pub inodestart : ℕ
  pub bmapstart : ℕ

-- `struct inode` of file.h; `locked` is that the caller holds its sleep lock.
pub record Inode : Type 0 where
  pub dev : ℕ
  pub inum : ℕ
  pub ref : ℕ
  pub locked : Bool
  pub valid : Bool
  pub type_ : ℕ
  pub major : ℕ
  pub minor : ℕ
  pub nlink : ℕ
  pub size : ℕ
  pub addrs : ℕ → ℕ

-- The bytes of each block of each device, `sb`, and `icache.inode`; a pointer to an inode is its index.
pub record Fs : Type 0 where
  pub block : ℕ → ℕ → ℕ → ℕ
  pub sb : Super
  pub inode : ℕ → Inode

-- Code: it yields a value and the new state, or panics.
abbrev pub Cmd : Type 0 → Type 0
Cmd A = Fs → Option (A × Fs)

abbrev pub panic : {A : Type 0} → Cmd A
panic s = none

module _ {A : Type 0} where
  abbrev pub pure : A → Cmd A
  pure a s = some (a, s)

  abbrev pub and_then : {B : Type 0} → Option (A × Fs) → (A → Cmd B) → Option (B × Fs)
  and_then none k = none
  and_then (some (a, s)) k = k a s

  infixl 5 ◌>>=◌ ◌>>◌
  abbrev pub ◌>>=◌ : {B : Type 0} → Cmd A → (A → Cmd B) → Cmd B
  ◌>>=◌ c k s = and_then (c s) k

  abbrev pub ◌>>◌ : {B : Type 0} → Cmd A → Cmd B → Cmd B
  ◌>>◌ c d s = and_then (c s) (λ _. d)

abbrev pub bread : ℕ → ℕ → Cmd (ℕ → ℕ)
bread dev n s = some (s.block dev n, s)

abbrev pub set_block : ℕ → ℕ → (ℕ → ℕ) → Fs → Fs
set_block dev n bytes s = record s { block = update s.block dev (update (s.block dev) n bytes) }

-- `log_write` of a buffer with the bytes `bytes`
abbrev pub log_write : ℕ → ℕ → (ℕ → ℕ) → Cmd (Unit {0})
log_write dev n bytes s = some (tt, set_block dev n bytes s)

abbrev pub sb_of : Cmd Super
sb_of s = some (s.sb, s)

abbrev pub inode_at : ℕ → Cmd Inode
inode_at p s = some (s.inode p, s)

abbrev pub set_inode : ℕ → Inode → Fs → Fs
set_inode p ip s = record s { inode = update s.inode p ip }

abbrev pub write_inode : ℕ → Inode → Cmd (Unit {0})
write_inode p ip s = some (tt, set_inode p ip s)
