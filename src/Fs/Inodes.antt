-- ===== src/Fs/Inodes.antt =====
-- assignment-3/fs.c: the cache of inodes and the inodes on the disk. `ref` is an `int` of 32 bits.
use cs_1217_operating_system.Base.{
  ℕ, zero, suc, ◌+◌, ◌%◌, ◌^◌, Bool, true, false, ◌&&◌, ◌||◌, not, Option, none, some, ltb, ◌==◌,
  if◌then◌else◌,
}
use cs_1217_operating_system.Fs.{
  Inode, Cmd, panic, ◌>>=◌, ◌>>◌, bread, log_write, sb_of, inode_at, set_inode, write_inode,
}
use cs_1217_operating_system.Fs.Bytes.{
  get16, put16, iblock, slot, dinode_size, put_dinode, get_dinode, zeros,
}

-- `NINODE` of param.h
abbrev pub ninode : ℕ
ninode = 50

-- `ref > 0`
abbrev pub is_used : Inode → Bool
is_used ip = ltb 0 ip.ref && ltb ip.ref (2 ^ 31)

abbrev pub is_for : ℕ → ℕ → Inode → Bool
is_for dev inum ip = is_used ip && (ip.dev == dev) && (ip.inum == inum)

-- How the loop of `iget` ends: at an inode it can use again, or with `empty`.
pub data Search : Type 0 where
  hit : (p : ℕ) → Search
  miss : (empty : Option ℕ) → Search

-- `if(empty == 0 && ip->ref == 0) empty = ip`
abbrev pub remember : (ℕ → Inode) → ℕ → Option ℕ → Option ℕ
remember inode p (some e) = some e
remember inode p none = if (inode p).ref == 0 then some p else none

-- The loop over the `k` entries from `p` on
unfoldable pub search : (ℕ → Inode) → ℕ → ℕ → ℕ → ℕ → Option ℕ → Search
search inode dev inum zero p empty = miss empty
search inode dev inum (suc k) p empty =
    let rest = search inode dev inum k (p + 1) (remember inode p empty) in
    if is_for dev inum (inode p) then hit p else rest

unfoldable pub take_entry : ℕ → ℕ → Search → Cmd ℕ
take_entry dev inum (hit p) s =
    some (p, set_inode p (record (s.inode p) { ref = ((s.inode p).ref + 1) % 2 ^ 32 }) s)
take_entry dev inum (miss none) s = none
take_entry dev inum (miss (some p)) s =
    some (p, set_inode p (record (s.inode p) { dev = dev; inum = inum; ref = 1; valid = false }) s)

-- `iget`
unfoldable pub iget : ℕ → ℕ → Cmd ℕ
unfolding search take_entry
iget dev inum s = take_entry dev inum (search s.inode dev inum ninode 0 none) s

-- `idup`
unfoldable pub idup : ℕ → Cmd ℕ
idup p s = some (p, set_inode p (record (s.inode p) { ref = ((s.inode p).ref + 1) % 2 ^ 32 }) s)

-- The loop of `ialloc`, over `k` numbers from `inum` on
unfoldable pub ialloc_from : ℕ → ℕ → ℕ → ℕ → Cmd ℕ
unfolding iget zeros
ialloc_from dev type_ zero inum = panic
ialloc_from dev type_ (suc k) inum = do
  sb ← sb_of
  bytes ← bread dev (iblock inum sb)
  if not (ltb inum sb.ninodes)
      then panic
      else if get16 bytes (slot inum) == 0
      then log_write dev (iblock inum sb)
          (put16 (zeros bytes (slot inum) dinode_size) (slot inum) type_)
        >> iget dev inum
      else ialloc_from dev type_ k (inum + 1)

-- `ialloc`
unfoldable pub ialloc : ℕ → ℕ → Cmd ℕ
unfolding ialloc_from
ialloc dev type_ = do sb ← sb_of; ialloc_from dev type_ sb.ninodes 1

-- `iupdate`
unfoldable pub iupdate : ℕ → Cmd (Unit {0})
unfolding put_dinode
iupdate p = do
  ip ← inode_at p
  sb ← sb_of
  bytes ← bread ip.dev (iblock ip.inum sb)
  log_write ip.dev (iblock ip.inum sb) (put_dinode (slot ip.inum) ip bytes)

-- `ilock`, once the sleep lock is free
unfoldable pub ilock : ℕ → Cmd (Unit {0})
unfolding get_dinode
ilock p = do
  ip ← inode_at p
  sb ← sb_of
  bytes ← bread ip.dev (iblock ip.inum sb)
  let held : Inode = record ip { locked = true }
  let read : Inode = record (get_dinode (slot ip.inum) bytes held) { valid = true }
  if not (is_used ip)
      then panic
      else if ip.valid
      then write_inode p held
      else if read.type_ == 0
      then panic
      else write_inode p read

-- `iunlock`
unfoldable pub iunlock : ℕ → Cmd (Unit {0})
iunlock p = do
  ip ← inode_at p
  if not ip.locked || not (is_used ip) then panic else write_inode p (record ip { locked = false })
