-- ===== src/Fs/Content.antt =====
-- assignment-3/fs.c: the blocks of an inode, and giving an inode back.
use cs_1217_operating_system.Base.{
  ℕ, zero, suc, ◌+◌, ◌-◌, ◌*◌, ◌%◌, ◌^◌, true, false, ◌&&◌, ltb, ◌==◌, if◌then◌else◌, update,
}
use cs_1217_operating_system.Fs.{
  Cmd, panic, pure, ◌>>=◌, ◌>>◌, bread, log_write, inode_at, write_inode,
}
use cs_1217_operating_system.Fs.Bytes.{Bytes, get32, put32, ndirect, nindirect}
use cs_1217_operating_system.Fs.Blocks.{balloc, bfree}
use cs_1217_operating_system.Fs.Inodes.{iupdate, iunlock}

-- `if((addr = ip->addrs[i]) == 0) ip->addrs[i] = addr = balloc(ip->dev)`
unfoldable pub own_block : ℕ → ℕ → Cmd ℕ
unfolding balloc
own_block p i = do
  ip ← inode_at p
  if ip.addrs i == 0
      then (do
        addr ← balloc ip.dev
        ip ← inode_at p
        write_inode p (record ip { addrs = update ip.addrs i addr })
        pure addr)
      else pure (ip.addrs i)

-- The block of an indirect block `addr` at index `bn`
unfoldable pub indirect : ℕ → ℕ → ℕ → Cmd ℕ
unfolding balloc
indirect dev addr bn = do
  bytes ← bread dev addr
  let found : ℕ = get32 bytes (4 * bn)
  if found == 0
      then (do new ← balloc dev; log_write dev addr (put32 bytes (4 * bn) new); pure new)
      else pure found

-- `bmap`
unfoldable pub bmap : ℕ → ℕ → Cmd ℕ
unfolding own_block indirect
bmap p bn =
    if ltb bn ndirect
    then own_block p bn
    else if ltb (bn - ndirect) nindirect
    then (do addr ← own_block p ndirect; ip ← inode_at p; indirect ip.dev addr (bn - ndirect))
    else panic

-- The first loop of `itrunc`
unfoldable pub free_direct : ℕ → ℕ → ℕ → Cmd (Unit {0})
unfolding bfree
free_direct p zero i = pure tt
free_direct p (suc k) i = do
  ip ← inode_at p
  if ip.addrs i == 0
      then pure tt
      else bfree ip.dev (ip.addrs i) >> write_inode p (record ip { addrs = update ip.addrs i 0 })
  free_direct p k (i + 1)

-- The second loop, over the words of the indirect block
unfoldable pub free_listed : ℕ → Bytes → ℕ → ℕ → Cmd (Unit {0})
unfolding bfree
free_listed dev bytes zero j = pure tt
free_listed dev bytes (suc k) j = do
  if get32 bytes (4 * j) == 0 then pure tt else bfree dev (get32 bytes (4 * j))
  free_listed dev bytes k (j + 1)

unfoldable pub free_indirect : ℕ → Cmd (Unit {0})
unfolding free_listed bfree
free_indirect p = do
  ip ← inode_at p
  bytes ← bread ip.dev (ip.addrs ndirect)
  if ip.addrs ndirect == 0 then pure tt else (do
    free_listed ip.dev bytes nindirect 0
    bfree ip.dev (ip.addrs ndirect)
    write_inode p (record ip { addrs = update ip.addrs ndirect 0 }))

-- `itrunc`
unfoldable pub itrunc : ℕ → Cmd (Unit {0})
unfolding free_direct free_indirect iupdate
itrunc p = do
  free_direct p ndirect 0
  free_indirect p
  ip ← inode_at p
  write_inode p (record ip { size = 0 })
  iupdate p

-- The part of `iput` that frees an inode
unfoldable pub free_inode : ℕ → Cmd (Unit {0})
unfolding itrunc iupdate
free_inode p = do
  itrunc p
  ip ← inode_at p
  write_inode p (record ip { type_ = 0 })
  iupdate p
  ip ← inode_at p
  write_inode p (record ip { valid = false })

-- `iput`, once the sleep lock is free
unfoldable pub iput : ℕ → Cmd (Unit {0})
unfolding free_inode
iput p = do
  ip ← inode_at p
  write_inode p (record ip { locked = true })
  if ip.valid && (ip.nlink == 0) && (ip.ref == 1) then free_inode p else pure tt
  ip ← inode_at p
  write_inode p (record ip { locked = false; ref = (ip.ref + (2 ^ 32 - 1)) % 2 ^ 32 })

-- `iunlockput`
unfoldable pub iunlockput : ℕ → Cmd (Unit {0})
unfolding iunlock iput
iunlockput p = iunlock p >> iput p
