-- ===== src/Fs/Data.antt =====
-- assignment-3/fs.c: reading and writing the contents of an inode. The functions of a device (`devsw`, console.c)
-- are a parameter, by the device's major number; `none` in a result stands for -1.
use cs_1217_operating_system.Base.{
  ℕ, zero, suc, ◌+◌, ◌-◌, ◌*◌, ◌/◌, ◌%◌, ◌^◌, ◌&&◌, ◌||◌, Option, none, some, List, [], ◌∷◌, ◌++◌,
  ltb, leb, ◌==◌, if◌then◌else◌,
}
use cs_1217_operating_system.Fs.{
  Inode, Cmd, pure, ◌>>=◌, ◌>>◌, bread, log_write, inode_at, write_inode,
}
use cs_1217_operating_system.Fs.Bytes.{Bytes, bsize, ndirect, nindirect}
use cs_1217_operating_system.Fs.Inodes.{iupdate}
use cs_1217_operating_system.Fs.Content.{bmap}

-- `NDEV` of param.h, `T_DIR` and `T_DEV` of stat.h
abbrev pub ndev : ℕ
ndev = 10

abbrev pub t_dir : ℕ
t_dir = 1

abbrev pub t_dev : ℕ
t_dev = 3

-- `struct stat`, less its name in the comment of stat.h
pub record Stat : Type 0 where
  pub dev : ℕ
  pub ino : ℕ
  pub type_ : ℕ
  pub nlink : ℕ
  pub size : ℕ

-- `stati`
unfoldable pub stati : Inode → Stat
stati ip = record {
  dev = ip.dev;
  ino = ip.inum;
  type_ = ip.type_;
  nlink = ip.nlink;
  size = ip.size;
}

-- `devsw`
pub record Devices : Type 0 where
  pub read : ℕ → Option (ℕ → Cmd (Option (List ℕ)))
  pub write : ℕ → Option (Bytes → ℕ → Cmd (Option ℕ))

-- `min(n - tot, BSIZE - off%BSIZE)`
abbrev pub min : ℕ → ℕ → ℕ
min a b = if ltb a b then a else b

abbrev pub chunk : ℕ → ℕ → ℕ
chunk left off = min left (bsize - off % bsize)

-- `k` bytes from `at` on
unfoldable pub slice : Bytes → ℕ → ℕ → List ℕ
slice bytes at zero = []
slice bytes at (suc k) = bytes at ∷ slice bytes (at + 1) k

-- The loop of `readi`, with `left` bytes to go
unfoldable pub read_from : ℕ → ℕ → ℕ → ℕ → Cmd (List ℕ)
unfolding bmap slice
read_from p zero off left = pure []
read_from p (suc k) off left = if left == 0 then pure [] else (do
  ip ← inode_at p
  b ← bmap p (off / bsize)
  bytes ← bread ip.dev b
  rest ← read_from p k (off + chunk left off) (left - chunk left off)
  pure (slice bytes (off % bsize) (chunk left off) ++ rest))

-- `readi`
unfoldable pub readi : Devices → ℕ → ℕ → ℕ → Cmd (Option (List ℕ))
unfolding read_from
readi devices p off n = do
  ip ← inode_at p
  let end : ℕ = (off + n) % 2 ^ 32
  let m : ℕ = if ltb ip.size end then ip.size - off else n
  if ip.type_ == t_dev
      then if leb ndev ip.major
        then pure none
        else elim (devices.read ip.major) [ none ↦ pure none | some f ↦ f n ]
      else if ltb ip.size off || ltb end off
      then pure none
      else (do bytes ← read_from p m off m; pure (some bytes))

-- `memmove(bp->data + at, src, m)`
abbrev pub splice : Bytes → ℕ → Bytes → ℕ → Bytes
splice bytes at src m i = if leb at i && ltb i (at + m) then src (i - at) else bytes i

-- The loop of `writei`: `src` has moved on with `off`.
unfoldable pub write_from : ℕ → ℕ → Bytes → ℕ → ℕ → Cmd (Unit {0})
unfolding bmap
write_from p zero src off left = pure tt
write_from p (suc k) src off left = if left == 0 then pure tt else (do
  ip ← inode_at p
  b ← bmap p (off / bsize)
  bytes ← bread ip.dev b
  log_write ip.dev b (splice bytes (off % bsize) src (chunk left off))
  write_from p k (λ i. src (chunk left off + i)) (off + chunk left off) (left - chunk left off))

-- `writei`
unfoldable pub writei : Devices → ℕ → Bytes → ℕ → ℕ → Cmd (Option ℕ)
unfolding write_from iupdate
writei devices p src off n = do
  ip ← inode_at p
  let end : ℕ = (off + n) % 2 ^ 32
  if ip.type_ == t_dev
      then if leb ndev ip.major
        then pure none
        else elim (devices.write ip.major) [ none ↦ pure none | some f ↦ f src n ]
      else if ltb ip.size off || ltb end off
      then pure none
      else if ltb ((ndirect + nindirect) * bsize) end
      then pure none
      else (do
        write_from p n src off n
        ip ← inode_at p
        if ltb 0 n && ltb ip.size (off + n)
            then write_inode p (record ip { size = off + n }) >> iupdate p
            else pure tt
        pure (some n))
