-- ===== src/Log.antt =====
-- assignment-3/log.c: the write-ahead log of the file system. A block is its 32-bit words, a disk a
-- function from block numbers to blocks. The buffer cache (bio.c, ide.c) enters by its contract: `view b` is what
-- `bread` returns for block `b`, `bwrite` sends that to the disk and clears B_DIRTY, and a buffer
-- with B_DIRTY is not evicted. An operation yields the new state and the disk writes it makes, in
-- order, so that a crash is a prefix of those writes.
pub mod Ops
pub mod Copy
pub mod Header
pub mod Transaction
pub mod Commit
pub mod Recover
pub mod Crash
pub mod Space
mod Tests
use cs_1217_operating_system.Base.{
  ℕ, zero, suc, ◌+◌, ◌*◌, ◌<◌, ◌≡◌, Bool, true, false, List, [], ◌∷◌, ◌++◌, ltb, ◌==◌,
  if◌then◌else◌, update,
}
use cs_1217_operating_system.Base.Int.{ℤ}

abbrev pub Block : Type 0
Block = ℕ → ℕ

abbrev pub Disk : Type 0
Disk = ℕ → Block

-- A disk write: the block number and the contents.
abbrev pub Write : Type 0
Write = ℕ × Block

-- `MAXOPBLOCKS` and `LOGSIZE` of param.h
abbrev pub max_op_blocks : ℕ
max_op_blocks = 10

abbrev pub log_size : ℕ
log_size = 30

-- `struct logheader`
pub record LogHeader : Type 0 where
  pub n : ℕ
  pub block : ℕ → ℕ

-- `struct log`; the lock is held wherever a step below reads or changes `outstanding`,
-- `committing` or `lh`, and `dev` is the one disk.
pub record LogState : Type 0 where
  pub start : ℕ
  pub size : ℕ
  pub outstanding : ℤ
  pub committing : Bool
  pub lh : LogHeader

pub record System : Type 0 where
  pub log : LogState
  pub view : ℕ → Block
  pub dirty : ℕ → Bool

abbrev pub Op : Type 0
Op = System → System × List Write

infixl 5 ◌>>◌
abbrev pub ◌>>◌ : Op → Op → Op
◌>>◌ f g s = ((g (f s).0).0, (f s).1 ++ (g (f s).0).1)

abbrev pub skip : Op
skip s = (s, [])

-- `memmove(dbuf->data, lbuf->data, BSIZE)` on the cached copies
abbrev pub copy_block : ℕ → ℕ → Op
copy_block src dst s = (record s { view = update s.view dst (s.view src) }, [])

abbrev pub bwrite : ℕ → Op
bwrite b s = (record s { dirty = update s.dirty b false }, (b, s.view b) ∷ [])

-- The loop of `write_log` and of `install_trans`: for each `tail`, the cached block `from tail` is
-- copied over block `to tail`, which is written to disk.
unfoldable pub copy_loop : (ℕ → ℕ) → (ℕ → ℕ) → ℕ → ℕ → Op
copy_loop from to zero tail = skip
copy_loop from to (suc k) tail = do
  copy_block (from tail) (to tail)
  bwrite (to tail)
  copy_loop from to k (tail + 1)

unfoldable pub install_trans : Op
install_trans s = copy_loop (λ tail. s.log.start + tail + 1) s.log.lh.block s.log.lh.n 0 s

unfoldable pub write_log : Op
write_log s = copy_loop s.log.lh.block (λ tail. s.log.start + tail + 1) s.log.lh.n 0 s

-- `for (i = 0; i < n; i++) dst[d + i] = src[s + i];`
unfoldable pub copy_words : ℕ → ℕ → ℕ → (ℕ → ℕ) → (ℕ → ℕ) → ℕ → ℕ
copy_words zero d s src dst = dst
copy_words (suc n) d s src dst = copy_words n (d + 1) (s + 1) src (update dst d (src s))

-- Word 0 of the header block is `n`, word `1 + i` is `block[i]`.
unfoldable pub read_head : Op
unfolding copy_words
read_head s =
    let hdr = s.view s.log.start in
    let lh : LogHeader = record { n = hdr 0; block = copy_words (hdr 0) 0 1 hdr s.log.lh.block } in
    (record s { log = record (s.log) { lh = lh } }, [])

unfoldable pub head_block : LogHeader → Block → Block
unfolding copy_words
head_block lh hdr = copy_words lh.n 1 0 lh.block (update hdr 0 lh.n)

unfoldable pub write_head : Op
unfolding head_block
write_head s =
    bwrite s.log.start
      (record s { view = update s.view s.log.start (head_block s.log.lh (s.view s.log.start)) })

-- `log.lh.n = 0;`
abbrev pub clear_head : Op
clear_head s = (record s { log = record (s.log) { lh = record (s.log.lh) { n = 0 } } }, [])

unfoldable pub recover_from_log : Op
unfolding read_head install_trans write_head
recover_from_log = do read_head; install_trans; clear_head; write_head

-- `commit`, run while `committing` is set, without the lock
unfoldable pub commit : Op
unfolding write_log write_head install_trans
commit s =
    if ltb 0 s.log.lh.n
    then (do write_log; write_head; install_trans; clear_head; write_head) s
    else skip s

-- `initlog` after the size test, which holds for the constants above: the place of the log comes
-- from the superblock, and the log is recovered.
unfoldable pub initlog : ℕ → ℕ → Op
unfolding recover_from_log
initlog logstart nlog s =
    recover_from_log (record s { log = record (s.log) { start = logstart; size = nlog } })

-- What a list of writes makes of a disk.
abbrev pub replay : List Write → Disk → Disk
replay [] d = d
replay ((b, v) ∷ ws) d = replay ws (update d b v)
