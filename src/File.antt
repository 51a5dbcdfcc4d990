-- ===== src/File.antt =====
-- assignment-3/file.c: the table of open files and their reference counts. `ftable.lock` is held where
-- the table is read or changed; a pointer to a file is its index.
pub mod Io
pub mod Refs
use cs_1217_operating_system.Base.{
  ℕ, zero, suc, ◌+◌, ◌-◌, Bool, true, false, Option, none, some, ltb, ◌==◌, if◌then◌else◌, update,
}

-- `NFILE` of param.h
abbrev pub nfile : ℕ
nfile = 100

pub data FileType : Type 0 where
  fd_none fd_pipe fd_inode : FileType

-- `struct file` of file.h; `pipe` and `ip` are addresses.
pub record File : Type 0 where
  pub type_ : FileType
  pub ref : ℕ
  pub readable : Bool
  pub writable : Bool
  pub pipe : ℕ
  pub ip : ℕ
  pub off : ℕ

abbrev pub Files : Type 0
Files = ℕ → File

-- The loop of `filealloc`, over the `k` files from `f` on.
unfoldable pub alloc_from : Files → ℕ → ℕ → Option ℕ × Files
alloc_from t zero f = (none, t)
alloc_from t (suc k) f =
    let rest = alloc_from t k (f + 1) in
    if (t f).ref == 0 then (some f, update t f (record (t f) { ref = 1 })) else rest

unfoldable pub filealloc : Files → Option ℕ × Files
unfolding alloc_from
filealloc t = alloc_from t nfile 0

-- `filedup`; `none` is the panic.
unfoldable pub filedup : ℕ → Files → Option Files
filedup f t =
    if ltb (t f).ref 1 then none else some (update t f (record (t f) { ref = (t f).ref + 1 }))

-- What `fileclose` calls once it has released the lock: nothing, `pipeclose`, or `iput` within a
-- transaction of the log.
pub data Release : Type 0 where
  keep : Release
  close_pipe : (pipe : ℕ) (writable : Bool) → Release
  put_inode : (ip : ℕ) → Release

abbrev pub release_of : File → Release
release_of f = elim f.type_ [
  | fd_none ↦ keep
  | fd_pipe ↦ close_pipe f.pipe f.writable
  | fd_inode ↦ put_inode f.ip
]

-- `fileclose`; `none` is the panic.
unfoldable pub fileclose : ℕ → Files → Option (Release × Files)
fileclose f t =
    if ltb (t f).ref 1
    then none
    else if ltb 0 ((t f).ref - 1)
    then some (keep, update t f (record (t f) { ref = (t f).ref - 1 }))
    else some (release_of (t f), update t f (record (t f) { ref = 0; type_ = fd_none }))
