-- ===== src/Sysfile/Create.antt =====
-- assignment-3/sysfile.c: creating and opening inodes by a path.
use cs_1217_operating_system.Base.{
  ℕ, ◌%◌, ◌^◌, ◌&&◌, not, Option, none, some, List, ◌==◌, if◌then◌else◌,
}
use Prim.Native.Nat.{bit_and}
use cs_1217_operating_system.Fs.{Cmd, panic, pure, ◌>>=◌, ◌>>◌, inode_at, write_inode}
use cs_1217_operating_system.Fs.Inodes.{ialloc, ilock, iunlock, iupdate}
use cs_1217_operating_system.Fs.Content.{iunlockput}
use cs_1217_operating_system.Fs.Data.{Devices, t_dir}
use cs_1217_operating_system.Fs.Dir.{dirlookup, dirlink}
use cs_1217_operating_system.Fs.Path.{namei, nameiparent}
use cs_1217_operating_system.Sysfile.Links.{dot, dot_dot, more_links}

-- `T_FILE` of stat.h; `O_RDONLY` and `O_CREATE` of fcntl.h
abbrev pub t_file : ℕ
t_file = 2

abbrev pub o_rdonly : ℕ
o_rdonly = 0

abbrev pub o_create : ℕ
o_create = 512

-- A `dirlink` that fails is a panic.
abbrev linked : Option ℕ → Cmd (Unit {0})
linked none = panic
linked (some r) = pure tt

-- `create`, for a directory: its entries "." and ".."
unfoldable pub make_dots : Devices → ℕ → ℕ → Cmd (Unit {0})
unfolding iupdate dirlink
make_dots devices dp ip = do
  dir ← inode_at dp
  write_inode dp (more_links dir)
  iupdate dp
  node ← inode_at ip
  one ← dirlink devices ip dot node.inum
  linked one
  dir ← inode_at dp
  two ← dirlink devices ip dot_dot dir.inum
  linked two

-- `create`, when the name is new
unfoldable pub create_new : Devices → ℕ → List ℕ → ℕ → ℕ → ℕ → Cmd (Option ℕ)
unfolding ialloc ilock iupdate make_dots dirlink iunlockput
create_new devices dp name type_ major minor = do
  dir ← inode_at dp
  ip ← ialloc dir.dev type_
  ilock ip
  node ← inode_at ip
  write_inode ip (record node { major = major; minor = minor; nlink = 1 })
  iupdate ip
  if type_ == t_dir then make_dots devices dp ip else pure tt
  node ← inode_at ip
  done ← dirlink devices dp name node.inum
  linked done
  iunlockput dp
  pure (some ip)

-- `create`, when the name is there
unfoldable pub create_found : ℕ → ℕ → ℕ → Cmd (Option ℕ)
unfolding ilock iunlockput
create_found dp ip type_ = do
  iunlockput dp
  ilock ip
  node ← inode_at ip
  if (type_ == t_file) && (node.type_ == t_file) then pure (some ip) else iunlockput ip >> pure none

-- `create`; `major` and `minor` are `short`s.
unfoldable pub create : Devices → ℕ → List ℕ → ℕ → ℕ → ℕ → Cmd (Option ℕ)
unfolding nameiparent ilock dirlookup create_found create_new
create devices cwd path type_ major minor = do
  parent ← nameiparent devices cwd path
  elim parent [
    | none ↦ pure none
    | some (dp, name) ↦ do
      ilock dp
      found ← dirlookup devices dp name
      elim found [
        | some (ip, off) ↦ create_found dp ip type_
        | none ↦ create_new devices dp name type_ (major % 2 ^ 16) (minor % 2 ^ 16)
      ]
  ]

-- `sys_open`: the inode
unfoldable pub open_inode : Devices → ℕ → List ℕ → ℕ → Cmd (Option ℕ)
unfolding create namei ilock iunlockput
open_inode devices cwd path omode =
    if not (bit_and omode o_create == 0) then create devices cwd path t_file 0 0 else (do
      found ← namei devices cwd path
      elim found [
        | none ↦ pure none
        | some ip ↦ do
          ilock ip
          node ← inode_at ip
          if (node.type_ == t_dir) && not (omode == o_rdonly)
              then iunlockput ip >> pure none
              else pure (some ip)
      ])

-- `create`, and the release of what it has created
unfoldable pub make_node : Devices → ℕ → List ℕ → ℕ → ℕ → ℕ → Cmd (Option ℕ)
unfolding create iunlockput
make_node devices cwd path type_ major minor = do
  made ← create devices cwd path type_ major minor
  elim made [ none ↦ pure none | some ip ↦ iunlockput ip >> pure (some 0) ]

-- `sys_chdir`: the directory, with a reference
unfoldable pub find_dir : Devices → ℕ → List ℕ → Cmd (Option ℕ)
unfolding namei ilock iunlockput iunlock
find_dir devices cwd path = do
  found ← namei devices cwd path
  elim found [
    | none ↦ pure none
    | some ip ↦ do
      ilock ip
      node ← inode_at ip
      if not (node.type_ == t_dir) then iunlockput ip >> pure none else iunlock ip >> pure (some ip)
  ]
