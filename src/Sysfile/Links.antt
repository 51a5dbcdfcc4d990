-- ===== src/Sysfile/Links.antt =====
-- assignment-3/sysfile.c: links and directories.
use cs_1217_operating_system.Base.{
  ℕ, zero, suc, ◌+◌, ◌-◌, ◌*◌, ◌/◌, ◌%◌, ◌^◌, Bool, true, false, ◌||◌, not, Option, none, some,
  List, [], ◌∷◌, ltb, leb, ◌==◌, if◌then◌else◌,
}
use cs_1217_operating_system.Fs.{Cmd, Inode, panic, pure, ◌>>=◌, ◌>>◌, inode_at, write_inode}
use cs_1217_operating_system.Fs.Bytes.{dirent_size}
use cs_1217_operating_system.Fs.Inodes.{ilock, iunlock, iupdate}
use cs_1217_operating_system.Fs.Content.{iput, iunlockput}
use cs_1217_operating_system.Fs.Data.{Devices, t_dir, readi, writei}
use cs_1217_operating_system.Fs.Dir.{namecmp, dirent_of, dirlookup, dirlink}
use cs_1217_operating_system.Fs.Path.{namei, nameiparent}

-- "." and ".."
abbrev pub dot : List ℕ
dot = 46 ∷ []

abbrev pub dot_dot : List ℕ
dot_dot = 46 ∷ 46 ∷ []

-- `nlink++` and `nlink--`, of a `short`
abbrev pub more_links : Inode → Inode
more_links ip = record ip { nlink = (ip.nlink + 1) % 2 ^ 16 }

abbrev pub fewer_links : Inode → Inode
fewer_links ip = record ip { nlink = (ip.nlink + (2 ^ 16 - 1)) % 2 ^ 16 }

-- The loop of `isdirempty`
unfoldable pub none_from : Devices → ℕ → ℕ → ℕ → Cmd Bool
unfolding readi dirent_of
none_from devices dp zero off = pure true
none_from devices dp (suc k) off = do
  dir ← inode_at dp
  if not (ltb off dir.size) then pure true else (do
    read ← readi devices dp off dirent_size
    de ← dirent_of read
    if de.inum == 0 then none_from devices dp k (off + dirent_size) else pure false)

-- `isdirempty`
unfoldable pub isdirempty : Devices → ℕ → Cmd Bool
unfolding none_from
isdirempty devices dp = do
  dir ← inode_at dp
  none_from devices dp (dir.size / dirent_size + 1) (2 * dirent_size)

-- `sys_link` at `bad`
unfoldable pub undo_link : ℕ → Cmd (Option ℕ)
unfolding ilock iupdate iunlockput
undo_link ip = do
  ilock ip
  node ← inode_at ip
  write_inode ip (fewer_links node)
  iupdate ip
  iunlockput ip
  pure none

-- `sys_link`, with the directory that it has found for the new name
unfoldable pub link_in : Devices → ℕ → ℕ → List ℕ → Cmd (Option ℕ)
unfolding ilock dirlink iunlockput iput undo_link
link_in devices ip dp name = do
  ilock dp
  dir ← inode_at dp
  node ← inode_at ip
  if not (dir.dev == node.dev) then iunlockput dp >> undo_link ip else (do
    linked ← dirlink devices dp name node.inum
    iunlockput dp
    elim linked [ none ↦ undo_link ip | some _ ↦ iput ip >> pure (some 0) ])

-- `sys_link`, between `begin_op` and `end_op`
unfoldable pub link_paths : Devices → ℕ → List ℕ → List ℕ → Cmd (Option ℕ)
unfolding namei ilock iunlockput iupdate iunlock nameiparent link_in undo_link
link_paths devices cwd old new = do
  found ← namei devices cwd old
  elim found [
    | none ↦ pure none
    | some ip ↦ do
      ilock ip
      node ← inode_at ip
      if node.type_ == t_dir then iunlockput ip >> pure none else (do
        write_inode ip (more_links node)
        iupdate ip
        iunlock ip
        parent ← nameiparent devices cwd new
        elim parent [ none ↦ undo_link ip | some (dp, name) ↦ link_in devices ip dp name ])
  ]

-- A write of other than a whole entry is a panic.
abbrev whole_entry : Option ℕ → Cmd (Unit {0})
whole_entry none = panic
whole_entry (some n) = if n == dirent_size then pure tt else panic

-- `sys_unlink`, with the entry that it takes away
unfoldable pub remove_entry : Devices → ℕ → ℕ → ℕ → Cmd (Option ℕ)
unfolding writei iupdate iunlockput
remove_entry devices dp ip off = do
  done ← writei devices dp (λ i. 0) off dirent_size
  whole_entry done
  node ← inode_at ip
  if node.type_ == t_dir
      then (do dir ← inode_at dp; write_inode dp (fewer_links dir); iupdate dp)
      else pure tt
  iunlockput dp
  node ← inode_at ip
  write_inode ip (fewer_links node)
  iupdate ip
  iunlockput ip
  pure (some 0)

-- `ip->type == T_DIR && !isdirempty(ip)`
unfoldable pub is_full_dir : Devices → ℕ → Cmd Bool
unfolding isdirempty
is_full_dir devices ip = do
  node ← inode_at ip
  if node.type_ == t_dir then (do empty ← isdirempty devices ip; pure (not empty)) else pure false

-- `sys_unlink`, with the entry that it has found
unfoldable pub unlink_entry : Devices → ℕ → ℕ → ℕ → Cmd (Option ℕ)
unfolding ilock is_full_dir iunlockput remove_entry
unlink_entry devices dp ip off = do
  ilock ip
  node ← inode_at ip
  if ltb node.nlink 1 || leb (2 ^ 15) node.nlink then panic else (do
    full ← is_full_dir devices ip
    if full then iunlockput ip >> iunlockput dp >> pure none else remove_entry devices dp ip off)

-- `sys_unlink`, between `begin_op` and `end_op`
unfoldable pub unlink_path : Devices → ℕ → List ℕ → Cmd (Option ℕ)
unfolding nameiparent ilock namecmp dirlookup unlink_entry iunlockput
unlink_path devices cwd path = do
  parent ← nameiparent devices cwd path
  elim parent [
    | none ↦ pure none
    | some (dp, name) ↦ do
      ilock dp
      if namecmp name dot || namecmp name dot_dot then iunlockput dp >> pure none else (do
        found ← dirlookup devices dp name
        elim found [
          | none ↦ iunlockput dp >> pure none
          | some (ip, off) ↦ unlink_entry devices dp ip off
        ])
  ]
