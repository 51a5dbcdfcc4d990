-- ===== src/Sysfile/Calls.antt =====
-- assignment-3/sysfile.c: the calls that take paths.
use cs_1217_operating_system.Base.{ℕ, ◌||◌, not, Option, none, some, List, ◌==◌, update}
use Prim.Native.Nat.{bit_and}
use cs_1217_operating_system.Syscall.{argint}
use cs_1217_operating_system.File.{File, fd_inode}
use cs_1217_operating_system.Fs.{Cmd}
use cs_1217_operating_system.Fs.Inodes.{iunlock}
use cs_1217_operating_system.Fs.Content.{iput, iunlockput}
use cs_1217_operating_system.Fs.Data.{Devices, t_dir, t_dev}
use cs_1217_operating_system.Sysfile.{
  World, Action, ret, ◌>>=◌, ◌>>◌, on_fs, on_option, the_world, enter_op, leave_op, string_arg,
  fdalloc, close_file,
}
use cs_1217_operating_system.Sysfile.Pipes.{alloc_file}
use cs_1217_operating_system.Sysfile.Links.{link_paths, unlink_path}
use cs_1217_operating_system.Sysfile.Create.{open_inode, make_node, find_dir}

-- `O_WRONLY` and `O_RDWR` of fcntl.h
abbrev pub o_wronly : ℕ
o_wronly = 1

abbrev pub o_rdwr : ℕ
o_rdwr = 2

-- A command of the file system in a transaction
abbrev pub in_op : Cmd (Option ℕ) → Action (Option ℕ)
in_op c = do enter_op; r ← on_fs c; leave_op; ret r

-- `sys_link`
unfoldable pub sys_link : Devices → Action (Option ℕ)
unfolding link_paths
sys_link devices = do
  w ← the_world
  on_option (string_arg w 0) (ret none) (λ old.
      on_option (string_arg w 1) (ret none) (λ new. in_op (link_paths devices w.cwd old new)))

-- `sys_unlink`
unfoldable pub sys_unlink : Devices → Action (Option ℕ)
unfolding unlink_path
sys_unlink devices = do
  w ← the_world
  on_option (string_arg w 0) (ret none) (λ path. in_op (unlink_path devices w.cwd path))

-- `f->type = FD_INODE` and the lines after it
abbrev pub opened : ℕ → ℕ → File → File
opened ip omode f = record f {
  type_ = fd_inode;
  ip = ip;
  off = 0;
  readable = bit_and omode o_wronly == 0;
  writable = not (bit_and omode o_wronly == 0) || not (bit_and omode o_rdwr == 0);
}

abbrev pub set_file : ℕ → (File → File) → Action (Unit {0})
set_file f g w = some (tt, record w { files = update w.files f (g (w.files f)) })

-- `sys_open`, without a file or a descriptor for it
unfoldable pub give_up : ℕ → Action (Option ℕ)
unfolding iunlockput
give_up ip = do on_fs (iunlockput ip); leave_op; ret none

-- `sys_open`, with the inode
unfoldable pub open_file : ℕ → ℕ → ℕ → Action (Option ℕ)
unfolding fdalloc close_file give_up iunlock
open_file end_ ip omode = do
  file ← alloc_file
  on_option file (give_up ip) (λ f. do
    slot ← fdalloc f
    on_option slot (close_file end_ f >> give_up ip)
        (λ fd. do on_fs (iunlock ip); leave_op; set_file f (opened ip omode); ret (some fd)))

-- `sys_open`, with its arguments
unfoldable pub open_path : Devices → ℕ → List ℕ → ℕ → Action (Option ℕ)
unfolding open_inode open_file
open_path devices end_ path omode = do
  enter_op
  w ← the_world
  found ← on_fs (open_inode devices w.cwd path omode)
  on_option found (leave_op >> ret none) (λ ip. open_file end_ ip omode)

-- `sys_open`
unfoldable pub sys_open : Devices → ℕ → Action (Option ℕ)
unfolding open_path
sys_open devices end_ = do
  w ← the_world
  on_option (string_arg w 0) (ret none)
      (λ path. on_option (argint w.user 1) (ret none) (λ omode. open_path devices end_ path omode))

-- `sys_mkdir`
unfoldable pub sys_mkdir : Devices → Action (Option ℕ)
unfolding make_node
sys_mkdir devices = do
  enter_op
  w ← the_world
  r ← on_option (string_arg w 0) (ret none) (λ path. on_fs (make_node devices w.cwd path t_dir 0 0))
  leave_op
  ret r

-- `sys_mknod`, with its arguments
abbrev pub mknod_args : World → Option (List ℕ × ℕ × ℕ)
mknod_args w = elim (string_arg w 0) [
  | none ↦ none
  | some path ↦ elim (argint w.user 1) [
    | none ↦ none
    | some major ↦ elim (argint w.user 2) [ none ↦ none | some minor ↦ some (path, major, minor) ]
  ]
]

-- `sys_mknod`
unfoldable pub sys_mknod : Devices → Action (Option ℕ)
unfolding make_node
sys_mknod devices = do
  enter_op
  w ← the_world
  r ←
      on_option (mknod_args w) (ret none)
        (λ (path, major, minor). on_fs (make_node devices w.cwd path t_dev major minor))
  leave_op
  ret r

abbrev pub set_cwd : ℕ → Action (Unit {0})
set_cwd ip w = some (tt, record w { cwd = ip })

-- `sys_chdir`
unfoldable pub sys_chdir : Devices → Action (Option ℕ)
unfolding find_dir iput
sys_chdir devices = do
  enter_op
  w ← the_world
  found ← on_option (string_arg w 0) (ret none) (λ path. on_fs (find_dir devices w.cwd path))
  on_option found (leave_op >> ret none)
      (λ ip. do on_fs (iput w.cwd); leave_op; set_cwd ip; ret (some 0))
