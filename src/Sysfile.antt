-- ===== src/Sysfile.antt =====
-- assignment-3/sysfile.c: the system calls on files. This file has the state that they act on and the calls on file
-- descriptors; the children have the others. `none` in a result stands for -1, or for the null pointer.
pub mod Pipes
pub mod Links
pub mod Create
pub mod Calls
pub mod Descriptors
pub mod Empty
pub mod After
pub mod Sound
pub mod Kept
pub mod Opened
pub mod Piped
pub mod Run
mod Tests
use cs_1217_operating_system.Base.{
  ℕ, zero, suc, ◌+◌, ◌-◌, Bool, true, false, Option, none, some, List, [], ◌∷◌, leb, ◌==◌,
  if◌then◌else◌, update,
}
use cs_1217_operating_system.Syscall.{User, argint, argstr}
use cs_1217_operating_system.Kalloc.{Kmem, kfree}
use cs_1217_operating_system.Pipe.{Pipe, Channel, pipeclose}
use cs_1217_operating_system.File.{Files, Release, keep, close_pipe, put_inode, filedup, fileclose}
use cs_1217_operating_system.Fs.{Fs, Cmd}
use cs_1217_operating_system.Fs.Data.{slice}
use cs_1217_operating_system.Fs.Content.{iput}

-- `NOFILE` of param.h
abbrev pub nofile : ℕ
nofile = 16

-- What a call of the running process sees: its memory and registers, `ofile` and `cwd` of its `struct proc`, the table
-- of files, the pipes by their address, the free pages, the file system, and how many transactions of the log
-- the process has begun and not ended. `woken` are the channels of pipes that the call has woken.
pub record World : Type 0 where
  pub user : User
  pub ofile : ℕ → Option ℕ
  pub cwd : ℕ
  pub files : Files
  pub pipes : ℕ → Pipe
  pub woken : List (ℕ × Channel)
  pub kmem : Kmem
  pub fs : Fs
  pub open_ops : ℕ

-- Code on this state: it yields a value and the new state, or panics.
abbrev pub Action : Type 0 → Type 0
Action A = World → Option (A × World)

abbrev pub fail : {A : Type 0} → Action A
fail w = none

module _ {A : Type 0} where
  abbrev pub ret : A → Action A
  ret a w = some (a, w)

  abbrev pub go_on : {B : Type 0} → Option (A × World) → (A → Action B) → Option (B × World)
  go_on none k = none
  go_on (some (a, w)) k = k a w

  infixl 5 ◌>>=◌ ◌>>◌
  abbrev pub ◌>>=◌ : {B : Type 0} → Action A → (A → Action B) → Action B
  ◌>>=◌ c k w = go_on (c w) k

  abbrev pub ◌>>◌ : {B : Type 0} → Action A → Action B → Action B
  ◌>>◌ c d w = go_on (c w) (λ _. d)

  -- What a command of the file system leaves of the state
  abbrev pub with_fs : World → Option (A × Fs) → Option (A × World)
  with_fs w none = none
  with_fs w (some (a, s)) = some (a, record w { fs = s })

  -- A command of the file system
  abbrev pub on_fs : Cmd A → Action A
  on_fs c w = with_fs w (c w.fs)

-- A pointer or a number that may be missing: what is done without it, and with it
abbrev pub on_option : {A B : Type 0} → Option A → Action B → (A → Action B) → Action B
on_option none a k = a
on_option (some x) a k = k x

abbrev pub the_world : Action World
the_world w = some (w, w)

-- `begin_op` and `end_op`, as the process sees them: Log has what they do to the log.
abbrev pub enter_op : Action (Unit {0})
enter_op w = some (tt, record w { open_ops = w.open_ops + 1 })

abbrev pub leave_op : Action (Unit {0})
leave_op w = if w.open_ops == 0 then none else some (tt, record w { open_ops = w.open_ops - 1 })

-- The string that `argstr` fetches
abbrev pub string_arg : World → ℕ → Option (List ℕ)
string_arg w n = elim (argstr w.user n) [
  | none ↦ none
  | some (addr, len) ↦ some (slice w.user.memory addr len)
]

abbrev pub file_of : Option ℕ → ℕ → Option (ℕ × ℕ)
file_of none fd = none
file_of (some f) fd = some (fd, f)

-- `argfd`: the descriptor and its file. A word that is negative as an `int` is large as a `uint`.
unfoldable pub argfd : ℕ → World → Option (ℕ × ℕ)
argfd n w = elim (argint w.user n) [
  | none ↦ none
  | some fd ↦ if leb nofile fd then none else file_of (w.ofile fd) fd
]

abbrev pub set_ofile : ℕ → Option ℕ → Action (Unit {0})
set_ofile fd f w = some (tt, record w { ofile = update w.ofile fd f })

abbrev pub is_none : Option ℕ → Bool
is_none none = true
is_none (some f) = false

-- The loop of `fdalloc` over the `k` descriptors from `fd` on
unfoldable pub fdalloc_from : ℕ → ℕ → ℕ → Action (Option ℕ)
fdalloc_from f zero fd = ret none
fdalloc_from f (suc k) fd = do
  w ← the_world
  if is_none (w.ofile fd) then set_ofile fd (some f) >> ret (some fd) else fdalloc_from f k (fd + 1)

-- `fdalloc`
unfoldable pub fdalloc : ℕ → Action (Option ℕ)
unfolding fdalloc_from
fdalloc f = fdalloc_from f nofile 0

abbrev pub dupped : World → Option Files → Option (Unit {0} × World)
dupped w none = none
dupped w (some t) = some (tt, record w { files = t })

-- `filedup`
abbrev pub dup_file : ℕ → Action (Unit {0})
dup_file f w = dupped w (filedup f w.files)

-- `kfree`, `end_` being the first address after the kernel
abbrev pub free_page : ℕ → ℕ → Action (Unit {0})
free_page end_ v w = elim (kfree end_ v w.kmem) [
  | none ↦ none
  | some m ↦ some (tt, record w { kmem = m })
]

-- `pipeclose`, with the page that it frees
unfoldable pub close_end : ℕ → ℕ → Bool → Action (Unit {0})
close_end end_ at writable w =
    let (p, channel, freed) = pipeclose writable (w.pipes at) in
    let w' : World = record w { pipes = update w.pipes at p; woken = (at, channel) ∷ w.woken } in
    if freed then free_page end_ at w' else some (tt, w')

-- `fileclose`, from where it has released its lock
unfoldable pub let_go : ℕ → Release → Action (Unit {0})
unfolding close_end iput
let_go end_ keep = ret tt
let_go end_ (close_pipe at writable) = close_end end_ at writable
let_go end_ (put_inode ip) = do enter_op; on_fs (iput ip); leave_op

-- `fileclose`
unfoldable pub close_file : ℕ → ℕ → Action (Unit {0})
unfolding let_go
close_file end_ f w = elim (fileclose f w.files) [
  | none ↦ none
  | some (r, t) ↦ let_go end_ r (record w { files = t })
]

-- `sys_dup`
unfoldable pub sys_dup : Action (Option ℕ)
unfolding argfd fdalloc
sys_dup = do
  w ← the_world
  on_option (argfd 0 w) (ret none) (λ (old, f). do
    found ← fdalloc f
    on_option found (ret none) (λ fd. dup_file f >> ret (some fd)))

-- `sys_close`
unfoldable pub sys_close : ℕ → Action (Option ℕ)
unfolding argfd close_file
sys_close end_ = do
  w ← the_world
  on_option (argfd 0 w) (ret none)
      (λ (fd, f). do set_ofile fd none; close_file end_ f; ret (some 0))
