-- ===== src/Syscall.antt =====
-- assignment-3/syscall.c: how a system call's arguments are fetched from user memory, and the
-- dispatch with its trace. Addresses and registers are `uint`s, and the memory of the current
-- process is a function from addresses to bytes.
pub mod Numbers
pub mod Args
pub mod Trace
use Prim.Native.String.{String}
use cs_1217_operating_system.Base.{
  ℕ, zero, suc, ◌+◌, ◌-◌, ◌*◌, ◌%◌, ◌^◌, Bool, true, false, ◌&&◌, ◌||◌, Option, none, some, List,
  [], ◌∷◌, ltb, leb, ◌==◌, if◌then◌else◌,
}
use cs_1217_operating_system.Base.Int.{ℤ, pos, negsuc, pos_part, neg_part, ltb_ℤ}
use cs_1217_operating_system.Syscall.Numbers.{
  num_fork, num_exit, num_wait, num_pipe, num_read, num_kill, num_exec, num_fstat, num_chdir,
  num_dup, num_getpid, num_sbrk, num_sleep, num_uptime, num_open, num_write, num_mknod, num_unlink,
  num_link, num_mkdir, num_close, num_date,
}

-- The current process, as this file sees it: `sz`, its memory, `tf->esp` and `tf->eax`.
pub record User : Type 0 where
  pub sz : ℕ
  pub memory : ℕ → ℕ
  pub esp : ℕ
  pub eax : ℕ

abbrev pub add_uint : ℕ → ℕ → ℕ
add_uint a b = (a + b) % 2 ^ 32

-- The conversion of an `int` to `uint`.
abbrev pub to_uint : ℤ → ℕ
to_uint n = (pos_part n + (2 ^ 32 - neg_part n)) % 2 ^ 32

-- The four bytes from an address on, the low one first.
abbrev pub load_word : (ℕ → ℕ) → ℕ → ℕ
load_word m a =
    m a + m (add_uint a 1) * 256 + m (add_uint a 2) * 65536 + m (add_uint a 3) * 16777216

-- `fetchint`: the word, as a `uint`; `none` is -1.
unfoldable pub fetchint : User → ℕ → Option ℕ
fetchint u addr =
    if leb u.sz addr || ltb u.sz (add_uint addr 4) then none else some (load_word u.memory addr)

-- The loop of `fetchstr` from `s` on, with `k` bytes before the end of the process.
unfoldable pub find_nul : (ℕ → ℕ) → ℕ → ℕ → ℕ → Option ℕ
find_nul m start zero s = none
find_nul m start (suc k) s =
    let rest = find_nul m start k (s + 1) in if m s == 0 then some (s - start) else rest

-- `fetchstr`: the string's address and length.
unfoldable pub fetchstr : User → ℕ → Option (ℕ × ℕ)
unfolding find_nul
fetchstr u addr =
    if leb u.sz addr
    then none
    else elim (find_nul u.memory addr (u.sz - addr) addr) [ none ↦ none | some n ↦ some (addr, n) ]

-- `argint`
unfoldable pub argint : User → ℕ → Option ℕ
unfolding fetchint
argint u n = fetchint u (add_uint (add_uint u.esp 4) (4 * n))

-- `argptr`
unfoldable pub argptr : User → ℕ → ℤ → Option ℕ
unfolding argint
argptr u n size = elim (argint u n) [
  | none ↦ none
  | some i ↦
      if ltb_ℤ size (pos 0) || leb u.sz i || ltb u.sz (add_uint i (to_uint size))
      then none
      else some i
]

-- `argstr`
unfoldable pub argstr : User → ℕ → Option (ℕ × ℕ)
unfolding argint fetchstr
argstr u n = elim (argint u n) [ none ↦ none | some addr ↦ fetchstr u addr ]

-- The handlers
pub data Call : Type 0 where
  sys_fork sys_exit sys_wait sys_pipe sys_read sys_kill sys_exec sys_fstat sys_chdir sys_dup
        sys_getpid sys_sbrk sys_sleep sys_uptime sys_open sys_write sys_mknod sys_unlink sys_link
        sys_mkdir sys_close sys_date :
      Call

abbrev pub syscalls : List (ℕ × Call)
syscalls =
    (num_fork, sys_fork)
    ∷ (num_exit, sys_exit)
    ∷ (num_wait, sys_wait)
    ∷ (num_pipe, sys_pipe)
    ∷ (num_read, sys_read)
    ∷ (num_kill, sys_kill)
    ∷ (num_exec, sys_exec)
    ∷ (num_fstat, sys_fstat)
    ∷ (num_chdir, sys_chdir)
    ∷ (num_dup, sys_dup)
    ∷ (num_getpid, sys_getpid)
    ∷ (num_sbrk, sys_sbrk)
    ∷ (num_sleep, sys_sleep)
    ∷ (num_uptime, sys_uptime)
    ∷ (num_open, sys_open)
    ∷ (num_write, sys_write)
    ∷ (num_mknod, sys_mknod)
    ∷ (num_unlink, sys_unlink)
    ∷ (num_link, sys_link)
    ∷ (num_mkdir, sys_mkdir)
    ∷ (num_close, sys_close)
    ∷ (num_date, sys_date)
    ∷ []

abbrev pub syscall_names : List (ℕ × String)
syscall_names =
    (num_fork, "fork")
    ∷ (num_exit, "exit")
    ∷ (num_wait, "wait")
    ∷ (num_pipe, "pipe")
    ∷ (num_read, "read")
    ∷ (num_kill, "kill")
    ∷ (num_exec, "exec")
    ∷ (num_fstat, "fstat")
    ∷ (num_chdir, "chdir")
    ∷ (num_dup, "dup")
    ∷ (num_getpid, "getpid")
    ∷ (num_sbrk, "sbrk")
    ∷ (num_sleep, "sleep")
    ∷ (num_uptime, "uptime")
    ∷ (num_open, "open")
    ∷ (num_write, "write")
    ∷ (num_mknod, "mknod")
    ∷ (num_unlink, "unlink")
    ∷ (num_link, "link")
    ∷ (num_mkdir, "mkdir")
    ∷ (num_close, "close")
    ∷ (num_date, "date")
    ∷ []

-- The cases of the `switch` in `syscall`, each of which prints the name that `syscall_names` has and the result.
abbrev pub switch_cases : List ℕ
switch_cases =
    num_fork ∷ num_exit ∷ num_wait ∷ num_pipe ∷ num_read ∷ num_kill ∷ num_exec ∷ num_fstat
    ∷ num_chdir ∷ num_dup ∷ num_getpid ∷ num_sbrk ∷ num_sleep ∷ num_uptime ∷ num_open ∷ num_write
    ∷ num_mknod ∷ num_unlink ∷ num_link ∷ num_mkdir ∷ num_close ∷ num_date ∷ []

-- An element of an array that is initialised at the numbers of `rows`; `none` is the null pointer.
unfoldable pub entry {ℓ} : {A : Type ℓ} → ℕ → List (ℕ × A) → Option A
entry n [] = none
entry n ((k, a) ∷ rows) = let rest = entry n rows in if k == n then some a else rest

unfoldable pub is_case : ℕ → List ℕ → Bool
is_case n [] = false
is_case n (k ∷ ks) = (k == n) || is_case n ks

-- What `syscall` prints: a name, with the null pointer for none, and a result, or one of two texts for an
-- unknown number.
pub data Line : Type 0 where
  traced : (name : Option String) (result : ℕ) → Line
  unlisted : (num : ℕ) → Line
  unknown : (num : ℕ) → Line

-- `NELEM(syscalls)`
abbrev pub table_length : ℕ
table_length = 23

-- `run c` is what the handler of `c` returns, and how it leaves the process; `none` when it does not
-- return.
module _ (run : Call → User → Option (ℕ × User)) where
  -- `syscall`. The number is the `int` in `eax`, positive below 2 ^ 31.
  unfoldable pub syscall : User → Option (User × Line)
  unfolding entry is_case
  syscall u =
      let num = u.eax in
      let bad : Option (User × Line) = some (record u { eax = 2 ^ 32 - 1 }, unknown num) in
      if ltb 0 num && ltb num (2 ^ 31) && ltb num table_length
      then elim (entry num syscalls) [
        | none ↦ bad
        | some c ↦ elim (run c u) [
          | none ↦ none
          | some (r, u') ↦ some (
            record u' { eax = r },
            if is_case num switch_cases then traced (entry num syscall_names) r else unlisted num,
          )
        ]
      ]
      else bad
