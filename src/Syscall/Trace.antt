-- ===== src/Syscall/Trace.antt =====
-- assignment-3/syscall.c: which handler a number calls, what the caller gets, and what is printed.
use Prim.Native.String.{String}
use cs_1217_operating_system.Base.{
  ℕ, ◌-◌, ◌^◌, ◌≡◌, ◌≢◌, ◌⊎◌, refl, sym, ap, ◌∙◌, true, ◌&&◌, Option, none, some, List, [], ◌∷◌,
  ltb, ◌==◌, Bool-cases, Option-cases, inl, inr, some_inj, none-ne-some, ==_iff, Bool, false,
}
use cs_1217_operating_system.Syscall.{
  User, Call, syscalls, syscall_names, switch_cases, entry, is_case, Line, traced, unknown,
  table_length, syscall, sys_fork, sys_exit, sys_wait, sys_pipe, sys_read, sys_kill, sys_exec,
  sys_fstat, sys_chdir, sys_dup, sys_getpid, sys_sbrk, sys_sleep, sys_uptime, sys_open, sys_write,
  sys_mknod, sys_unlink, sys_link, sys_mkdir, sys_close, sys_date,
}
use cs_1217_operating_system.Syscall.Numbers.{
  num_fork, num_exit, num_wait, num_pipe, num_read, num_kill, num_exec, num_fstat, num_chdir,
  num_dup, num_getpid, num_sbrk, num_sleep, num_uptime, num_open, num_write, num_mknod, num_unlink,
  num_link, num_mkdir, num_close, num_date,
}

-- The number that syscall.h gives a handler.
abbrev pub number : Call → ℕ
number sys_fork = num_fork
number sys_exit = num_exit
number sys_wait = num_wait
number sys_pipe = num_pipe
number sys_read = num_read
number sys_kill = num_kill
number sys_exec = num_exec
number sys_fstat = num_fstat
number sys_chdir = num_chdir
number sys_dup = num_dup
number sys_getpid = num_getpid
number sys_sbrk = num_sbrk
number sys_sleep = num_sleep
number sys_uptime = num_uptime
number sys_open = num_open
number sys_write = num_write
number sys_mknod = num_mknod
number sys_unlink = num_unlink
number sys_link = num_link
number sys_mkdir = num_mkdir
number sys_close = num_close
number sys_date = num_date

-- The name of a handler, without its prefix.
abbrev pub name_of : Call → String
name_of sys_fork = "fork"
name_of sys_exit = "exit"
name_of sys_wait = "wait"
name_of sys_pipe = "pipe"
name_of sys_read = "read"
name_of sys_kill = "kill"
name_of sys_exec = "exec"
name_of sys_fstat = "fstat"
name_of sys_chdir = "chdir"
name_of sys_dup = "dup"
name_of sys_getpid = "getpid"
name_of sys_sbrk = "sbrk"
name_of sys_sleep = "sleep"
name_of sys_uptime = "uptime"
name_of sys_open = "open"
name_of sys_write = "write"
name_of sys_mknod = "mknod"
name_of sys_unlink = "unlink"
name_of sys_link = "link"
name_of sys_mkdir = "mkdir"
name_of sys_close = "close"
name_of sys_date = "date"

-- What the tables and the `switch` must have for a handler.
record IsListed (c : Call) : Type 0 where
  in_range : (ltb 0 (number c) && ltb (number c) (2 ^ 31) && ltb (number c) table_length) ≡ true
  handler : entry (number c) syscalls ≡ some c
  name : entry (number c) syscall_names ≡ some (name_of c)
  printed : is_case (number c) switch_cases ≡ true

call-IsListed : (c : Call) → IsListed c
unfolding entry is_case
call-IsListed sys_fork = record { in_range = refl; handler = refl; name = refl; printed = refl }
call-IsListed sys_exit = record { in_range = refl; handler = refl; name = refl; printed = refl }
call-IsListed sys_wait = record { in_range = refl; handler = refl; name = refl; printed = refl }
call-IsListed sys_pipe = record { in_range = refl; handler = refl; name = refl; printed = refl }
call-IsListed sys_read = record { in_range = refl; handler = refl; name = refl; printed = refl }
call-IsListed sys_kill = record { in_range = refl; handler = refl; name = refl; printed = refl }
call-IsListed sys_exec = record { in_range = refl; handler = refl; name = refl; printed = refl }
call-IsListed sys_fstat = record { in_range = refl; handler = refl; name = refl; printed = refl }
call-IsListed sys_chdir = record { in_range = refl; handler = refl; name = refl; printed = refl }
call-IsListed sys_dup = record { in_range = refl; handler = refl; name = refl; printed = refl }
call-IsListed sys_getpid = record { in_range = refl; handler = refl; name = refl; printed = refl }
call-IsListed sys_sbrk = record { in_range = refl; handler = refl; name = refl; printed = refl }
call-IsListed sys_sleep = record { in_range = refl; handler = refl; name = refl; printed = refl }
call-IsListed sys_uptime = record { in_range = refl; handler = refl; name = refl; printed = refl }
call-IsListed sys_open = record { in_range = refl; handler = refl; name = refl; printed = refl }
call-IsListed sys_write = record { in_range = refl; handler = refl; name = refl; printed = refl }
call-IsListed sys_mknod = record { in_range = refl; handler = refl; name = refl; printed = refl }
call-IsListed sys_unlink = record { in_range = refl; handler = refl; name = refl; printed = refl }
call-IsListed sys_link = record { in_range = refl; handler = refl; name = refl; printed = refl }
call-IsListed sys_mkdir = record { in_range = refl; handler = refl; name = refl; printed = refl }
call-IsListed sys_close = record { in_range = refl; handler = refl; name = refl; printed = refl }
call-IsListed sys_date = record { in_range = refl; handler = refl; name = refl; printed = refl }

-- Whether each row has the number of its handler.
abbrev agree : List (ℕ × Call) → Bool
agree [] = true
agree ((k, c) ∷ rows) = (number c == k) && agree rows

and_left : (a b : Bool) → (a && b) ≡ true → a ≡ true
and_left true b h = refl
and_left false b h = cc

and_right : (a b : Bool) → (a && b) ≡ true → b ≡ true
and_right true b h = h
and_right false b h = cc

entry_row :
    (n : ℕ) (rows : List (ℕ × Call)) (c : Call)
    → agree rows ≡ true
    → entry n rows ≡ some c
    → number c ≡ n
unfolding entry
entry_row n [] c all h = cc
entry_row n ((k, d) ∷ rows) c all h = elim (Bool-cases (k == n)) [
  | inl e ↦
      let same = some_inj d c (rw e at h) in
      ap number (sym same) ∙ (==_iff (number d) k).0 (and_left _ _ all) ∙ (==_iff k n).0 e
  | inr ne ↦ entry_row n rows c (and_right _ _ all) (rw ne at h)
]

-- A number of the table of handlers is the number of its handler.
entry-number : (n : ℕ) (c : Call) → entry n syscalls ≡ some c → number c ≡ n
entry-number n c h = entry_row n syscalls c refl h

-- What the caller gets for the call's result.
abbrev pub answer : Call → Option (ℕ × User) → Option (User × Line)
answer c none = none
answer c (some (r, u)) = some (record u { eax = r }, traced (some (name_of c)) r)

module _ (run : Call → User → Option (ℕ × User)) where
  -- A number in `eax` that syscall.h gives a call runs the handler of that call: the caller gets the handler's result
  -- in `eax`, the trace shows that call's name with the same result, and nothing is printed when the
  -- handler does not return. For every other number no handler runs: `eax` becomes -1, nothing else
  -- changes, and the number is reported as unknown.
  pub syscall_lem :
      (u : User)
      → ((c : Call) × (number c ≡ u.eax) × (syscall run u ≡ answer c (run c u)))
        ⊎ (((c : Call) → number c ≢ u.eax)
            × (syscall run u ≡ some (record u { eax = 2 ^ 32 - 1 }, unknown u.eax)))
  unfolding syscall
  syscall_lem u = elim (Option-cases (entry u.eax syscalls)) [
    | inr (c, e) ↦
        let n = entry-number u.eax c e in
        let v = call-IsListed c in
        let b = rw n at v.in_range in
        let shown = rw n at v.printed in
        let name = rw n at v.name in
        elim (Option-cases (run c u)) [
          | inl gone ↦ inl (c, n, rw (b, e, gone) refl)
          | inr (r, back) ↦ inl (c, n, rw (b, e, back, shown, name) refl)
        ]
    | inl e ↦ inr (
      λ c same.
          none-ne-some c
            (sym e ∙ ap (λ n. entry n syscalls) (sym same) ∙ (call-IsListed c).handler),
      elim (Bool-cases (ltb 0 u.eax && ltb u.eax (2 ^ 31) && ltb u.eax table_length)) [
        | inl t ↦ rw (t, e) refl
        | inr f ↦ rw f refl
      ],
    )
  ]
