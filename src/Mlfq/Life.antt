-- ===== src/Mlfq/Life.antt =====
-- lab-2/proc_mlfq_v02.c: how a process is created, sleeps, wakes, is killed, exits and is reaped.
-- The allocator, the page tables and the file system enter by their results: `kstack` is what
-- `kalloc` returned (0 for none), `pgdir` what `copyuvm` returned (0 for none).
pub mod Create
pub mod Wait
pub mod Transitions
pub mod Exit
use cs_1217_operating_system.Base.{
  ℕ, zero, suc, ◌+◌, ◌-◌, ◌≡◌, Bool, true, false, ◌&&◌, not, Option, none, some, List, [], ltb,
  ◌==◌, if◌then◌else◌, update,
}
use cs_1217_operating_system.Base.Int.{ℤ, pos, minus_one}
use cs_1217_operating_system.Proc.{
  ProcState, unused, embryo, sleeping, runnable, zombie, is_unused, is_zombie, is_sleeping, Proc,
  Table, nproc, nofile, find_proc,
}
use cs_1217_operating_system.Mlfq.{
  Kernel, set_proc, enqueue, find_index, same_pid, max_priority, default_budget, add_uint,
  ticks_to_promote,
}

-- `allocproc`, but for the initial contents of the new kernel stack.
unfoldable pub allocproc : ℕ → Kernel → Option ℕ × Kernel
allocproc kstack s = elim (find_proc (λ r. is_unused r.state) s.table nproc 0) [
  | none ↦ (none, s)
  | some p ↦
      let r = record (s.table p) { state = embryo; pid = s.next_pid; kstack = kstack } in
      let s' = record (set_proc p r s) { next_pid = s.next_pid + 1 } in
      if kstack == 0 then (none, set_proc p (record r { state = unused }) s') else (some p, s')
]

-- `userinit`: `pgdir` is what `setupkvm` returned, `cwd` the root directory. `none` is the panic,
-- or the fault when there was no process to be had.
unfoldable pub userinit : ℕ → ℕ → ℕ → List ℕ → Kernel → Option Kernel
unfolding allocproc
userinit kstack pgdir cwd initcode s =
    let (found, s1) = allocproc kstack s in
    elim found [
      | none ↦ none
      | some p ↦
          if pgdir == 0
          then none
          else some
              (record (set_proc p
                (record (s1.table p) {
                  pgdir = pgdir;
                  sz = 4096;
                  name = initcode;
                  cwd = some cwd;
                  state = runnable;
                })
                s1) { initproc = some p; promote_at = add_uint s.ticks ticks_to_promote })
    ]

-- `fork` after `allocproc`. `filedup` and `idup` return their argument.
unfoldable pub fork_with : ℕ → ℕ → Option ℕ × Kernel → ℤ × Kernel
unfolding enqueue
fork_with cur pgdir (none, s) = (minus_one, s)
fork_with cur pgdir (some np, s) =
    let r = s.table np in
    if pgdir == 0
    then (minus_one, set_proc np (record r { pgdir = 0; kstack = 0; state = unused }) s)
    else (let c = s.table cur in
        let child = record r {
          pgdir = pgdir;
          sz = c.sz;
          parent = some cur;
          ofile = λ fd.
              if ltb fd nofile
              then elim (c.ofile fd) [ none ↦ r.ofile fd | some f ↦ some f ]
              else r.ofile fd;
          cwd = c.cwd;
          name = c.name;
          state = runnable;
          priority = max_priority;
          original_priority = max_priority;
          budget = pos default_budget;
        } in
        (pos r.pid, enqueue max_priority np (set_proc np child s)))

-- `fork` by process `cur`: the code and the new state.
unfoldable pub fork : ℕ → ℕ → ℕ → Kernel → ℤ × Kernel
unfolding allocproc fork_with
fork cur kstack pgdir s = fork_with cur pgdir (allocproc kstack s)

-- `wakeup1`, at process `p`. The search for `p` in its queue stops before the last entry.
unfoldable pub wake_one : ℕ → ℕ → Kernel → Kernel
unfolding find_index enqueue
wake_one chan p s =
    let r = s.table p in
    if is_sleeping r.state && (r.chan == chan)
    then (let s' = set_proc p (record r { state = runnable }) s in
        let check = find_index (λ i. s.queue r.priority i == p) (s.count r.priority - 1) 0 in
        elim check [ none ↦ enqueue r.priority p s' | some _ ↦ s' ])
    else s

unfoldable pub wakeup_from : ℕ → ℕ → ℕ → Kernel → Kernel
wakeup_from chan zero i s = s
wakeup_from chan (suc k) i s = wakeup_from chan k (i + 1) (wake_one chan i s)

unfoldable pub wakeup : ℕ → Kernel → Kernel
unfolding wakeup_from wake_one
wakeup chan s = wakeup_from chan nproc 0 s

-- The channel that process `p` sleeps on in `wait`: its address in the table.
abbrev pub proc_addr : ℕ → ℕ
proc_addr p = p + 1

abbrev pub wake_parent : Option ℕ → Kernel → Kernel
wake_parent none s = wakeup 0 s
wake_parent (some p) s = wakeup (proc_addr p) s

abbrev pub is_child : ℕ → Proc → Bool
is_child cur r = elim r.parent [ none ↦ false | some q ↦ q == cur ]

-- The loop of `exit` that passes the children of `cur` to `init`, at process `p`.
unfoldable pub reparent_one : ℕ → Option ℕ → ℕ → Kernel → Kernel
unfolding wakeup
reparent_one cur init p s =
    let r = s.table p in
    if is_child cur r
    then (let s' = set_proc p (record r { parent = init }) s in
        if is_zombie r.state then wake_parent init s' else s')
    else s

unfoldable pub reparent_from : ℕ → Option ℕ → ℕ → ℕ → Kernel → Kernel
reparent_from cur init zero i s = s
reparent_from cur init (suc k) i s = reparent_from cur init k (i + 1) (reparent_one cur init i s)

abbrev pub same_proc : ℕ → Option ℕ → Bool
same_proc p none = false
same_proc p (some q) = q == p

-- `exit` of process `cur`, up to the call of `sched`. `none` is the panic.
unfoldable pub exit : ℕ → Kernel → Option Kernel
unfolding reparent_from reparent_one
exit cur s =
    if same_proc cur s.initproc
    then none
    else (let closed = record (s.table cur) {
      ofile = λ fd. if ltb fd nofile then none else (s.table cur).ofile fd;
      cwd = none;
    } in
        let s1 = set_proc cur closed s in
        let s2 = wake_parent closed.parent s1 in
        let s3 = reparent_from cur s2.initproc nproc 0 s2 in
        some (set_proc cur (record (s3.table cur) { state = zombie }) s3))

-- What one round of the loop of `wait` comes to: a child reaped, no child to wait for, or a sleep.
pub data Waited : Type 0 where
  reaped : (pid : ℕ) → Kernel → Waited
  failed : Waited
  blocked : Kernel → Waited

abbrev pub reap : ℕ → Kernel → Kernel
reap p s =
    set_proc p
      (record (s.table p) {
        kstack = 0;
        pid = 0;
        parent = none;
        name = [];
        killed = false;
        state = unused;
      })
      s

-- `sleep(chan, &ptable.lock)` of process `p`, up to the call of `sched`.
unfoldable pub sleep : ℕ → ℕ → Kernel → Kernel
sleep p chan s = set_proc p (record (s.table p) { chan = chan; state = sleeping }) s

-- `wait` by process `cur`
unfoldable pub wait : ℕ → Kernel → Waited
unfolding sleep
wait cur s = elim (find_proc (λ r. is_child cur r && is_zombie r.state) s.table nproc 0) [
  | some p ↦ reaped (s.table p).pid (reap p s)
  | none ↦ elim (find_proc (is_child cur) s.table nproc 0) [
    | none ↦ failed
    | some _ ↦ if (s.table cur).killed then failed else blocked (sleep cur (proc_addr cur) s)
  ]
]

-- `yield` of process `p`, up to the call of `sched`.
unfoldable pub yield : ℕ → Kernel → Kernel
yield p s = set_proc p (record (s.table p) { state = runnable }) s

-- `kill`
unfoldable pub kill : ℤ → Kernel → ℤ × Kernel
kill pid s = elim (find_proc (same_pid pid) s.table nproc 0) [
  | none ↦ (minus_one, s)
  | some p ↦
      let r = s.table p in
      let r' = record r { killed = true } in
      (pos 0, set_proc p (if is_sleeping r.state then record r' { state = runnable } else r') s)
]
