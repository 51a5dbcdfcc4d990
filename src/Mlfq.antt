-- ===== src/Mlfq.antt =====
-- lab-2/proc_mlfq_v02.c: processes under a multi-level feedback queue. This file has the state, the queues and
-- the scheduler; the children have the life of a process and the proofs.
-- The source's `mlfq_queue_size[i]` is one less than `count i` here: it starts at -1 for an empty
-- queue, and is the index of the last entry else.
pub mod Queue
pub mod Life
pub mod Starve
pub mod Priority
mod Tests
use cs_1217_operating_system.Base.{
  ℕ, zero, suc, ◌+◌, ◌-◌, ◌%◌, ◌^◌, Bool, true, false, ◌&&◌, ◌||◌, not, Option, none, some, ltb,
  leb, ◌==◌, if◌then◌else◌, update, ◌≡◌, ◌≤◌, ◌<◌, arith, inl, inr, Bool-cases, ℕ_discrete,
}
use cs_1217_operating_system.Base.Int.{ℤ, pos, negsuc, ◌-ℤ◌, ltb_ℤ, pos_part, minus_one}
use cs_1217_operating_system.Proc.{
  ProcState, running, is_runnable, is_unused, is_zombie, Proc, Table, nproc, find_proc,
}

-- `MAXPRIORITY`, `DEFAULT_BUDGET` and `TICKS_TO_PROMOTE` of proc.h
abbrev pub max_priority : ℕ
max_priority = 2

abbrev pub default_budget : ℕ
default_budget = 5

abbrev pub ticks_to_promote : ℕ
ticks_to_promote = 20

-- `mlfq_queue`, its sizes, `ptable`, `nextpid`, `initproc` and the clock `ticks`. `ptable.lock` is
-- held wherever a function below reads or changes them.
pub record Kernel : Type 0 where
  pub table : Table
  pub queue : ℕ → ℕ → ℕ
  pub count : ℕ → ℕ
  pub next_pid : ℕ
  pub initproc : Option ℕ
  pub promote_at : ℕ
  pub ticks : ℕ

abbrev pub set_proc : ℕ → Proc → Kernel → Kernel
set_proc p r s = record s { table = update s.table p r }

-- `mlfq_queue_size[level]++; mlfq_queue[level][mlfq_queue_size[level]] = p;`
unfoldable pub enqueue : ℕ → ℕ → Kernel → Kernel
enqueue level p s = record s {
  queue = update s.queue level (update (s.queue level) (s.count level) p);
  count = update s.count level (s.count level + 1);
}

-- `for(j = k; j < size; j++) queue[j] = queue[j + 1];` with `n` rounds left
unfoldable pub shift : (ℕ → ℕ) → ℕ → ℕ → ℕ → ℕ
shift q zero j = q
shift q (suc n) j = shift (update q j (q (j + 1))) n (j + 1)

-- The entry at `k` is overwritten by those behind it, and the size falls by one.
unfoldable pub remove_at : ℕ → ℕ → Kernel → Kernel
unfolding shift
remove_at level k s = record s {
  queue = update s.queue level (shift (s.queue level) (s.count level - 1 - k) k);
  count = update s.count level (s.count level - 1);
}

-- The first index from `i` on, among `n`, that passes the test.
unfoldable pub find_index : (ℕ → Bool) → ℕ → ℕ → Option ℕ
find_index test zero i = none
find_index test (suc n) i = let rest = find_index test n (i + 1) in if test i then some i else rest

pub find_index-some :
    (test : ℕ → Bool) (n i j : ℕ)
    → find_index test n i ≡ some j
    → (i ≤ j) × (j < i + n) × (test j ≡ true) × ((m : ℕ) → i ≤ m → m < j → test m ≡ false)
unfolding find_index
find_index-some test zero i j e = cc
find_index-some test (suc n) i j e = elim (Bool-cases (test i)) [
  | inl hit ↦
      let same : i ≡ j = (let e' = rw hit at e in cc) in
      (omega arith, omega arith, rw (← same) hit, λ m lo hi. absurd (omega arith))
  | inr miss ↦
      let (lo, hi, passes, before) = find_index-some test n (i + 1) j (rw miss at e) in
      (
        omega arith,
        omega arith,
        passes,
        λ m from_ to_. elim (ℕ_discrete i m) [
          | yes same ↦ rw (← same) miss
          | no other ↦ before m (omega arith) to_
        ],
      )
]

pub find_index-none :
    (test : ℕ → Bool) (n i m : ℕ) → find_index test n i ≡ none → i ≤ m → m < i + n → test m ≡ false
unfolding find_index
find_index-none test zero i m e lo hi = absurd (omega arith)
find_index-none test (suc n) i m e lo hi = elim (Bool-cases (test i)) [
  | inl hit ↦ cc (rw hit at e)
  | inr miss ↦ elim (ℕ_discrete i m) [
    | yes same ↦ rw (← same) miss
    | no other ↦ find_index-none test n (i + 1) m (rw miss at e) (omega arith) (omega arith)
  ]
]

abbrev pub same_pid : ℤ → Proc → Bool
same_pid (pos n) r = r.pid == n
same_pid (negsuc n) r = false

-- `setpriority`: the code and the new table.
unfoldable pub setpriority : ℤ → ℤ → Table → ℤ × Table
setpriority pid priority t =
    if ltb_ℤ priority (pos 0) || ltb_ℤ (pos max_priority) priority
    then (minus_one, t)
    else elim (find_proc (same_pid pid) t nproc 0) [
      | none ↦ (minus_one, t)
      | some p ↦ (
        pos 0,
        update t p (record (t p) { priority = pos_part priority; budget = pos default_budget }),
      )
    ]

-- `getpriority`
unfoldable pub getpriority : ℤ → Table → ℤ
getpriority pid t = elim (find_proc (same_pid pid) t nproc 0) [
  | none ↦ minus_one
  | some p ↦ if is_unused (t p).state then minus_one else pos (t p).priority
]

abbrev pub change_priority : ℕ → ℕ → Kernel → Kernel
change_priority pid priority s = record s {
  table = (setpriority (pos pid) (pos priority) s.table).1;
}

-- The periodic promotion of process `p`.
unfoldable pub promote_one : ℕ → Kernel → Kernel
unfolding find_index remove_at setpriority enqueue
promote_one p s =
    let r = s.table p in
    if not (is_zombie r.state) && ltb r.priority max_priority
    then (let level = r.priority in
        let found = find_index (λ i. s.queue level i == p) (s.count level) 0 in
        let s1 : Kernel = elim found [ none ↦ s | some i ↦ remove_at level i s ] in
        let s2 = change_priority r.pid (r.priority + 1) s1 in
        let s3 = set_proc p (record (s2.table p) { budget = pos default_budget }) s2 in
        enqueue (s3.table p).priority p s3)
    else s

unfoldable pub promote_from : ℕ → ℕ → Kernel → Kernel
promote_from zero i s = s
promote_from (suc k) i s = promote_from k (i + 1) (promote_one i s)

-- `uint` sums
abbrev pub add_uint : ℕ → ℕ → ℕ
add_uint a b = (a + b) % 2 ^ 32

unfoldable pub promote : Kernel → Kernel
unfolding promote_from promote_one
promote s =
    if leb s.promote_at s.ticks
    then (let s' = promote_from nproc 0 s in
        record s' { promote_at = add_uint s'.ticks ticks_to_promote })
    else s

-- The program counter of `scheduler`: at the top of `for(;;)`, at the head of the `while` of a
-- level, or in its inner `for` at index `k`.
pub data Pos : Type 0 where
  top : Pos
  level : ℕ → Pos
  pass : (i k : ℕ) (check : Bool) → Pos

abbrev pub next_level : ℕ → Pos
next_level zero = top
next_level (suc i) = level i

-- `run p` is what happens from the switch to process `p` until it switches back to the scheduler.
module _ (run : ℕ → Kernel → Kernel) where
  -- After the switch back, `start` being the clock before it.
  unfoldable pub account : ℕ → ℕ → Kernel → Kernel
  unfolding setpriority enqueue
  account p start s =
      let r = s.table p in
      let budget = r.budget -ℤ (pos s.ticks -ℤ pos start) in
      let s1 = set_proc p (record r { budget = budget }) s in
      if ltb_ℤ (pos 0) budget
      then enqueue r.priority p s1
      else if ltb 0 r.priority
      then (let s2 = change_priority r.pid (r.priority - 1) s1 in
          let s3 =
            set_proc p (record (s2.table p) { original_priority = (s2.table p).priority }) s2 in
          enqueue (s3.table p).priority p s3)
      else enqueue r.priority p s1

  -- The process at index `k` of queue `i` leaves the queue, runs, and is queued again.
  unfoldable pub dispatch : ℕ → ℕ → Kernel → Kernel
  unfolding remove_at account
  dispatch i k s =
      let p = s.queue i k in
      let s1 = remove_at i k s in
      account p s.ticks (run p (set_proc p (record (s1.table p) { state = running }) s1))

  -- One step of `scheduler`.
  unfoldable pub step : Pos × Kernel → Pos × Kernel
  unfolding promote find_index dispatch
  step (top, s) = (level max_priority, promote s)
  step (level i, s) = if s.count i == 0 then (next_level i, s) else (pass i 0 false, s)
  step (pass i k check, s) =
      elim (find_index (λ j. is_runnable (s.table (s.queue i j)).state) (s.count i - k) k) [
        | none ↦ (if check then level i else next_level i, s)
        | some j ↦ (pass i (j + 1) true, dispatch i j s)
      ]

  unfoldable pub steps : ℕ → Pos × Kernel → Pos × Kernel
  unfolding step
  steps zero c = c
  steps (suc n) c = steps n (step c)
