-- ===== src/Proc.antt =====
-- lab-2/proc.h: a process, and the process table. A pointer to a process is its index in the table, and the null
-- pointer is `none`.
use cs_1217_operating_system.Base.{
  ℕ, zero, suc, ◌+◌, ◌≤◌, ◌<◌, ◌≡◌, Bool, true, false, Option, none, some, List, [], arith, inl,
  inr, if◌then◌else◌, Bool-cases, ℕ_discrete,
}
use cs_1217_operating_system.Base.Int.{ℤ, pos}

-- `enum procstate`
pub data ProcState : Type 0 where
  unused embryo sleeping runnable running zombie : ProcState

abbrev pub is_runnable : ProcState → Bool
is_runnable runnable = true
is_runnable _ = false

abbrev pub is_unused : ProcState → Bool
is_unused unused = true
is_unused _ = false

abbrev pub is_zombie : ProcState → Bool
is_zombie zombie = true
is_zombie _ = false

abbrev pub is_sleeping : ProcState → Bool
is_sleeping sleeping = true
is_sleeping _ = false

-- `struct proc`, less the saved registers `tf` and `context`. `chan` is an address, 0 for none;
-- `kstack` and `pgdir` are addresses of pages, 0 for none; `ofile` holds addresses of open files.
pub record Proc : Type 0 where
  pub sz : ℕ
  pub pgdir : ℕ
  pub kstack : ℕ
  pub state : ProcState
  pub pid : ℕ
  pub parent : Option ℕ
  pub chan : ℕ
  pub killed : Bool
  pub ofile : ℕ → Option ℕ
  pub cwd : Option ℕ
  pub name : List ℕ
  pub priority : ℕ
  pub budget : ℤ
  pub original_priority : ℕ
  pub tickets : ℕ
  pub inuse : ℕ
  pub ticks : ℕ

-- `NPROC` and `NOFILE` of param.h
abbrev pub nproc : ℕ
nproc = 64

abbrev pub nofile : ℕ
nofile = 16

abbrev pub Table : Type 0
Table = ℕ → Proc

-- A process that was never used: the table starts as zeros.
abbrev pub blank : Proc
blank = record {
  sz = 0;
  pgdir = 0;
  kstack = 0;
  state = unused;
  pid = 0;
  parent = none;
  chan = 0;
  killed = false;
  ofile = λ _. none;
  cwd = none;
  name = [];
  priority = 0;
  budget = pos 0;
  original_priority = 0;
  tickets = 0;
  inuse = 0;
  ticks = 0;
}

-- The first process among the `k` from `i` on that passes the test: the loop
-- `for(p = ptable.proc; p < &ptable.proc[NPROC]; p++) if(test) ...` that stops at its first hit.
unfoldable pub find_proc : (Proc → Bool) → Table → ℕ → ℕ → Option ℕ
find_proc test t zero i = none
find_proc test t (suc k) i =
    let rest = find_proc test t k (i + 1) in if test (t i) then some i else rest

-- A found process is in range, passes the test, and none before it does.
pub find_proc-some :
    (test : Proc → Bool) (t : Table) (k i p : ℕ)
    → find_proc test t k i ≡ some p
    → (i ≤ p) × (p < i + k) × (test (t p) ≡ true) × ((q : ℕ) → i ≤ q → q < p → test (t q) ≡ false)
unfolding find_proc
find_proc-some test t zero i p e = cc
find_proc-some test t (suc k) i p e = elim (Bool-cases (test (t i))) [
  | inl hit ↦
      let same : i ≡ p = (let e' = rw hit at e in cc) in
      (omega arith, omega arith, rw (← same) hit, λ q lo hi. absurd (omega arith))
  | inr miss ↦
      let (lo, hi, passes, before) = find_proc-some test t k (i + 1) p (rw miss at e) in
      (
        omega arith,
        omega arith,
        passes,
        λ q from_ to_. elim (ℕ_discrete i q) [
          | yes same ↦ rw (← same) miss
          | no other ↦ before q (omega arith) to_
        ],
      )
]

-- If no process is found, none in range passes the test.
pub find_proc-none :
    (test : Proc → Bool) (t : Table) (k i q : ℕ)
    → find_proc test t k i ≡ none
    → i ≤ q
    → q < i + k
    → test (t q) ≡ false
unfolding find_proc
find_proc-none test t zero i q e lo hi = absurd (omega arith)
find_proc-none test t (suc k) i q e lo hi = elim (Bool-cases (test (t i))) [
  | inl hit ↦ cc (rw hit at e)
  | inr miss ↦ elim (ℕ_discrete i q) [
    | yes same ↦ rw (← same) miss
    | no other ↦ find_proc-none test t k (i + 1) q (rw miss at e) (omega arith) (omega arith)
  ]
]
