-- ===== src/Mlfq/Life/Create.antt =====
-- lab-2/proc_mlfq_v02.c: what `fork` does, on success and on failure.
use cs_1217_operating_system.Base.{
  ℕ, ◌+◌, ◌<◌, ◌≡◌, ◌≢◌, arith, ◌⊎◌, true, false, Option, some, [], ◌∷◌, ◌++◌, ◌==◌,
}
use cs_1217_operating_system.Base.Int.{ℤ, pos, minus_one}
use cs_1217_operating_system.Proc.{is_unused, runnable, embryo, Proc, nproc, find_proc}
use cs_1217_operating_system.Mlfq.{Kernel, max_priority, default_budget}
use cs_1217_operating_system.Mlfq.Queue.{contents}

abbrev free_slot : Kernel → Option ℕ
free_slot s = find_proc (λ r. is_unused r.state) s.table nproc 0

-- The new process: an unused process before, it can run, has the next id and its kernel stack and page directory, is a child of `cur` with its size, directory and name, and starts
-- at the tail of the highest queue with a full budget; no other process has changed.
pub record IsChild (cur kstack pgdir p : ℕ) (s s' : Kernel) : Type 0 where
  pub slot : p < nproc
  pub was_unused : is_unused (s.table p).state ≡ true
  pub ready : (s'.table p).state ≡ runnable
  pub new_id : (s'.table p).pid ≡ s.next_pid
  pub stack : (s'.table p).kstack ≡ kstack
  pub directory : (s'.table p).pgdir ≡ pgdir
  pub copied :
      cur ≢ p
      → ((s'.table p).sz ≡ (s.table cur).sz)
        × ((s'.table p).cwd ≡ (s.table cur).cwd)
        × ((s'.table p).name ≡ (s.table cur).name)
  pub parent : (s'.table p).parent ≡ some cur
  pub highest : (s'.table p).priority ≡ max_priority
  pub full : (s'.table p).budget ≡ pos default_budget
  pub queued : contents s' max_priority ≡ contents s max_priority ++ (p ∷ [])
  pub next : s'.next_pid ≡ s.next_pid + 1
  pub others : (q : ℕ) → q ≢ p → s'.table q ≡ s.table q

-- No process has come into use, and no other has changed.
pub record IsFailure (s s' : Kernel) : Type 0 where
  pub in_use : (q : ℕ) → is_unused (s'.table q).state ≡ is_unused (s.table q).state
  pub running_ : (q : ℕ) → is_unused (s.table q).state ≡ false → s'.table q ≡ s.table q
  pub queues : (level : ℕ) → contents s' level ≡ contents s level

unfoldable new_proc : ℕ → ℕ → Kernel → Proc
new_proc p kstack s = record (s.table p) { state = embryo; pid = s.next_pid; kstack = kstack }

-- Whether `fork` cannot make a process: no unused one, no kernel stack or no page directory.
abbrev pub CannotFork : ℕ → ℕ → Kernel → Type 0
CannotFork kstack pgdir s =
    ((q : ℕ) → q < nproc → is_unused (s.table q).state ≡ false) ⊎ ((kstack ≡ 0) ⊎ (pgdir ≡ 0))

-- What `fork` by `cur` promises of its answer and the new state.
abbrev pub ForkEnsures : ℕ → ℕ → ℕ → Kernel → ℤ × Kernel → Type 0
ForkEnsures cur kstack pgdir s (code, s') =
    ((kstack ≢ 0)
      × (pgdir ≢ 0)
      × ((p : ℕ) × (code ≡ pos s.next_pid) × IsChild cur kstack pgdir p s s'))
    ⊎ (CannotFork kstack pgdir s × (code ≡ minus_one) × IsFailure s s')

is_zero : (a : ℕ) → (a == 0) ≡ true → a ≡ 0
is_zero a h = ground arith
