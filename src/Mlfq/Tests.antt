-- ===== src/Mlfq/Tests.antt =====
-- lab-2/proc_mlfq_v02.c: the queues and the life of processes, on small states.
use cs_1217_operating_system.Base.{
  ℕ, zero, suc, ◌+◌, ◌≤◌, ◌<◌, ◌≡◌, refl, sym, ap, ◌∙◌, true, false, none, some, [], ◌∷◌, arith,
  ◌==◌, ltb, if◌then◌else◌, update, update_ne, ℕ_discrete,
}
use cs_1217_operating_system.Base.Int.{pos, minus_one}
use cs_1217_operating_system.Proc.{
  runnable, sleeping, zombie, is_unused, Proc, Table, nproc, find_proc, blank,
}
use cs_1217_operating_system.Mlfq.{
  Kernel, set_proc, remove_at, steps, level, max_priority, setpriority, getpriority,
}
use cs_1217_operating_system.Mlfq.Queue.{contents, contents-remove_at}
use cs_1217_operating_system.Mlfq.Starve.{IsHog, IsBusy, AtBottom, bottom_level_starves}
use cs_1217_operating_system.Mlfq.Priority.{raised, getpriority-setpriority, wake_duplicates}
use cs_1217_operating_system.Mlfq.Life.{exit, wait, wakeup, wake_one, is_child}
use cs_1217_operating_system.Mlfq.Life.Wait.{Ensures, wait_lem}
use cs_1217_operating_system.Mlfq.Life.Transitions.{woken, table-wakeup}
use cs_1217_operating_system.Mlfq.Life.Exit.{exit_lem}

-- Processes with the ids 1, 2, ...; the first is init, the second its child and able to run.
abbrev people : Table
people zero = record blank { state = sleeping; pid = 1; chan = 1; priority = 1 }
people (suc zero) = record blank { state = runnable; pid = 2; parent = some 0 }
people (suc (suc p)) = record blank { pid = p + 3 }

abbrev kernel : Kernel
kernel = record {
  table = people;
  queue = λ l i. if l == 0 then 1 else 0;
  count = λ l. if ltb l 2 then 1 else 0;
  next_pid = 3;
  initproc = some 0;
  promote_at = 20;
  ticks = 9;
}

contents-remove_at_example : contents (remove_at 1 0 kernel) 1 ≡ []
contents-remove_at_example = contents-remove_at kernel 1 0 1 (omega arith)

-- Whatever runs, process 1 is able to run afterwards.
abbrev spin : ℕ → Kernel → Kernel
spin q s = set_proc 1 (record (s.table 1) { state = runnable }) s

spin_sole :
    (s : Kernel)
    → ((q : ℕ) → (s.table q).pid ≡ (s.table 1).pid → q ≡ 1)
    → (q : ℕ) → ((spin 1 s).table q).pid ≡ (s.table 1).pid
    → q ≡ 1
spin_sole s h q e = elim (ℕ_discrete 1 q) [
  | yes same ↦ sym same
  | no other ↦ h q (ap (λ (r : Proc). r.pid) (sym (update_ne s.table 1 q _ other)) ∙ e)
]

spin-IsBusy : IsBusy 1 spin
spin-IsBusy = record {
  others = λ q s ne h. (record { ready = refl; low = h.0.low; sole = spin_sole s h.0.sole }, h.1);
  itself = λ s h. record { ready = refl; low = h.low; sole = spin_sole s h.sole };
}

people_sole : (q : ℕ) → (people q).pid ≡ 2 → q ≡ 1
people_sole zero e = omega arith
people_sole (suc zero) e = refl
people_sole (suc (suc p)) e = omega arith

kernel-IsHog : IsHog 1 kernel
kernel-IsHog = (record { ready = refl; low = refl; sole = people_sole }, (0, omega arith, refl))

bottom_level_starves_example : AtBottom 1 spin (steps spin 1000 (level 0, kernel)).0
bottom_level_starves_example = bottom_level_starves 1 spin spin-IsBusy kernel 1000 kernel-IsHog

setpriority-people :
    setpriority (pos 2) (pos 2) people ≡ (pos 0, update people 1 (raised 2 (people 1)))
unfolding setpriority find_proc
setpriority-people = refl

getpriority-setpriority_example :
    (2 ≤ max_priority)
    × ((p : ℕ) × (p < nproc)
        × ((people p).pid ≡ 2)
        × (update people 1 (raised 2 (people 1)) ≡ update people p (raised 2 (people p)))
        × (getpriority (pos 2) (update people 1 (raised 2 (people 1)))
            ≡ (if is_unused (people p).state then minus_one else pos 2)))
getpriority-setpriority_example = getpriority-setpriority 2 2 people setpriority-people

wake_one-kernel : contents (wake_one 1 0 kernel) 1 ≡ 0 ∷ 0 ∷ []
wake_one-kernel = wake_duplicates 1 0 kernel refl (omega arith) refl (λ i h. absurd (omega arith))

wait_lem_example : Ensures 0 kernel (wait 0 kernel)
wait_lem_example = wait_lem 0 kernel

table-wakeup-kernel : (wakeup 1 kernel).table 0 ≡ record (people 0) { state = runnable }
unfolding woken
table-wakeup-kernel = table-wakeup 1 0 kernel

-- What `exit` of process 1 leaves.
abbrev without_child : Kernel
unfolding exit
without_child = elim (exit 1 kernel) [ none ↦ kernel | some s ↦ s ]

exit-kernel : exit 1 kernel ≡ some without_child
unfolding exit
exit-kernel = refl

exit_lem_example :
    ((without_child.table 1).state ≡ zombie)
    × ((q : ℕ) → q < nproc → is_child 1 (people q) ≡ true → (without_child.table q).parent ≡ some 0)
    × ((q : ℕ) → q < nproc → is_child 1 (without_child.table q) ≡ false)
exit_lem_example = exit_lem 1 kernel exit-kernel
