-- ===== src/Lottery/Tests.antt =====
-- lab-2/proc_lottery_v02.c: the lottery over two processes.
use cs_1217_operating_system.Base.{
  ℕ, zero, suc, ◌≤◌, ◌<◌, ◌≡◌, refl, true, arith, ◌==◌, if◌then◌else◌,
}
use cs_1217_operating_system.Proc.{runnable, is_runnable, Table, nproc, blank}
use cs_1217_operating_system.Lottery.{Sched, scheduler_round, dispatch, fill_pstat, add_uint}
use cs_1217_operating_system.Lottery.Draw.{tickets_in}
use cs_1217_operating_system.Lottery.Fair.{wins, lottery_fair}
use cs_1217_operating_system.Lottery.Bounds.{IsBounded, scheduler_round_dispatches}

-- Process 0 has two tickets, process 1 three; the others do not run.
abbrev two : Table
two zero = record blank { state = runnable; tickets = 2 }
two (suc zero) = record blank { state = runnable; tickets = 3 }
two (suc (suc p)) = blank

abbrev two_sched : Sched
two_sched = record {
  table = two;
  pstat = record { inuse = λ _. 0; tickets = λ _. 0; pid = λ _. 0; ticks = λ _. 0 };
  seed = 7;
}

two-IsBounded : IsBounded two
two-IsBounded zero = omega arith
two-IsBounded (suc zero) = omega arith
two-IsBounded (suc (suc p)) = omega arith

abbrev pick_two : ℕ → ℕ → ℕ
pick_two seed max = if max == 5 then 5 else 0

abbrev idle_run : ℕ → Sched → Sched
idle_run p s = s

lottery_fair_example : wins two 2 1 (tickets_in two 2 0) ≡ 3
lottery_fair_example = lottery_fair two 2 1 (omega arith) (omega arith) refl

pick_two_le : (seed max : ℕ) → pick_two seed max ≤ max
pick_two_le seed max = ground arith

scheduler_round_dispatches_example :
    (p : ℕ) × (p < nproc)
    × (is_runnable (two p).state ≡ true)
    × (scheduler_round pick_two idle_run two_sched
        ≡ dispatch pick_two idle_run p (record two_sched {
          pstat = fill_pstat two nproc 0 two_sched.pstat;
          seed = add_uint 7 1;
        }))
scheduler_round_dispatches_example =
    scheduler_round_dispatches pick_two idle_run pick_two_le two_sched 1 two-IsBounded (omega arith)
      refl
