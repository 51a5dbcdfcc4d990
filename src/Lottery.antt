-- ===== src/Lottery.antt =====
-- lab-2/proc_lottery_v02.c: the lottery scheduler. A round of `scheduler` is a function of the
-- process table; what the chosen process does until it returns to the scheduler is a parameter, and
-- so is the random number generator (rand.c, a library).
pub mod Draw
pub mod Fair
pub mod Bounds
mod Tests
use cs_1217_operating_system.Base.{
  ℕ, zero, suc, ◌+◌, ◌%◌, ◌^◌, ◌≡◌, Bool, true, false, ◌&&◌, ◌||◌, not, Option, none, some, ltb,
  leb, ◌==◌, if◌then◌else◌, update,
}
use cs_1217_operating_system.Base.Int.{ℤ, pos, ltb_ℤ, pos_part, minus_one}
use cs_1217_operating_system.Proc.{ProcState, running, is_runnable, is_unused, Proc, Table, nproc}

-- `MAXTICKET` of proc.h
abbrev pub max_ticket : ℕ
max_ticket = 15

-- `struct pstat`
pub record Pstat : Type 0 where
  pub inuse : ℕ → ℕ
  pub tickets : ℕ → ℕ
  pub pid : ℕ → ℕ
  pub ticks : ℕ → ℕ

-- The table, the statistics, and the seed of the generator.
pub record Sched : Type 0 where
  pub table : Table
  pub pstat : Pstat
  pub seed : ℕ

-- `uint` addition
abbrev pub add_uint : ℕ → ℕ → ℕ
add_uint a b = (a + b) % 2 ^ 32

-- One pass of the first loop of `scheduler`. Its index `i` stays 0.
unfoldable pub fill_pstat : Table → ℕ → ℕ → Pstat → Pstat
fill_pstat t zero j ps = ps
fill_pstat t (suc k) j ps = fill_pstat t k (j + 1) (record {
  inuse = update ps.inuse 0 (if is_unused (t j).state then 0 else 1);
  tickets = update ps.tickets 0 (t j).tickets;
  pid = update ps.pid 0 (t j).pid;
  ticks = update ps.ticks 0 (t j).ticks;
})

-- `ticketSum`, over the `k` processes from `i` on
unfoldable pub ticket_sum : Table → ℕ → ℕ → ℕ → ℕ
ticket_sum t zero i sum = sum
ticket_sum t (suc k) i sum =
    ticket_sum t k (i + 1) (if is_runnable (t i).state then add_uint sum (t i).tickets else sum)

-- The loop that finds the process to run, with `count` so far.
unfoldable pub draw : Table → ℕ → ℕ → ℕ → ℕ → Option ℕ
draw t lottery zero i count = none
draw t lottery (suc k) i count =
    let count' = if is_runnable (t i).state then add_uint count (t i).tickets else count in
    let rest = draw t lottery k (i + 1) count' in
    if is_runnable (t i).state && not (ltb count' lottery) then some i else rest

-- `random seed max` is `random_at_most(max)` after `sgenrand(seed)`; `run p` is what happens from
-- the switch to process `p` until it switches back.
module _ (random : ℕ → ℕ → ℕ) (run : ℕ → Sched → Sched) where
  -- After the switch back: a process that can still run gets one more ticket.
  unfoldable pub reward : ℕ → Sched → Sched
  reward p s =
      if is_runnable (s.table p).state && ltb (s.table p).tickets max_ticket
      then record s {
        table = update s.table p (record (s.table p) { tickets = (s.table p).tickets + 1 });
      }
      else s

  unfoldable pub dispatch : ℕ → Sched → Sched
  unfolding reward
  dispatch p s =
      reward p
        (run p (record s { table = update s.table p (record (s.table p) { state = running }) }))

  -- One round of the endless loop.
  unfoldable pub scheduler_round : Sched → Sched
  unfolding fill_pstat ticket_sum draw dispatch
  scheduler_round s =
      let lottery = random s.seed (ticket_sum s.table nproc 0 0) in
      let s' = record s { pstat = fill_pstat s.table nproc 0 s.pstat; seed = add_uint s.seed 1 } in
      elim (draw s.table lottery nproc 0 0) [ none ↦ s' | some p ↦ dispatch p s' ]

-- `settickets` of the current process `p`: the code and the new table.
unfoldable pub settickets : ℕ → ℤ → Table → ℤ × Table
settickets p n t =
    if ltb_ℤ n (pos 0) || ltb_ℤ (pos max_ticket) n
    then (minus_one, t)
    else (pos 0, update t p (record (t p) { tickets = pos_part n }))

-- The loop of `getpinfo` over the `k` processes from `j` on, with `i` the next free slot.
unfoldable pub copy_used : Table → ℕ → ℕ → ℕ → Pstat → Pstat
copy_used t zero j i ps = ps
copy_used t (suc k) j i ps =
    let skip = is_unused (t j).state in
    let ps' : Pstat = record {
      inuse = update ps.inuse i (t j).inuse;
      tickets = update ps.tickets i (t j).tickets;
      pid = update ps.pid i (t j).pid;
      ticks = update ps.ticks i (t j).ticks;
    } in
    copy_used t k (j + 1) (if skip then i else i + 1) (if skip then ps else ps')

-- `getpinfo`: the code, the statistics, and whether `ptable.lock` is still held.
unfoldable pub getpinfo : Table → Option Pstat → ℤ × Option Pstat × Bool
unfolding copy_used
getpinfo t none = (minus_one, none, true)
getpinfo t (some ps) = (pos 0, some (copy_used t nproc 0 0 ps), false)
