-- ===== src/Spinlock.antt =====
-- assignment-3/spinlock.c: spin locks, and the nesting of disabled interrupts, on one processor's side.
-- A processor is its number; a lock's `cpu` is the holder's.
use cs_1217_operating_system.Base.{
  ℕ, ◌+◌, ◌-◌, Bool, true, false, ◌&&◌, Option, none, some, ltb, ◌==◌, if◌then◌else◌,
}

-- `ncli` and `intena` of `struct cpu`, and the interrupt flag FL_IF of its `eflags`.
pub record Cpu : Type 0 where
  pub ncli : ℕ
  pub intena : Bool
  pub interrupts : Bool

-- `struct spinlock`, less its name and call stack
pub record Lock : Type 0 where
  pub locked : Bool
  pub cpu : Option ℕ

unfoldable pub pushcli : Cpu → Cpu
pushcli c = record {
  ncli = c.ncli + 1;
  intena = if c.ncli == 0 then c.interrupts else c.intena;
  interrupts = false;
}

-- `none` is a panic.
unfoldable pub popcli : Cpu → Option Cpu
popcli c =
    if c.interrupts
    then none
    else if ltb c.ncli 1
    then none
    else some (record c { ncli = c.ncli - 1; interrupts = (c.ncli - 1 == 0) && c.intena })

abbrev pub is_holder : ℕ → Option ℕ → Bool
is_holder me none = false
is_holder me (some q) = q == me

-- `holding` by processor `me`
unfoldable pub holding : ℕ → Lock → Cpu → Option (Bool × Cpu)
unfolding pushcli popcli
holding me l c = elim (popcli (pushcli c)) [
  | none ↦ none
  | some c' ↦ some (l.locked && is_holder me l.cpu, c')
]

-- How an attempt to take a lock ends: a panic, the lock, or another turn of the `xchg` loop.
pub data Attempt : Type 0 where
  panics : Attempt
  takes : Lock → Cpu → Attempt
  spins : Cpu → Attempt

-- `acquire` by processor `me`, up to the first `xchg`. One that spins goes on by the same test.
unfoldable pub acquire : ℕ → Lock → Cpu → Attempt
unfolding pushcli holding
acquire me l c = elim (holding me l (pushcli c)) [
  | none ↦ panics
  | some (mine, c') ↦
      if mine
      then panics
      else if l.locked
      then spins c'
      else takes (record { locked = true; cpu = some me }) c'
]

-- `release` by processor `me`
unfoldable pub release : ℕ → Lock → Cpu → Option (Lock × Cpu)
unfolding holding popcli
release me l c = elim (holding me l c) [
  | none ↦ none
  | some (mine, c') ↦
      if mine
      then elim (popcli c') [
        | none ↦ none
        | some c'' ↦ some (record { locked = false; cpu = none }, c'')
      ]
      else none
]
