-- ===== src/Lottery/Bounds.antt =====
-- lab-2/proc_lottery_v02.c: ticket counts stay within MAXTICKET, so that their sum does not
-- overflow.
use cs_1217_operating_system.Base.{
  ℕ, zero, suc, ◌+◌, ◌*◌, ◌≤◌, ◌<◌, ◌^◌, ◌≡◌, ◌⊎◌, true, arith, update, Option-cases, inl, inr, ltb,
  ltb→lt, Bool-cases,
}
use cs_1217_operating_system.Base.Int.{ℤ, pos, negsuc, minus_one, pos_part, ◌≤ℤ◌}
use cs_1217_operating_system.Proc.{is_runnable, running, Table, nproc}
use cs_1217_operating_system.Lottery.{
  Sched, max_ticket, ticket_sum, draw, scheduler_round, dispatch, reward, settickets, fill_pstat,
  add_uint,
}
use cs_1217_operating_system.Lottery.Draw.{tickets_in, ticket_sum_lem, draw-ne-none, draw_runnable}

abbrev pub IsBounded : Table → Type 0
IsBounded t = (p : ℕ) → (t p).tickets ≤ max_ticket

pub tickets_in_bound : (t : Table) (k i : ℕ) → IsBounded t → tickets_in t k i ≤ max_ticket * k
tickets_in_bound t zero i h = omega arith
tickets_in_bound t (suc k) i h = ground (arith, h i, tickets_in_bound t k (i + 1) h)

-- `n` is a number of tickets that a process may ask for.
abbrev pub InRange : ℤ → Type 0
InRange n = (pos 0 ≤ℤ n) × (n ≤ℤ pos max_ticket)

-- `settickets` answers 0 and stores the number if it lies between 0 and MAXTICKET; else it answers
-- -1 and changes nothing.
pub settickets_lem :
    (p : ℕ) (n : ℤ) (t : Table)
    → (InRange n × (settickets p n t ≡ (pos 0, update t p (record (t p) { tickets = pos_part n }))))
      ⊎ (¬ InRange n × (settickets p n t ≡ (minus_one, t)))
unfolding settickets
settickets_lem p (pos k) t = elim (Bool-cases (ltb max_ticket k)) [
  | inl big ↦ inr (λ h. omega (arith, ltb→lt max_ticket k big), ground arith)
  | inr small ↦ inl (ground arith, ground arith)
]
settickets_lem p (negsuc k) t = inr (λ h. omega (arith, h.0), ground arith)

module _ (random : ℕ → ℕ → ℕ) (run : ℕ → Sched → Sched) where
  -- What a process does on the processor keeps all counts within MAXTICKET.
  abbrev pub Keeps : Type 0
  Keeps = (p : ℕ) (s : Sched) → IsBounded s.table → IsBounded (run p s).table

  start-IsBounded :
      (p : ℕ) (t : Table) → IsBounded t → IsBounded (update t p (record (t p) { state = running }))
  start-IsBounded p t h q = ground (arith, h q, h p)

  reward-IsBounded :
      (p : ℕ) (s : Sched) → IsBounded s.table → IsBounded (reward random run p s).table
  unfolding reward
  reward-IsBounded p s h q = ground (arith, h q, h p)

  dispatch-IsBounded :
      Keeps → (p : ℕ) (s : Sched) → IsBounded s.table → IsBounded (dispatch random run p s).table
  unfolding dispatch
  dispatch-IsBounded keeps p s h =
      reward-IsBounded p (run p started) (keeps p started (start-IsBounded p s.table h))
    where
      started : Sched
      started = record s { table = update s.table p (record (s.table p) { state = running }) }

  -- A round of the scheduler keeps every ticket count within MAXTICKET, if what runs does.
  pub scheduler_round-IsBounded :
      Keeps → (s : Sched) → IsBounded s.table → IsBounded (scheduler_round random run s).table
  unfolding scheduler_round
  scheduler_round-IsBounded keeps s h =
      elim (Option-cases (draw s.table (random s.seed (ticket_sum s.table nproc 0 0)) nproc 0 0)) [
        | inl e ↦ rw (e, scheduler_round) h
        | inr (p, e) ↦
            rw (e, scheduler_round)
              (dispatch-IsBounded keeps p
                (record s { pstat = fill_pstat s.table nproc 0 s.pstat; seed = add_uint s.seed 1 })
                h)
      ]

  -- If some process is runnable, no count exceeds MAXTICKET and the generator keeps to its bound, a
  -- round does not leave the processor idle: it dispatches a runnable process of the table, after
  -- the statistics and the seed are updated.
  pub scheduler_round_dispatches :
      ((seed max : ℕ) → random seed max ≤ max)
      → (s : Sched) (q : ℕ) → IsBounded s.table
      → q < nproc
      → is_runnable (s.table q).state ≡ true
      → (p : ℕ) × (p < nproc)
        × (is_runnable (s.table p).state ≡ true)
        × (scheduler_round random run s
            ≡ dispatch random run p
                (record s { pstat = fill_pstat s.table nproc 0 s.pstat; seed = add_uint s.seed 1 }))
  unfolding scheduler_round
  scheduler_round_dispatches small s q h lt r =
      elim (Option-cases (draw s.table lottery nproc 0 0)) [
        | inl e ↦ absurd (draw-ne-none s.table nproc lottery q fits lt r lottery_le e)
        | inr (p, e) ↦
            let (p_lt, runs) = draw_runnable s.table nproc lottery p fits e in
            (p, p_lt, runs, rw (e, scheduler_round))
      ]
    where
      lottery : ℕ
      lottery = random s.seed (ticket_sum s.table nproc 0 0)

      fits : tickets_in s.table nproc 0 < 2 ^ 32
      fits = omega (arith, tickets_in_bound s.table nproc 0 h)

      lottery_le : lottery ≤ tickets_in s.table nproc 0
      lottery_le = omega (
        arith,
        small s.seed (ticket_sum s.table nproc 0 0),
        ticket_sum_lem s.table nproc 0 0 (omega (arith, fits)),
      )
