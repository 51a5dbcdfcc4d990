-- ===== src/Mlfq/Life/Transitions.antt =====
-- lab-2/proc_mlfq_v02.c: what waking, exiting and reaping do to each process of the table.
use cs_1217_operating_system.Base.{
  ℕ, zero, suc, ◌+◌, ◌≡◌, inl, inr, refl, ◌∙◌, Bool, true, false, ◌&&◌, Option, none, some, arith,
  ltb, leb, ◌==◌, if◌then◌else◌, update, sym, ◌-◌, ℕ_discrete, ==_refl, ne→false, Option-cases,
  Bool-cases,
}
use cs_1217_operating_system.Proc.{runnable, is_sleeping, Proc, Table, nproc}
use cs_1217_operating_system.Mlfq.{Kernel, enqueue, find_index}
use cs_1217_operating_system.Mlfq.Life.{wake_one, wakeup_from, wakeup, wake_parent, proc_addr}

-- Process `r` sleeps on the channel.
abbrev pub sleeps_on : ℕ → Proc → Bool
sleeps_on chan r = is_sleeping r.state && (r.chan == chan)

unfoldable pub woken : ℕ → Proc → Proc
woken chan r = if sleeps_on chan r then record r { state = runnable } else r

-- A loop that treats each index once, seen from one of them.
pub in_loop :
    {A : Type 0} (g : A → A) (x : A) (i k q : ℕ)
    → (if leb (i + 1) q && ltb q (i + 1 + k)
        then g (if i == q then g x else x)
        else (if i == q then g x else x))
      ≡ (if leb i q && ltb q (i + suc k) then g x else x)
in_loop g x i k q = ground arith

wake_one_sleeper :
    (chan p : ℕ) (s : Kernel)
    → sleeps_on chan (s.table p) ≡ true
    → (wake_one chan p s).table ≡ update s.table p (woken chan (s.table p))
unfolding wake_one woken enqueue
wake_one_sleeper chan p s h =
    elim (Option-cases (
      find_index (λ i. s.queue (s.table p).priority i == p) (s.count (s.table p).priority - 1) 0)) [
        | inl e ↦ rw (h, e, wake_one)
        | inr (i, e) ↦ rw (h, e, wake_one)
      ]

wake_one_other :
    (chan p : ℕ) (s : Kernel)
    → sleeps_on chan (s.table p) ≡ false
    → (wake_one chan p s ≡ s) × (woken chan (s.table p) ≡ s.table p)
unfolding wake_one woken
wake_one_other chan p s h = (rw (h, wake_one), rw h)

at_index :
    (t : Table) (p q : ℕ) (g : Proc → Proc)
    → update t p (g (t p)) q ≡ (if p == q then g (t q) else t q)
at_index t p q g = elim (ℕ_discrete p q) [ yes e ↦ rw e refl | no e ↦ rw (ne→false p q e) refl ]

table-wake_one :
    (chan p q : ℕ) (s : Kernel)
    → (wake_one chan p s).table q ≡ (if p == q then woken chan (s.table q) else s.table q)
table-wake_one chan p q s = elim (Bool-cases (sleeps_on chan (s.table p))) [
  | inl h ↦ rw (wake_one_sleeper chan p s h) (at_index s.table p q (woken chan))
  | inr h ↦ rw (wake_one_other chan p s h).0 (elim (ℕ_discrete p q) [
    | yes e ↦ rw (← e, ==_refl) (sym (wake_one_other chan p s h).1)
    | no e ↦ rw (ne→false p q e) refl
  ])
]

table-wakeup_from :
    (chan k i q : ℕ) (s : Kernel)
    → (wakeup_from chan k i s).table q
      ≡ (if leb i q && ltb q (i + k) then woken chan (s.table q) else s.table q)
unfolding wakeup_from
table-wakeup_from chan zero i q s =
    let e : (leb i q && ltb q (i + 0)) ≡ false = ground arith in rw e refl
table-wakeup_from chan (suc k) i q s =
    table-wakeup_from chan k (i + 1) q (wake_one chan i s)
    ∙ rw (table-wake_one chan i q s) (in_loop (woken chan) (s.table q) i k q)

-- `wakeup` makes every process of the table that sleeps on the channel runnable, and changes no
-- other process and nothing else about those.
pub table-wakeup :
    (chan q : ℕ) (s : Kernel)
    → (wakeup chan s).table q ≡ (if ltb q nproc then woken chan (s.table q) else s.table q)
unfolding wakeup
table-wakeup chan q s =
    let e : (leb 0 q && ltb q (0 + nproc)) ≡ ltb q nproc = ground arith in
    rw e at (table-wakeup_from chan nproc 0 q s)

initproc-wake_one : (chan p : ℕ) (s : Kernel) → (wake_one chan p s).initproc ≡ s.initproc
unfolding wake_one enqueue
initproc-wake_one chan p s = elim (Bool-cases (sleeps_on chan (s.table p))) [
  | inl h ↦
      elim (Option-cases (
        find_index (λ i. s.queue (s.table p).priority i == p) (s.count (s.table p).priority - 1)
          0)) [ inl e ↦ rw (h, e, wake_one) | inr (i, e) ↦ rw (h, e, wake_one) ]
  | inr h ↦ rw (h, wake_one)
]

initproc-wakeup_from : (chan k i : ℕ) (s : Kernel) → (wakeup_from chan k i s).initproc ≡ s.initproc
unfolding wakeup_from
initproc-wakeup_from chan zero i s = refl
initproc-wakeup_from chan (suc k) i s =
    initproc-wakeup_from chan k (i + 1) (wake_one chan i s) ∙ initproc-wake_one chan i s

pub initproc-wake_parent : (o : Option ℕ) (s : Kernel) → (wake_parent o s).initproc ≡ s.initproc
unfolding wakeup
initproc-wake_parent none s = initproc-wakeup_from 0 nproc 0 s
initproc-wake_parent (some p) s = initproc-wakeup_from (proc_addr p) nproc 0 s
