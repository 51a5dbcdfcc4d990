-- ===== src/Mlfq/Priority.antt =====
-- lab-2/proc_mlfq_v02.c: `setpriority` and `getpriority`, and the queue that `wakeup1` puts a process in.
use cs_1217_operating_system.Base.{
  ℕ, zero, suc, ◌+◌, ◌-◌, ◌≤◌, ◌<◌, ◌≡◌, ◌≢◌, refl, sym, ap, ◌∙◌, Bool, true, false, ◌||◌, none,
  some, [], ◌∷◌, ◌++◌, arith, ◌==◌, if◌then◌else◌, update, Bool-cases, Option-cases, inl, inr,
  ℕ_discrete, ne→false, ==_refl, ==_iff,
}
use mathlib.Core.Bool.{false≢true}
use cs_1217_operating_system.Base.Int.{ℤ, pos, minus_one, ltb_ℤ}
use cs_1217_operating_system.Proc.{
  is_unused, runnable, Proc, Table, nproc, find_proc, find_proc-some,
}
use cs_1217_operating_system.Mlfq.{
  Kernel, set_proc, find_index, find_index-some, same_pid, setpriority, getpriority, max_priority,
  default_budget,
}
use cs_1217_operating_system.Mlfq.Queue.{contents, contents-enqueue}
use cs_1217_operating_system.Mlfq.Life.{wake_one}
use cs_1217_operating_system.Mlfq.Life.Transitions.{sleeps_on}

find_proc_ext :
    (test : Proc → Bool) (t u : Table) (k i : ℕ)
    → ((q : ℕ) → test (t q) ≡ test (u q))
    → find_proc test t k i ≡ find_proc test u k i
unfolding find_proc
find_proc_ext test t u zero i h = refl
find_proc_ext test t u (suc k) i h = rw (h i, find_proc_ext test t u k (i + 1) h)

-- The record that `setpriority` stores.
abbrev pub raised : ℕ → Proc → Proc
raised n r = record r { priority = n; budget = pos default_budget }

setpriority_success :
    (pid n : ℕ) (t : Table) {u : Table}
    → setpriority (pos pid) (pos n) t ≡ (pos 0, u)
    → (n ≤ max_priority)
      × ((p : ℕ) × (find_proc (same_pid (pos pid)) t nproc 0 ≡ some p)
          × (u ≡ update t p (raised n (t p))))
unfolding setpriority
setpriority_success pid n t {u} e =
    elim (Bool-cases (ltb_ℤ (pos n) (pos 0) || ltb_ℤ (pos max_priority) (pos n))) [
      | inl bad ↦
          let e' : ◌≡◌ {A = ℤ × Table} (minus_one, t) (pos 0, u) = rw (bad, setpriority) at e in cc
      | inr good ↦ elim (Option-cases (find_proc (same_pid (pos pid)) t nproc 0)) [
        | inl miss ↦
            let e' : ◌≡◌ {A = ℤ × Table} (minus_one, t) (pos 0, u) =
              rw (good, miss, setpriority) at e in
            cc
        | inr (p, hit) ↦
            let e' : ◌≡◌ {A = ℤ × Table} (pos 0, update t p (raised n (t p))) (pos 0, u) =
              rw (good, hit, setpriority) at e in
            (ground arith, (p, hit, sym (ap (λ (x : ℤ × Table). x.1) e')))
      ]
    ]

-- A successful `setpriority` changes one process, the first with that id, whose priority becomes
-- the one given, at most MAXPRIORITY, and whose budget is full again; `getpriority` then answers that
-- priority, unless the process is unused, when it answers -1.
pub getpriority-setpriority :
    (pid n : ℕ) (t : Table) {u : Table}
    → setpriority (pos pid) (pos n) t ≡ (pos 0, u)
    → (n ≤ max_priority)
      × ((p : ℕ) × (p < nproc)
          × ((t p).pid ≡ pid)
          × (u ≡ update t p (raised n (t p)))
          × (getpriority (pos pid) u ≡ (if is_unused (t p).state then minus_one else pos n)))
unfolding getpriority
getpriority-setpriority pid n t {u} e =
    let (le, (p, hit, same)) = setpriority_success pid n t e in
    let (_, lt, passes, _) = find_proc-some (same_pid (pos pid)) t nproc 0 p hit in
    (le, (p, omega arith, (==_iff _ _).0 passes, same, rw same (answer p hit)))
  where
    answer :
        (p : ℕ)
        → find_proc (same_pid (pos pid)) t nproc 0 ≡ some p
        → getpriority (pos pid) (update t p (raised n (t p)))
          ≡ (if is_unused (t p).state then minus_one else pos n)
    answer p hit =
        let again : find_proc (same_pid (pos pid)) (update t p (raised n (t p))) nproc 0 ≡ some p =
          sym (
            find_proc_ext (same_pid (pos pid)) t (update t p (raised n (t p))) nproc 0 (same_ids p))
          ∙ hit in
        rw (again, getpriority) (rw (==_refl p) refl)
      where
        same_ids :
            (p q : ℕ)
            → same_pid (pos pid) (t q) ≡ same_pid (pos pid) (update t p (raised n (t p)) q)
        same_ids p q = elim (ℕ_discrete p q) [
          | yes r ↦ rw (r, ==_refl) refl
          | no r ↦ rw (ne→false p q r) refl
        ]

not_before :
    (test : ℕ → Bool) (n : ℕ) → ((i : ℕ) → i < n → test i ≡ false) → find_index test n 0 ≡ none
not_before test n h = elim (Option-cases (find_index test n 0)) [
  | inl e ↦ e
  | inr (j, e) ↦
      let (_, lt, hit, _) = find_index-some test n 0 j e in
      absurd (false≢true (sym (h j (omega arith)) ∙ hit))
]

-- A process that sleeps as the last entry of its queue, and nowhere before, is queued a second
-- time when it is woken: the search that is to prevent this stops one entry short.
pub wake_duplicates :
    (chan p : ℕ) (s : Kernel)
    → sleeps_on chan (s.table p) ≡ true
    → 0 < s.count (s.table p).priority
    → s.queue (s.table p).priority (s.count (s.table p).priority - 1) ≡ p
    → ((i : ℕ) → i < s.count (s.table p).priority - 1 → s.queue (s.table p).priority i ≢ p)
    → contents (wake_one chan p s) (s.table p).priority
      ≡ contents s (s.table p).priority ++ (p ∷ [])
unfolding wake_one
wake_duplicates chan p s asleep some_ last_ before =
    rw (asleep, missed, wake_one)
      (contents-enqueue (set_proc p (record (s.table p) { state = runnable }) s)
          (s.table p).priority p (s.table p).priority
        ∙ rw (==_refl (s.table p).priority) refl)
  where
    missed :
        find_index (λ i. s.queue (s.table p).priority i == p) (s.count (s.table p).priority - 1) 0
        ≡ none
    missed = not_before _ _ (λ i lt. ne→false _ p (before i lt))
