-- ===== src/Mlfq/Starve.antt =====
-- lab-2/proc_mlfq_v02.c: the scheduler's loop over the lowest level does not end while a process of
-- that level can run.
use cs_1217_operating_system.Base.{
  ℕ, zero, suc, ◌+◌, ◌-◌, ◌<◌, ◌≡◌, ◌≢◌, refl, sym, ap, ◌∙◌, Bool, true, false, ◌||◌, none, some,
  arith, ltb, ◌==◌, update, update_self, update_ne, Bool-cases, Option-cases, inl, inr, ℕ_discrete,
  ne→false, ==_refl, ==_iff, dec_lt, subst,
}
use mathlib.Core.Bool.{false≢true}
use cs_1217_operating_system.Base.Int.{ℤ, pos, ltb_ℤ, ◌-ℤ◌}
use cs_1217_operating_system.Proc.{
  running, runnable, is_runnable, Proc, nproc, find_proc, find_proc-some,
}
use cs_1217_operating_system.Mlfq.{
  Kernel, set_proc, enqueue, remove_at, find_index, find_index-some, find_index-none, same_pid,
  setpriority, change_priority, account, max_priority, default_budget, dispatch, step, steps, Pos,
  top, level, pass,
}
use cs_1217_operating_system.Mlfq.Queue.{shift_lem}

module _ (p : ℕ) where
  -- Process `p` can run, has the lowest priority, and shares its id with no other.
  pub record IsReady (s : Kernel) : Type 0 where
    pub ready : (s.table p).state ≡ runnable
    pub low : (s.table p).priority ≡ 0
    pub sole : (q : ℕ) → (s.table q).pid ≡ (s.table p).pid → q ≡ p

  -- It waits in the queue of its level.
  abbrev pub IsQueued : Kernel → Type 0
  IsQueued s = (i : ℕ) × (i < s.count 0) × (s.queue 0 i ≡ p)

  abbrev pub IsHog : Kernel → Type 0
  IsHog s = IsReady s × IsQueued s

  enqueue-IsQueued : (l q : ℕ) (s : Kernel) → IsQueued s → IsQueued (enqueue l q s)
  unfolding enqueue
  enqueue-IsQueued l q s (i, lt, e) = elim (ℕ_discrete l 0) [
    | yes z ↦ rw z (i, omega arith, update_ne (s.queue 0) (s.count 0) i q (omega arith) ∙ e)
    | no n ↦ rw (ne→false l 0 n) (i, lt, e)
  ]

  enqueue_self-IsQueued : (s : Kernel) → IsQueued (enqueue 0 p s)
  unfolding enqueue
  enqueue_self-IsQueued s = (s.count 0, omega arith, update_self (s.queue 0) (s.count 0) p)

  enqueue-IsReady : (l q : ℕ) (s : Kernel) → IsReady s → IsReady (enqueue l q s)
  unfolding enqueue
  enqueue-IsReady l q s r = record { ready = r.ready; low = r.low; sole = r.sole }

  remove_at-IsQueued :
      (k : ℕ) (s : Kernel)
      → k < s.count 0
      → s.queue 0 k ≢ p
      → IsQueued s
      → IsQueued (remove_at 0 k s)
  unfolding remove_at
  remove_at-IsQueued k s lt ne (i, h, e) = elim (dec_lt i k) [
    | yes before ↦ (i, omega arith, ground (arith, shift_lem (s.queue 0) (s.count 0 - 1 - k) k i))
    | no after ↦
        let far : k ≢ i = (λ same. ne (ap (s.queue 0) same ∙ e)) in
        let back : i - 1 + 1 ≡ i = omega arith in
        (i - 1, omega arith, ground (arith, shift_lem (s.queue 0) (s.count 0 - 1 - k) k (i - 1)))
  ]

  remove_at-IsReady : (k : ℕ) (s : Kernel) → IsReady s → IsReady (remove_at 0 k s)
  unfolding remove_at
  remove_at-IsReady k s r = record { ready = r.ready; low = r.low; sole = r.sole }

  -- A change to another process that keeps its id.
  set_proc-IsReady :
      (q : ℕ) (r : Proc) (s : Kernel)
      → q ≢ p
      → r.pid ≡ (s.table q).pid
      → IsReady s
      → IsReady (set_proc q r s)
  set_proc-IsReady q r s ne same h = record {
    ready = ap (λ (x : Proc). x.state) here ∙ h.ready;
    low = ap (λ (x : Proc). x.priority) here ∙ h.low;
    sole = λ m e. h.sole m (sym (pid_same m) ∙ e ∙ pid_same p);
  }
    where
      here : update s.table q r p ≡ s.table p
      here = update_ne s.table q p r ne

      pid_same : (m : ℕ) → (update s.table q r m).pid ≡ (s.table m).pid
      pid_same m = elim (ℕ_discrete q m) [
        | yes e ↦ rw (← e, ==_refl) same
        | no e ↦ rw (ne→false q m e) refl
      ]

  change_priority-IsReady :
      (q pid n : ℕ) (s : Kernel)
      → q ≢ p
      → pid ≡ (s.table q).pid
      → IsReady s
      → IsReady (change_priority pid n s)
  unfolding setpriority
  change_priority-IsReady q pid n s ne same_id h =
      elim (Bool-cases (ltb_ℤ (pos n) (pos 0) || ltb_ℤ (pos max_priority) (pos n))) [
        | inl bad ↦ rw (bad, setpriority) h
        | inr good ↦ elim (Option-cases (find_proc (same_pid (pos pid)) s.table nproc 0)) [
          | inl e ↦ rw (good, e, setpriority) h
          | inr (m, e) ↦
              rw (good, e, setpriority) (set_proc-IsReady m (changed m) s (other m e) refl h)
        ]
      ]
    where
      changed : ℕ → Proc
      changed m = record (s.table m) { priority = n; budget = pos default_budget }

      other : (m : ℕ) → find_proc (same_pid (pos pid)) s.table nproc 0 ≡ some m → m ≢ p
      other m e same =
          let hit : (s.table m).pid ≡ pid =
            (==_iff _ _).0 (find_proc-some (same_pid (pos pid)) s.table nproc 0 m e).2 in
          ne (h.sole q (sym same_id ∙ sym hit ∙ ap (λ k. (s.table k).pid) same))

  charge-IsReady :
      (b : ℤ) (s : Kernel) → IsReady s → IsReady (set_proc p (record (s.table p) { budget = b }) s)
  charge-IsReady b s h = record {
    ready = ap (λ (x : Proc). x.state) (update_self s.table p charged) ∙ h.ready;
    low = ap (λ (x : Proc). x.priority) (update_self s.table p charged) ∙ h.low;
    sole = λ m e. h.sole m (sym (pid_same m) ∙ e ∙ pid_same p);
  }
    where
      charged : Proc
      charged = record (s.table p) { budget = b }

      pid_same : (m : ℕ) → (update s.table p charged m).pid ≡ (s.table m).pid
      pid_same m = elim (ℕ_discrete p m) [
        | yes e ↦ rw (← e, ==_refl) refl
        | no e ↦ rw (ne→false p m e) refl
      ]

  -- It runs.
  pub record IsRunning (s : Kernel) : Type 0 where
    pub runs : (s.table p).state ≡ running
    pub low : (s.table p).priority ≡ 0
    pub sole : (q : ℕ) → (s.table q).pid ≡ (s.table p).pid → q ≡ p

  start-IsRunning :
      (s : Kernel) → IsReady s → IsRunning (set_proc p (record (s.table p) { state = running }) s)
  start-IsRunning s h = record {
    runs = ap (λ (x : Proc). x.state) (update_self s.table p started);
    low = ap (λ (x : Proc). x.priority) (update_self s.table p started) ∙ h.low;
    sole = λ m e. h.sole m (sym (pid_same m) ∙ e ∙ pid_same p);
  }
    where
      started : Proc
      started = record (s.table p) { state = running }

      pid_same : (m : ℕ) → (update s.table p started m).pid ≡ (s.table m).pid
      pid_same m = elim (ℕ_discrete p m) [
        | yes e ↦ rw (← e, ==_refl) refl
        | no e ↦ rw (ne→false p m e) refl
      ]

  module _ (run : ℕ → Kernel → Kernel) where
    account-IsHog : (q start : ℕ) (s : Kernel) → q ≢ p → IsHog s → IsHog (account run q start s)
    unfolding account
    account-IsHog q start s ne (r, w) = elim (Bool-cases (ltb_ℤ (pos 0) budget)) [
      | inl h ↦ rw (h, account) (queued (s.table q).priority charged charged-IsReady w)
      | inr h ↦ elim (Bool-cases (ltb 0 (s.table q).priority)) [
        | inl d ↦
            rw (h, d, account)
              (queued (demoted.table q).priority demoted
                (set_proc-IsReady q _ lowered ne refl (
                  change_priority-IsReady q (s.table q).pid ((s.table q).priority - 1) charged ne
                    (sym (ap (λ (x : Proc). x.pid) (update_self s.table q _))) charged-IsReady))
                w)
        | inr d ↦ rw (h, d, account) (queued (s.table q).priority charged charged-IsReady w)
      ]
    ]
      where
        budget : ℤ
        budget = (s.table q).budget -ℤ (pos s.ticks -ℤ pos start)

        charged : Kernel
        charged = set_proc q (record (s.table q) { budget = budget }) s

        lowered : Kernel
        lowered = change_priority (s.table q).pid ((s.table q).priority - 1) charged

        demoted : Kernel
        demoted =
            set_proc q (record (lowered.table q) { original_priority = (lowered.table q).priority })
              lowered

        charged-IsReady : IsReady charged
        charged-IsReady = set_proc-IsReady q _ s ne refl r

        queued : (l : ℕ) (t : Kernel) → IsReady t → IsQueued t → IsHog (enqueue l q t)
        queued l t rt wt = (enqueue-IsReady l q t rt, enqueue-IsQueued l q t wt)

    account_self-IsHog : (start : ℕ) (s : Kernel) → IsReady s → IsHog (account run p start s)
    unfolding account
    account_self-IsHog start s r = elim (Bool-cases (ltb_ℤ (pos 0) budget)) [
      | inl h ↦ rw (h, account) again
      | inr h ↦ rw (h, bottom, account) again
    ]
      where
        budget : ℤ
        budget = (s.table p).budget -ℤ (pos s.ticks -ℤ pos start)

        bottom : ltb 0 (s.table p).priority ≡ false
        bottom = rw r.low refl

        charged : Kernel
        charged = set_proc p (record (s.table p) { budget = budget }) s

        again : IsHog (enqueue (s.table p).priority p charged)
        again = (
          enqueue-IsReady (s.table p).priority p charged (charge-IsReady budget s r),
          subst (λ l. IsQueued (enqueue l p charged)) (sym r.low) (enqueue_self-IsQueued charged),
        )

    -- Whatever else runs leaves `p` waiting in its queue, and `p`, when it has run, comes back able
    -- to run and at the same priority: it computes, and neither sleeps nor exits.
    pub record IsBusy : Type 0 where
      pub others : (q : ℕ) (s : Kernel) → q ≢ p → IsHog s → IsHog (run q s)
      pub itself : (s : Kernel) → IsRunning s → IsReady (run p s)

    dispatch-IsHog :
        (busy : IsBusy) (j : ℕ) (s : Kernel) → j < s.count 0 → IsHog s → IsHog (dispatch run 0 j s)
    unfolding dispatch
    dispatch-IsHog busy j s lt (r, w) = elim (ℕ_discrete (s.queue 0 j) p) [
      | yes e ↦
          subst (λ q. IsHog (account run q s.ticks (run q (started q)))) (sym e)
            (account_self-IsHog s.ticks (run p (started p)) (busy.itself (started p) start_running))
      | no ne ↦ account-IsHog (s.queue 0 j) s.ticks (run (s.queue 0 j) (started (s.queue 0 j))) ne (
          busy.others (s.queue 0 j) (started (s.queue 0 j)) ne (
            set_proc-IsReady (s.queue 0 j) _ removed ne refl (remove_at-IsReady j s r),
            remove_at-IsQueued j s lt ne w,
          ))
    ]
      where
        removed : Kernel
        removed = remove_at 0 j s

        started : ℕ → Kernel
        started q = set_proc q (record (removed.table q) { state = running }) removed

        start_running : IsRunning (started p)
        start_running = start-IsRunning removed (remove_at-IsReady j s r)

    -- Where the scheduler stands while the process keeps it at the lowest level.
    abbrev Safe : Pos → Type 0
    Safe (level zero) = Unit
    Safe (pass zero k check) = check ≡ false → k ≡ 0
    Safe _ = ⊥

    level-Safe :
        (busy : IsBusy) (s : Kernel)
        → IsHog s
        → IsHog (step run (level 0, s)).1 × Safe (step run (level 0, s)).0
    unfolding step
    level-Safe busy s (r, (i, lt, e)) =
        let full : (s.count 0 == 0) ≡ false = ne→false (s.count 0) 0 (omega arith) in
        rw full ((r, (i, lt, e)), λ _. refl)

    abbrev can_run : Kernel → ℕ → Bool
    can_run s j = is_runnable (s.table (s.queue 0 j)).state

    found-Safe :
        (busy : IsBusy) (k j : ℕ) (s : Kernel)
        → IsHog s
        → find_index (can_run s) (s.count 0 - k) k ≡ some j
        → IsHog (dispatch run 0 j s) × Safe (pass 0 (j + 1) true)
    found-Safe busy k j s h e =
        let (lo, hi, _, _) = find_index-some (can_run s) (s.count 0 - k) k j e in
        (dispatch-IsHog busy j s (omega arith) h, λ t. absurd (false≢true (sym t)))

    scan-Safe :
        (busy : IsBusy) (k : ℕ) (check : Bool) (s : Kernel)
        → IsHog s
        → Safe (pass 0 k check)
        → IsHog (step run (pass 0 k check, s)).1 × Safe (step run (pass 0 k check, s)).0
    unfolding step
    scan-Safe busy k true s h safe =
        elim (Option-cases (find_index (can_run s) (s.count 0 - k) k)) [
          | inl e ↦ rw (e, step) (h, tt)
          | inr (j, e) ↦ rw (e, step) (found-Safe busy k j s h e)
        ]
    scan-Safe busy k false s h safe =
        elim (Option-cases (find_index (can_run s) (s.count 0 - k) k)) [
          | inl e ↦ absurd (waiting h e)
          | inr (j, e) ↦ rw (e, step) (found-Safe busy k j s h e)
        ]
      where
        waiting : IsHog s → find_index (can_run s) (s.count 0 - k) k ≡ none → ⊥
        waiting (r, (i, lt, q)) e =
            let start : k ≡ 0 = safe refl in
            let idle : can_run s i ≡ false =
              find_index-none (can_run s) (s.count 0 - k) k i e (omega arith) (omega arith) in
            let able : can_run s i ≡ true = rw (q, r.ready) refl in false≢true (sym idle ∙ able)

    step-Safe :
        (busy : IsBusy) (c : Pos × Kernel)
        → IsHog c.1 × Safe c.0
        → IsHog (step run c).1 × Safe (step run c).0
    step-Safe busy (top, s) (h, safe) = absurd safe
    step-Safe busy (level zero, s) (h, safe) = level-Safe busy s h
    step-Safe busy (level (suc i), s) (h, safe) = absurd safe
    step-Safe busy (pass zero k check, s) (h, safe) = scan-Safe busy k check s h safe
    step-Safe busy (pass (suc i) k check, s) (h, safe) = absurd safe

    steps-Safe :
        (busy : IsBusy) (n : ℕ) (c : Pos × Kernel)
        → IsHog c.1 × Safe c.0
        → IsHog (steps run n c).1 × Safe (steps run n c).0
    unfolding steps
    steps-Safe busy zero c h = h
    steps-Safe busy (suc n) c h = steps-Safe busy n (step run c) (step-Safe busy c h)

    -- The scheduler is in its loop over the lowest level.
    abbrev pub AtBottom : Pos → Type 0
    AtBottom (level zero) = Unit
    AtBottom (pass zero k check) = Unit
    AtBottom _ = ⊥

    -- Once the scheduler is at its lowest level while a process there computes without pause, it
    -- never leaves that level: after any number of steps it is still in the loop over level 0, so
    -- that it neither looks at a higher queue nor reaches the periodic promotion at the top of its
    -- loop, however long ago the promotion was due. The process shares its id with no other, and
    -- what else runs leaves it waiting in its queue.
    pub bottom_level_starves :
        IsBusy → (s : Kernel) (n : ℕ) → IsHog s → AtBottom (steps run n (level 0, s)).0
    bottom_level_starves busy s n h = bottom _ (steps-Safe busy n (level 0, s) (h, tt)).1
      where
        bottom : (c : Pos) → Safe c → AtBottom c
        bottom top safe = safe
        bottom (level zero) safe = tt
        bottom (level (suc i)) safe = safe
        bottom (pass zero k check) safe = tt
        bottom (pass (suc i) k check) safe = safe
