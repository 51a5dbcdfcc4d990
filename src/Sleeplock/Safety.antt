-- ===== src/Sleeplock/Safety.antt =====
-- assignment-3/sleeplock.c: who holds a sleep lock, and who sleeps on it.
use cs_1217_operating_system.Base.{
  ℕ, ◌≡◌, ◌≢◌, refl, sym, ap, subst, ◌∙◌, Bool, true, false, ◌&&◌, ◌==◌, if◌then◌else◌, update,
  update_self, update_ne, ℕ_discrete, ==_refl, ne→false, arith,
}
use mathlib.Core.Bool.{true≢false}
use cs_1217_operating_system.Sleeplock.{
  SleepLock, asleep, acquired, acquiresleep, releasesleep, holdingsleep, initsleeplock, Phase, away,
  sleeping, woken, inside, System, after_turn, rouse, Step, begins, retries, leaves, start, Reach,
  at_start, then_,
}

abbrev is_inside : Phase → Bool
is_inside inside = true
is_inside away = false
is_inside sleeping = false
is_inside woken = false

abbrev is_sleeping : Phase → Bool
is_sleeping sleeping = true
is_sleeping away = false
is_sleeping woken = false
is_sleeping inside = false

-- A process has the lock exactly when the lock names it, and the lock is held while anyone sleeps on it.
pub record IsFair (s : System) : Type 0 where
  pub holder : (p : ℕ) → is_inside (s.phase p) ≡ holdingsleep p s.lock
  pub sleepers : (p : ℕ) → s.phase p ≡ sleeping → s.lock.locked ≡ true

start-IsFair : IsFair start
unfolding holdingsleep initsleeplock
start-IsFair = record { holder = λ p. refl; sleepers = λ p e. ap is_sleeping e }

-- A turn of a process that is not inside
turn-IsFair :
    (p : ℕ) (s : System)
    → is_inside (s.phase p) ≡ false
    → IsFair s
    → IsFair (after_turn p (acquiresleep p s.lock) s)
unfolding acquiresleep holdingsleep
turn-IsFair p s out f = from_test s.lock.locked refl
  where
    from_test :
        (t : Bool)
        → s.lock.locked ≡ t
        → IsFair
            (after_turn p (if t then asleep else acquired (record { locked = true; pid = p })) s)
    from_test true e = record {
      holder = λ q. elim (ℕ_discrete p q) [
        | yes same ↦
            subst (λ x. is_inside (update s.phase p sleeping x) ≡ holdingsleep x s.lock) same
              (ap is_inside (update_self s.phase p sleeping) ∙ sym out ∙ f.holder p)
        | no ne ↦ ap is_inside (update_ne s.phase p q sleeping ne) ∙ f.holder q
      ];
      sleepers = λ q h. e;
    }
    from_test false e = record {
      holder = λ q. elim (ℕ_discrete p q) [
        | yes same ↦
            subst (λ x. is_inside (update s.phase p inside x) ≡ (p == x)) same
              (ap is_inside (update_self s.phase p inside) ∙ sym (==_refl p))
        | no ne ↦
            ap is_inside (update_ne s.phase p q inside ne)
            ∙ f.holder q
            ∙ ap (λ t. t && (s.lock.pid == q)) e
            ∙ sym (ne→false p q ne)
      ];
      sleepers = λ q h. refl;
    }

rouse-inside : (x : Phase) → is_inside (rouse x) ≡ is_inside x
rouse-inside away = refl
rouse-inside sleeping = refl
rouse-inside woken = refl
rouse-inside inside = refl

rouse-sleeping : (x : Phase) → is_sleeping (rouse x) ≡ false
rouse-sleeping away = refl
rouse-sleeping sleeping = refl
rouse-sleeping woken = refl
rouse-sleeping inside = refl

-- Only the process that the lock names holds it.
holdingsleep_pid : (p : ℕ) (l : SleepLock) → holdingsleep p l ≡ true → l.pid ≡ p
unfolding holdingsleep
holdingsleep_pid p l e = ground (arith, e)

not_held : (q pid : ℕ) (t : Bool) → pid ≢ q → (t && (pid == q)) ≡ false
not_held q pid true ne = ne→false pid q ne
not_held q pid false ne = refl

leave-IsFair :
    (p : ℕ) (s : System)
    → s.phase p ≡ inside
    → IsFair s
    → IsFair (record { lock = releasesleep s.lock; phase = λ q. rouse (update s.phase p away q) })
unfolding releasesleep holdingsleep
leave-IsFair p s at f =
    let mine : s.lock.pid ≡ p = holdingsleep_pid p s.lock (sym (f.holder p) ∙ ap is_inside at) in
    record {
      holder = λ q. rouse-inside (update s.phase p away q) ∙ elim (ℕ_discrete p q) [
        | yes same ↦
            subst (λ x. is_inside (update s.phase p away x) ≡ false) same
              (ap is_inside (update_self s.phase p away))
        | no ne ↦
            ap is_inside (update_ne s.phase p q away ne)
            ∙ f.holder q
            ∙ not_held q s.lock.pid s.lock.locked (λ e. ne (sym mine ∙ e))
      ];
      sleepers = λ q e.
          absurd (true≢false (sym (ap is_sleeping e) ∙ rouse-sleeping (update s.phase p away q)));
    }

Step-IsFair : (s s' : System) → Step s s' → IsFair s → IsFair s'
Step-IsFair _ _ (begins p s e) f = turn-IsFair p s (ap is_inside e) f
Step-IsFair _ _ (retries p s e) f = turn-IsFair p s (ap is_inside e) f
Step-IsFair _ _ (leaves p s e) f = leave-IsFair p s e f

reach-IsFair : (s : System) → Reach s → IsFair s
reach-IsFair _ at_start = start-IsFair
reach-IsFair _ (then_ s s' r t) = Step-IsFair s s' t (reach-IsFair s r)

-- What holds of a sleep lock at any time
pub record IsSafe (s : System) : Type 0 where
  pub alone : (p q : ℕ) → s.phase p ≡ inside → s.phase q ≡ inside → p ≡ q
  pub answers : (p : ℕ) → is_inside (s.phase p) ≡ holdingsleep p s.lock
  pub no_lost_wakeup : (p : ℕ) → s.phase p ≡ sleeping → s.lock.locked ≡ true

-- After any steps of any processes, of which only the holder releases the lock, at most one process holds the sleep
-- lock, `holdingsleep` tells each process whether it does, and no process sleeps while the lock is free.
pub sleeplock-IsSafe : (s : System) → Reach s → IsSafe s
sleeplock-IsSafe s r =
    let f = reach-IsFair s r in
    record {
      alone = λ p q ep eq.
          sym (holdingsleep_pid p s.lock (sym (f.holder p) ∙ ap is_inside ep))
          ∙ holdingsleep_pid q s.lock (sym (f.holder q) ∙ ap is_inside eq);
      answers = f.holder;
      no_lost_wakeup = f.sleepers;
    }
