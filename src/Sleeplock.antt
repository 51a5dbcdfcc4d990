-- ===== src/Sleeplock.antt =====
-- assignment-3/sleeplock.c: sleep locks. Each function is one critical section of the lock's spin lock `lk`, but that
-- `sleep` gives it up: `acquiresleep` is then a turn of its loop, which another turn follows after a wakeup.
pub mod Safety
mod Tests
use cs_1217_operating_system.Base.{ℕ, ◌≡◌, Bool, true, false, ◌&&◌, ◌==◌, if◌then◌else◌, update}

-- `struct sleeplock`, less its spin lock and name
pub record SleepLock : Type 0 where
  pub locked : Bool
  pub pid : ℕ

-- `initsleeplock`
unfoldable pub initsleeplock : SleepLock
initsleeplock = record { locked = false; pid = 0 }

-- How a turn of the loop of `acquiresleep` ends
pub data Turn : Type 0 where
  asleep : Turn
  acquired : SleepLock → Turn

-- `acquiresleep` by the process `pid`, up to a `sleep`
unfoldable pub acquiresleep : ℕ → SleepLock → Turn
acquiresleep pid l = if l.locked then asleep else acquired (record { locked = true; pid = pid })

-- `releasesleep`, less its `wakeup`
unfoldable pub releasesleep : SleepLock → SleepLock
releasesleep l = record { locked = false; pid = 0 }

-- `holdingsleep` by the process `pid`
unfoldable pub holdingsleep : ℕ → SleepLock → Bool
holdingsleep pid l = l.locked && (l.pid == pid)

-- Where a process is: it has not called, is asleep on the lock, has been woken, or has returned with the lock.
pub data Phase : Type 0 where
  away sleeping woken inside : Phase

-- The lock, and the phase of each process by its number
pub record System : Type 0 where
  pub lock : SleepLock
  pub phase : ℕ → Phase

-- A process after its turn
abbrev pub after_turn : ℕ → Turn → System → System
after_turn p asleep s = record s { phase = update s.phase p sleeping }
after_turn p (acquired l) s = record { lock = l; phase = update s.phase p inside }

-- `wakeup` of all that sleep on the lock
abbrev pub rouse : Phase → Phase
rouse away = away
rouse sleeping = woken
rouse woken = woken
rouse inside = inside

-- The processes' steps. Only the holder releases the lock, as the callers see to.
pub data Step : System → System → Type 0 where
  begins : (p : ℕ) (s : System) → s.phase p ≡ away → Step s (after_turn p (acquiresleep p s.lock) s)
  retries :
      (p : ℕ) (s : System) → s.phase p ≡ woken → Step s (after_turn p (acquiresleep p s.lock) s)
  leaves :
      (p : ℕ) (s : System)
      → s.phase p ≡ inside
      → Step s (record { lock = releasesleep s.lock; phase = λ q. rouse (update s.phase p away q) })

abbrev pub start : System
start = record { lock = initsleeplock; phase = λ p. away }

-- The states that steps lead to
pub data Reach : System → Type 0 where
  at_start : Reach start
  then_ : (s s' : System) → Reach s → Step s s' → Reach s'
