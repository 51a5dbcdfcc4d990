-- ===== src/Sleeplock/Tests.antt =====
-- assignment-3/sleeplock.c: runs of the lock.
use cs_1217_operating_system.Base.{◌≡◌, refl}
use cs_1217_operating_system.Sleeplock.{
  acquiresleep, initsleeplock, System, after_turn, begins, start, Reach, at_start, then_,
}
use cs_1217_operating_system.Sleeplock.Safety.{IsSafe, sleeplock-IsSafe}

-- Process 4 takes the lock, and process 7 waits for it.
abbrev taken : System
taken = after_turn 4 (acquiresleep 4 start.lock) start

abbrev contended : System
contended = after_turn 7 (acquiresleep 7 taken.lock) taken

away_still : taken.phase 7 ≡ start.phase 7
unfolding acquiresleep initsleeplock
away_still = refl

contended-Reach : Reach contended
contended-Reach =
    then_ taken contended (then_ start taken at_start (begins 4 start refl))
      (begins 7 taken away_still)

sleeplock-IsSafe_example : IsSafe contended
sleeplock-IsSafe_example = sleeplock-IsSafe contended contended-Reach
