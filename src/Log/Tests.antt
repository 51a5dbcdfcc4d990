-- ===== src/Log/Tests.antt =====
-- assignment-3/log.c: runs of the log on small states.
use cs_1217_operating_system.Base.{
  ℕ, ◌≤◌, ◌<◌, ◌+◌, ◌≡◌, ◌≢◌, ◌⊎◌, inr, refl, false, true, none, some, [], ◌∷◌, arith, take, update,
}
use cs_1217_operating_system.Base.Int.{pos}
use cs_1217_operating_system.Log.{Disk, LogState, System, replay, commit, max_op_blocks, log_size}
use cs_1217_operating_system.Log.Transaction.{transaction, IsReady, IsUnchanged, IsCommitted}
use cs_1217_operating_system.Log.Recover.{recovered}
use cs_1217_operating_system.Log.Crash.{crash_atomic, commit_durable}
use cs_1217_operating_system.Log.Ops.{
  find_block, log_write, log_write_lem, IsEntry, IsDistinct, IsPinned, begin_op, leave_op,
}
use cs_1217_operating_system.Log.Space.{calls_safe, Reach, start, later, begins, quiet}

-- A log at block 2 that holds block 50.
abbrev one_block : LogState
one_block = record {
  start = 2;
  size = 31;
  outstanding = pos 1;
  committing = false;
  lh = record { n = 1; block = λ _. 50 };
}

abbrev one_write : System
one_write = record { log = one_block; view = λ b w. b + w; dirty = λ b. true }

abbrev empty_disk : Disk
empty_disk b w = 0

one_write-IsReady : IsReady (transaction one_write empty_disk)
one_write-IsReady = record { fits = omega arith; homes = λ i h. inr (omega arith); idle = refl }

-- After two of the writes, the header is on disk.
crash_atomic_example :
    IsUnchanged (transaction one_write empty_disk) (
      recovered
        (transaction one_write empty_disk)
        one_block
        (replay (take 2 (commit one_write).1) empty_disk))
    ⊎ IsCommitted (transaction one_write empty_disk) (
        recovered
          (transaction one_write empty_disk)
          one_block
          (replay (take 2 (commit one_write).1) empty_disk))
crash_atomic_example = crash_atomic one_write empty_disk one_block 2 one_write-IsReady

commit_durable_example :
    IsCommitted (transaction one_write empty_disk) (replay (commit one_write).1 empty_disk)
    × IsCommitted (transaction one_write empty_disk) (
        recovered
          (transaction one_write empty_disk)
          one_block
          (replay (commit one_write).1 empty_disk))
commit_durable_example = commit_durable one_write empty_disk one_block one_write-IsReady

-- The state that a `log_write` of block 51 leaves.
abbrev after_write : System
after_write = record one_write {
  log = record one_block { lh = record { n = 2; block = update (λ _. 50) 1 51 } };
  dirty = update (λ b. true) 51 true;
}

log_write-one_write : log_write 51 one_write ≡ some after_write
unfolding log_write find_block
log_write-one_write = refl

one_write-IsDistinct : IsDistinct one_write.log.lh
one_write-IsDistinct i j hi hj e = omega arith

one_write-IsPinned : IsPinned one_write
one_write-IsPinned i h = refl

log_write_lem_example :
    IsEntry after_write.log.lh 51
    × ((c : ℕ) → IsEntry one_write.log.lh c → IsEntry after_write.log.lh c)
    × ((c : ℕ) → IsEntry after_write.log.lh c → (c ≡ 51) ⊎ IsEntry one_write.log.lh c)
    × IsDistinct after_write.log.lh
    × IsPinned after_write
    × (2 ≤ 1 + 1)
log_write_lem_example =
    log_write_lem 51 one_write one_write-IsDistinct one_write-IsPinned log_write-one_write

abbrev fresh : System
fresh = record one_write {
  log = record one_block { outstanding = pos 0; lh = record { n = 0; block = λ _. 0 } };
}

abbrev begun : LogState
begun = record one_block { outstanding = pos 1; lh = record { n = 0; block = λ _. 0 } }

begin_op-fresh : begin_op fresh.log ≡ some begun
unfolding begin_op
begin_op-fresh = refl

one_call-Reach :
    Reach 31 (record { sys = record fresh { log = begun }; used = 0 ∷ []; phase = quiet })
one_call-Reach =
    later {c = record { sys = fresh; used = []; phase = quiet }}
      (start (record {
        size_is = refl;
        none_out = refl;
        idle = refl;
        empty = refl;
        no_calls = refl;
        calm = refl;
      }))
      (begins begin_op-fresh)

calls_safe_example :
    ((quiet ≡ quiet)
      × (0 < max_op_blocks → log_size < 31 → log_write 7 (record fresh { log = begun }) ≢ none)
      × (leave_op begun ≢ none))
calls_safe_example = calls_safe [] [] 0 7 one_call-Reach refl
