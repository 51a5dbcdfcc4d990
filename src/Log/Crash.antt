-- ===== src/Log/Crash.antt =====
-- assignment-3/log.c: a crash at any moment of a commit, and the recovery after it.
use cs_1217_operating_system.Base.{ℕ, ◌≡◌, ◌⊎◌, inl, inr, take, ◌∙◌, arith}
use cs_1217_operating_system.Log.{Disk, System, LogState, replay, commit}
use cs_1217_operating_system.Log.Transaction.{
  Transaction, transaction, IsReady, IsUnchanged, IsCommitted, IsRecoverable, EachPrefix-take,
}
use cs_1217_operating_system.Log.Commit.{commit_each, commit_done}
use cs_1217_operating_system.Log.Recover.{recovered, recovered_empty, recovered_logged}

recovered_recoverable :
    (t : Transaction) (r : LogState) (f : Disk)
    → IsReady t
    → IsRecoverable t f
    → IsUnchanged t (recovered t r f) ⊎ IsCommitted t (recovered t r f)
recovered_recoverable t r f ready (inl (z, u)) =
    inl (record {
      kept = λ b h. recovered_empty t r f (omega (arith, ready.fits)) z b h ∙ u.kept b h;
    })
recovered_recoverable t r f ready (inr (inl l)) = inr (recovered_logged t r f ready l)
recovered_recoverable t r f ready (inr (inr (z, c))) = inr (record {
  stored = λ i h.
      recovered_empty t r f (omega (arith, ready.fits)) z (t.block i) (ready.homes i h)
      ∙ c.stored i h;
  others = λ b h u. recovered_empty t r f (omega (arith, ready.fits)) z b h ∙ c.others b h u;
})

-- A crash after any number of the disk writes of a commit, followed by a reboot that runs the
-- recovery, leaves every block outside the log either as before the commit, or all of the
-- transaction's blocks as they were in the cache and every other block as before. The log is
-- assumed to have room for the transaction, to be empty on disk, and to share no block with it.
pub crash_atomic :
    (s : System) (d : Disk) (r : LogState) (k : ℕ)
    → IsReady (transaction s d)
    → let g = recovered (transaction s d) r (replay (take k (commit s).1) d) in
      IsUnchanged (transaction s d) g ⊎ IsCommitted (transaction s d) g
crash_atomic s d r k ready =
    recovered_recoverable (transaction s d) r _ ready
      (EachPrefix-take (IsRecoverable (transaction s d)) k (commit s).1 d (commit_each s d ready))

-- Once a commit has returned, every block of the transaction is on the disk, no other block
-- outside the log has changed, and so it stays when the machine is reset and the log recovered.
-- The assumptions are those of the crash theorem.
pub commit_durable :
    (s : System) (d : Disk) (r : LogState)
    → IsReady (transaction s d)
    → let f = replay (commit s).1 d in
      IsCommitted (transaction s d) f
      × IsCommitted (transaction s d) (recovered (transaction s d) r f)
commit_durable s d r ready = (
  c,
  record {
    stored = λ i h.
        recovered_empty t r f (omega (arith, ready.fits)) z (s.log.lh.block i) (ready.homes i h)
        ∙ c.stored i h;
    others = λ b h u. recovered_empty t r f (omega (arith, ready.fits)) z b h ∙ c.others b h u;
  },
)
  where
    t : Transaction
    t = transaction s d

    f : Disk
    f = replay (commit s).1 d

    z : f s.log.start 0 ≡ 0
    z = (commit_done s d ready).0

    c : IsCommitted (transaction s d) f
    c = (commit_done s d ready).1
