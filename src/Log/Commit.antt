-- ===== src/Log/Commit.antt =====
-- assignment-3/log.c: the disk after each write of `commit`.
use cs_1217_operating_system.Base.{
  ℕ, ◌+◌, ◌-◌, ◌<◌, ◌≡◌, ◌≢◌, inl, inr, refl, sym, ap, ◌∙◌, List, [], ◌∷◌, ◌++◌, All, update,
  update_self, update_ne, arith, false, lt→ltb, ==_refl, dec_lt,
}
use cs_1217_operating_system.Log.{
  Block, Disk, Write, System, replay, copy_loop, write_log, write_head, install_trans, commit,
  head_block,
}
use cs_1217_operating_system.Log.Copy.{
  Sound, IsCopy, log-copy_loop, view-copy_loop, view-copy_loop-Untouched, writes-copy_loop,
  replay-copy_loop,
}
use cs_1217_operating_system.Log.Header.{head_block_count, head_block_entry}
use cs_1217_operating_system.Log.Transaction

module _ (s : System) (d : Disk) (ready : Transaction.IsReady (Transaction.transaction s d)) where
  open ready use {fits, homes, idle}

  abbrev t : Transaction.Transaction
  t = Transaction.transaction s d

  abbrev start : ℕ
  start = s.log.start

  abbrev n : ℕ
  n = s.log.lh.n

  abbrev block : ℕ → ℕ
  block = s.log.lh.block

  abbrev slot : ℕ → ℕ
  slot i = start + i + 1

  -- What log block `b` is to hold.
  abbrev slot_target : ℕ → Block
  slot_target b = s.view (block (b - start - 1))

  slot_target_lem : (i : ℕ) → slot_target (slot i) ≡ s.view (block i)
  slot_target_lem i = let e : slot i - start - 1 ≡ i = omega arith in ap (λ j. s.view (block j)) e

  Home-ne-slot : (b i : ℕ) → i < n → Transaction.Home t b → b ≢ slot i
  Home-ne-slot b i h p = omega arith

  Home-ne-start : (b : ℕ) → Transaction.Home t b → start ≢ b
  Home-ne-start b p = omega arith

  write_log-Sound : Sound block slot slot_target 0 n s
  write_log-Sound = record {
    apart = λ i j p q e. Home-ne-slot (block i) j (omega arith) (homes i (omega arith)) (sym e);
    holds = λ i p. sym (slot_target_lem i);
  }

  -- The state after `write_log`.
  abbrev logged : System
  logged = (copy_loop block slot n 0 s).0

  abbrev log_writes : List Write
  log_writes = (copy_loop block slot n 0 s).1

  log-logged : logged.log ≡ s.log
  log-logged = log-copy_loop block slot n 0 s

  log_writes-IsCopy : All (IsCopy slot_target slot 0 n) log_writes
  log_writes-IsCopy = writes-copy_loop block slot slot_target n 0 s write_log-Sound

  logged-slot : (i : ℕ) → i < n → logged.view (slot i) ≡ s.view (block i)
  logged-slot i h =
      view-copy_loop block slot slot_target n 0 s i write_log-Sound (omega arith)
      ∙ slot_target_lem i

  logged-Home : (b : ℕ) → Transaction.Home t b → logged.view b ≡ s.view b
  logged-Home b h =
      view-copy_loop-Untouched block slot n 0 s b
        (λ i p e. Home-ne-slot b i (omega arith) h (sym e))

  -- The disk then.
  abbrev disk_logged : Disk
  disk_logged = replay log_writes d

  disk_logged-slot : (i : ℕ) → i < n → disk_logged (slot i) ≡ s.view (block i)
  disk_logged-slot i h =
      replay-copy_loop block slot slot_target n 0 s d i write_log-Sound (omega arith)
      ∙ slot_target_lem i

  disk_logged_keep :
      (f : Disk) (w : Write)
      → IsCopy slot_target slot 0 n w
      → (f start 0 ≡ 0) × Transaction.IsUnchanged t f
      → (update f w.0 w.1 start 0 ≡ 0) × Transaction.IsUnchanged t (update f w.0 w.1)
  disk_logged_keep f (c, v) q (z, u) = (
    rw (update_ne f c start v (λ e. absurd (omega arith))) z,
    record {
      kept = λ b h.
          update_ne f c b v (λ e. Home-ne-slot b q.0.0 (omega arith) h (sym e ∙ q.0.2))
          ∙ u.kept b h;
    },
  )

  write_log_each :
      Transaction.EachPrefix (λ f. (f start 0 ≡ 0) × Transaction.IsUnchanged t f) log_writes d
      × ((disk_logged start 0 ≡ 0) × Transaction.IsUnchanged t disk_logged)
  write_log_each =
      Transaction.EachPrefix-stable _ (IsCopy slot_target slot 0 n) disk_logged_keep log_writes d
        log_writes-IsCopy (idle, record { kept = λ b h. refl })

  -- After the header is written, the point of commitment.
  abbrev header : Block
  header = head_block s.log.lh (logged.view start)

  abbrev recorded : System
  recorded = record {
    log = s.log;
    view = update logged.view start header;
    dirty = update logged.dirty start false;
  }

  abbrev disk_recorded : Disk
  disk_recorded = update disk_logged start header

  disk_recorded-IsLogged : Transaction.IsLogged t disk_recorded
  disk_recorded-IsLogged = record {
    count = rw (update_self disk_logged start header) (head_block_count s.log.lh _);
    entries = λ i h. rw (update_self disk_logged start header) (head_block_entry s.log.lh _ i h);
    slots = λ i h. update_ne disk_logged start (slot i) header (omega arith) ∙ disk_logged-slot i h;
    others = λ b h u.
        update_ne disk_logged start b header (Home-ne-start b h) ∙ write_log_each.1.1.kept b h;
  }

  install-Sound : Sound slot block s.view 0 n recorded
  install-Sound = record {
    apart = λ i j p q. Home-ne-slot (block j) i (omega arith) (homes j (omega arith));
    holds = λ i p.
        update_ne logged.view start (slot i) header (omega arith) ∙ logged-slot i (omega arith);
  }

  abbrev installed : System
  installed = (copy_loop slot block n 0 recorded).0

  abbrev install_writes : List Write
  install_writes = (copy_loop slot block n 0 recorded).1

  abbrev disk_installed : Disk
  disk_installed = replay install_writes disk_recorded

  install_keep :
      (f : Disk) (w : Write)
      → IsCopy s.view block 0 n w
      → Transaction.IsLogged t f
      → Transaction.IsLogged t (update f w.0 w.1)
  install_keep f (c, v) ((j, p, e), q) l = record {
    count = rw (update_ne f c start v c-ne-start) l.count;
    entries = λ i h. rw (update_ne f c start v c-ne-start) (l.entries i h);
    slots = λ i h.
        update_ne f c (slot i) v (λ r. Home-ne-slot (block j) i h c-home (sym e ∙ r)) ∙ l.slots i h;
    others = λ b h u. update_ne f c b v (λ r. u j (omega arith) (sym e ∙ r)) ∙ l.others b h u;
  }
    where
      c-home : Transaction.Home t (block j)
      c-home = homes j (omega arith)

      c-ne-start : c ≢ start
      c-ne-start r = Home-ne-start (block j) c-home (sym r ∙ e)

  install_each :
      Transaction.EachPrefix (Transaction.IsLogged t) install_writes disk_recorded
      × Transaction.IsLogged t disk_installed
  install_each =
      Transaction.EachPrefix-stable _ (IsCopy s.view block 0 n) install_keep install_writes
        disk_recorded (writes-copy_loop slot block s.view n 0 recorded install-Sound)
        disk_recorded-IsLogged

  disk_installed-block : (i : ℕ) → i < n → disk_installed (block i) ≡ s.view (block i)
  disk_installed-block i h =
      replay-copy_loop slot block s.view n 0 recorded disk_recorded i install-Sound (omega arith)

  -- After the header is cleared.
  abbrev cleared : Block
  cleared = head_block (record (s.log.lh) { n = 0 }) (installed.view start)

  abbrev disk_cleared : Disk
  disk_cleared = update disk_installed start cleared

  pub disk_cleared-IsCommitted : (disk_cleared start 0 ≡ 0) × Transaction.IsCommitted t disk_cleared
  disk_cleared-IsCommitted = (
    rw (update_self disk_installed start cleared) (head_block_count _ _),
    record {
      stored = λ i h.
          update_ne disk_installed start (block i) cleared (Home-ne-start (block i) (homes i h))
          ∙ disk_installed-block i h;
      others = λ b h u.
          update_ne disk_installed start b cleared (Home-ne-start b h)
          ∙ install_each.1.others b h u;
    },
  )

  commit_writes :
      0 < n
      → (commit s).1 ≡ log_writes ++ ((start, header) ∷ (install_writes ++ ((start, cleared) ∷ [])))
  unfolding commit write_log write_head install_trans
  commit_writes h = rw (lt→ltb 0 n h) (simp (log-copy_loop, ==_refl))

  commit_nothing : ¬ (0 < n) → (commit s).1 ≡ []
  unfolding commit
  commit_nothing h = ground arith

  -- After every write of `commit` the disk can be recovered.
  pub commit_each : Transaction.EachPrefix (Transaction.IsRecoverable t) (commit s).1 d
  commit_each = elim (dec_lt 0 n) [
    | yes h ↦ rw (commit_writes h) (
        Transaction.EachPrefix-append _ log_writes _ d
          (Transaction.EachPrefix-map _ _ (λ f p. inl p) log_writes d write_log_each.0)
          (
            inl write_log_each.1,
            Transaction.EachPrefix-append _ install_writes _ disk_recorded
                (Transaction.EachPrefix-map _ _ (λ f p. inr (inl p)) install_writes disk_recorded
                  install_each.0)
                (inr (inl install_each.1), inr (inr disk_cleared-IsCommitted)),
          ))
    | no h ↦ rw (commit_nothing h) (inl (idle, record { kept = λ b p. refl }))
  ]

  -- Once `commit` has returned, the transaction is on the disk and the log is empty.
  pub commit_done :
      (replay (commit s).1 d start 0 ≡ 0) × Transaction.IsCommitted t (replay (commit s).1 d)
  commit_done = elim (dec_lt 0 n) [
    | yes h ↦
        rw
          (
            commit_writes h,
            Transaction.replay-append log_writes,
            Transaction.replay-append install_writes,
          )
          disk_cleared-IsCommitted
    | no h ↦
        rw (commit_nothing h)
          (idle, record { stored = λ i p. absurd (omega arith); others = λ b p u. refl })
  ]
