-- ===== src/Log/Recover.antt =====
-- assignment-3/log.c: what `initlog` makes of a disk that a crash may leave.
use cs_1217_operating_system.Base.{
  ℕ, ◌+◌, ◌<◌, ◌≡◌, ◌≢◌, sym, ap, subst, ◌∙◌, [], ◌∷◌, ◌++◌, false, update, update_self, update_ne,
  arith, ==_refl,
}
use cs_1217_operating_system.Log.{
  Block, Disk, System, LogState, replay, copy_loop, copy_words, head_block, initlog,
}
use cs_1217_operating_system.Log.Copy.{
  Sound, log-copy_loop, writes-copy_loop, replay-copy_loop, replay-Untouched,
}
use cs_1217_operating_system.Log.Header.{head_block_count, read_entry}
use cs_1217_operating_system.Log.Transaction

-- The machine after a reset: the cache is empty, so that `bread` reads the disk. What memory held
-- before, `r`, is whatever the loader left there.
abbrev pub boot : LogState → Disk → System
boot r f = record { log = r; view = f; dirty = λ _. false }

-- The disk after recovery.
abbrev pub recovered : Transaction.Transaction → LogState → Disk → Disk
recovered t r f = replay (initlog t.start t.size (boot r f)).1 f

module _ (t : Transaction.Transaction) (r : LogState) (f : Disk) where
  open t use {start, size, n, block, old, new}

  abbrev slot : ℕ → ℕ
  slot i = start + i + 1

  abbrev count : ℕ
  count = f start 0

  abbrev read_block : ℕ → ℕ
  read_block = copy_words count 0 1 (f start) r.lh.block

  abbrev ready : System
  ready = record {
    log = record r { start = start; size = size; lh = record { n = count; block = read_block } };
    view = f;
    dirty = λ _. false;
  }

  abbrev cleared : Block
  cleared =
      head_block (record { n = 0; block = read_block })
        ((copy_loop slot read_block count 0 ready).0.view start)

  initlog_writes :
      (initlog start size (boot r f)).1
      ≡ (copy_loop slot read_block count 0 ready).1 ++ ((start, cleared) ∷ [])
  unfolding initlog
  initlog_writes = simp (log-copy_loop, ==_refl)

  abbrev disk_installed : Disk
  disk_installed = replay (copy_loop slot read_block count 0 ready).1 f

  recovered_lem : recovered t r f ≡ update disk_installed start cleared
  recovered_lem =
      rw (initlog_writes, Transaction.replay-append (copy_loop slot read_block count 0 ready).1)

  recovered_idle : recovered t r f start 0 ≡ 0
  recovered_idle =
      rw (recovered_lem, update_self disk_installed start cleared) (head_block_count _ _)

  recovered_home : (b : ℕ) → start ≢ b → recovered t r f b ≡ disk_installed b
  recovered_home b h = rw recovered_lem (update_ne disk_installed start b cleared h)

  Home-ne-start : 0 < size → (b : ℕ) → Transaction.Home t b → start ≢ b
  Home-ne-start p b h = omega arith

  -- An empty log changes nothing outside the log.
  pub recovered_empty :
      0 < size → count ≡ 0 → (b : ℕ) → Transaction.Home t b → recovered t r f b ≡ f b
  unfolding copy_loop
  recovered_empty p e b h = recovered_home b (Home-ne-start p b h) ∙ rw e

  module _ (i-ready : Transaction.IsReady t) (l : Transaction.IsLogged t f) where
    read_block_lem : (i : ℕ) → i < count → read_block i ≡ block i
    read_block_lem i h =
        read_entry count (f start) r.lh.block i h
        ∙ l.entries i (let e : count ≡ n = l.count in omega arith)

    below : (i : ℕ) → i < count → i < n
    below i h = let e : count ≡ n = l.count in omega arith

    above : (i : ℕ) → i < n → i < count
    above i h = let e : count ≡ n = l.count in omega arith

    Home-ne-slot : (b i : ℕ) → i < n → Transaction.Home t b → b ≢ slot i
    Home-ne-slot b i h p = let q : n < size = i-ready.fits in omega arith

    install-Sound : Sound slot read_block new 0 count ready
    install-Sound = record {
      apart = λ i j p q e.
          Home-ne-slot (block j) i (below i (omega arith)) (i-ready.homes j (below j (omega arith)))
            (sym (read_block_lem j (omega arith)) ∙ e);
      holds =
          λ i p. l.slots i (below i (omega arith)) ∙ ap new (sym (read_block_lem i (omega arith)));
    }

    installed_block : (i : ℕ) → i < n → disk_installed (block i) ≡ new (block i)
    installed_block i h =
        subst (λ b. disk_installed b ≡ new b) (read_block_lem i (above i h))
          (replay-copy_loop slot read_block new count 0 ready f i install-Sound
            (let q : i < count = above i h in omega arith))

    -- A recorded transaction is carried out.
    pub recovered_logged : Transaction.IsCommitted t (recovered t r f)
    recovered_logged = record {
      stored = λ i h.
          recovered_home (block i) (Home-ne-start p (block i) (i-ready.homes i h))
          ∙ installed_block i h;
      others = λ b h u.
          recovered_home b (Home-ne-start p b h)
          ∙ (replay-Untouched slot read_block new 0 count _ f b
                (writes-copy_loop slot read_block new count 0 ready install-Sound)
                (λ i q e. u i (below i (omega arith)) (sym (read_block_lem i (omega arith)) ∙ e))
              ∙ l.others b h u);
    }
      where
        p : 0 < size
        p = let q : n < size = i-ready.fits in omega arith
