-- ===== src/Log/Copy.antt =====
-- assignment-3/log.c: what the copying loop of `write_log` and `install_trans` does to the cache and
-- to the disk.
use cs_1217_operating_system.Base.{
  ℕ, zero, suc, ◌+◌, ◌≤◌, ◌<◌, ◌≡◌, ◌≢◌, refl, Bool, List, [], ◌∷◌, ◌∙◌, sym, subst, arith, All,
  All_map, update, update_self, update_ne, ℕ_discrete,
}
use cs_1217_operating_system.Log.{Block, Disk, Write, System, copy_loop, replay}

-- `i` is one of the `k` rounds from `tail` on.
abbrev pub Round : ℕ → ℕ → ℕ → Type 0
Round tail k i = (tail ≤ i) × (i < tail + k)

-- No round writes block `b`.
abbrev pub Untouched : (ℕ → ℕ) → ℕ → ℕ → ℕ → Type 0
Untouched to tail k b = (i : ℕ) → Round tail k i → to i ≢ b

-- A write of the loop: to the block of some round, of the contents `target` gives for it.
abbrev pub IsCopy : (ℕ → Block) → (ℕ → ℕ) → ℕ → ℕ → Write → Type 0
IsCopy target to tail k w = ((i : ℕ) × Round tail k i × (w.0 ≡ to i)) × (w.1 ≡ target w.0)

module _ (from to : ℕ → ℕ) where
  abbrev pub after : ℕ → System → System
  after tail s = record s {
    view = update s.view (to tail) (s.view (from tail));
    dirty = update s.dirty (to tail) Bool.false;
  }

  pub log-copy_loop : (k tail : ℕ) (s : System) → (copy_loop from to k tail s).0.log ≡ s.log
  unfolding copy_loop
  log-copy_loop zero tail s = refl
  log-copy_loop (suc k) tail s = log-copy_loop k (tail + 1) (after tail s)

  pub view-copy_loop-Untouched :
      (k tail : ℕ) (s : System) (b : ℕ)
      → Untouched to tail k b
      → (copy_loop from to k tail s).0.view b ≡ s.view b
  unfolding copy_loop
  view-copy_loop-Untouched zero tail s b h = refl
  view-copy_loop-Untouched (suc k) tail s b h =
      view-copy_loop-Untouched k (tail + 1) (after tail s) b (λ i p. h i (omega arith))
      ∙ update_ne s.view (to tail) b (s.view (from tail)) (h tail (omega arith))

module _ (from to : ℕ → ℕ) (target : ℕ → Block) where
  -- No source is a destination, and the sources hold what their destinations are to receive.
  pub record Sound (tail k : ℕ) (s : System) : Type 0 where
    pub apart : (i j : ℕ) → Round tail k i → Round tail k j → to j ≢ from i
    pub holds : (i : ℕ) → Round tail k i → s.view (from i) ≡ target (to i)

  Sound-after :
      (tail k : ℕ) (s : System) → Sound tail (suc k) s → Sound (tail + 1) k (after from to tail s)
  Sound-after tail k s v = record {
    apart = λ i j p q. v.apart i j (omega arith) (omega arith);
    holds = λ i p.
        update_ne s.view (to tail) (from i) (s.view (from tail))
          (v.apart i tail (omega arith) (omega arith))
        ∙ v.holds i (omega arith);
  }

  after_tail :
      (tail k : ℕ) (s : System)
      → Sound tail (suc k) s
      → (after from to tail s).view (to tail) ≡ target (to tail)
  after_tail tail k s v =
      update_self s.view (to tail) (s.view (from tail)) ∙ v.holds tail (omega arith)

  after_keeps :
      (tail k : ℕ) (s : System) (b : ℕ)
      → Sound tail (suc k) s
      → s.view b ≡ target b
      → (after from to tail s).view b ≡ target b
  after_keeps tail k s b v e = elim (ℕ_discrete (to tail) b) [
    | yes r ↦ subst (λ c. (after from to tail s).view c ≡ target c) r (after_tail tail k s v)
    | no r ↦ update_ne s.view (to tail) b (s.view (from tail)) r ∙ e
  ]

  view_keeps :
      (k tail : ℕ) (s : System) (b : ℕ)
      → Sound tail k s
      → s.view b ≡ target b
      → (copy_loop from to k tail s).0.view b ≡ target b
  unfolding copy_loop
  view_keeps zero tail s b v e = e
  view_keeps (suc k) tail s b v e =
      view_keeps k (tail + 1) (after from to tail s) b (Sound-after tail k s v)
        (after_keeps tail k s b v e)

  -- Every round of the loop leaves its block in the cache with the contents meant for it.
  pub view-copy_loop :
      (k tail : ℕ) (s : System) (i : ℕ)
      → Sound tail k s
      → Round tail k i
      → (copy_loop from to k tail s).0.view (to i) ≡ target (to i)
  unfolding copy_loop
  view-copy_loop zero tail s i v p = absurd (omega arith)
  view-copy_loop (suc k) tail s i v p = elim (ℕ_discrete tail i) [
    | yes r ↦
        subst
          (λ j.
            (copy_loop from to k (tail + 1) (after from to tail s)).0.view (to j) ≡ target (to j))
          r
          (view_keeps k (tail + 1) (after from to tail s) (to tail) (Sound-after tail k s v)
            (after_tail tail k s v))
    | no r ↦
        view-copy_loop k (tail + 1) (after from to tail s) i (Sound-after tail k s v) (omega arith)
  ]

  pub writes-copy_loop :
      (k tail : ℕ) (s : System)
      → Sound tail k s
      → All (IsCopy target to tail k) (copy_loop from to k tail s).1
  unfolding copy_loop
  writes-copy_loop zero tail s v = tt
  writes-copy_loop (suc k) tail s v = (
    (
      (tail, omega arith, refl),
      update_self s.view (to tail) (s.view (from tail)) ∙ v.holds tail (omega arith),
    ),
    All_map (IsCopy target to (tail + 1) k) (IsCopy target to tail (suc k))
        (λ w h. ((h.0.0, omega arith, h.0.2), h.1)) _
        (writes-copy_loop k (tail + 1) (after from to tail s) (Sound-after tail k s v)),
  )

  -- Writes of the loop leave other blocks of the disk alone.
  pub replay-Untouched :
      (tail k : ℕ) (ws : List Write) (d : Disk) (b : ℕ)
      → All (IsCopy target to tail k) ws
      → Untouched to tail k b
      → replay ws d b ≡ d b
  replay-Untouched tail k [] d b h u = refl
  replay-Untouched tail k ((c, v) ∷ ws) d b h u =
      replay-Untouched tail k ws (update d c v) b h.1 u
      ∙ update_ne d c b v (λ e. u h.0.0.0 h.0.0.1 (sym h.0.0.2 ∙ e))

  -- A block that holds its target keeps it through the writes of the loop.
  pub replay_keeps :
      (tail k : ℕ) (ws : List Write) (d : Disk) (b : ℕ)
      → All (IsCopy target to tail k) ws
      → d b ≡ target b
      → replay ws d b ≡ target b
  replay_keeps tail k [] d b h e = e
  replay_keeps tail k ((c, v) ∷ ws) d b h e =
      replay_keeps tail k ws (update d c v) b h.1 (keep h.0.1)
    where
      keep : v ≡ target c → update d c v b ≡ target b
      keep q = elim (ℕ_discrete c b) [
        | yes r ↦ rw r (update_self d b v ∙ (rw (← r) q))
        | no r ↦ update_ne d c b v r ∙ e
      ]

  -- Every round of the loop reaches the disk.
  pub replay-copy_loop :
      (k tail : ℕ) (s : System) (d : Disk) (i : ℕ)
      → Sound tail k s
      → Round tail k i
      → replay (copy_loop from to k tail s).1 d (to i) ≡ target (to i)
  unfolding copy_loop
  replay-copy_loop zero tail s d i v p = absurd (omega arith)
  replay-copy_loop (suc k) tail s d i v p = elim (ℕ_discrete tail i) [
    | yes r ↦
        subst (λ j. replay (copy_loop from to (suc k) tail s).1 d (to j) ≡ target (to j)) r
          (replay_keeps (tail + 1) k _ _ (to tail)
            (writes-copy_loop k (tail + 1) (after from to tail s) (Sound-after tail k s v))
            (update_self d (to tail) ((after from to tail s).view (to tail))
              ∙ after_tail tail k s v))
    | no r ↦
        replay-copy_loop k (tail + 1) (after from to tail s)
          (update d (to tail) ((after from to tail s).view (to tail))) i (Sound-after tail k s v)
          (omega arith)
  ]
