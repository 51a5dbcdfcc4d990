-- ===== src/Log/Transaction.antt =====
-- assignment-3/log.c: the disks that a commit goes through, and predicates on each prefix of a list
-- of writes.
use cs_1217_operating_system.Base.{
  ℕ, zero, suc, ◌+◌, ◌≤◌, ◌<◌, ◌≡◌, ◌≢◌, ◌⊎◌, refl, List, [], ◌∷◌, ◌++◌, All, update, take,
}
use cs_1217_operating_system.Log.{Block, Disk, Write, System, replay}

-- What one commit is to do: the `n` blocks `block i`, with contents `new (block i)`, over the disk
-- `old`.
pub record Transaction : Type 0 where
  pub start : ℕ
  pub size : ℕ
  pub n : ℕ
  pub block : ℕ → ℕ
  pub old : Disk
  pub new : ℕ → Block

abbrev pub transaction : System → Disk → Transaction
transaction s d = record {
  start = s.log.start;
  size = s.log.size;
  n = s.log.lh.n;
  block = s.log.lh.block;
  old = d;
  new = s.view;
}

module _ (t : Transaction) where
  open t use {start, size, n, block, old, new}

  -- The block lies outside the log.
  abbrev pub Home : ℕ → Type 0
  Home b = (b < start) ⊎ (start + size ≤ b)

  -- The block is not one of the transaction's.
  abbrev pub Unlogged : ℕ → Type 0
  Unlogged b = (i : ℕ) → i < n → block i ≢ b

  -- The log has room for the transaction, whose blocks lie outside it; the log on disk is empty.
  pub record IsReady : Type 0 where
    pub fits : n < size
    pub homes : (i : ℕ) → i < n → Home (block i)
    pub idle : old start 0 ≡ 0

  -- None of the transaction has happened.
  pub record IsUnchanged (f : Disk) : Type 0 where
    pub kept : (b : ℕ) → Home b → f b ≡ old b

  -- All of the transaction has happened, and nothing else.
  pub record IsCommitted (f : Disk) : Type 0 where
    pub stored : (i : ℕ) → i < n → f (block i) ≡ new (block i)
    pub others : (b : ℕ) → Home b → Unlogged b → f b ≡ old b

  -- The transaction is recorded in the log, and perhaps in part carried out.
  pub record IsLogged (f : Disk) : Type 0 where
    pub count : f start 0 ≡ n
    pub entries : (i : ℕ) → i < n → f start (i + 1) ≡ block i
    pub slots : (i : ℕ) → i < n → f (start + i + 1) ≡ new (block i)
    pub others : (b : ℕ) → Home b → Unlogged b → f b ≡ old b

  -- The disks on which a crash may leave the machine.
  abbrev pub IsRecoverable : Disk → Type 0
  IsRecoverable f =
      ((f start 0 ≡ 0) × IsUnchanged f) ⊎ (IsLogged f ⊎ ((f start 0 ≡ 0) × IsCommitted f))

-- `P` holds of the disk before the writes and after each of them.
abbrev pub EachPrefix : (Disk → Type 0) → List Write → Disk → Type 0
EachPrefix P [] d = P d
EachPrefix P ((b, v) ∷ ws) d = P d × EachPrefix P ws (update d b v)

module _ (P : Disk → Type 0) where
  pub EachPrefix-take :
      (k : ℕ) (ws : List Write) (d : Disk) → EachPrefix P ws d → P (replay (take k ws) d)
  EachPrefix-take zero [] d h = h
  EachPrefix-take zero ((b, v) ∷ ws) d h = h.0
  EachPrefix-take (suc k) [] d h = h
  EachPrefix-take (suc k) ((b, v) ∷ ws) d h = EachPrefix-take k ws (update d b v) h.1

  pub EachPrefix-append :
      (ws xs : List Write) (d : Disk)
      → EachPrefix P ws d
      → EachPrefix P xs (replay ws d)
      → EachPrefix P (ws ++ xs) d
  EachPrefix-append [] xs d h k = k
  EachPrefix-append ((b, v) ∷ ws) xs d h k = (h.0, EachPrefix-append ws xs (update d b v) h.1 k)

  -- What each write of the list keeps holds throughout, and at the end.
  pub EachPrefix-stable :
      (Q : Write → Type 0)
      → ((f : Disk) (w : Write) → Q w → P f → P (update f w.0 w.1))
      → (ws : List Write) (d : Disk) → All Q ws
      → P d
      → EachPrefix P ws d × P (replay ws d)
  EachPrefix-stable Q keep [] d q p = (p, p)
  EachPrefix-stable Q keep ((b, v) ∷ ws) d q p =
      let (each, last) = EachPrefix-stable Q keep ws (update d b v) q.1 (keep d (b, v) q.0 p) in
      ((p, each), last)

pub EachPrefix-map :
    (P Q : Disk → Type 0)
    → ((f : Disk) → P f → Q f)
    → (ws : List Write) (d : Disk) → EachPrefix P ws d
    → EachPrefix Q ws d
EachPrefix-map P Q f [] d h = f d h
EachPrefix-map P Q f ((b, v) ∷ ws) d h = (f d h.0, EachPrefix-map P Q f ws (update d b v) h.1)

pub replay-append : (ws xs : List Write) (d : Disk) → replay (ws ++ xs) d ≡ replay xs (replay ws d)
replay-append [] xs d = refl
replay-append ((b, v) ∷ ws) xs d = replay-append ws xs (update d b v)
