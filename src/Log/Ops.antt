-- ===== src/Log/Ops.antt =====
-- assignment-3/log.c: `begin_op`, `end_op` and `log_write`, the part of the log that file system
-- calls use.
use cs_1217_operating_system.Base.{
  ℕ, zero, suc, ◌+◌, ◌*◌, ◌≡◌, Bool, true, false, ◌||◌, Option, none, some, List, [], leb, ◌==◌,
  if◌then◌else◌, update, Bool-cases, inl, inr, dec_lt, lt→ltb, ==_iff, ℕ_discrete, subst, sym, ◌∙◌,
  ◌<◌, ◌≤◌, ◌≢◌, ◌⊎◌, arith,
}
use mathlib.Core.Bool.{false≢true}
use cs_1217_operating_system.Base.Int.{ℤ, pos, ◌+ℤ◌, ◌-ℤ◌, ◌*ℤ◌, ltb_ℤ}
use cs_1217_operating_system.Log.{
  System, LogState, LogHeader, Write, commit, log_size, max_op_blocks,
}
use cs_1217_operating_system.Log.Copy.{log-copy_loop}

-- One round of the loop of `begin_op`; `none` is a sleep on the log, which changes nothing, and
-- after which the loop starts again.
unfoldable pub begin_op : LogState → Option LogState
begin_op l =
    if l.committing
    then none
    else if ltb_ℤ (pos log_size) (pos l.lh.n +ℤ (l.outstanding +ℤ pos 1) *ℤ pos max_op_blocks)
    then none
    else some (record l { outstanding = l.outstanding +ℤ pos 1 })

is_zero : ℤ → Bool
is_zero (pos zero) = true
is_zero _ = false

-- The first critical section of `end_op`: `do_commit` and the log. `none` is the panic.
unfoldable pub leave_op : LogState → Option (Bool × LogState)
unfolding is_zero
leave_op log =
    let l = record log { outstanding = log.outstanding -ℤ pos 1 } in
    if l.committing
    then none
    else if is_zero l.outstanding
    then some (true, record l { committing = true })
    else some (false, l)

-- The second critical section of `end_op`, after `commit`
abbrev pub clear_committing : System → System
clear_committing s = record s { log = record (s.log) { committing = false } }

-- `end_op` after the first critical section: `commit` runs with the lock released.
abbrev pub commit_if : System → Option (Bool × LogState) → Option (System × List Write)
commit_if s none = none
commit_if s (some (false, l)) = some (record s { log = l }, [])
commit_if s (some (true, l)) =
    let (s', ws) = commit (record s { log = l }) in some (clear_committing s', ws)

-- `end_op`, when no other call runs in between.
unfoldable pub end_op : System → Option (System × List Write)
unfolding leave_op
end_op s = commit_if s (leave_op s.log)

-- `for (i = 0; i < log.lh.n; i++) if (log.lh.block[i] == blockno) break;` from `i` on
unfoldable pub find_block : (ℕ → ℕ) → ℕ → ℕ → ℕ → ℕ
find_block block b zero i = i
find_block block b (suc k) i =
    let rest = find_block block b k (i + 1) in if block i == b then i else rest

-- `log_write`. `none` is a panic.
unfoldable pub log_write : ℕ → System → Option System
unfolding find_block
log_write b s =
    if leb log_size s.log.lh.n || leb s.log.size (s.log.lh.n + 1)
    then none
    else if ltb_ℤ s.log.outstanding (pos 1)
    then none
    else (let i = find_block s.log.lh.block b s.log.lh.n 0 in
        some (record s {
          log = record (s.log) {
            lh = record {
              n = if i == s.log.lh.n then s.log.lh.n + 1 else s.log.lh.n;
              block = update s.log.lh.block i b;
            };
          };
          dirty = update s.dirty b true;
        }))

-- `commit` empties the log in memory and leaves the rest of `struct log`, but for the order of the
-- block numbers, alone.
pub log-commit :
    (s : System) → (commit s).0.log ≡ record (s.log) { lh = record (s.log.lh) { n = 0 } }
unfolding commit
log-commit s = elim (dec_lt 0 s.log.lh.n) [
  | yes h ↦ rw (lt→ltb 0 _ h) (simp log-copy_loop)
  | no h ↦ ground arith
]

-- The search stops at the first entry for `b`, or at the end.
find_block_lem :
    (block : ℕ → ℕ) (b k i n : ℕ)
    → i + k ≡ n
    → let j = find_block block b k i in
      (i ≤ j) × (j ≤ n) × ((j < n → block j ≡ b)) × ((m : ℕ) → i ≤ m → m < j → block m ≢ b)
unfolding find_block
find_block_lem block b zero i n e =
    (omega arith, omega arith, λ h. absurd (omega arith), λ m p q. absurd (omega arith))
find_block_lem block b (suc k) i n e = elim (Bool-cases (block i == b)) [
  | inl t ↦ rw t (omega arith, omega arith, λ _. (==_iff _ _).0 t, λ m p q. absurd (omega arith))
  | inr f ↦
      let ih = find_block_lem block b k (i + 1) n (omega arith) in
      rw f (
        omega (arith, ih.0),
        ih.1,
        ih.2,
        λ m p q. elim (ℕ_discrete i m) [
          | yes r ↦ subst (λ j. block j ≢ b) r (λ t. false≢true (sym f ∙ (==_iff _ _).1 t))
          | no r ↦ ih.3 m (omega arith) q
        ],
      )
]

-- No block has two entries.
abbrev pub IsDistinct : LogHeader → Type 0
IsDistinct lh = (i j : ℕ) → i < lh.n → j < lh.n → lh.block i ≡ lh.block j → i ≡ j

abbrev pub IsEntry : LogHeader → ℕ → Type 0
IsEntry lh b = (i : ℕ) × (i < lh.n) × (lh.block i ≡ b)

-- Every logged block is pinned in the cache.
abbrev pub IsPinned : System → Type 0
IsPinned s = (i : ℕ) → i < s.log.lh.n → s.dirty (s.log.lh.block i) ≡ true

module _ (b : ℕ) (s : System) where
  abbrev n : ℕ
  n = s.log.lh.n

  abbrev block : ℕ → ℕ
  block = s.log.lh.block

  abbrev place : ℕ
  place = find_block block b n 0

  abbrev entered : System
  entered = record s {
    log = record (s.log) {
      lh = record { n = if place == n then n + 1 else n; block = update block place b };
    };
    dirty = update s.dirty b true;
  }

  log_write-some : {s' : System} → log_write b s ≡ some s' → s' ≡ entered
  unfolding log_write
  log_write-some e = ground arith

  place_lem : (place ≤ n) × (place < n → block place ≡ b) × ((m : ℕ) → m < place → block m ≢ b)
  place_lem =
      let l = find_block_lem block b n 0 n (omega arith) in (l.1, l.2, λ m h. l.3 m (omega arith) h)

  IsEntry-entered : IsEntry entered.log.lh b
  IsEntry-entered = (place, ground (arith, place_lem.0), ground arith)

  old-entered : (c : ℕ) → IsEntry s.log.lh c → IsEntry entered.log.lh c
  old-entered c (i, h, e) = (i, ground (arith, place_lem.0), ground (arith, place_lem.1))

  new-entered : (c : ℕ) → IsEntry entered.log.lh c → (c ≡ b) ⊎ IsEntry s.log.lh c
  new-entered c (i, h, e) = elim (ℕ_discrete place i) [
    | yes r ↦ inl (ground arith)
    | no r ↦ inr (i, ground (arith, place_lem.0), ground arith)
  ]

  entered-IsDistinct : IsDistinct s.log.lh → IsDistinct entered.log.lh
  entered-IsDistinct d i j p q e =
      ground (arith, place_lem.0, place_lem.1, place_lem.2 i, place_lem.2 j, d i j)

  entered-IsPinned : IsPinned s → IsPinned entered
  entered-IsPinned p i h = ground (arith, place_lem.0, p i)

-- A `log_write` that does not panic adds its block to the log unless it is there already
-- (absorption): the block has an entry afterwards and is pinned in the cache, every other entry
-- stays, no block gets two entries, at most one entry is new, and the blocks in the log stay pinned.
pub log_write_lem :
    (b : ℕ) (s : System) {s' : System}
    → IsDistinct s.log.lh
    → IsPinned s
    → log_write b s ≡ some s'
    → IsEntry s'.log.lh b
      × ((c : ℕ) → IsEntry s.log.lh c → IsEntry s'.log.lh c)
      × ((c : ℕ) → IsEntry s'.log.lh c → (c ≡ b) ⊎ IsEntry s.log.lh c)
      × IsDistinct s'.log.lh
      × IsPinned s'
      × (s'.log.lh.n ≤ s.log.lh.n + 1)
log_write_lem b s {s'} d p e = rw (log_write-some b s e) (
  IsEntry-entered b s,
  λ c. old-entered b s c,
  λ c. new-entered b s c,
  entered-IsDistinct b s d,
  entered-IsPinned b s p,
  ground arith,
)

-- The rest of `struct log` stays.
pub log_write_frame :
    (b : ℕ) (s : System) {s' : System}
    → log_write b s ≡ some s'
    → (s'.log.size ≡ s.log.size)
      × (s'.log.committing ≡ s.log.committing)
      × (s'.log.outstanding ≡ s.log.outstanding)
      × (s'.log.lh.n ≤ s.log.lh.n + 1)
unfolding log_write
log_write_frame b s e = ground arith

-- With a call in progress and room for one more block `log_write` does not panic.
pub log_write-ne-none :
    (b : ℕ) (s : System) (k : ℕ)
    → s.log.outstanding ≡ pos (suc k)
    → s.log.lh.n < log_size
    → s.log.lh.n + 1 < s.log.size
    → log_write b s ≢ none
unfolding log_write
log_write-ne-none b s k o p q = ground arith

-- The last call to end sets `committing`; any other leaves the log alone but for its count.
pub leave_op_frame :
    (log : LogState) (k : ℕ) {last : Bool} {l : LogState}
    → log.outstanding ≡ pos (suc k)
    → leave_op log ≡ some (last, l)
    → (l.size ≡ log.size)
      × (l.committing ≡ last)
      × (l.outstanding ≡ pos k)
      × (l.lh.n ≡ log.lh.n)
      × (last ≡ (k == 0))
unfolding leave_op
leave_op_frame log k o e = ground arith

pub leave_op-ne-none : (log : LogState) → log.committing ≡ false → leave_op log ≢ none
unfolding leave_op
leave_op-ne-none log h = ground arith

-- A call that starts does so when no commit is under way, with room for its writes.
pub begin_op_frame :
    (log : LogState) (k : ℕ) {l : LogState}
    → log.outstanding ≡ pos k
    → begin_op log ≡ some l
    → (log.committing ≡ false)
      × (l.committing ≡ false)
      × (l.size ≡ log.size)
      × (l.outstanding ≡ pos (suc k))
      × (l.lh.n ≡ log.lh.n)
      × (l.lh.n + max_op_blocks * suc k ≤ log_size)
unfolding begin_op
begin_op_frame log k o e = ground arith
