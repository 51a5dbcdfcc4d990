-- ===== src/Bio.antt =====
-- assignment-3/bio.c: the buffer cache. The ring of `prev` and `next` pointers is the list of its buffers from
-- `head.next` on, and a buffer is its index in `bcache.buf`. The disk driver (ide.c) enters by what `iderw` does.
pub mod View
pub mod Get
pub mod Read
pub mod Release
pub mod Write
mod Tests
use cs_1217_operating_system.Base.{
  ℕ, zero, suc, ◌+◌, ◌-◌, ◌%◌, ◌^◌, Bool, true, false, ◌&&◌, not, Option, none, some, List, [], ◌∷◌,
  ◌++◌, ◌==◌, if◌then◌else◌, update,
}

-- `NBUF` of param.h
abbrev pub nbuf : ℕ
nbuf = 30

abbrev pub Block : Type 0
Block = ℕ → ℕ

-- `struct buf`; `flags` has B_VALID and B_DIRTY, `locked` is that its sleep lock is held by the caller.
pub record Buf : Type 0 where
  pub dev : ℕ
  pub blockno : ℕ
  pub refcnt : ℕ
  pub valid : Bool
  pub dirty : Bool
  pub locked : Bool
  pub contents : Block

-- `bcache`, and the disks
pub record Cache : Type 0 where
  pub order : List ℕ
  pub buf : ℕ → Buf
  pub disk : ℕ → ℕ → Block

abbrev pub set_buf : ℕ → Buf → Cache → Cache
set_buf b r s = record s { buf = update s.buf b r }

-- The loop of `binit`: each buffer goes to the front.
unfoldable pub link_from : ℕ → ℕ → List ℕ → List ℕ
link_from zero b order = order
link_from (suc k) b order = link_from k (b + 1) (b ∷ order)

unfoldable pub binit : (ℕ → Buf) → (ℕ → ℕ → Block) → Cache
unfolding link_from
binit buf disk = record { order = link_from nbuf 0 []; buf = buf; disk = disk }

-- The first buffer of a list that passes a test.
unfoldable pub first : (Buf → Bool) → (ℕ → Buf) → List ℕ → Option ℕ
first test buf [] = none
first test buf (b ∷ bs) = let rest = first test buf bs in if test (buf b) then some b else rest

-- The last: the loop that follows `prev`.
unfoldable pub last : (Buf → Bool) → (ℕ → Buf) → List ℕ → Option ℕ
last test buf [] = none
last test buf (b ∷ bs) = elim (last test buf bs) [
  | some c ↦ some c
  | none ↦ if test (buf b) then some b else none
]

abbrev pub holds : ℕ → ℕ → Buf → Bool
holds dev blockno r = (r.dev == dev) && (r.blockno == blockno)

abbrev pub is_idle : Buf → Bool
is_idle r = (r.refcnt == 0) && not r.dirty

-- `bget`, `none` being the panic. The caller has the buffer's sleep lock afterwards.
unfoldable pub bget : ℕ → ℕ → Cache → Option (ℕ × Cache)
unfolding first last
bget dev blockno s = elim (first (holds dev blockno) s.buf s.order) [
  | some b ↦ some (
    b,
    set_buf b (record (s.buf b) { refcnt = ((s.buf b).refcnt + 1) % 2 ^ 32; locked = true }) s,
  )
  | none ↦ elim (last is_idle s.buf s.order) [
    | none ↦ none
    | some b ↦ some (
      b,
      set_buf b
          (record (s.buf b) {
            dev = dev;
            blockno = blockno;
            valid = false;
            dirty = false;
            refcnt = 1;
            locked = true;
          })
          s,
    )
  ]
]

-- `iderw`: a dirty buffer goes to the disk, another is read from it.
unfoldable pub iderw : ℕ → Cache → Cache
iderw b s =
    let r = s.buf b in
    if r.dirty
    then record (set_buf b (record r { valid = true; dirty = false }) s) {
      disk = update s.disk r.dev (update (s.disk r.dev) r.blockno r.contents);
    }
    else set_buf b (record r { valid = true; contents = s.disk r.dev r.blockno }) s

-- `bread` once it has the buffer
unfoldable pub fill : ℕ × Cache → Option (ℕ × Cache)
unfolding iderw
fill (b, s) = some (b, if not (s.buf b).valid then iderw b s else s)

unfoldable pub bread : ℕ → ℕ → Cache → Option (ℕ × Cache)
unfolding bget fill
bread dev blockno s = elim (bget dev blockno s) [ none ↦ none | some found ↦ fill found ]

-- `bwrite`, `none` being the panic
unfoldable pub bwrite : ℕ → Cache → Option Cache
unfolding iderw
bwrite b s =
    if not (s.buf b).locked
    then none
    else some (iderw b (set_buf b (record (s.buf b) { dirty = true }) s))

unfoldable pub without : ℕ → List ℕ → List ℕ
without b [] = []
without b (c ∷ cs) = let rest = without b cs in if c == b then rest else c ∷ rest

-- `brelse`, `none` being the panic
unfoldable pub brelse : ℕ → Cache → Option Cache
unfolding without
brelse b s =
    if not (s.buf b).locked
    then none
    else (let count = ((s.buf b).refcnt + (2 ^ 32 - 1)) % 2 ^ 32 in
        let s' = set_buf b (record (s.buf b) { refcnt = count; locked = false }) s in
        some (if count == 0 then record s' { order = b ∷ without b s.order } else s'))
