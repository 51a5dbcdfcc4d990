-- ===== src/Pipe.antt =====
-- assignment-3/pipe.c: the ring buffer of a pipe, its two ends, and the calls that block on it. `p->lock` is held
-- through each function below, but for the time a call is asleep.
pub mod Ring
pub mod Stream
use cs_1217_operating_system.Base.{
  ℕ, zero, suc, ◌+◌, ◌%◌, ◌^◌, Bool, true, false, ◌&&◌, ◌||◌, not, List, [], ◌∷◌, length, ◌==◌,
  if◌then◌else◌, update,
}
use cs_1217_operating_system.Base.Int.{ℤ, pos, minus_one}

-- `PIPESIZE`
abbrev pub pipe_size : ℕ
pipe_size = 512

-- `struct pipe`, less its lock. The counters are `uint`s.
pub record Pipe : Type 0 where
  pub data_ : ℕ → ℕ
  pub nread : ℕ
  pub nwrite : ℕ
  pub readopen : Bool
  pub writeopen : Bool

-- The channels that readers and writers sleep on: `&p->nread` and `&p->nwrite`.
pub data Channel : Type 0 where
  at_nread at_nwrite : Channel

-- How a call leaves the processor: it returns a code, or it sleeps on a channel. `woken` are the
-- channels it woke since it last ran.
pub data Outcome : Type 0 where
  returns : (code : ℤ) (woken : List Channel) → Pipe → Outcome
  sleeps : (on : Channel) (woken : List Channel) (left : List ℕ) → Pipe → Outcome

abbrev pub add_uint : ℕ → ℕ → ℕ
add_uint a b = (a + b) % 2 ^ 32

abbrev pub is_full : Pipe → Bool
is_full p = p.nwrite == add_uint p.nread pipe_size

abbrev pub is_empty : Pipe → Bool
is_empty p = p.nread == p.nwrite

-- `p->data[p->nwrite++ % PIPESIZE] = b`
unfoldable pub put : ℕ → Pipe → Pipe
put b p = record p { data_ = update p.data_ (p.nwrite % pipe_size) b; nwrite = add_uint p.nwrite 1 }

-- `p->nread++`
unfoldable pub advance : Pipe → Pipe
advance p = record p { nread = add_uint p.nread 1 }

-- `pipewrite`, with the bytes that are left of the `n` to write: from its start, or from where it
-- slept.
unfoldable pub pipewrite : Bool → ℕ → List ℕ → Pipe → Outcome
unfolding put
pipewrite killed n [] p = returns (pos n) (at_nread ∷ []) p
pipewrite killed n (b ∷ bs) p =
    let rest = pipewrite killed n bs (put b p) in
    if is_full p
    then if not p.readopen || killed
      then returns minus_one [] p
      else sleeps at_nwrite (at_nread ∷ []) (b ∷ bs) p
    else rest

-- The loop of `piperead`: the bytes it copies, and the pipe after it.
unfoldable pub copy_out : ℕ → Pipe → List ℕ × Pipe
unfolding advance
copy_out zero p = ([], p)
copy_out (suc n) p =
    let (bs, p') = copy_out n (advance p) in
    if is_empty p then ([], p) else (p.data_ (p.nread % pipe_size) ∷ bs, p')

-- `piperead` of `n` bytes: the bytes stored at `addr`, and how it leaves the processor.
unfoldable pub piperead : Bool → ℕ → Pipe → List ℕ × Outcome
unfolding copy_out
piperead killed n p =
    if is_empty p && p.writeopen
    then if killed then ([], returns minus_one [] p) else ([], sleeps at_nread [] [] p)
    else (let (bs, p') = copy_out n p in (bs, returns (pos (length bs)) (at_nwrite ∷ []) p'))

-- `pipeclose`: the pipe, the channel it wakes, and whether the pipe's page is freed.
unfoldable pub pipeclose : Bool → Pipe → Pipe × Channel × Bool
pipeclose writable p =
    let p' = if writable then record p { writeopen = false } else record p { readopen = false } in
    (p', if writable then at_nread else at_nwrite, not p'.readopen && not p'.writeopen)
