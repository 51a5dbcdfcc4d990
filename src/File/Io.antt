-- ===== src/File/Io.antt =====
-- assignment-3/file.c: reading and writing an open file. `readi` and `writei` of fs.c, with the locking of the inode
-- and the transaction of the log around them, and the calls on a pipe are parameters on a world
-- `W`; a byte count is not negative, as the callers see to.
use cs_1217_operating_system.Base.{
  ℕ, zero, suc, ◌+◌, ◌-◌, not, Option, none, some, ltb, ◌==◌, if◌then◌else◌,
}
use cs_1217_operating_system.Base.Int.{ℤ, pos, negsuc, minus_one}
use cs_1217_operating_system.File.{File, fd_none, fd_pipe, fd_inode}

-- `max` of `filewrite`: (MAXOPBLOCKS - 1 - 1 - 2) / 2 * 512
abbrev pub max_chunk : ℕ
max_chunk = 1536

module _ {W : Type 0} (readi writei : (ip addr off n : ℕ) → W → ℤ × W)
    (piperead pipewrite : (pipe addr n : ℕ) → W → ℤ × W) (stati : ℕ → W → W) where
  -- `filestat`
  unfoldable pub filestat : File → W → ℤ × W
  filestat f w = elim f.type_ [
    | fd_inode ↦ (pos 0, stati f.ip w)
    | fd_none ↦ (minus_one, w)
    | fd_pipe ↦ (minus_one, w)
  ]

  abbrev pub advanced : File → ℤ → File
  advanced f (pos r) = record f { off = f.off + r }
  advanced f (negsuc r) = f

  -- `fileread`; `none` is the panic.
  unfoldable pub fileread : File → ℕ → ℕ → W → Option (ℤ × File × W)
  fileread f addr n w = if not f.readable then some (minus_one, f, w) else elim f.type_ [
    | fd_none ↦ none
    | fd_pipe ↦ let (r, w') = piperead f.pipe addr n w in some (r, f, w')
    | fd_inode ↦ let (r, w') = readi f.ip addr f.off n w in some (r, advanced f r, w')
  ]

  -- The loop of `filewrite` from byte `i` on. Every round that goes on writes at least one byte, so
  -- that `n` rounds are enough.
  unfoldable pub write_chunks : ℕ → ℕ → ℕ → ℕ → File → W → Option (ℤ × File × W)
  write_chunks zero i addr n f w = some (if i == n then pos n else minus_one, f, w)
  write_chunks (suc fuel) i addr n f w =
      let n1 = if ltb max_chunk (n - i) then max_chunk else n - i in
      let (r, w') = writei f.ip (addr + i) f.off n1 w in
      let f' = advanced f r in
      let rest = write_chunks fuel (i + n1) addr n f' w' in
      if ltb i n
      then elim r [
        | negsuc e ↦ some (minus_one, f', w')
        | pos written ↦ if written == n1 then rest else none
      ]
      else some (if i == n then pos n else minus_one, f, w)

  -- `filewrite`; `none` is a panic.
  unfoldable pub filewrite : File → ℕ → ℕ → W → Option (ℤ × File × W)
  unfolding write_chunks
  filewrite f addr n w = if not f.writable then some (minus_one, f, w) else elim f.type_ [
    | fd_none ↦ none
    | fd_pipe ↦ let (r, w') = pipewrite f.pipe addr n w in some (r, f, w')
    | fd_inode ↦ write_chunks n 0 addr n f w
  ]
