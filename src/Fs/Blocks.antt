-- ===== src/Fs/Blocks.antt =====
-- assignment-3/fs.c: the blocks of a device, by the bits of its free map.
use Prim.Native.Nat.{bit_and, bit_or}
use cs_1217_operating_system.Base.{
  ℕ, zero, suc, ◌+◌, ◌-◌, ◌/◌, ◌%◌, ◌^◌, Bool, Option, none, some, ltb, ◌==◌, if◌then◌else◌, update,
}
use cs_1217_operating_system.Fs.{Cmd, panic, pure, ◌>>=◌, ◌>>◌, bread, log_write, sb_of}
use cs_1217_operating_system.Fs.Bytes.{Bytes, bpb, bblock}

-- `bzero`
unfoldable pub bzero : ℕ → ℕ → Cmd (Unit {0})
bzero dev bno = log_write dev bno (λ _. 0)

abbrev pub mask : ℕ → ℕ
mask bi = 2 ^ (bi % 8)

-- `(bp->bytes[bi/8] & m) == 0`
abbrev pub is_clear : Bytes → ℕ → Bool
is_clear bytes bi = bit_and (bytes (bi / 8)) (mask bi) == 0

-- `bp->bytes[bi/8] |= m` and `&= ~m`, of a byte
abbrev pub mark : Bytes → ℕ → Bytes
mark bytes bi = update bytes (bi / 8) (bit_or (bytes (bi / 8)) (mask bi))

abbrev pub unmark : Bytes → ℕ → Bytes
unmark bytes bi = update bytes (bi / 8) (bit_and (bytes (bi / 8)) (255 - mask bi))

-- The inner loop of `balloc` over the `k` bits from `bi` on; the map's first is that of block `b`.
unfoldable pub free_bit : Bytes → ℕ → ℕ → ℕ → ℕ → Option ℕ
free_bit bytes size b zero bi = none
free_bit bytes size b (suc k) bi =
    let rest = free_bit bytes size b k (bi + 1) in
    if ltb (b + bi) size then (if is_clear bytes bi then some bi else rest) else none

unfoldable pub take_block : ℕ → ℕ → Bytes → ℕ → Cmd ℕ
unfolding bzero
take_block dev b bytes bi = do
  sb ← sb_of
  log_write dev (bblock b sb) (mark bytes bi)
  bzero dev (b + bi)
  pure (b + bi)

-- The loop of `balloc`, `k` blocks of the map from that of block `b` on
unfoldable pub balloc_from : ℕ → ℕ → ℕ → Cmd ℕ
unfolding free_bit take_block
balloc_from dev zero b = panic
balloc_from dev (suc k) b = do
  sb ← sb_of
  bytes ← bread dev (bblock b sb)
  if ltb b sb.size
      then elim (free_bit bytes sb.size b bpb 0) [
        | some bi ↦ take_block dev b bytes bi
        | none ↦ balloc_from dev k (b + bpb)
      ]
      else panic

-- `balloc`
unfoldable pub balloc : ℕ → Cmd ℕ
unfolding balloc_from
balloc dev = do sb ← sb_of; balloc_from dev (sb.size / bpb + 1) 0

-- `bfree`
unfoldable pub bfree : ℕ → ℕ → Cmd (Unit {0})
bfree dev b = do
  sb ← sb_of
  bytes ← bread dev (bblock b sb)
  if is_clear bytes (b % bpb) then panic else log_write dev (bblock b sb) (unmark bytes (b % bpb))
