-- ===== src/Fs/Extent.antt =====
-- assignment-3/fs.c: the blocks of an inode, by their place: those of `addrs`, those that the indirect block
-- lists, and last the indirect block itself.
pub mod Supply
pub mod Growth
pub mod Steps
pub mod Find
pub mod Unchanged
pub mod Store
pub mod Write
pub mod Loops
pub mod Read
pub mod Whole
pub mod Saved
pub mod Finish
pub mod Roundtrip
pub mod Sample
mod Tests
use cs_1217_operating_system.Base.{
  ℕ, ◌+◌, ◌-◌, ◌*◌, ◌/◌, ◌%◌, ◌^◌, ◌≡◌, ◌≢◌, ◌<◌, ◌≤◌, refl, sym, ap, subst, ◌∙◌, Bool, true, false,
  ◌==◌, if◌then◌else◌, ltb, update, ℕ_discrete, arith,
}
use cs_1217_operating_system.Fs.{Fs}
use cs_1217_operating_system.Fs.Bytes.{Bytes, get16, get32, put16, put32}
use cs_1217_operating_system.Fs.Owned.{get32-put32}

-- The place of the indirect block: behind the `MAXFILE` places for data.
abbrev pub indirect_at : ℕ
indirect_at = 140

-- The block at a place, 0 for none, from `addrs` and the contents of the device's blocks.
unfoldable pub home_of : (ℕ → ℕ) → (ℕ → Bytes) → ℕ → ℕ
home_of addrs block k =
    if ltb k 12
    then addrs k
    else if k == indirect_at
    then addrs 12
    else if addrs 12 == 0
    then 0
    else get32 (block (addrs 12)) (4 * (k - 12))

-- A new block in `addrs`
pub home_of-direct :
    (addrs : ℕ → ℕ) (block : ℕ → Bytes) (i n k : ℕ)
    → i < 12
    → home_of (update addrs i n) block k ≡ (if k == i then n else home_of addrs block k)
unfolding home_of
home_of-direct addrs block i n k small = ground arith

-- A new indirect block, which is all zeros
pub home_of-indirect :
    (addrs : ℕ → ℕ) (block : ℕ → Bytes) (n k : ℕ)
    → k ≤ indirect_at
    → addrs 12 ≡ 0
    → ((i : ℕ) → block n i ≡ 0)
    → home_of (update addrs 12 n) block k ≡ (if k == indirect_at then n else home_of addrs block k)
unfolding home_of
home_of-indirect addrs block n k within z zeros =
    let x : ℕ = 4 * (k - 12) in
    ground (arith, zeros x, zeros (x + 1), zeros (x + 2), zeros (x + 2 + 1))

get32-put32_other :
    (bytes : Bytes) (e j w : ℕ)
    → j ≢ e
    → get32 (put32 bytes (4 * e) w) (4 * j) ≡ get32 bytes (4 * j)
get32-put32_other bytes e j w ne = ground arith

-- A new entry of the indirect block
pub home_of-entry :
    (addrs : ℕ → ℕ) (block : ℕ → Bytes) (e n k : ℕ)
    → k ≤ indirect_at
    → e < 128
    → addrs 12 ≢ 0
    → n < 2 ^ 32
    → home_of addrs (update block (addrs 12) (put32 (block (addrs 12)) (4 * e) n)) k
      ≡ (if k == e + 12 then n else home_of addrs block k)
unfolding home_of
home_of-entry addrs block e n k within small some_ words = ground (
  arith,
  get32-put32 (block (addrs 12)) (4 * e) n,
  get32-put32_other (block (addrs 12)) e (k - 12) n,
)

pub home_of-same :
    (addrs : ℕ → ℕ) (block block' : ℕ → Bytes) (k : ℕ)
    → (addrs 12 ≢ 0 → block' (addrs 12) ≡ block (addrs 12))
    → home_of addrs block' k ≡ home_of addrs block k
unfolding home_of
home_of-same addrs block block' k h = elim (ℕ_discrete (addrs 12) 0) [
  | yes z ↦ ground arith
  | no ne ↦
      ap
        (λ m.
          if ltb k 12
          then addrs k
          else if k == indirect_at
          then addrs 12
          else if addrs 12 == 0
          then 0
          else get32 m (4 * (k - 12)))
        (h ne)
]

pub home_of_last : (addrs : ℕ → ℕ) (block : ℕ → Bytes) → home_of addrs block indirect_at ≡ addrs 12
unfolding home_of
home_of_last addrs block = refl

pub home_of_listed :
    (addrs : ℕ → ℕ) (block : ℕ → Bytes) (e : ℕ)
    → e < 128
    → addrs 12 ≢ 0
    → home_of addrs block (e + 12) ≡ get32 (block (addrs 12)) (4 * e)
unfolding home_of
home_of_listed addrs block e small ne =
    let same : e + 12 - 12 ≡ e = omega arith in
    ground (arith, ap (λ x. get32 (block (addrs 12)) (4 * x)) same)

pub home_of_direct :
    (addrs : ℕ → ℕ) (block : ℕ → Bytes) (i : ℕ) → i < 12 → home_of addrs block i ≡ addrs i
unfolding home_of
home_of_direct addrs block i small = ground arith

pub home_of_none :
    (addrs : ℕ → ℕ) (block : ℕ → Bytes) (e : ℕ)
    → e < 128
    → addrs 12 ≡ 0
    → home_of addrs block (e + 12) ≡ 0
unfolding home_of
home_of_none addrs block e small z = ground arith
