-- ===== src/Jos/Boot.antt =====
-- lab-3/kern/pmap.c: how memory is found and given out before the page allocator runs, and how the allocator
-- starts.
use cs_1217_operating_system.Base.{
  ℕ, zero, suc, ◌+◌, ◌-◌, ◌*◌, ◌/◌, ◌%◌, ◌^◌, ◌≤◌, ◌<◌, ◌≡◌, ◌⊎◌, refl, sym, subst, Bool, true,
  false, ◌&&◌, not, Option, none, some, ltb, ltb→lt, leb, ◌==◌, if◌then◌else◌, update, arith,
  Bool-cases, inl, inr,
}
use cs_1217_operating_system.Jos.{Phys}

-- KERNBASE
abbrev pub kern_base : ℕ
kern_base = 4026531840

-- What `i386_detect_memory` computes of the sizes in kilobytes that the clock chip reports: `npages` and
-- `npages_basemem`.
unfoldable pub detect_memory : ℕ → ℕ → ℕ → ℕ × ℕ
detect_memory basemem extmem ext16 =
    let ext16mem = ext16 * 64 in
    let total =
      if not (ext16mem == 0)
      then 16 * 1024 + ext16mem
      else if not (extmem == 0)
      then 1 * 1024 + extmem
      else basemem in
    (total / 4, basemem / 4)

-- `ROUNDUP(a, PGSIZE)`
abbrev pub round_up : ℕ → ℕ
round_up a = (a + 4095) % 2 ^ 32 / 4096 * 4096

-- `boot_alloc` once `nextfree` is set to `result`; `none` is the panic.
unfoldable pub boot_from : ℕ → ℕ → ℕ → Option (ℕ × ℕ)
boot_from npages n result =
    let next = round_up ((result + n) % 2 ^ 32) in
    if ltb 0 n
    then if ltb (npages * 4096 % 2 ^ 32) ((next + 2 ^ 32 - kern_base) % 2 ^ 32)
      then none
      else some (result, next)
    else some (result, result)

-- `boot_alloc`: the result and the new `nextfree`, which is 0 at first.
unfoldable pub boot_alloc : ℕ → ℕ → ℕ → ℕ → Option (ℕ × ℕ)
unfolding boot_from
boot_alloc end_ npages n nextfree =
    boot_from npages n (if nextfree == 0 then round_up end_ else nextfree)

-- What `boot_alloc` promises when the memory from `start` on is free.
abbrev pub BootEnsures : ℕ → ℕ → ℕ → Option (ℕ × ℕ) → Type 0
BootEnsures npages n start none = kern_base + npages * 4096 < start + n
BootEnsures npages n start (some (r, next)) =
    (r ≡ start)
    × (r + n ≤ next)
    × (next < r + n + 4096)
    × (next % 4096 ≡ 0)
    × (next ≤ kern_base + npages * 4096)

-- Memory at `start` is free: it is where the kernel ends, or what an earlier call left.
abbrev pub IsNext : ℕ → ℕ → ℕ → ℕ → Type 0
IsNext end_ npages nextfree start =
    ((nextfree ≡ 0)
      × (kern_base ≤ end_)
      × (start ≡ round_up end_)
      × (end_ ≤ kern_base + npages * 4096))
    ⊎ ((nextfree ≡ start)
        × (kern_base ≤ start)
        × (start % 4096 ≡ 0)
        × (start ≤ kern_base + npages * 4096))

not_lt : (a b : ℕ) → ltb a b ≡ false → b ≤ a
not_lt a b h = ground arith

boot_from_lem :
    (npages n start : ℕ)
    → npages < 65536
    → n < kern_base
    → kern_base ≤ start
    → start % 4096 ≡ 0
    → start ≤ kern_base + npages * 4096
    → BootEnsures npages n start (boot_from npages n start)
unfolding boot_from
boot_from_lem npages n start small low above aligned within = elim (Bool-cases (ltb 0 n)) [
  | inr none_ ↦ rw none_ (refl, ground arith, ground arith, aligned, within)
  | inl some_ ↦
      elim (Bool-cases (
        ltb (npages * 4096 % 2 ^ 32)
          ((round_up ((start + n) % 2 ^ 32) + 2 ^ 32 - kern_base) % 2 ^ 32))) [
            | inl full ↦ rw (some_, full) (let lt = ltb→lt _ _ full in omega arith)
            | inr room ↦
                let le = not_lt _ _ room in
                rw (some_, room) (refl, omega arith, omega arith, omega arith, omega arith)
          ]
]

-- `boot_alloc` of `n` bytes answers the start of the free memory and takes whole pages there, as few as hold
-- the bytes, all of them within the memory of the machine; it panics only when the bytes do not fit. The
-- machine has less than 256 MB, and `n` is less than KERNBASE, so that no sum wraps around unnoticed.
pub boot_alloc_lem :
    (end_ npages n nextfree start : ℕ)
    → npages < 65536
    → n < kern_base
    → IsNext end_ npages nextfree start
    → BootEnsures npages n start (boot_alloc end_ npages n nextfree)
unfolding boot_alloc
boot_alloc_lem end_ npages n nextfree start small low (inl (z, above, e, within)) =
    let first : (if nextfree == 0 then round_up end_ else nextfree) ≡ start = ground arith in
    subst (λ r. BootEnsures npages n start (boot_from npages n r)) (sym first)
      (boot_from_lem npages n start small low (omega arith) (omega arith) (omega arith))
boot_alloc_lem end_ npages n nextfree start small low (inr (e, above, aligned, within)) =
    let first : (if nextfree == 0 then round_up end_ else nextfree) ≡ start = ground arith in
    subst (λ r. BootEnsures npages n start (boot_from npages n r)) (sym first)
      (boot_from_lem npages n start small low above aligned within)

-- The branches of `page_init` for page `i`, `base` being `npages_basemem` and `kernel` the number of the
-- first page after what `boot_alloc` gave out.
abbrev pub is_available : ℕ → ℕ → ℕ → Bool
is_available base kernel i =
    if ltb i base
    then true
    else if leb 160 i && ltb i 256
    then false
    else if leb 256 i && ltb i kernel
    then false
    else true

unfoldable pub init_page : ℕ → ℕ → ℕ → Phys → Phys
init_page base kernel i s =
    if is_available base kernel i
    then record s { ref = update s.ref i 0; link = update s.link i s.free_list; free_list = some i }
    else record s { ref = update s.ref i 1 }

-- The loop of `page_init` for the `k` pages from `i` on.
unfoldable pub init_from : ℕ → ℕ → ℕ → ℕ → Phys → Phys
init_from base kernel zero i s = s
init_from base kernel (suc k) i s = init_from base kernel k (i + 1) (init_page base kernel i s)

-- `page_init`, `nextfree` being what `boot_alloc(0)` answers
unfoldable pub page_init : ℕ → ℕ → Phys → Phys
unfolding init_from init_page
page_init base nextfree s =
    init_from base ((nextfree - kern_base) / 4096) (s.npages - 1) 1
      (record s { ref = update s.ref 0 1 })
