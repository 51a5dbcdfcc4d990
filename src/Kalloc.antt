-- ===== src/Kalloc.antt =====
-- assignment-3/kalloc.c: the allocator of physical pages. The free pages are a list of addresses, beside the links that
-- `kfree` stores in the first word of each, and `kmem.lock` is held where it is read or changed.
pub mod Pages
use cs_1217_operating_system.Base.{
  ℕ, zero, suc, ◌+◌, ◌-◌, ◌*◌, ◌/◌, ◌%◌, ◌^◌, Bool, true, false, ◌||◌, not, Option, none, some,
  List, [], ◌∷◌, ltb, leb, ◌==◌, if◌then◌else◌,
}
use cs_1217_operating_system.Memory.{Mem, memset, store_word}

-- `PGSIZE` of mmu.h, `KERNBASE` and `PHYSTOP` of memlayout.h
abbrev pub page_size : ℕ
page_size = 4096

abbrev pub kern_base : ℕ
kern_base = 2147483648

abbrev pub phys_stop : ℕ
phys_stop = 234881024

-- `V2P`
abbrev pub v2p : ℕ → ℕ
v2p v = (v + 2 ^ 32 - kern_base) % 2 ^ 32

-- `PGROUNDUP`
abbrev pub page_round_up : ℕ → ℕ
page_round_up v = (v + (page_size - 1)) % 2 ^ 32 / page_size * page_size

-- `kmem`, and the memory that `kfree` fills and links.
pub record Kmem : Type 0 where
  pub use_lock : Bool
  pub freelist : List ℕ
  pub memory : Mem

-- The pointer to the first page of a list, null for none
abbrev pub head_of : List ℕ → ℕ
head_of [] = 0
head_of (v ∷ vs) = v

-- `kfree`, `end_` being the first address after the kernel; `none` is the panic.
unfoldable pub kfree : ℕ → ℕ → Kmem → Option Kmem
kfree end_ v s =
    if not (v % page_size == 0) || ltb v end_ || leb phys_stop (v2p v)
    then none
    else some (record s {
      memory = store_word (memset s.memory v 1 page_size) v (head_of s.freelist);
      freelist = v ∷ s.freelist;
    })

-- `kalloc`: the page, `none` being the null pointer.
unfoldable pub kalloc : Kmem → Option ℕ × Kmem
kalloc s = elim s.freelist [ [] ↦ (none, s) | v ∷ rest ↦ (some v, record s { freelist = rest }) ]

-- The loop of `freerange` from `p` on.
unfoldable pub free_from : ℕ → ℕ → ℕ → ℕ → Kmem → Option Kmem
unfolding kfree
free_from end_ zero p vend s = some s
free_from end_ (suc fuel) p vend s =
    let rest : Option Kmem = elim (kfree end_ p s) [
      | none ↦ none
      | some s' ↦ free_from end_ fuel (p + page_size) vend s'
    ] in
    if leb (p + page_size) vend then rest else some s

-- `freerange`, of memory that ends below the end of the address space: as many rounds as pages fit
-- below `vend` are enough.
unfoldable pub freerange : ℕ → ℕ → ℕ → Kmem → Option Kmem
unfolding free_from
freerange end_ vstart vend s = free_from end_ (vend / page_size) (page_round_up vstart) vend s

-- `kinit1` and `kinit2`
unfoldable pub kinit1 : ℕ → ℕ → ℕ → Kmem → Option Kmem
unfolding freerange
kinit1 end_ vstart vend s = freerange end_ vstart vend (record s { use_lock = false })

unfoldable pub kinit2 : ℕ → ℕ → ℕ → Kmem → Option Kmem
unfolding freerange
kinit2 end_ vstart vend s = elim (freerange end_ vstart vend s) [
  | none ↦ none
  | some s' ↦ some (record s' { use_lock = true })
]
