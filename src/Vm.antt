-- ===== src/Vm.antt =====
-- assignment-3/vm.c: page tables and the memory of processes, on the allocator's state, which has the bytes of the
-- physical pages at their kernel addresses. A `uint` is a number below 2 ^ 32, and `none` is a panic.
pub mod Mapped
pub mod Page
mod Tests
use cs_1217_operating_system.Base.{
  ℕ, zero, suc, ◌+◌, ◌-◌, ◌*◌, ◌/◌, ◌%◌, ◌^◌, Bool, true, false, ◌&&◌, ◌||◌, not, Option, none,
  some, ltb, leb, ◌==◌, if◌then◌else◌, update,
}
use Prim.Native.Nat.{bit_or, bit_and}
use cs_1217_operating_system.Memory.{Mem, memset}
use cs_1217_operating_system.Kalloc.{Kmem, page_size, kern_base, v2p, page_round_up, kalloc, kfree}

-- `P2V` of memlayout.h; `PDX`, `PTX`, `PTE_ADDR`, `PTE_FLAGS` and `PGROUNDDOWN` of mmu.h
abbrev pub p2v : ℕ → ℕ
p2v a = (a + kern_base) % 2 ^ 32

abbrev pub pdx : ℕ → ℕ
pdx va = va / 4194304 % 1024

abbrev pub ptx : ℕ → ℕ
ptx va = va / 4096 % 1024

abbrev pub pte_addr : ℕ → ℕ
pte_addr w = w / 4096 * 4096

abbrev pub pte_flags : ℕ → ℕ
pte_flags w = w % 4096

abbrev pub round_down : ℕ → ℕ
round_down a = a / 4096 * 4096

-- `PTE_P`, `PTE_W` and `PTE_U`
abbrev pub pte_p : ℕ
pte_p = 1

abbrev pub pte_w : ℕ
pte_w = 2

abbrev pub pte_u : ℕ
pte_u = 4

abbrev pub is_present : ℕ → Bool
is_present w = not (bit_and w pte_p == 0)

-- A word of memory, the low byte first
abbrev pub word : Kmem → ℕ → ℕ
word s a =
    s.memory a + 256 * s.memory (a + 1) + 65536 * s.memory (a + 2) + 16777216 * s.memory (a + 3)

abbrev pub put_word : Mem → ℕ → ℕ → Mem
put_word m a w =
    update
      (update (update (update m a (w % 256)) (a + 1) (w / 256 % 256)) (a + 2) (w / 65536 % 256))
      (a + 3) (w / 16777216 % 256)

abbrev pub set_word : ℕ → ℕ → Kmem → Kmem
set_word a w s = record s { memory = put_word s.memory a w }

abbrev pub zero_page : ℕ → Kmem → Kmem
zero_page v s = record s { memory = memset s.memory v 0 page_size }

-- `walkpgdir`, when the directory has no page table for the address: with what `kalloc` yields
unfoldable pub new_table : ℕ → ℕ → Option ℕ × Kmem → Option ℕ × Kmem
new_table pde va (none, s) = (none, s)
new_table pde va (some pgtab, s) = (
  some (pgtab + 4 * ptx va),
  set_word pde (bit_or (bit_or (bit_or (v2p pgtab) pte_p) pte_w) pte_u) (zero_page pgtab s),
)

-- `walkpgdir`: the address of the entry, `none` being the null pointer
unfoldable pub walkpgdir : ℕ → ℕ → Bool → Kmem → Option ℕ × Kmem
unfolding new_table
walkpgdir pgdir va alloc s =
    if is_present (word s (pgdir + 4 * pdx va))
    then (some (p2v (pte_addr (word s (pgdir + 4 * pdx va))) + 4 * ptx va), s)
    else if not alloc
    then (none, s)
    else new_table (pgdir + 4 * pdx va) va (kalloc s)

-- What is done without a page or entry, and with one
abbrev pub on_found : {B : Type 0} → Option ℕ × Kmem → (Kmem → B) → (ℕ → Kmem → B) → B
on_found (none, s) a k = a s
on_found (some x, s) a k = k x s

-- The loop of `mappages`, with `k` pages behind the first
unfoldable pub map_from : ℕ → ℕ → ℕ → ℕ → ℕ → Kmem → Option (Bool × Kmem)
unfolding walkpgdir
map_from pgdir zero a pa perm s =
    on_found (walkpgdir pgdir a true s) (λ s'. some (false, s'))
      (λ pte s'.
        if is_present (word s' pte)
        then none
        else some (true, set_word pte (bit_or (bit_or pa perm) pte_p) s'))
map_from pgdir (suc k) a pa perm s =
    on_found (walkpgdir pgdir a true s) (λ s'. some (false, s'))
      (λ pte s'.
        if is_present (word s' pte)
        then none
        else map_from pgdir k ((a + page_size) % 2 ^ 32) ((pa + page_size) % 2 ^ 32) perm
            (set_word pte (bit_or (bit_or pa perm) pte_p) s'))

-- `mappages`, `false` being -1. The loop ends at the last page, as many pages behind the first as lie between them.
unfoldable pub mappages : ℕ → ℕ → ℕ → ℕ → ℕ → Kmem → Option (Bool × Kmem)
unfolding map_from
mappages pgdir va size pa perm s =
    let last : ℕ = round_down ((va + size + (2 ^ 32 - 1)) % 2 ^ 32) in
    map_from pgdir ((last + 2 ^ 32 - round_down va) % 2 ^ 32 / page_size) (round_down va) pa perm s

-- `deallocuvm`: a round of its loop, for the entry at `pte`
unfoldable pub unmap : ℕ → ℕ → Kmem → Option Kmem
unmap end_ pte s =
    if is_present (word s pte)
    then if pte_addr (word s pte) == 0
      then none
      else elim (kfree end_ (p2v (pte_addr (word s pte))) s) [
        | none ↦ none
        | some s' ↦ some (set_word pte 0 s')
      ]
    else some s

-- The loop of `deallocuvm` from `a` on
unfoldable pub dealloc_from : ℕ → ℕ → ℕ → ℕ → ℕ → Kmem → Option Kmem
unfolding walkpgdir unmap
dealloc_from end_ pgdir oldsz zero a s = some s
dealloc_from end_ pgdir oldsz (suc k) a s =
    if not (ltb a oldsz)
    then some s
    else on_found (walkpgdir pgdir a false s)
        (λ s'. dealloc_from end_ pgdir oldsz k ((a / 4194304 + 1) * 4194304) s')
        (λ pte s'. elim (unmap end_ pte s') [
          | none ↦ none
          | some s'' ↦ dealloc_from end_ pgdir oldsz k (a + page_size) s''
        ])

-- `deallocuvm`, of sizes up to `KERNBASE`: every round takes a page at least.
unfoldable pub deallocuvm : ℕ → ℕ → ℕ → ℕ → Kmem → Option (ℕ × Kmem)
unfolding dealloc_from
deallocuvm end_ pgdir oldsz newsz s =
    if leb oldsz newsz
    then some (oldsz, s)
    else elim (dealloc_from end_ pgdir oldsz (oldsz / page_size + 1) (page_round_up newsz) s) [
      | none ↦ none
      | some s' ↦ some (newsz, s')
    ]

-- `clearpteu`
unfoldable pub clearpteu : ℕ → ℕ → Kmem → Option Kmem
unfolding walkpgdir
clearpteu pgdir uva s =
    on_found (walkpgdir pgdir uva false s) (λ s'. none)
      (λ pte s'. some (set_word pte (bit_and (word s' pte) (2 ^ 32 - 1 - pte_u)) s'))

-- `uva2ka`, where the page table of the address is there: the code does not look at whether `walkpgdir` answers
-- the null pointer, which `none` stands for, and reads the word at it.
unfoldable pub uva2ka : ℕ → ℕ → Kmem → Option (Option ℕ)
unfolding walkpgdir
uva2ka pgdir uva s =
    on_found (walkpgdir pgdir uva false s) (λ s'. none)
      (λ pte s'.
        if not (is_present (word s' pte)) || (bit_and (word s' pte) pte_u == 0)
        then some none
        else some (some (p2v (pte_addr (word s' pte)))))

-- `allocuvm`, without memory for the page at `a`
unfoldable pub undo_alloc : ℕ → ℕ → ℕ → ℕ → Kmem → Option (ℕ × Kmem)
unfolding deallocuvm
undo_alloc end_ pgdir oldsz newsz s = elim (deallocuvm end_ pgdir newsz oldsz s) [
  | none ↦ none
  | some (r, s') ↦ some (0, s')
]

-- `kfree(mem)` behind it
abbrev give_back : ℕ → ℕ → Option (ℕ × Kmem) → Option (ℕ × Kmem)
give_back end_ v none = none
give_back end_ v (some (r, s)) = elim (kfree end_ v s) [ none ↦ none | some s' ↦ some (r, s') ]

abbrev mapped_page :
    Option (Bool × Kmem)
    → (Kmem → Option (ℕ × Kmem))
    → (Kmem → Option (ℕ × Kmem))
    → Option (ℕ × Kmem)
mapped_page none more undo = none
mapped_page (some (true, s)) more undo = more s
mapped_page (some (false, s)) more undo = undo s

-- The loop of `allocuvm` from `a` on
unfoldable pub alloc_pages : ℕ → ℕ → ℕ → ℕ → ℕ → ℕ → Kmem → Option (ℕ × Kmem)
unfolding mappages undo_alloc
alloc_pages end_ pgdir oldsz newsz zero a s = some (newsz, s)
alloc_pages end_ pgdir oldsz newsz (suc k) a s =
    if not (ltb a newsz)
    then some (newsz, s)
    else on_found (kalloc s) (λ s'. undo_alloc end_ pgdir oldsz newsz s')
        (λ v s'.
          mapped_page (mappages pgdir a page_size (v2p v) (bit_or pte_w pte_u) (zero_page v s'))
            (λ s''. alloc_pages end_ pgdir oldsz newsz k (a + page_size) s'')
            (λ s''. give_back end_ v (undo_alloc end_ pgdir oldsz newsz s'')))

-- `allocuvm`: the new size, or 0. Every round takes a page.
unfoldable pub allocuvm : ℕ → ℕ → ℕ → ℕ → Kmem → Option (ℕ × Kmem)
unfolding alloc_pages
allocuvm end_ pgdir oldsz newsz s =
    if leb kern_base newsz
    then some (0, s)
    else if ltb newsz oldsz
    then some (oldsz, s)
    else alloc_pages end_ pgdir oldsz newsz (newsz / page_size + 1) (page_round_up oldsz) s
