-- ===== src/Jos/PageTable.antt =====
-- lab-3/kern/pmap.c: the two-level page tables. A page directory is the number of its page, and a pointer to an
-- entry is a page and an index.
use Prim.Native.Nat.{bit_or}
use cs_1217_operating_system.Base.{
  ℕ, zero, suc, ◌+◌, ◌*◌, ◌/◌, ◌%◌, ◌^◌, Bool, true, false, ◌&&◌, Option, none, some, ◌==◌,
  if◌then◌else◌, update,
}
use cs_1217_operating_system.Base.Int.{ℤ, pos, negsuc}
use cs_1217_operating_system.Jos.{Cmd, panic, pure, and_then, ◌>>=◌, ◌>>◌, check_page, write}
use cs_1217_operating_system.Jos.Pages.{page_alloc, page_decref}

-- `PDX`, `PTX`, `PGNUM`, `page2pa` and the test of PTE_P
abbrev pub pdx : ℕ → ℕ
pdx va = va / 4194304 % 1024

abbrev pub ptx : ℕ → ℕ
ptx va = va / 4096 % 1024

abbrev pub pgnum : ℕ → ℕ
pgnum w = w / 4096

abbrev pub page2pa : ℕ → ℕ
page2pa p = p * 4096 % 2 ^ 32

abbrev pub is_present : ℕ → Bool
is_present w = w % 2 == 1

abbrev pub Pte : Type 0
Pte = ℕ × ℕ

abbrev pub load : Pte → Cmd ℕ
load (pn, i) s = some (s.memory pn i, s)

abbrev pub store : Pte → ℕ → Cmd (Unit {0})
store (pn, i) w = write pn i w

abbrev pub add_ref : ℕ → Cmd (Unit {0})
add_ref p s = some (tt, record s { ref = update s.ref p ((s.ref p + 1) % 65536) })

-- `page2pa(newPage) | PTE_P | PTE_W | PTE_U`
abbrev pub table_entry : ℕ → ℕ
table_entry p = bit_or (bit_or (bit_or (page2pa p) 1) 2) 4

-- The case of `pgdir_walk` in which a new page `found` becomes the page table.
unfoldable pub new_table : ℕ → ℕ → Option ℕ → Cmd (Option Pte)
new_table pgdir va none = pure none
new_table pgdir va (some p) = do
  add_ref p
  store (pgdir, pdx va) (table_entry p)
  frame ← check_page (pgnum (table_entry p))
  pure (some (frame, ptx va))

-- `pgdir_walk`
unfoldable pub pgdir_walk : ℕ → ℕ → Bool → Cmd (Option Pte)
unfolding page_alloc new_table
pgdir_walk pgdir va create s =
    let pde = s.memory pgdir (pdx va) in
    if is_present pde
    then (do frame ← check_page (pgnum pde); pure (some (frame, ptx va))) s
    else if create
    then (do found ← page_alloc true; new_table pgdir va found) s
    else some (none, s)

-- `page_lookup` at the entry that `pgdir_walk` found: the page and its entry.
unfoldable pub lookup_at : Option Pte → Cmd (Option (ℕ × Pte))
lookup_at none s = some (none, s)
lookup_at (some pte) s =
    let w = s.memory pte.0 pte.1 in
    if is_present w then (do p ← check_page (pgnum w); pure (some (p, pte))) s else some (none, s)

unfoldable pub page_lookup : ℕ → ℕ → Cmd (Option (ℕ × Pte))
unfolding pgdir_walk lookup_at
page_lookup pgdir va = do pte ← pgdir_walk pgdir va false; lookup_at pte

-- `page_remove` of the page that `page_lookup` found. The TLB is not modelled.
unfoldable pub remove_found : Option (ℕ × Pte) → Cmd (Unit {0})
unfolding page_decref
remove_found none = pure tt
remove_found (some (p, pte)) = do page_decref p; store pte 0

unfoldable pub page_remove : ℕ → ℕ → Cmd (Unit {0})
unfolding page_lookup remove_found
page_remove pgdir va = do found ← page_lookup pgdir va; remove_found found

-- `page_insert` at the entry that `pgdir_walk` found. `-E_NO_MEM` is -4.
unfoldable pub insert_at : ℕ → ℕ → ℕ → ℕ → Option Pte → Cmd ℤ
unfolding page_remove
insert_at pgdir p va perm none = pure (negsuc 3)
insert_at pgdir p va perm (some pte) = do
  add_ref p
  w ← load pte
  if is_present w then page_remove pgdir va else pure tt
  store pte (bit_or (bit_or (page2pa p) perm) 1)
  pde ← load (pgdir, pdx va)
  store (pgdir, pdx va) (bit_or pde perm)
  pure (pos 0)

unfoldable pub page_insert : ℕ → ℕ → ℕ → ℕ → Cmd ℤ
unfolding pgdir_walk insert_at
page_insert pgdir p va perm = do pte ← pgdir_walk pgdir va true; insert_at pgdir p va perm pte

-- A loop of `boot_map_region` for pages of `size` bytes from the `i`-th on, `entry` being how the entry
-- of an address is found.
unfoldable pub map_loop : (ℕ → Cmd (Option Pte)) → ℕ → ℕ → ℕ → ℕ → ℕ → ℕ → Cmd (Unit {0})
map_loop entry size va pa perm zero i s = some (tt, s)
map_loop entry size va pa perm (suc k) i s = and_then (entry ((va + i * size) % 2 ^ 32) s) (λ found.
    elim found [
      | none ↦ panic
      | some pte ↦ do
        store pte (bit_or (bit_or ((pa + i * size) % 2 ^ 32) perm) 1)
        map_loop entry size va pa perm k (i + 1)
    ])

-- `boot_map_region`; `large` is `fourMB_page_support`. PTE_PS is bit 7.
unfoldable pub boot_map_region : Bool → ℕ → ℕ → ℕ → ℕ → ℕ → Cmd (Unit {0})
unfolding map_loop pgdir_walk
boot_map_region large pgdir va size pa perm = do
  if large && (perm / 128 % 2 == 1)
      then map_loop (λ a. pure (some (pgdir, pdx a))) 4194304 va pa perm (size / 4194304) 0
      else pure tt
  map_loop (λ a. pgdir_walk pgdir a true) 4096 va pa perm (size / 4096) 0
