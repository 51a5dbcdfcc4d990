-- ===== src/Jos.antt =====
-- lab-3/kern/pmap.c: the physical pages of JOS and its two-level page tables. This file has the state and how
-- code acts on it; the children have the functions and what is proved about them.
pub mod Pages
pub mod FreeList
pub mod Boot
pub mod Init
pub mod PageTable
pub mod Walk
pub mod Mapping
mod Tests
use cs_1217_operating_system.Base.{ℕ, ◌*◌, Bool, Option, none, some, if◌then◌else◌, leb, update}

-- `struct PageInfo` of each page, by the page's number: `pp_ref`, a 16-bit number, and `pp_link`, `none`
-- being NULL. `free_list` is `page_free_list`. `memory` holds the words of each page of physical memory; the
-- kernel reaches it at KERNBASE, so that a kernel address is a page and an index here.
pub record Phys : Type 0 where
  pub npages : ℕ
  pub ref : ℕ → ℕ
  pub link : ℕ → Option ℕ
  pub free_list : Option ℕ
  pub memory : ℕ → ℕ → ℕ

-- Code: it yields a value and the new state, or panics.
abbrev pub Cmd : Type 0 → Type 0
Cmd A = Phys → Option (A × Phys)

abbrev pub panic : {A : Type 0} → Cmd A
panic s = none

module _ {A : Type 0} where
  abbrev pub pure : A → Cmd A
  pure a s = some (a, s)

  abbrev pub and_then : {B : Type 0} → Option (A × Phys) → (A → Cmd B) → Option (B × Phys)
  and_then none k = none
  and_then (some (a, s)) k = k a s

  infixl 5 ◌>>=◌ ◌>>◌
  abbrev pub ◌>>=◌ : {B : Type 0} → Cmd A → (A → Cmd B) → Cmd B
  ◌>>=◌ c k s = and_then (c s) k

  abbrev pub ◌>>◌ : {B : Type 0} → Cmd A → Cmd B → Cmd B
  ◌>>◌ c d s = and_then (c s) (λ _. d)

abbrev pub get : Cmd Phys
get s = some (s, s)

abbrev pub put : Phys → Cmd (Unit {0})
put s _ = some (tt, s)

-- `KADDR`, `page2kva` and `pa2page`, of a page's number: they refuse a page that the machine does not have.
abbrev pub check_page : ℕ → Cmd ℕ
check_page pn s = if leb s.npages pn then none else some (pn, s)

abbrev pub write : ℕ → ℕ → ℕ → Cmd (Unit {0})
write pn i w s = some (tt, record s { memory = update s.memory pn (update (s.memory pn) i w) })
