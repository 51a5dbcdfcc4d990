-- ===== src/Vm/Mapped.antt =====
-- assignment-3/vm.c: an address behind `mappages` of its page.
use cs_1217_operating_system.Base.{
  ℕ, ◌+◌, ◌*◌, ◌/◌, ◌%◌, ◌^◌, ◌≡◌, ◌≢◌, ◌<◌, ◌≤◌, ◌⊎◌, refl, sym, ap, ◌∙◌, Bool, true, false, ◌||◌,
  not, Option, none, some, ◌==◌, if◌then◌else◌, dec_lt, inl, inr, arith,
}
use Prim.Native.Nat.{bit_or, bit_and}
use cs_1217_operating_system.Memory.{Mem}
use cs_1217_operating_system.Kalloc.{Kmem, kern_base, v2p, kalloc}
use cs_1217_operating_system.Base.Bits.{halve, bit_or_odd, bit_or_odd_left, bit_or_page}
use cs_1217_operating_system.Base.Digits.{digit, digit-bit_or, and_zero}
use cs_1217_operating_system.Vm

-- A word that has been written, and one that lies apart from it
pub word_put : (s : Kmem) (a w : ℕ) → w < 2 ^ 32 → Vm.word (Vm.set_word a w s) a ≡ w
word_put s a w small =
    let m : Mem = Vm.put_word s.memory a w in
    let b0 : m a ≡ w % 256 = ground arith in
    let b1 : m (a + 1) ≡ w / 256 % 256 = ground arith in
    let b2 : m (a + 2) ≡ w / 65536 % 256 = ground arith in
    let b3 : m (a + 3) ≡ w / 16777216 % 256 = ground arith in omega (arith, b0, b1, b2, b3)

pub word_apart :
    (s : Kmem) (a b w : ℕ) → (a + 4 ≤ b) ⊎ (b + 4 ≤ a) → Vm.word (Vm.set_word a w s) b ≡ Vm.word s b
word_apart s a b w apart =
    let m : Mem = Vm.put_word s.memory a w in
    let b0 : m b ≡ s.memory b = ground arith in
    let b1 : m (b + 1) ≡ s.memory (b + 1) = ground arith in
    let b2 : m (b + 2) ≡ s.memory (b + 2) = ground arith in
    let b3 : m (b + 3) ≡ s.memory (b + 3) = ground arith in omega (arith, b0, b1, b2, b3)

module _ (pgdir va : ℕ) (s : Kmem) where
  abbrev pub pde : ℕ
  pde = Vm.word s (pgdir + 4 * Vm.pdx va)

  abbrev pub pte : ℕ
  pte = Vm.p2v (Vm.pte_addr pde) + 4 * Vm.ptx va

  -- With a page table for the address
  pub walk_there :
      (alloc : Bool) → Vm.is_present pde ≡ true → Vm.walkpgdir pgdir va alloc s ≡ (some pte, s)
  unfolding Vm.walkpgdir
  walk_there alloc e =
      ap
        (λ t.
          if t
          then (some pte, s)
          else if not alloc
          then (none, s)
          else Vm.new_table (pgdir + 4 * Vm.pdx va) va (kalloc s))
        e

-- What `mappages` stores for a page
abbrev pub page_entry : ℕ → ℕ → ℕ
page_entry pa perm = bit_or (bit_or pa perm) 1

is_present_odd : (w : ℕ) → w % 2 ≡ 1 → Vm.is_present w ≡ true
unfolding halve
is_present_odd w e = ap not (and_zero 0 w ∙ ap (λ x. x == 0) e)

module _ (pa perm : ℕ) (aligned : pa % 4096 ≡ 0) (flags : perm < 4096) where
  entry_page : Vm.pte_addr (page_entry pa perm) ≡ pa
  entry_page =
      omega (arith, bit_or_page (bit_or pa perm) 1 (omega arith), bit_or_page pa perm flags)

  entry_small : pa < 2 ^ 32 → page_entry pa perm < 2 ^ 32
  entry_small small = omega (arith, entry_page)

  entry_present : Vm.is_present (page_entry pa perm) ≡ true
  entry_present = is_present_odd (page_entry pa perm) (bit_or_odd (bit_or pa perm) 1 refl)

  entry_user : (bit_and (page_entry pa perm) 4 == 0) ≡ (bit_and perm 4 == 0)
  unfolding halve
  entry_user =
      let one = digit-bit_or 2 (bit_or pa perm) 1 in
      let two = digit-bit_or 2 pa perm in
      let low : digit 2 pa ≡ 0 = omega arith in
      let same : digit 2 (page_entry pa perm) ≡ digit 2 perm = omega (arith, one, two, low) in
      and_zero 2 (page_entry pa perm) ∙ ap (λ x. x == 0) same ∙ sym (and_zero 2 perm)

-- The entry in a directory for a new table
table_entry_addr :
    (v : ℕ) → v % 4096 ≡ 0 → Vm.pte_addr (bit_or (bit_or (bit_or (v2p v) 1) 2) 4) ≡ v2p v
table_entry_addr v aligned = omega (
  arith,
  bit_or_page (bit_or (bit_or (v2p v) 1) 2) 4 (omega arith),
  bit_or_page (bit_or (v2p v) 1) 2 (omega arith),
  bit_or_page (v2p v) 1 (omega arith),
)

pub table_entry_small : (v : ℕ) → v % 4096 ≡ 0 → bit_or (bit_or (bit_or (v2p v) 1) 2) 4 < 2 ^ 32
table_entry_small v aligned = omega (arith, table_entry_addr v aligned)

pub table_entry_page :
    (v : ℕ)
    → v % 4096 ≡ 0
    → kern_base ≤ v
    → v < 2 ^ 32
    → Vm.p2v (Vm.pte_addr (bit_or (bit_or (bit_or (v2p v) 1) 2) 4)) ≡ v
table_entry_page v aligned lo hi = ap Vm.p2v (table_entry_addr v aligned) ∙ omega arith

pub table_entry_present : (v : ℕ) → Vm.is_present (bit_or (bit_or (bit_or (v2p v) 1) 2) 4) ≡ true
table_entry_present v = is_present_odd (bit_or (bit_or (bit_or (v2p v) 1) 2) 4) (
    bit_or_odd_left (bit_or (bit_or (v2p v) 1) 2) 4
      (bit_or_odd_left (bit_or (v2p v) 1) 2 (bit_or_odd (v2p v) 1 refl)))

-- A directory at `pgdir`, its entry for the address, and a table elsewhere
pub record HasTable (pgdir va : ℕ) (s : Kmem) : Type 0 where
  pub there : Vm.is_present (pde pgdir va s) ≡ true
  pub elsewhere : Vm.p2v (Vm.pte_addr (pde pgdir va s)) ≢ pgdir

pub two_tables :
    (x y i j : ℕ)
    → x % 4096 ≡ 0
    → y % 4096 ≡ 0
    → i < 1024
    → j < 1024
    → x ≢ y
    → (x + 4 * i + 4 ≤ y + 4 * j) ⊎ (y + 4 * j + 4 ≤ x + 4 * i)
two_tables x y i j ax ay hi hj ne = elim (dec_lt x y) [
  | yes lt ↦ inl (omega arith)
  | no ge ↦ inr (omega arith)
]

-- `uva2ka`, with what `walkpgdir` answers
abbrev to_page : Option ℕ × Kmem → Option (Option ℕ)
to_page r =
    Vm.on_found r (λ s'. none)
      (λ e s'.
        if not (Vm.is_present (Vm.word s' e)) || (bit_and (Vm.word s' e) 4 == 0)
        then some none
        else some (some (Vm.p2v (Vm.pte_addr (Vm.word s' e)))))

abbrev of_word : ℕ → Option (Option ℕ)
of_word w =
    if not (Vm.is_present w) || (bit_and w 4 == 0)
    then some none
    else some (some (Vm.p2v (Vm.pte_addr w)))

user_only :
    (t : Bool) (v : ℕ)
    → (if t then some none else some (some v)) ≡ some (if t then none else some v)
user_only true v = refl
user_only false v = refl

module _ (pgdir va pa perm : ℕ) (s : Kmem) (page : pgdir % 4096 ≡ 0) (aligned : pa % 4096 ≡ 0)
    (flags : perm < 4096) (small : pa < 2 ^ 32) (t : HasTable pgdir va s) where
  abbrev at : ℕ
  at = pte pgdir va s

  abbrev pub mapped : Kmem
  mapped = Vm.set_word at (page_entry pa perm) s

  same_pde : pde pgdir va mapped ≡ pde pgdir va s
  same_pde = word_apart s at (pgdir + 4 * Vm.pdx va) (page_entry pa perm) (
      two_tables (Vm.p2v (Vm.pte_addr (pde pgdir va s))) pgdir (Vm.ptx va) (Vm.pdx va) (omega arith)
        page (omega arith) (omega arith) t.elsewhere)

  -- The entry is found again, and gives the page to code that may use it.
  pub found_page :
      Vm.uva2ka pgdir va mapped ≡ some (if bit_and perm 4 == 0 then none else some (Vm.p2v pa))
  unfolding Vm.uva2ka
  found_page =
      ap to_page (walk_there pgdir va mapped false (ap Vm.is_present same_pde ∙ t.there))
      ∙ ap (λ w. of_word (Vm.word mapped (Vm.p2v (Vm.pte_addr w) + 4 * Vm.ptx va))) same_pde
      ∙ ap of_word (word_put s at (page_entry pa perm) (entry_small pa perm aligned flags small))
      ∙ ap
          (λ b.
            if not b || (bit_and (page_entry pa perm) 4 == 0)
            then some none
            else some (some (Vm.p2v (Vm.pte_addr (page_entry pa perm)))))
          (entry_present pa perm aligned flags)
      ∙ ap (λ b. if b then some none else some (some (Vm.p2v (Vm.pte_addr (page_entry pa perm)))))
          (entry_user pa perm aligned flags)
      ∙ ap (λ a. if bit_and perm 4 == 0 then some none else some (some (Vm.p2v a)))
          (entry_page pa perm aligned flags)
      ∙ user_only (bit_and perm 4 == 0) (Vm.p2v pa)
