-- ===== src/Jos/Walk.antt =====
-- lab-3/kern/pmap.c: what a walk of a page directory finds, and entries as words.
use Prim.Native.Nat.{bit_or}
use cs_1217_operating_system.Base.{
  ℕ, ◌+◌, ◌%◌, ◌^◌, ◌<◌, ◌≡◌, ◌≢◌, refl, ap, ◌∙◌, Bool, true, false, none, some, ◌==◌, arith, leb,
  update, update_self, Bool-cases, inl, inr,
}
use cs_1217_operating_system.Base.Bits.{bit_or_odd, bit_or_odd_left, bit_or_page}
use cs_1217_operating_system.Jos.{Phys, check_page, and_then}
use cs_1217_operating_system.Jos.Pages.{page_free, page_decref}
use cs_1217_operating_system.Jos.PageTable.{
  pdx, ptx, pgnum, page2pa, is_present, table_entry, pgdir_walk, lookup_at, page_lookup,
}

-- The entry that `page_insert` stores.
abbrev pub page_entry : ℕ → ℕ → ℕ
page_entry p perm = bit_or (bit_or (page2pa p) perm) 1

pub pgnum-page_entry : (p perm : ℕ) → p < 2 ^ 20 → perm < 4096 → pgnum (page_entry p perm) ≡ p
pgnum-page_entry p perm small low =
    bit_or_page (bit_or (page2pa p) perm) 1 (omega arith)
    ∙ bit_or_page (page2pa p) perm low
    ∙ omega arith

odd_present : (w : ℕ) → w % 2 ≡ 1 → is_present w ≡ true
odd_present w h = ground arith

pub is_present-page_entry : (p perm : ℕ) → is_present (page_entry p perm) ≡ true
is_present-page_entry p perm = odd_present _ (bit_or_odd (bit_or (page2pa p) perm) 1 refl)

pub pgnum-table_entry : (p : ℕ) → p < 2 ^ 20 → pgnum (table_entry p) ≡ p
pgnum-table_entry p small =
    bit_or_page _ 4 (omega arith)
    ∙ bit_or_page _ 2 (omega arith)
    ∙ bit_or_page (page2pa p) 1 (omega arith)
    ∙ omega arith

pub is_present-table_entry : (p : ℕ) → is_present (table_entry p) ≡ true
is_present-table_entry p =
    odd_present _ (bit_or_odd_left _ 4 (bit_or_odd_left _ 2 (bit_or_odd (page2pa p) 1 refl)))

-- Adding permissions to an entry keeps its page and that it is present.
pub pgnum-or : (w perm : ℕ) → perm < 4096 → pgnum (bit_or w perm) ≡ pgnum w
pgnum-or w perm low = bit_or_page w perm low

pub is_present-or : (w perm : ℕ) → is_present w ≡ true → is_present (bit_or w perm) ≡ true
is_present-or w perm h = odd_present _ (bit_or_odd_left w perm (ground arith))

-- The page table of `va` is page `t`.
pub record HasTable (pgdir va t : ℕ) (s : Phys) : Type 0 where
  pub present : is_present (s.memory pgdir (pdx va)) ≡ true
  pub table : pgnum (s.memory pgdir (pdx va)) ≡ t
  pub known : t < s.npages
  pub apart : pgdir ≢ t

check_known : (p : ℕ) (s : Phys) → p < s.npages → check_page p s ≡ some (p, s)
check_known p s h = let e : leb s.npages p ≡ false = ground arith in rw e refl

pub walk_present :
    (pgdir va t : ℕ) (create : Bool) (s : Phys)
    → HasTable pgdir va t s
    → pgdir_walk pgdir va create s ≡ some (some (t, ptx va), s)
unfolding pgdir_walk
walk_present pgdir va t create s h =
    let c : leb s.npages (pgnum (s.memory pgdir (pdx va))) ≡ false =
      (let e = h.table in let k = h.known in ground arith) in
    rw (h.present, c) (ap (λ x. some (some (x, ptx va), s)) h.table)

pub lookup_present :
    (pgdir va t q : ℕ) (s : Phys)
    → HasTable pgdir va t s
    → is_present (s.memory t (ptx va)) ≡ true
    → pgnum (s.memory t (ptx va)) ≡ q
    → q < s.npages
    → page_lookup pgdir va s ≡ some (some (q, (t, ptx va)), s)
unfolding page_lookup lookup_at
lookup_present pgdir va t q s h p e lt =
    let c : leb s.npages (pgnum (s.memory t (ptx va))) ≡ false = ground arith in
    ap (λ r. and_then r lookup_at) (walk_present pgdir va t false s h)
    ∙ rw (p, c) (ap (λ x. some (some (x, (t, ptx va)), s)) e)

pub lookup_absent :
    (pgdir va t : ℕ) (s : Phys)
    → HasTable pgdir va t s
    → is_present (s.memory t (ptx va)) ≡ false
    → page_lookup pgdir va s ≡ some (none, s)
unfolding page_lookup lookup_at
lookup_absent pgdir va t s h p =
    ap (λ r. and_then r lookup_at) (walk_present pgdir va t false s h) ∙ rw p refl

abbrev dropped : ℕ → Phys → Phys
dropped q s = record s { ref = update s.ref q ((s.ref q + 65535) % 65536) }

free_unreferenced :
    (q : ℕ) (s : Phys)
    → s.ref q ≡ 0
    → s.link q ≡ none
    → page_free q s ≡ some (tt, record s { link = update s.link q s.free_list; free_list = some q })
unfolding page_free
free_unreferenced q s z out = let e : (s.ref q == 0) ≡ true = ground arith in rw (e, out) refl

-- Dropping one of the references to a page that is not free.
pub page_decref_lem :
    (q : ℕ) (s : Phys)
    → 0 < s.ref q
    → s.ref q < 65536
    → s.link q ≡ none
    → (s' : Phys) × (page_decref q s ≡ some (tt, s'))
      × (s'.ref q + 1 ≡ s.ref q)
      × (s'.memory ≡ s.memory)
      × (s'.npages ≡ s.npages)
unfolding page_decref
page_decref_lem q s some_ fits out =
    let count : (dropped q s).ref q + 1 ≡ s.ref q =
      ap (λ n. n + 1) (update_self s.ref q ((s.ref q + 65535) % 65536)) ∙ omega arith in
    elim (Bool-cases ((s.ref q + 65535) % 65536 == 0)) [
      | inl last ↦
          let zero_ : (dropped q s).ref q ≡ 0 =
            update_self s.ref q ((s.ref q + 65535) % 65536) ∙ ground arith in
          (
            record (dropped q s) { link = update s.link q s.free_list; free_list = some q },
            rw last (free_unreferenced q (dropped q s) zero_ out),
            count,
            refl,
            refl,
          )
      | inr more ↦ (dropped q s, rw more refl, count, refl, refl)
    ]
