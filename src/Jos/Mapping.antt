-- ===== src/Jos/Mapping.antt =====
-- lab-3/kern/pmap.c: what is found at an address after `page_insert` and `page_remove`.
use Prim.Native.Nat.{bit_or}
use cs_1217_operating_system.Base.{
  ℕ, ◌+◌, ◌%◌, ◌^◌, ◌≤◌, ◌<◌, ◌≡◌, ◌≢◌, ◌⊎◌, refl, sym, ap, subst, ◌∙◌, true, false, Option, none,
  some, List, [], arith, leb, update, update_self, update_ne, inl, inr, Member,
}
use cs_1217_operating_system.Base.Int.{ℤ, pos, negsuc}
use cs_1217_operating_system.Jos.{Phys, and_then, write}
use cs_1217_operating_system.Jos.Pages.{page_alloc}
use cs_1217_operating_system.Jos.PageTable.{
  pdx, ptx, pgnum, is_present, table_entry, pgdir_walk, page_lookup, remove_found, page_remove,
  insert_at, page_insert, new_table,
}
use cs_1217_operating_system.Jos.FreeList.{IsFree, page_alloc_lem, AllocEnsures}
use cs_1217_operating_system.Jos.Walk.{
  HasTable, page_entry, pgnum-page_entry, is_present-page_entry, pgnum-table_entry,
  is_present-table_entry, pgnum-or, is_present-or, walk_present, lookup_present, lookup_absent,
  page_decref_lem,
}

-- Page `q` is mapped at `va`, by an entry of page table `t`, and can be unmapped: it is a page in use.
pub record IsMapped (pgdir va t q : ℕ) (s : Phys) : Type 0 where
  pub table : HasTable pgdir va t s
  pub entry : is_present (s.memory t (ptx va)) ≡ true
  pub page : pgnum (s.memory t (ptx va)) ≡ q
  pub known : q < s.npages
  pub used : 0 < s.ref q
  pub counted : s.ref q < 65536
  pub unlinked : s.link q ≡ none

-- A store to a page table leaves the directory alone.
store-HasTable :
    (pgdir va t i w : ℕ) (s : Phys)
    → HasTable pgdir va t s
    → HasTable pgdir va t (record s { memory = update s.memory t (update (s.memory t) i w) })
store-HasTable pgdir va t i w s h =
    let same : update s.memory t (update (s.memory t) i w) pgdir ≡ s.memory pgdir =
      update_ne s.memory t pgdir _ (λ e. h.apart (sym e)) in
    record {
      present = ap (λ (f : ℕ → ℕ). is_present (f (pdx va))) same ∙ h.present;
      table = ap (λ (f : ℕ → ℕ). pgnum (f (pdx va))) same ∙ h.table;
      known = h.known;
      apart = h.apart;
    }

-- Only memory and the number of pages matter for a table.
moved-HasTable :
    (pgdir va t : ℕ) (s s' : Phys)
    → s'.memory ≡ s.memory
    → s'.npages ≡ s.npages
    → HasTable pgdir va t s
    → HasTable pgdir va t s'
moved-HasTable pgdir va t s s' m n h = record {
  present = ap (λ (f : ℕ → ℕ → ℕ). is_present (f pgdir (pdx va))) m ∙ h.present;
  table = ap (λ (f : ℕ → ℕ → ℕ). pgnum (f pgdir (pdx va))) m ∙ h.table;
  known = subst (λ k. t < k) (sym n) h.known;
  apart = h.apart;
}

-- `page_remove` of a mapped page succeeds, takes away one reference to that page and leaves nothing mapped at
-- the address.
pub page_remove_lem :
    (pgdir va t q : ℕ) (s : Phys)
    → IsMapped pgdir va t q s
    → (s' : Phys) × (page_remove pgdir va s ≡ some (tt, s'))
      × (s'.ref q + 1 ≡ s.ref q)
      × (page_lookup pgdir va s' ≡ some (none, s'))
      × HasTable pgdir va t s'
      × (s'.npages ≡ s.npages)
unfolding page_remove remove_found
page_remove_lem pgdir va t q s m =
    let (s1, run, count, mem, n) = page_decref_lem q s m.used m.counted m.unlinked in
    let table1 = moved-HasTable pgdir va t s s1 mem n m.table in
    let s2 : Phys = record s1 { memory = update s1.memory t (update (s1.memory t) (ptx va) 0) } in
    let table2 = store-HasTable pgdir va t (ptx va) 0 s1 table1 in
    let word : s2.memory t (ptx va) ≡ 0 =
      ap (λ (f : ℕ → ℕ). f (ptx va)) (update_self s1.memory t _)
      ∙ update_self (s1.memory t) (ptx va) 0 in
    (
      s2,
      ap (λ r. and_then r remove_found)
            (lookup_present pgdir va t q s m.table m.entry m.page m.known)
          ∙ ap (λ r. and_then r (λ _. write t (ptx va) 0)) run,
      count,
      lookup_absent pgdir va t s2 table2 (ap is_present word),
      table2,
      n,
    )

module _ (pgdir va t p perm : ℕ) where
  abbrev stored : Phys → Phys
  stored s = record s {
    memory = update s.memory t (update (s.memory t) (ptx va) (page_entry p perm));
  }

  abbrev entered : Phys → Phys
  entered s = record (stored s) {
    memory = update (stored s).memory pgdir (
        update ((stored s).memory pgdir) (pdx va) (bit_or ((stored s).memory pgdir (pdx va)) perm));
  }

  -- Once the entry is stored and the directory has the permissions, the page is found.
  lookup_entered :
      (s : Phys)
      → HasTable pgdir va t s
      → p < s.npages
      → s.npages ≤ 2 ^ 20
      → perm < 4096
      → page_lookup pgdir va (entered s) ≡ some (some (p, (t, ptx va)), entered s)
  lookup_entered s h lt small low =
      let h1 = store-HasTable pgdir va t (ptx va) (page_entry p perm) s h in
      let pde : (entered s).memory pgdir (pdx va) ≡ bit_or ((stored s).memory pgdir (pdx va)) perm =
        ap (λ (f : ℕ → ℕ). f (pdx va)) (update_self (stored s).memory pgdir _)
        ∙ update_self ((stored s).memory pgdir) (pdx va) _ in
      let word : (entered s).memory t (ptx va) ≡ page_entry p perm =
        ap (λ (f : ℕ → ℕ). f (ptx va))
          (update_ne (stored s).memory pgdir t _ h.apart ∙ update_self s.memory t _)
        ∙ update_self (s.memory t) (ptx va) _ in
      lookup_present pgdir va t p (entered s)
        (record {
          present = ap is_present pde ∙ is_present-or _ perm h1.present;
          table = ap pgnum pde ∙ pgnum-or _ perm low ∙ h1.table;
          known = h.known;
          apart = h.apart;
        })
        (ap is_present word ∙ is_present-page_entry p perm)
        (ap pgnum word ∙ pgnum-page_entry p perm (omega arith) low) lt

  -- What is at the address can be replaced.
  abbrev pub CanReplace : Phys → Type 0
  CanReplace s =
      (is_present (s.memory t (ptx va)) ≡ false)
      ⊎ ((q : ℕ) × IsMapped pgdir va t q s × (s.ref q < 65535))

  abbrev counted_in : Phys → Phys
  counted_in s = record s { ref = update s.ref p ((s.ref p + 1) % 65536) }

  counted_in-IsMapped :
      (q : ℕ) (s : Phys)
      → IsMapped pgdir va t q s
      → s.ref q < 65535
      → IsMapped pgdir va t q (counted_in s)
  counted_in-IsMapped q s m room = record {
    table = moved-HasTable pgdir va t s (counted_in s) refl refl m.table;
    entry = m.entry;
    page = m.page;
    known = m.known;
    used = (let u = m.used in ground arith);
    counted = (let u = m.used in ground arith);
    unlinked = m.unlinked;
  }

  insert_at_lem :
      (s : Phys)
      → HasTable pgdir va t s
      → CanReplace s
      → p < s.npages
      → s.npages ≤ 2 ^ 20
      → perm < 4096
      → (s' : Phys) × (insert_at pgdir p va perm (some (t, ptx va)) s ≡ some (pos 0, s'))
        × (page_lookup pgdir va s' ≡ some (some (p, (t, ptx va)), s'))
  unfolding insert_at
  insert_at_lem s h (inl absent) lt small low = (
    entered (counted_in s),
    rw absent refl,
    lookup_entered (counted_in s) (moved-HasTable pgdir va t s (counted_in s) refl refl h) lt small
        low,
  )
  insert_at_lem s h (inr (q, m, room)) lt small low =
      let (s1, run, _, _, h1, n) =
        page_remove_lem pgdir va t q (counted_in s) (counted_in-IsMapped q s m room) in
      (entered s1, rw (m.entry, run) refl, lookup_entered s1 h1 (omega arith) (omega arith) low)

-- What is found at `va` when page `p` has been inserted there, or that there was no memory to do it.
abbrev pub InsertEnsures : ℕ → ℕ → ℕ → List ℕ → Phys → Option (ℤ × Phys) → Type 0
InsertEnsures pgdir p va ps s none = ⊥
InsertEnsures pgdir p va ps s (some (code, s')) =
    ((code ≡ negsuc 3) × (s' ≡ s) × (ps ≡ []) × (is_present (s.memory pgdir (pdx va)) ≡ false))
    ⊎ ((code ≡ pos 0) × ((t : ℕ) × (page_lookup pgdir va s' ≡ some (some (p, (t, ptx va)), s'))))

-- The state after a new page table is entered.
abbrev tabled : ℕ → ℕ → ℕ → Phys → Phys
tabled pgdir va n s = record s {
  ref = update s.ref n ((s.ref n + 1) % 65536);
  memory = update s.memory pgdir (update (s.memory pgdir) (pdx va) (table_entry n));
}

tabled-HasTable :
    (pgdir va n : ℕ) (s : Phys)
    → n < s.npages
    → s.npages ≤ 2 ^ 20
    → pgdir ≢ n
    → HasTable pgdir va n (tabled pgdir va n s)
tabled-HasTable pgdir va n s lt small apart =
    let pde : (tabled pgdir va n s).memory pgdir (pdx va) ≡ table_entry n =
      ap (λ (f : ℕ → ℕ). f (pdx va)) (update_self s.memory pgdir _)
      ∙ update_self (s.memory pgdir) (pdx va) _ in
    record {
      present = ap is_present pde ∙ is_present-table_entry n;
      table = ap pgnum pde ∙ pgnum-table_entry n (omega arith);
      known = lt;
      apart = apart;
    }

new_table_lem :
    (pgdir va n : ℕ) (s : Phys)
    → n < s.npages
    → s.npages ≤ 2 ^ 20
    → new_table pgdir va (some n) s ≡ some (some (n, ptx va), tabled pgdir va n s)
unfolding new_table
new_table_lem pgdir va n s lt small =
    let e = pgnum-table_entry n (omega arith) in
    let c : leb s.npages (pgnum (table_entry n)) ≡ false = ground arith in
    rw c (ap (λ x. some (some (x, ptx va), tabled pgdir va n s)) e)

-- `page_insert` of a page of the machine, with permissions that leave the address bits alone, either maps the
-- page at the address, where `page_lookup` then finds it, or answers -E_NO_MEM and changes nothing, when the
-- address has no page table and no page is free; it does not panic. The directory is not among the free
-- pages, and what was mapped at the address, if anything, can be unmapped.
pub page_insert_lem :
    (pgdir p va perm : ℕ) (s : Phys) (ps : List ℕ)
    → IsFree s ps
    → ¬ Member pgdir ps
    → ((t : ℕ) × HasTable pgdir va t s × CanReplace pgdir va t p perm s)
      ⊎ (is_present (s.memory pgdir (pdx va)) ≡ false)
    → p < s.npages
    → s.npages ≤ 2 ^ 20
    → perm < 4096
    → InsertEnsures pgdir p va ps s (page_insert pgdir p va perm s)
unfolding page_insert pgdir_walk new_table insert_at
page_insert_lem pgdir p va perm s ps free out (inl (t, h, replace)) lt small low =
    let (s', run, found) = insert_at_lem pgdir va t p perm s h replace lt small low in
    subst (InsertEnsures pgdir p va ps s)
      (sym
        (ap (λ r. and_then r (insert_at pgdir p va perm)) (walk_present pgdir va t true s h) ∙ run))
      (inr (refl, (t, found)))
page_insert_lem pgdir p va perm s ps free out (inr absent) lt small low =
    rw absent (after (page_alloc true s) (page_alloc_lem true s ps free))
  where
    after :
        (r : Option (Option ℕ × Phys))
        → AllocEnsures true s ps r
        → InsertEnsures pgdir p va ps s
            (and_then (and_then r (new_table pgdir va)) (insert_at pgdir p va perm))
    after none e = absurd e
    after (some (none, s1)) (empty, same) = inl (refl, same, empty, absent)
    after (some (some n, s1)) ((qs, split, f1), known, count, refs, unlinked, zeroed, others) =
        let apart : pgdir ≢ n = λ e. out (subst (Member pgdir) (sym split) (inl e)) in
        let s2 = tabled pgdir va n s1 in
        let small1 : s1.npages ≤ 2 ^ 20 = omega arith in
        let word : s2.memory n (ptx va) ≡ 0 =
          ap (λ (f : ℕ → ℕ). f (ptx va)) (update_ne s1.memory pgdir n _ apart) ∙ zeroed (ptx va) in
        let (s', run, found) =
          insert_at_lem pgdir va n p perm s2 (tabled-HasTable pgdir va n s1 known small1 apart)
            (inl (ap is_present word)) (omega arith) small1 low in
        subst (InsertEnsures pgdir p va ps s)
          (sym (
            ap (λ r. and_then r (insert_at pgdir p va perm))
              (new_table_lem pgdir va n s1 known small1)
            ∙ run))
          (inr (refl, (n, found)))
