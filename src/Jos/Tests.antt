-- ===== src/Jos/Tests.antt =====
-- lab-3/kern/pmap.c: a machine of eight pages. Page 2 is a page directory, page 3 its first page table, page 4 is
-- mapped at address 0, and the pages 5 and 6 are free.
use cs_1217_operating_system.Base.{
  ℕ, ◌+◌, ◌*◌, ◌<◌, ◌≡◌, ◌↔◌, refl, true, ◌&&◌, ◌||◌, none, some, List, [], ◌∷◌, arith, ◌==◌,
  if◌then◌else◌, Member, inl, inr,
}
use cs_1217_operating_system.Jos.{Phys}
use cs_1217_operating_system.Jos.Pages.{page_alloc}
use cs_1217_operating_system.Jos.FreeList.{nil, cons, IsFree, AllocEnsures, page_alloc_lem}
use cs_1217_operating_system.Jos.Boot.{BootEnsures, boot_alloc, boot_alloc_lem, page_init}
use cs_1217_operating_system.Jos.Init.{IsFreeAtStart, page_init_lem, kernel_end}
use cs_1217_operating_system.Jos.PageTable.{page_remove, page_lookup, page_insert}
use cs_1217_operating_system.Jos.Walk.{HasTable}
use cs_1217_operating_system.Jos.Mapping.{IsMapped, page_remove_lem, InsertEnsures, page_insert_lem}

abbrev machine : Phys
machine = record {
  npages = 8;
  ref = λ p. if (p == 5) || (p == 6) then 0 else 1;
  link = λ p. if p == 5 then some 6 else none;
  free_list = some 5;
  memory = λ p i.
      if (p == 2) && (i == 0)
      then 3 * 4096 + 7
      else if (p == 3) && (i == 0)
      then 4 * 4096 + 3
      else 0;
}

five_first : ¬ Member {A = ℕ} 5 (6 ∷ [])
five_first m = elim m [ inl e ↦ omega (arith, e) | inr x ↦ x ]

machine-IsFree : IsFree machine (5 ∷ 6 ∷ [])
machine-IsFree = record {
  chain = cons five_first (cons (λ x. x) nil);
  known = ((omega arith, refl), ((omega arith, refl), tt));
}

in_use : (p : ℕ) → p < 5 → ¬ Member p (5 ∷ 6 ∷ [])
in_use p h m = elim m [
  | inl e ↦ omega (arith, e)
  | inr x ↦ elim x [ inl e ↦ omega (arith, e) | inr y ↦ y ]
]

machine-IsMapped : IsMapped 2 0 3 4 machine
machine-IsMapped = record {
  table = record {
    present = refl;
    table = refl;
    known = omega arith;
    apart = λ e. omega (arith, e);
  };
  entry = refl;
  page = refl;
  known = omega arith;
  used = omega arith;
  counted = omega arith;
  unlinked = refl;
}

page_alloc_lem_example : AllocEnsures true machine (5 ∷ 6 ∷ []) (page_alloc true machine)
page_alloc_lem_example = page_alloc_lem true machine (5 ∷ 6 ∷ []) machine-IsFree

-- Page 3 with its last reference gone.
abbrev dropped : Phys
dropped = record machine { ref = λ p. if p == 4 then 1 else 0 }

dropped-IsFree : IsFree dropped (5 ∷ 6 ∷ [])
dropped-IsFree = record {
  chain = cons five_first (cons (λ x. x) nil);
  known = ((omega arith, refl), ((omega arith, refl), tt));
}

page_remove-machine :
    (s' : Phys) × (page_remove 2 0 machine ≡ some (tt, s'))
    × (s'.ref 4 + 1 ≡ 1)
    × (page_lookup 2 0 s' ≡ some (none, s'))
    × HasTable 2 0 3 s'
    × (s'.npages ≡ 8)
page_remove-machine = page_remove_lem 2 0 3 4 machine machine-IsMapped

-- At an address that has no page table yet.
page_insert_lem_example :
    InsertEnsures 2 4 8388608 (5 ∷ 6 ∷ []) machine (page_insert 2 4 8388608 6 machine)
page_insert_lem_example =
    page_insert_lem 2 4 8388608 6 machine (5 ∷ 6 ∷ []) machine-IsFree (in_use 2 (omega arith))
      (inr refl) (omega arith) (omega arith) (omega arith)

boot_alloc_lem_example : BootEnsures 8 5000 4026535936 (boot_alloc 4026531841 8 5000 0)
boot_alloc_lem_example =
    boot_alloc_lem 4026531841 8 5000 0 4026535936 (omega arith) (omega arith)
      (inl (refl, omega arith, refl, omega arith))

abbrev zeroed : Phys
zeroed = record {
  npages = 300;
  ref = λ _. 0;
  link = λ _. none;
  free_list = none;
  memory = λ _ _. 0;
}

page_init_lem_example :
    (ps : List ℕ) × IsFree (page_init 160 4027580416 zeroed) ps
    × ((q : ℕ) → Member q ps ↔ ((q < 300) × IsFreeAtStart 160 (kernel_end 4027580416) q))
    × ((q : ℕ) → q < 300 → ¬ Member q ps → (page_init 160 4027580416 zeroed).ref q ≡ 1)
page_init_lem_example = page_init_lem 160 4027580416 zeroed (omega arith) refl
