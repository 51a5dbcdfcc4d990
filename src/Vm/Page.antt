-- ===== src/Vm/Page.antt =====
-- assignment-3/vm.c: `mappages` of a page, and `uva2ka` behind it.
use cs_1217_operating_system.Base.{
  ℕ, ◌+◌, ◌-◌, ◌*◌, ◌/◌, ◌%◌, ◌^◌, ◌≡◌, ◌≢◌, ◌<◌, ◌≤◌, ◌⊎◌, refl, sym, ap, subst, ◌∙◌, Bool, true,
  false, Option, none, some, List, [], ◌∷◌, ◌==◌, if◌then◌else◌, Bool-cases, inl, inr, arith,
}
use Prim.Native.Nat.{bit_or, bit_and}
use mathlib.Core.Bool.{true≢false}
use cs_1217_operating_system.Memory.{Mem, memset, memset_lem}
use cs_1217_operating_system.Kalloc.{Kmem, kern_base, v2p, kalloc}
use cs_1217_operating_system.Vm
use cs_1217_operating_system.Vm.Mapped.{
  pde, pte, HasTable, page_entry, found_page, walk_there, word_put, word_apart, table_entry_page,
  table_entry_small, table_entry_present, two_tables,
}

-- What `walkpgdir` answers when it may allocate a table: nothing, when there is no table and no free page, or an
-- entry in a table elsewhere, which is empty when the table is new
abbrev Walked : ℕ → ℕ → Kmem → Option ℕ × Kmem → Type 0
Walked pgdir va s (none, s') =
    (s' ≡ s) × (Vm.is_present (pde pgdir va s) ≡ false) × (s.freelist ≡ [])
Walked pgdir va s (some e, s') =
    (e ≡ pte pgdir va s')
    × HasTable pgdir va s'
    × (Vm.is_present (Vm.word s' e) ≡ true → (Vm.is_present (pde pgdir va s) ≡ true) × (s' ≡ s))

-- The page that `kalloc` would give out is a page apart from the directory, and so is the table for the address, if any.
pub record IsRoomy (pgdir va : ℕ) (s : Kmem) : Type 0 where
  pub table : Vm.is_present (pde pgdir va s) ≡ true → Vm.p2v (Vm.pte_addr (pde pgdir va s)) ≢ pgdir
  pub free :
      (v : ℕ) (rest : List ℕ)
      → s.freelist ≡ v ∷ rest
      → (v % 4096 ≡ 0) × (kern_base ≤ v) × (v < 2 ^ 32) × (v ≢ pgdir)

-- A word of a page that has been cleared
cleared : (s : Kmem) (v i : ℕ) → i < 1024 → Vm.word (Vm.zero_page v s) (v + 4 * i) ≡ 0
cleared s v i small =
    let m : Mem = memset s.memory v 0 4096 in
    let a : ℕ = v + 4 * i in
    let b0 : m a ≡ 0 = ground (arith, memset_lem s.memory v 0 4096 a) in
    let b1 : m (a + 1) ≡ 0 = ground (arith, memset_lem s.memory v 0 4096 (a + 1)) in
    let b2 : m (a + 2) ≡ 0 = ground (arith, memset_lem s.memory v 0 4096 (a + 2)) in
    let b3 : m (a + 3) ≡ 0 = ground (arith, memset_lem s.memory v 0 4096 (a + 3)) in
    omega (arith, b0, b1, b2, b3)

module _ (pgdir va : ℕ) (s : Kmem) (page : pgdir % 4096 ≡ 0) (roomy : IsRoomy pgdir va s) where
  abbrev at : ℕ
  at = pgdir + 4 * Vm.pdx va

  abbrev link : ℕ → ℕ
  link v = bit_or (bit_or (bit_or (v2p v) 1) 2) 4

  -- With a new table in the page `v`
  new-Walked :
      (v : ℕ) (rest : List ℕ)
      → s.freelist ≡ v ∷ rest
      → Walked pgdir va s (Vm.new_table at va (some v, record s { freelist = rest }))
  unfolding Vm.new_table
  new-Walked v rest e =
      let (aligned, lo, hi, ne) = roomy.free v rest e in
      let s0 : Kmem = Vm.zero_page v (record s { freelist = rest }) in
      let s1 : Kmem = Vm.set_word at (link v) s0 in
      let back = table_entry_page v aligned lo hi in
      let entry_ : pde pgdir va s1 ≡ link v =
        word_put s0 at (link v) (table_entry_small v aligned) in
      let table : Vm.p2v (Vm.pte_addr (pde pgdir va s1)) ≡ v =
        ap (λ w. Vm.p2v (Vm.pte_addr w)) entry_ ∙ back in
      let empty : Vm.word s1 (v + 4 * Vm.ptx va) ≡ 0 =
        word_apart s0 at (v + 4 * Vm.ptx va) (link v) (
          two_tables pgdir v (Vm.pdx va) (Vm.ptx va) page aligned (omega arith) (omega arith)
            (λ z. ne (sym z)))
        ∙ cleared (record s { freelist = rest }) v (Vm.ptx va) (omega arith) in
      (
        ap (λ x. x + 4 * Vm.ptx va) (sym table),
        record {
          there = ap Vm.is_present entry_ ∙ table_entry_present v;
          elsewhere = λ z. ne (sym table ∙ z);
        },
        λ p. absurd (true≢false (sym p ∙ ap Vm.is_present empty)),
      )

-- `kalloc`, with the list of free pages
abbrev given : Kmem → List ℕ → Option ℕ × Kmem
given s [] = (none, s)
given s (v ∷ rest) = (some v, record s { freelist = rest })

module _ (pgdir va : ℕ) (s : Kmem) (page : pgdir % 4096 ≡ 0) (roomy : IsRoomy pgdir va s) where
  abbrev place : ℕ
  place = pgdir + 4 * Vm.pdx va

  walk_new :
      Vm.is_present (pde pgdir va s) ≡ false
      → Vm.walkpgdir pgdir va true s ≡ Vm.new_table place va (kalloc s)
  unfolding Vm.walkpgdir
  walk_new f =
      ap (λ t. if t then (some (pte pgdir va s), s) else Vm.new_table place va (kalloc s)) f

  kalloc-given : kalloc s ≡ given s s.freelist
  unfolding kalloc
  kalloc-given = from_list s.freelist
    where
      from_list :
          (l : List ℕ)
          → (elim l [ [] ↦ (none, s) | v ∷ rest ↦ (some v, record s { freelist = rest }) ])
            ≡ given s l
      from_list [] = refl
      from_list (v ∷ rest) = refl

  Walked-given :
      Vm.is_present (pde pgdir va s) ≡ false
      → (l : List ℕ) → s.freelist ≡ l
      → Walked pgdir va s (Vm.new_table place va (given s l))
  unfolding Vm.new_table
  Walked-given f [] e = (refl, f, e)
  Walked-given f (v ∷ rest) e = new-Walked pgdir va s page roomy v rest e

  walked_lem : Walked pgdir va s (Vm.walkpgdir pgdir va true s)
  walked_lem = elim (Bool-cases (Vm.is_present (pde pgdir va s))) [
    | inl t ↦
        subst (Walked pgdir va s) (sym (walk_there pgdir va s true t))
          (refl, record { there = t; elsewhere = roomy.table t }, λ p. (t, refl))
    | inr f ↦
        subst (Walked pgdir va s) (sym (walk_new f ∙ ap (Vm.new_table place va) kalloc-given))
          (Walked-given f s.freelist refl)
  ]

-- What `mappages` of one page comes to
abbrev pub MapEnsures : (pgdir va pa perm : ℕ) → Kmem → Option (Bool × Kmem) → Type 0
MapEnsures pgdir va pa perm s r =
    ((r ≡ some (false, s)) × (Vm.is_present (pde pgdir va s) ≡ false) × (s.freelist ≡ []))
    ⊎ (((r ≡ none)
          × (Vm.is_present (pde pgdir va s) ≡ true)
          × (Vm.is_present (Vm.word s (pte pgdir va s)) ≡ true))
        ⊎ ((s' : Kmem) × (r ≡ some (true, s'))
            × (Vm.uva2ka pgdir va s'
                ≡ some (if bit_and perm 4 == 0 then none else some (Vm.p2v pa)))))

abbrev mapping : ℕ → ℕ → Option ℕ × Kmem → Option (Bool × Kmem)
mapping pa perm r =
    Vm.on_found r (λ s'. some (false, s'))
      (λ e s'.
        if Vm.is_present (Vm.word s' e)
        then none
        else some (true, Vm.set_word e (page_entry pa perm) s'))

module _ (pgdir va pa perm : ℕ) (s : Kmem) (page : pgdir % 4096 ≡ 0) (aligned : pa % 4096 ≡ 0)
    (flags : perm < 4096) (small : pa < 2 ^ 32) where
  from_walk :
      (r : Option ℕ × Kmem)
      → Walked pgdir va s r
      → MapEnsures pgdir va pa perm s (mapping pa perm r)
  from_walk (none, s') (e, f, empty) = inl (ap (λ x. some (false, x)) e, f, empty)
  from_walk (some e, s') (place_, t, full) = elim (Bool-cases (Vm.is_present (Vm.word s' e))) [
    | inl p ↦
        let (there, same) = full p in
        let here : e ≡ pte pgdir va s = place_ ∙ ap (pte pgdir va) same in
        inr (
          inl (
            ap (λ b. if b then none else some (true, Vm.set_word e (page_entry pa perm) s')) p,
            there,
            sym (ap Vm.is_present (ap (λ (x : Kmem). Vm.word x e) same ∙ ap (Vm.word s) here)) ∙ p,
          ))
    | inr n ↦ inr (
        inr (
          Vm.set_word (pte pgdir va s') (page_entry pa perm) s',
          ap (λ b. if b then none else some (true, Vm.set_word e (page_entry pa perm) s')) n
              ∙ ap (λ x. some (true, Vm.set_word x (page_entry pa perm) s')) place_,
          found_page pgdir va pa perm s' page aligned flags small t,
        ))
  ]

  -- For an aligned directory and page, and free pages apart from the directory, `mappages` of one page is -1 and changes
  -- nothing when there is no page table and no free page; it panics only when the address is mapped already; else
  -- `uva2ka` then answers the page, or nothing when the permissions leave out the user.
  pub uva2ka-mappages :
      IsRoomy pgdir va s
      → va % 4096 ≡ 0
      → va < 2 ^ 32
      → MapEnsures pgdir va pa perm s (Vm.mappages pgdir va 4096 pa perm s)
  unfolding Vm.mappages Vm.map_from
  uva2ka-mappages roomy start low =
      let one : (Vm.round_down ((va + 4096 + (2 ^ 32 - 1)) % 2 ^ 32) + 2 ^ 32 - Vm.round_down va)
            % 2 ^ 32
            / 4096
          ≡ 0 =
        omega arith in
      let first : Vm.round_down va ≡ va = omega arith in
      subst (MapEnsures pgdir va pa perm s)
        (sym (
          ap (λ k. Vm.map_from pgdir k (Vm.round_down va) pa perm s) one
          ∙ ap (λ a. mapping pa perm (Vm.walkpgdir pgdir a true s)) first))
        (from_walk (Vm.walkpgdir pgdir va true s) (walked_lem pgdir va s page roomy))
