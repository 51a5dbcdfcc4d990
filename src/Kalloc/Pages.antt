-- ===== src/Kalloc/Pages.antt =====
-- assignment-3/kalloc.c: which pages are free, and that no page is given out twice.
use cs_1217_operating_system.Base.{
  ℕ, zero, suc, ◌+◌, ◌*◌, ◌/◌, ◌%◌, ◌^◌, ◌≤◌, ◌<◌, ◌≡◌, ◌≢◌, ◌∙◌, ◌⊎◌, ◌↔◌, refl, sym, subst, Bool,
  true, false, ◌||◌, not, Option, none, some, List, [], ◌∷◌, ltb, leb, ◌==◌, if◌then◌else◌,
  Bool-cases, All, Member, arith, inl, inr, ℕ_discrete, leb→le,
}
use cs_1217_operating_system.Memory.{
  Mem, memset, memset_lem, store_word, load_word, load_word-store_word, store_word_other,
}
use cs_1217_operating_system.Kalloc.{
  page_size, kern_base, phys_stop, v2p, page_round_up, head_of, Kmem, kfree, kalloc, free_from,
  freerange,
}

-- A page that can be allocated: aligned, above the kernel, and backed by physical memory.
pub record IsPage (end_ v : ℕ) : Type 0 where
  pub aligned : v % page_size ≡ 0
  pub above : end_ ≤ v
  pub mapped : kern_base ≤ v
  pub backed : v < kern_base + phys_stop

abbrev pub Distinct : List ℕ → Type 0
Distinct [] = Unit
Distinct (v ∷ vs) = ¬ Member v vs × Distinct vs

-- The first word of each page points to the next one.
abbrev pub Linked : Mem → List ℕ → Type 0
Linked m [] = Unit
Linked m (v ∷ vs) = (load_word m v ≡ head_of vs) × Linked m vs

-- The free pages are pages, none is on the list twice, and they are linked.
pub record IsKmem (end_ : ℕ) (s : Kmem) : Type 0 where
  pub pages : All (IsPage end_) s.freelist
  pub distinct : Distinct s.freelist
  pub linked : Linked s.memory s.freelist

-- What `kalloc` promises of its answer.
abbrev pub AllocEnsures : ℕ → Kmem → Option ℕ → Kmem → Type 0
AllocEnsures end_ s none s' = (s.freelist ≡ []) × (s' ≡ s)
AllocEnsures end_ s (some v) s' =
    IsPage end_ v × (¬ Member v s'.freelist) × (s.freelist ≡ v ∷ s'.freelist) × IsKmem end_ s'

alloc_from :
    (end_ : ℕ) (l : Bool) (vs : List ℕ) (m : Mem) (s : Kmem)
    → s ≡ record { use_lock = l; freelist = vs; memory = m }
    → IsKmem end_ (record { use_lock = l; freelist = vs; memory = m })
    → AllocEnsures end_
        (record { use_lock = l; freelist = vs; memory = m })
        (kalloc (record { use_lock = l; freelist = vs; memory = m })).0
        (kalloc (record { use_lock = l; freelist = vs; memory = m })).1
unfolding kalloc
alloc_from end_ l [] m s e h = (refl, refl)
alloc_from end_ l (v ∷ vs) m s e h = (
  h.pages.0,
  h.distinct.0,
  refl,
  record { pages = h.pages.1; distinct = h.distinct.1; linked = h.linked.1 },
)

-- `kalloc` answers the null pointer when no page is free, and else a page that was free and, from
-- then on, is not.
pub kalloc_lem :
    (end_ : ℕ) (s : Kmem) → IsKmem end_ s → AllocEnsures end_ s (kalloc s).0 (kalloc s).1
kalloc_lem end_ s h = alloc_from end_ s.use_lock s.freelist s.memory s refl h

-- What `kfree` promises of its answer.
abbrev pub FreeEnsures : ℕ → ℕ → Kmem → Option Kmem → Type 0
FreeEnsures end_ v s none = ¬ IsPage end_ v
FreeEnsures end_ v s (some s') =
    IsPage end_ v
    × IsKmem end_ s'
    × (kalloc s' ≡ (some v, record s { memory = s'.memory }))
    × (load_word s'.memory v ≡ head_of s.freelist)
    × ((a : ℕ) → v + 4 ≤ a → a < v + page_size → s'.memory a ≡ 1)
    × ((a : ℕ) → (a < v) ⊎ (v + page_size ≤ a) → s'.memory a ≡ s.memory a)

unfoldable refuses : ℕ → ℕ → Bool
refuses end_ v = not (v % page_size == 0) || ltb v end_ || leb phys_stop (v2p v)

refuses-IsPage : (end_ v : ℕ) → refuses end_ v ≡ true → ¬ IsPage end_ v
unfolding refuses
refuses-IsPage end_ v h page =
    let a = page.aligned in
    let b = page.above in let c = page.mapped in let d = page.backed in ground arith

accepts-IsPage : (end_ v : ℕ) → v < 2 ^ 32 → refuses end_ v ≡ false → IsPage end_ v
unfolding refuses
accepts-IsPage end_ v lt h = record {
  aligned = ground arith;
  above = ground arith;
  mapped = ground arith;
  backed = ground arith;
}

head_small : (end_ : ℕ) (vs : List ℕ) → All (IsPage end_) vs → head_of vs < 2 ^ 32
head_small end_ [] h = omega arith
head_small end_ (v ∷ vs) h = let b = h.0.backed in omega arith

-- Memory after a `kfree` of the page `v` with `w` as the head of the list.
abbrev linked_in : Mem → ℕ → ℕ → Mem
linked_in m v w = store_word (memset m v 1 page_size) v w

linked_in-inside : (m : Mem) (v w a : ℕ) → v + 4 ≤ a → a < v + page_size → linked_in m v w a ≡ 1
linked_in-inside m v w a lo hi =
    store_word_other (memset m v 1 page_size) v w a (inr lo)
    ∙ memset_lem m v 1 page_size a
    ∙ ground arith

linked_in-outside : (m : Mem) (v w a : ℕ) → (a < v) ⊎ (v + page_size ≤ a) → linked_in m v w a ≡ m a
linked_in-outside m v w a far =
    store_word_other (memset m v 1 page_size) v w a (ground arith)
    ∙ memset_lem m v 1 page_size a
    ∙ ground arith

apart :
    (v u : ℕ) → v % page_size ≡ 0 → u % page_size ≡ 0 → u ≢ v → (u + 4 ≤ v) ⊎ (v + page_size ≤ u)
apart v u hv hu ne = ground arith

linked_in-word :
    (m : Mem) (v w u : ℕ)
    → (u + 4 ≤ v) ⊎ (v + page_size ≤ u)
    → load_word (linked_in m v w) u ≡ load_word m u
linked_in-word m v w u far =
    let a = linked_in-outside m v w u (ground arith) in
    let b = linked_in-outside m v w (u + 1) (ground arith) in
    let c = linked_in-outside m v w (u + 2) (ground arith) in
    let d = linked_in-outside m v w (u + 3) (ground arith) in omega (arith, a, b, c, d)

-- The links of the other pages stay.
linked_in-Linked :
    (end_ v w : ℕ) (m : Mem) (us : List ℕ)
    → v % page_size ≡ 0
    → All (IsPage end_) us
    → ¬ Member v us
    → Linked m us
    → Linked (linked_in m v w) us
linked_in-Linked end_ v w m [] al pages out h = tt
linked_in-Linked end_ v w m (u ∷ us) al pages out h = (
  linked_in-word m v w u (apart v u al pages.0.aligned (λ e. out (inl (sym e)))) ∙ h.0,
  linked_in-Linked end_ v w m us al pages.1 (λ x. out (inr x)) h.1,
)

-- `kfree` panics exactly when its argument is not a page. Of a page in use it makes a free one, which `kalloc` answers
-- next: the list stays one of pages without duplicates, each of which points to the next, the page points to the one
-- that was first, the rest of it is filled with ones, and no other memory changes.
pub kfree_lem :
    (end_ v : ℕ) (s : Kmem)
    → v < 2 ^ 32
    → IsKmem end_ s
    → ¬ Member v s.freelist
    → FreeEnsures end_ v s (kfree end_ v s)
unfolding kfree refuses kalloc
kfree_lem end_ v s lt h fresh = elim (Bool-cases (refuses end_ v)) [
  | inl bad ↦ rw bad (refuses-IsPage end_ v bad)
  | inr good ↦
      let page = accepts-IsPage end_ v lt good in
      let w = head_of s.freelist in
      let here =
        load_word-store_word (memset s.memory v 1 page_size) v w
          (head_small end_ s.freelist h.pages) in
      rw good (
        page,
        record {
          pages = (page, h.pages);
          distinct = (fresh, h.distinct);
          linked = (
            here,
            linked_in-Linked end_ v w s.memory s.freelist page.aligned h.pages fresh h.linked,
          );
        },
        refl,
        here,
        λ a. linked_in-inside s.memory v w a,
        λ a. linked_in-outside s.memory v w a,
      )
]

-- The pages that lie between two addresses.
abbrev pub InRange : ℕ → ℕ → ℕ → Type 0
InRange vstart vend v = (v % page_size ≡ 0) × (vstart ≤ v) × (v + page_size ≤ vend)

abbrev filled : ℕ → Kmem → Kmem
filled p s = record s {
  memory = store_word (memset s.memory p 1 page_size) p (head_of s.freelist);
  freelist = p ∷ s.freelist;
}

kfree_page : (end_ v : ℕ) (s : Kmem) → IsPage end_ v → kfree end_ v s ≡ some (filled v s)
unfolding kfree refuses memset
kfree_page end_ v s page = elim (Bool-cases (refuses end_ v)) [
  | inl bad ↦ absurd (refuses-IsPage end_ v bad page)
  | inr good ↦ rw (refuses, good) refl
]

-- What the free list is after a range was freed.
abbrev pub RangeEnsures : ℕ → ℕ → Kmem → Option Kmem → Type 0
RangeEnsures vstart vend s none = ⊥
RangeEnsures vstart vend s (some s') =
    (v : ℕ) → Member v s'.freelist ↔ (InRange vstart vend v ⊎ Member v s.freelist)

one_more :
    (p vend : ℕ) (mem : Mem) (s : Kmem) (o : Option Kmem)
    → p % page_size ≡ 0
    → p + page_size ≤ vend
    → RangeEnsures (p + page_size) vend (record s { memory = mem; freelist = p ∷ s.freelist }) o
    → RangeEnsures p vend s o
one_more p vend mem s none al fits h = absurd h
one_more p vend mem s (some s') al fits h = λ v. (forth v, back v)
  where
    forth : (v : ℕ) → Member v s'.freelist → InRange p vend v ⊎ Member v s.freelist
    forth v x = elim ((h v).0 x) [
      | inl (a, b, c) ↦ inl (a, omega arith, c)
      | inr (inl e) ↦ inl (omega arith, omega arith, omega arith)
      | inr (inr y) ↦ inr y
    ]

    back : (v : ℕ) → InRange p vend v ⊎ Member v s.freelist → Member v s'.freelist
    back v (inl (a, b, c)) = elim (ℕ_discrete v p) [
      | yes e ↦ (h v).1 (inr (inl e))
      | no ne ↦ (h v).1 (inl (a, omega arith, c))
    ]
    back v (inr y) = (h v).1 (inr (inr y))

stops : (p vend : ℕ) (s : Kmem) → vend < p + page_size → RangeEnsures p vend s (some s)
stops p vend s past v = (inr, λ x. elim x [ inl (a, b, c) ↦ absurd (omega arith) | inr y ↦ y ])

if_true :
    (P : Option Kmem → Type 0) (b : Bool) (x y : Option Kmem)
    → b ≡ true
    → P x
    → P (if b then x else y)
if_true P true x y h px = px
if_true P false x y h px = cc

if_false :
    (P : Option Kmem → Type 0) (b : Bool) (x y : Option Kmem)
    → b ≡ false
    → P y
    → P (if b then x else y)
if_false P true x y h py = cc
if_false P false x y h py = py

free_from_lem :
    (end_ fuel p vend : ℕ) (s : Kmem)
    → p % page_size ≡ 0
    → end_ ≤ p
    → kern_base ≤ p
    → vend ≤ kern_base + phys_stop
    → vend < p + fuel * page_size + page_size
    → RangeEnsures p vend s (free_from end_ fuel p vend s)
unfolding free_from
free_from_lem end_ zero p vend s al lo base hi enough = stops p vend s (omega arith)
free_from_lem end_ (suc fuel) p vend s al lo base hi enough =
    elim (Bool-cases (leb (p + page_size) vend)) [
      | inl fits ↦
          let le = leb→le (p + page_size) vend fits in
          let page : IsPage end_ p = record {
            aligned = al;
            above = lo;
            mapped = base;
            backed = omega arith;
          } in
          if_true (RangeEnsures p vend s) (leb (p + page_size) vend) _ _ fits (
            one_more p vend (filled p s).memory s _ al le (
              subst
                (λ o.
                  RangeEnsures (p + page_size) vend (filled p s) (elim o [
                    | none ↦ none
                    | some s' ↦ free_from end_ fuel (p + page_size) vend s'
                  ]))
                (sym (kfree_page end_ p s page))
                (free_from_lem end_ fuel (p + page_size) vend (filled p s) (omega arith)
                  (omega arith) (omega arith) hi (omega arith))))
      | inr past ↦
          if_false (RangeEnsures p vend s) (leb (p + page_size) vend) _ _ past
            (stops p vend s (ground arith))
    ]

-- `freerange` makes free exactly the whole pages that lie between its two addresses, besides the
-- pages that were free, and does not panic: it is called with addresses above the kernel and within
-- physical memory.
pub freerange_lem :
    (end_ vstart vend : ℕ) (s : Kmem)
    → end_ ≤ vstart
    → kern_base ≤ vstart
    → vstart ≤ vend
    → vend ≤ kern_base + phys_stop
    → RangeEnsures vstart vend s (freerange end_ vstart vend s)
unfolding freerange
freerange_lem end_ vstart vend s lo base le hi =
    round (free_from end_ (vend / page_size) (page_round_up vstart) vend s) (
      free_from_lem end_ (vend / page_size) (page_round_up vstart) vend s (omega arith)
        (omega arith) (omega arith) hi (omega arith))
  where
    round :
        (o : Option Kmem)
        → RangeEnsures (page_round_up vstart) vend s o
        → RangeEnsures vstart vend s o
    round none h = absurd h
    round (some s') h = λ v. (
      λ x. elim ((h v).0 x) [ inl (a, b, c) ↦ inl (a, omega arith, c) | inr y ↦ inr y ],
      λ x. elim x [ inl (a, b, c) ↦ (h v).1 (inl (a, omega arith, c)) | inr y ↦ (h v).1 (inr y) ],
    )
