-- ===== src/Jos/Init.antt =====
-- lab-3/kern/pmap.c: which pages `page_init` makes free.
use cs_1217_operating_system.Base.{
  ℕ, zero, suc, ◌+◌, ◌-◌, ◌/◌, ◌<◌, ◌≤◌, ◌≡◌, ◌↔◌, ◌⊎◌, refl, sym, ap, subst, ◌∙◌, true, none, List,
  [], ◌∷◌, if◌then◌else◌, update, update_self, update_ne, arith, All, Member, Bool-cases, inl, inr,
  ℕ_discrete,
}
use cs_1217_operating_system.Jos.{Phys}
use cs_1217_operating_system.Jos.FreeList.{Chain, nil, cons, frame, IsFree}
use cs_1217_operating_system.Jos.Boot.{is_available, init_page, init_from, page_init, kern_base}

-- The pages `ps` are those before `i` that are available, and are linked; the others are referred to.
record Inv (base kernel i : ℕ) (s : Phys) (ps : List ℕ) : Type 0 where
  chain : Chain s.link s.free_list ps
  forth : (q : ℕ) → Member q ps → (0 < q) × (q < i) × (is_available base kernel q ≡ true)
  back : (q : ℕ) → 0 < q → q < i → is_available base kernel q ≡ true → Member q ps
  refs : (q : ℕ) → 0 < q → q < i → s.ref q ≡ (if is_available base kernel q then 0 else 1)
  first : s.ref 0 ≡ 1

abbrev After : ℕ → ℕ → ℕ → Phys → Type 0
After base kernel i s = (ps : List ℕ) × Inv base kernel i s ps

init_page-Inv :
    (base kernel i : ℕ) (s : Phys) (ps : List ℕ)
    → 0 < i
    → Inv base kernel i s ps
    → After base kernel (i + 1) (init_page base kernel i s)
unfolding init_page
init_page-Inv base kernel i s ps lt v = elim (Bool-cases (is_available base kernel i)) [
  | inl free ↦
      let out : ¬ Member i ps = λ m. let (_, below, _) = v.forth i m in absurd (omega arith) in
      rw free (
        i ∷ ps,
        record {
          chain = cons out (
              subst (λ o. Chain (update s.link i s.free_list) o ps)
                (sym (update_self s.link i s.free_list)) (frame i s.free_list out v.chain));
          forth = λ q m. elim m [
            | inl e ↦ (omega arith, omega arith, ap (is_available base kernel) e ∙ free)
            | inr m' ↦ let (a, b, c) = v.forth q m' in (a, omega arith, c)
          ];
          back = λ q pos_ below h. elim (ℕ_discrete q i) [
            | yes e ↦ inl e
            | no ne ↦ inr (v.back q pos_ (omega arith) h)
          ];
          refs = λ q pos_ below. elim (ℕ_discrete i q) [
            | yes e ↦
                ap (update s.ref i 0) (sym e)
                ∙ update_self s.ref i 0
                ∙ sym (ap (λ b. if b then 0 else 1) (ap (is_available base kernel) (sym e) ∙ free))
            | no ne ↦ update_ne s.ref i q 0 ne ∙ v.refs q pos_ (omega arith)
          ];
          first = update_ne s.ref i 0 0 (λ e. absurd (omega arith)) ∙ v.first;
        },
      )
  | inr used ↦ rw used (
    ps,
    record {
      chain = v.chain;
      forth = λ q m. let (a, b, c) = v.forth q m in (a, omega arith, c);
      back = λ q pos_ below h. elim (ℕ_discrete q i) [
        | yes e ↦ absurd (cc (sym h ∙ ap (is_available base kernel) e ∙ used))
        | no ne ↦ v.back q pos_ (omega arith) h
      ];
      refs = λ q pos_ below. elim (ℕ_discrete i q) [
        | yes e ↦
            ap (update s.ref i 1) (sym e)
            ∙ update_self s.ref i 1
            ∙ sym (ap (λ b. if b then 0 else 1) (ap (is_available base kernel) (sym e) ∙ used))
        | no ne ↦ update_ne s.ref i q 1 ne ∙ v.refs q pos_ (omega arith)
      ];
      first = update_ne s.ref i 0 1 (λ e. absurd (omega arith)) ∙ v.first;
    },
  )
]

init_from-Inv :
    (base kernel k i j : ℕ) (s : Phys)
    → 0 < i
    → i + k ≡ j
    → After base kernel i s
    → After base kernel j (init_from base kernel k i s)
unfolding init_from
init_from-Inv base kernel zero i j s lt e v = subst (λ x. After base kernel x s) (omega arith) v
init_from-Inv base kernel (suc k) i j s lt e (ps, v) =
    init_from-Inv base kernel k (i + 1) j (init_page base kernel i s) (omega arith) (omega arith)
      (init_page-Inv base kernel i s ps lt v)

npages-init_page : (base kernel i : ℕ) (s : Phys) → (init_page base kernel i s).npages ≡ s.npages
unfolding init_page
npages-init_page base kernel i s = elim (Bool-cases (is_available base kernel i)) [
  | inl a ↦ rw a refl
  | inr a ↦ rw a refl
]

npages-init_from :
    (base kernel k i : ℕ) (s : Phys) → (init_from base kernel k i s).npages ≡ s.npages
unfolding init_from
npages-init_from base kernel zero i s = refl
npages-init_from base kernel (suc k) i s =
    npages-init_from base kernel k (i + 1) (init_page base kernel i s)
    ∙ npages-init_page base kernel i s

All_of_members : (P : ℕ → Type 0) (ps : List ℕ) → ((q : ℕ) → Member q ps → P q) → All P ps
All_of_members P [] h = tt
All_of_members P (p ∷ ps) h = (h p (inl refl), All_of_members P ps (λ q m. h q (inr m)))

-- The number of the first page after the kernel and what `boot_alloc` gave out.
abbrev pub kernel_end : ℕ → ℕ
kernel_end nextfree = (nextfree - kern_base) / 4096

-- What the pages are for at the start: page 0 is in use; below `base`, base memory, the others are free; above it,
-- pages 160 to 255, from 0xA0000 to 0xFFFFF, are the I/O hole, and those from 256, at 0x100000, up to `kernel` hold
-- the kernel and what `boot_alloc` gave out.
abbrev pub IsFreeAtStart : ℕ → ℕ → ℕ → Type 0
IsFreeAtStart base kernel q = (0 < q) × ((q < base) ⊎ ((q < 160) ⊎ ((256 ≤ q) × (kernel ≤ q))))

available-IsFreeAtStart :
    (base kernel q : ℕ)
    → ((0 < q) × (is_available base kernel q ≡ true)) ↔ IsFreeAtStart base kernel q
available-IsFreeAtStart base kernel q = ground arith

-- After `page_init` from an empty list, the free list holds, each once, exactly the pages `q` of the machine but page 0
-- with `q` below `base`, or below the I/O hole at page 160, or from page 256 on and not below the end of the kernel and
-- of what `boot_alloc` gave out. Nothing refers to these, and every other page has one reference.
pub page_init_lem :
    (base nextfree : ℕ) (s : Phys)
    → 0 < s.npages
    → s.free_list ≡ none
    → let s' = page_init base nextfree s in
      (ps : List ℕ) × IsFree s' ps
      × ((q : ℕ) → Member q ps ↔ ((q < s.npages) × IsFreeAtStart base (kernel_end nextfree) q))
      × ((q : ℕ) → q < s.npages → ¬ Member q ps → s'.ref q ≡ 1)
unfolding page_init
page_init_lem base nextfree s some_ empty =
    let kernel = kernel_end nextfree in
    let s0 : Phys = record s { ref = update s.ref 0 1 } in
    let start : After base kernel 1 s0 = (
      [],
      record {
        chain = subst (λ o. Chain s.link o []) (sym empty) nil;
        forth = λ q m. absurd m;
        back = λ q lo hi h. absurd (omega arith);
        refs = λ q lo hi. absurd (omega arith);
        first = update_self s.ref 0 1;
      },
    ) in
    let (ps, v) =
      init_from-Inv base kernel (s.npages - 1) 1 s.npages s0 (omega arith) (omega arith) start in
    let n = npages-init_from base kernel (s.npages - 1) 1 s0 in
    (
      ps,
      record {
        chain = v.chain;
        known = All_of_members _ ps (λ q m.
            let (lo, hi, h) = v.forth q m in
            (subst (λ k. q < k) (sym n) hi, v.refs q lo hi ∙ ap (λ b. if b then 0 else 1) h));
      },
      λ q.
          let (to, from_) = available-IsFreeAtStart base kernel q in
          (
            λ m. let (lo, hi, a) = v.forth q m in (hi, to (lo, a)),
            λ x. let (lo, a) = from_ x.1 in v.back q lo x.0 a,
          ),
      λ q hi out. elim (ℕ_discrete q 0) [
        | yes e ↦ ap (init_from base kernel (s.npages - 1) 1 s0).ref e ∙ v.first
        | no ne ↦ elim (Bool-cases (is_available base kernel q)) [
          | inl a ↦ absurd (out (v.back q (omega arith) hi a))
          | inr a ↦ v.refs q (omega arith) hi ∙ ap (λ b. if b then 0 else 1) a
        ]
      ],
    )
