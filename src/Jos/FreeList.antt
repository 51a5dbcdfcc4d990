-- ===== src/Jos/FreeList.antt =====
-- lab-3/kern/pmap.c: the links of the free pages form a list, and what the allocator does to it.
use cs_1217_operating_system.Base.{
  ℕ, ◌<◌, ◌≡◌, ◌≢◌, ◌⊎◌, refl, sym, subst, ap, ◌∙◌, Bool, true, false, Option, none, some, List, [],
  ◌∷◌, ◌==◌, if◌then◌else◌, update, update_self, update_ne, All, Member, Option-cases, ℕ_discrete,
  ne→false, inl, inr, arith, leb, none-ne-some,
}
use cs_1217_operating_system.Jos.{Phys, pure, and_then}
use cs_1217_operating_system.Jos.Pages.{clear, alloc_from, page_alloc, page_free}

-- From `o` the links lead through the pages `ps` to the end.
pub data Chain (link : ℕ → Option ℕ) : Option ℕ → List ℕ → Type 0 where
  nil : Chain link none []
  cons :
      {p : ℕ} {ps : List ℕ} → ¬ Member p ps → Chain link (link p) ps → Chain link (some p) (p ∷ ps)

-- The pages `ps` are free: they are the free list, in order, without a repetition, and are pages that the
-- machine has and that nothing refers to.
pub record IsFree (s : Phys) (ps : List ℕ) : Type 0 where
  pub chain : Chain s.link s.free_list ps
  pub known : All (λ p. (p < s.npages) × (s.ref p ≡ 0)) ps

-- A change outside the pages of a chain leaves it.
pub frame :
    {link : ℕ → Option ℕ} {o : Option ℕ} {ps : List ℕ} (p : ℕ) (v : Option ℕ)
    → ¬ Member p ps
    → Chain link o ps
    → Chain (update link p v) o ps
frame p v out nil = nil
frame {link} p v out (cons {p = q} {ps = qs} fresh rest) =
    let apart : p ≢ q = (λ e. out (inl e)) in
    cons fresh (
      subst (λ o. Chain (update link p v) o qs) (sym (update_ne link p q v apart))
        (frame p v (λ m. out (inr m)) rest))

-- What `page_alloc` promises when the free pages are `ps`.
abbrev pub AllocEnsures : Bool → Phys → List ℕ → Option (Option ℕ × Phys) → Type 0
AllocEnsures zeroed s ps none = ⊥
AllocEnsures zeroed s ps (some (none, s')) = (ps ≡ []) × (s' ≡ s)
AllocEnsures zeroed s ps (some (some p, s')) =
    ((qs : List ℕ) × (ps ≡ p ∷ qs) × IsFree s' qs)
    × (p < s'.npages)
    × (s'.npages ≡ s.npages)
    × (s'.ref ≡ s.ref)
    × (s'.link p ≡ none)
    × ((i : ℕ) → s'.memory p i ≡ (if zeroed then 0 else s.memory p i))
    × ((q : ℕ) → p ≢ q → s'.memory q ≡ s.memory q)

clear_lem :
    (p : ℕ) (s : Phys)
    → p < s.npages
    → clear p s ≡ some (tt, record s { memory = update s.memory p (λ _. 0) })
unfolding clear
clear_lem p s h = let e : leb s.npages p ≡ false = ground arith in rw e refl

abbrev taken : ℕ → Phys → Phys
taken p s = record s { free_list = s.link p; link = update s.link p none }

taken-IsFree :
    (p : ℕ) (ps : List ℕ) (s : Phys)
    → ¬ Member p ps
    → Chain s.link (s.link p) ps
    → All (λ q. (q < s.npages) × (s.ref q ≡ 0)) ps
    → IsFree (taken p s) ps
taken-IsFree p ps s fresh rest known = record { chain = frame p none fresh rest; known = known }

alloc_lem :
    (zeroed : Bool) (s : Phys) {o : Option ℕ} {ps : List ℕ}
    → Chain s.link o ps
    → All (λ q. (q < s.npages) × (s.ref q ≡ 0)) ps
    → AllocEnsures zeroed s ps (alloc_from zeroed o s)
unfolding alloc_from
alloc_lem zeroed s nil known = (refl, refl)
alloc_lem false s (cons {p = p} {ps = ps} fresh rest) known = (
  (ps, refl, taken-IsFree p ps s fresh rest known.1),
  known.0.0,
  refl,
  refl,
  update_self s.link p none,
  λ i. refl,
  λ q ne. refl,
)
alloc_lem true s (cons {p = p} {ps = ps} fresh rest) known =
    subst (λ r. AllocEnsures true s (p ∷ ps) (and_then r (λ _. pure (some p))))
      (sym (clear_lem p (taken p s) known.0.0))
      (
        (ps, refl, record { chain = frame p none fresh rest; known = known.1 }),
        known.0.0,
        refl,
        refl,
        update_self s.link p none,
        λ i. ap (λ (f : ℕ → ℕ). f i) (update_self s.memory p _),
        λ q ne. update_ne s.memory p q _ ne,
      )

-- `page_alloc` answers NULL when no page is free, and else the first free page: nothing refers to it, it is no
-- longer on the free list and has no link, it is filled with zeros if that was asked for, and no other
-- page's contents and no reference count change.
pub page_alloc_lem :
    (zeroed : Bool) (s : Phys) (ps : List ℕ)
    → IsFree s ps
    → AllocEnsures zeroed s ps (page_alloc zeroed s)
unfolding page_alloc
page_alloc_lem zeroed s ps f = alloc_lem zeroed s f.chain f.known

-- What `page_free` of page `p` promises when the free pages are `ps`.
abbrev pub FreeEnsures : ℕ → Phys → List ℕ → Option (Unit {0} × Phys) → Type 0
FreeEnsures p s ps none = (s.ref p ≢ 0) ⊎ (s.link p ≢ none)
FreeEnsures p s ps (some (_, s')) =
    (s.ref p ≡ 0)
    × (s.link p ≡ none)
    × IsFree s' (p ∷ ps)
    × (s'.memory ≡ s.memory)
    × (s'.ref ≡ s.ref)
    × (s'.npages ≡ s.npages)

-- `page_free` of a page that is not free panics exactly when something refers to the page or the page has a
-- link; else it puts the page in front of the free ones and changes no contents and no count.
pub page_free_lem :
    (p : ℕ) (s : Phys) (ps : List ℕ)
    → IsFree s ps
    → p < s.npages
    → ¬ Member p ps
    → FreeEnsures p s ps (page_free p s)
unfolding page_free
page_free_lem p s ps f lt out = elim (ℕ_discrete (s.ref p) 0) [
  | no used ↦ rw (ne→false (s.ref p) 0 used) (inl used)
  | yes z ↦
      let test : (s.ref p == 0) ≡ true = ground arith in
      elim (Option-cases (s.link p)) [
        | inr (q, e) ↦ rw (test, e) (inr (λ n. none-ne-some q (sym n ∙ e)))
        | inl e ↦
            rw (test, e)
              (
                z,
                e,
                record {
                  chain = cons out (
                      subst (λ o. Chain (update s.link p s.free_list) o ps)
                        (sym (update_self s.link p s.free_list)) (frame p s.free_list out f.chain));
                  known = ((lt, z), f.known);
                },
                refl,
                refl,
                refl,
              )
      ]
]
