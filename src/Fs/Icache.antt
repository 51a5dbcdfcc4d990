-- ===== src/Fs/Icache.antt =====
-- assignment-3/fs.c: the entries of the inode cache that `iget` finds and takes.
use cs_1217_operating_system.Base.{
  ℕ, zero, suc, ◌+◌, ◌%◌, ◌^◌, ◌≡◌, ◌≢◌, ◌≤◌, ◌<◌, ◌⊎◌, refl, sym, ap, subst, ◌∙◌, true, false,
  Option, none, some, if◌then◌else◌, update, update_self, update_ne, Bool-cases, ℕ_discrete,
  none-ne-some, some_inj, inl, inr, arith,
}
use mathlib.Core.Bool.{true≢false}
use cs_1217_operating_system.Fs.{Fs, Inode, set_inode}
use cs_1217_operating_system.Fs.Inodes.{
  ninode, is_for, Search, hit, miss, remember, search, take_entry, iget,
}

-- No inode has two entries in use.
abbrev pub IsIcache : Fs → Type 0
IsIcache s =
    (p q dev inum : ℕ)
    → p < ninode
    → q < ninode
    → is_for dev inum (s.inode p) ≡ true
    → is_for dev inum (s.inode q) ≡ true
    → p ≡ q

module _ (inode : ℕ → Inode) (dev inum : ℕ) where
  -- None of the `k` entries from `p` on is for the inode.
  abbrev IsMissing : ℕ → ℕ → Type 0
  IsMissing p k = (q : ℕ) → p ≤ q → q < p + k → is_for dev inum (inode q) ≡ false

  abbrev SearchEnsures : ℕ → ℕ → Option ℕ → Search → Type 0
  SearchEnsures p k empty (hit q) = (p ≤ q) × (q < p + k) × (is_for dev inum (inode q) ≡ true)
  SearchEnsures p k empty (miss none) =
      IsMissing p k × (empty ≡ none) × ((q : ℕ) → p ≤ q → q < p + k → (inode q).ref ≢ 0)
  SearchEnsures p k empty (miss (some e)) =
      IsMissing p k × ((empty ≡ some e) ⊎ ((p ≤ e) × (e < p + k) × ((inode e).ref ≡ 0)))

  extend : (p k : ℕ) → is_for dev inum (inode p) ≡ false → IsMissing (p + 1) k → IsMissing p (suc k)
  extend p k out rest q lo hi = elim (ℕ_discrete q p) [
    | yes e ↦ subst (λ x. is_for dev inum (inode x) ≡ false) (sym e) out
    | no ne ↦ rest q (omega arith) (omega arith)
  ]

  remember_zero : (p : ℕ) → (inode p).ref ≡ 0 → remember inode p none ≡ some p
  remember_zero p z = ground arith

  remember_used : (p : ℕ) → (inode p).ref ≢ 0 → remember inode p none ≡ none
  remember_used p nz = ground arith

  widen :
      (p k : ℕ) (empty : Option ℕ) (r : Search)
      → is_for dev inum (inode p) ≡ false
      → SearchEnsures (p + 1) k (remember inode p empty) r
      → SearchEnsures p (suc k) empty r
  widen p k empty (hit q) out h = (omega (arith, h.0), omega (arith, h.1), h.2)
  widen p k none (miss none) out h = (
    extend p k out h.0,
    refl,
    λ q lo hi z. elim (ℕ_discrete q p) [
      | yes e ↦ none-ne-some p (sym h.1 ∙ remember_zero p (subst (λ x. (inode x).ref ≡ 0) e z))
      | no ne ↦ h.2 q (omega arith) (omega arith) z
    ],
  )
  widen p k (some e) (miss none) out h = elim (none-ne-some e (sym h.1)) [ ]
  widen p k none (miss (some e)) out h = (
    extend p k out h.0,
    elim h.1 [
      | inr (lo, hi, z) ↦ inr (omega (arith, lo), omega (arith, hi), z)
      | inl f ↦ elim (ℕ_discrete (inode p).ref 0) [
        | yes z ↦
            let same : p ≡ e = some_inj p e (sym (remember_zero p z) ∙ f) in
            inr (omega (arith, same), omega (arith, same), subst (λ x. (inode x).ref ≡ 0) same z)
        | no nz ↦ elim (none-ne-some e (sym (remember_used p nz) ∙ f)) [ ]
      ]
    ],
  )
  widen p k (some x) (miss (some e)) out h = (
    extend p k out h.0,
    elim h.1 [ inl f ↦ inl f | inr (lo, hi, z) ↦ inr (omega (arith, lo), omega (arith, hi), z) ],
  )

  search_lem :
      (k p : ℕ) (empty : Option ℕ) → SearchEnsures p k empty (search inode dev inum k p empty)
  unfolding search
  search_lem zero p none = (λ q lo hi. absurd (omega arith), refl, λ q lo hi. absurd (omega arith))
  search_lem zero p (some e) = (λ q lo hi. absurd (omega arith), inl refl)
  search_lem (suc k) p empty =
      let rest = search inode dev inum k (p + 1) (remember inode p empty) in
      elim (Bool-cases (is_for dev inum (inode p))) [
        | inl h ↦
            subst (SearchEnsures p (suc k) empty) (sym (ap (λ t. if t then hit p else rest) h))
              (omega arith, omega arith, h)
        | inr h ↦
            subst (SearchEnsures p (suc k) empty) (sym (ap (λ t. if t then hit p else rest) h))
              (widen p k empty rest h (search_lem k (p + 1) (remember inode p empty)))
      ]

-- The inode has no entry in use.
abbrev pub IsAbsent : ℕ → ℕ → Fs → Type 0
IsAbsent dev inum s = (q : ℕ) → q < ninode → is_for dev inum (s.inode q) ≡ false

-- What `iget` promises.
abbrev pub IgetEnsures : ℕ → ℕ → Fs → Option (ℕ × Fs) → Type 0
IgetEnsures dev inum s none = IsAbsent dev inum s × ((q : ℕ) → q < ninode → (s.inode q).ref ≢ 0)
IgetEnsures dev inum s (some (p, s')) =
    (p < ninode)
    × (is_for dev inum (s'.inode p) ≡ true)
    × IsIcache s'
    × ((q : ℕ) → q ≢ p → s'.inode q ≡ s.inode q)
    × (s'.block ≡ s.block)
    × ((((s'.inode p).ref ≡ (s.inode p).ref + 1)
          × ((s'.inode p).valid ≡ (s.inode p).valid)
          × (is_for dev inum (s.inode p) ≡ true))
        ⊎ (((s'.inode p).ref ≡ 1)
            × ((s'.inode p).valid ≡ false)
            × ((s.inode p).ref ≡ 0)
            × IsAbsent dev inum s))

module _ (dev inum : ℕ) (s : Fs) (p : ℕ) (known : p < ninode) (i : IsIcache s) where
  put_here : (r : Inode) (P : Inode → Type 0) → P r → P (update s.inode p r p)
  put_here r P h = subst P (sym (update_self s.inode p r)) h

  there :
      (r : Inode) (P : Inode → Type 0) (q : ℕ) → q ≢ p → P (update s.inode p r q) → P (s.inode q)
  there r P q ne h = subst P (update_ne s.inode p q r (λ e. ne (sym e))) h

  here : (r : Inode) (P : Inode → Type 0) (q : ℕ) → q ≡ p → P (update s.inode p r q) → P r
  here r P q e h = subst P (update_self s.inode p r) (subst (λ x. P (update s.inode p r x)) e h)

  set_inode-IsIcache :
      (r : Inode)
      → ((q d n : ℕ) → q < ninode → q ≢ p → is_for d n r ≡ true → is_for d n (s.inode q) ≡ true → ⊥)
      → IsIcache (set_inode p r s)
  set_inode-IsIcache r apart a b d n ka kb fa fb =
      let P : Inode → Type 0 = (λ x. is_for d n x ≡ true) in
      elim (ℕ_discrete a p) [
        | yes ea ↦ elim (ℕ_discrete b p) [
          | yes eb ↦ ea ∙ sym eb
          | no nb ↦ elim (apart b d n kb nb (here r P a ea fa) (there r P b nb fb)) [ ]
        ]
        | no na ↦ elim (ℕ_discrete b p) [
          | yes eb ↦ elim (apart a d n ka na (here r P b eb fb) (there r P a na fa)) [ ]
          | no nb ↦ i a b d n ka kb (there r P a na fa) (there r P b nb fb)
        ]
      ]

abbrev more : Inode → Inode
more ip = record ip { ref = (ip.ref + 1) % 2 ^ 32 }

more_for :
    (dev inum : ℕ) (ip : Inode)
    → ip.ref + 1 < 2 ^ 31
    → is_for dev inum ip ≡ true
    → (is_for dev inum (more ip) ≡ true) × ((more ip).ref ≡ ip.ref + 1)
more_for dev inum ip small h = (ground arith, omega arith)

more_back :
    (dev inum d n : ℕ) (ip : Inode)
    → is_for dev inum ip ≡ true
    → is_for d n (more ip) ≡ true
    → is_for d n ip ≡ true
more_back dev inum d n ip h k = ground arith

named : (d n : ℕ) (ip : Inode) → is_for d n ip ≡ true → (ip.dev ≡ d) × (ip.inum ≡ n)
named d n ip h = ground arith

module _ (dev inum : ℕ) (s : Fs) (p : ℕ) (known : p < ninode) (i : IsIcache s) where
  again :
      (s.inode p).ref + 1 < 2 ^ 31
      → is_for dev inum (s.inode p) ≡ true
      → IgetEnsures dev inum s (some (p, set_inode p (more (s.inode p)) s))
  again small h =
      let r : Inode = more (s.inode p) in
      let (fits, one) = more_for dev inum (s.inode p) small h in
      let new = put_here dev inum s p known i r in
      (
        known,
        new (λ x. is_for dev inum x ≡ true) fits,
        set_inode-IsIcache dev inum s p known i r
            (λ q d n kq ne a b. ne (i q p d n kq known b (more_back dev inum d n (s.inode p) h a))),
        λ q ne. update_ne s.inode p q r (λ e. ne (sym e)),
        refl,
        inl (
          new (λ x. x.ref ≡ (s.inode p).ref + 1) one,
          new (λ x. x.valid ≡ (s.inode p).valid) refl,
          h,
        ),
      )

  abbrev fresh : Inode
  fresh = record (s.inode p) { dev = dev; inum = inum; ref = 1; valid = false }

  taken :
      IsAbsent dev inum s
      → (s.inode p).ref ≡ 0
      → IgetEnsures dev inum s (some (p, set_inode p fresh s))
  taken out z =
      let new = put_here dev inum s p known i fresh in
      let for_it : is_for dev inum fresh ≡ true = ground arith in
      (
        known,
        new (λ x. is_for dev inum x ≡ true) for_it,
        set_inode-IsIcache dev inum s p known i fresh (λ q d n kq ne a b.
            let (e, f) = named d n fresh a in
            true≢false (
              sym b
              ∙ ap (λ x. is_for x n (s.inode q)) (sym e)
              ∙ ap (λ x. is_for dev x (s.inode q)) (sym f)
              ∙ out q kq)),
        λ q ne. update_ne s.inode p q fresh (λ e. ne (sym e)),
        refl,
        inr (new (λ x. x.ref ≡ 1) refl, new (λ x. x.valid ≡ false) refl, z, out),
      )

-- When no inode has two entries in use, and the counts of references are below the largest `int`, `iget` answers an
-- entry for the inode with one more reference: the one in use if there is one, and else one that was free, whose
-- contents it marks as not read. It keeps every other entry, and that no inode has two. It panics only when the
-- inode has no entry and none is free.
pub iget_lem :
    (dev inum : ℕ) (s : Fs)
    → IsIcache s
    → ((p : ℕ) → p < ninode → (s.inode p).ref + 1 < 2 ^ 31)
    → IgetEnsures dev inum s (iget dev inum s)
unfolding iget take_entry
iget_lem dev inum s i small =
    go (search s.inode dev inum ninode 0 none) (search_lem s.inode dev inum ninode 0 none)
  where
    go :
        (r : Search)
        → SearchEnsures s.inode dev inum 0 ninode none r
        → IgetEnsures dev inum s (take_entry dev inum r s)
    go (hit p) (lo, hi, h) = again dev inum s p hi i (small p hi) h
    go (miss none) (out, _, full) = (λ q k. out q (omega arith) k, λ q k. full q (omega arith) k)
    go (miss (some p)) (out, inl e) = elim (none-ne-some p e) [ ]
    go (miss (some p)) (out, inr (lo, hi, z)) =
        taken dev inum s p hi i (λ q k. out q (omega arith) k) z
