-- ===== src/Fs/Allocation.antt =====
-- assignment-3/fs.c: the blocks that `balloc` gives out and `bfree` takes back.
use cs_1217_operating_system.Base.{
  ℕ, zero, suc, ◌+◌, ◌-◌, ◌*◌, ◌/◌, ◌%◌, ◌≡◌, ◌≢◌, ◌≤◌, ◌<◌, refl, sym, ap, subst, ◌∙◌, Bool, true,
  false, Option, none, some, ltb, if◌then◌else◌, update, update_self, update_ne, Bool-cases,
  Option-cases, ℕ_discrete, dec_lt, inl, inr, arith, ltb→le, ◌⊎◌,
}
use mathlib.Core.Bool.{true≢false}
use cs_1217_operating_system.Fs.{Fs, Cmd, set_block, panic}
use cs_1217_operating_system.Fs.Bytes.{Bytes, bpb, bblock}
use cs_1217_operating_system.Fs.Blocks.{
  bzero, is_clear, mark, unmark, free_bit, take_block, balloc_from, balloc, bfree,
}
use cs_1217_operating_system.Fs.FreeMap.{
  mark_self, mark_other, unmark_self, unmark_other, FindEnsures, free_bit_lem,
}

-- The free map says that the block is free.
abbrev pub is_free : Fs → ℕ → ℕ → Bool
is_free s dev b = is_clear (s.block dev (bblock b s.sb)) (b % bpb)

-- The state once `balloc` has taken block `n`.
abbrev pub allocated : ℕ → ℕ → Fs → Fs
allocated dev n s =
    set_block dev n (λ _. 0)
      (set_block dev (bblock n s.sb) (mark (s.block dev (bblock n s.sb)) (n % bpb)) s)

abbrev FoundEnsures : ℕ → ℕ → Fs → Option (ℕ × Fs) → Type 0
FoundEnsures dev b s none = (c : ℕ) → b ≤ c → c < s.sb.size → is_free s dev c ≡ false
FoundEnsures dev b s (some (n, s')) =
    (n < s.sb.size) × (is_free s dev n ≡ true) × (s' ≡ allocated dev n s)

module _ (dev : ℕ) (s : Fs) where
  abbrev map_of : ℕ → Bytes
  map_of b = s.block dev (bblock b s.sb)

  -- Bit `x` of the map of block `b` is that of block `b + x`.
  bit_of : (b x : ℕ) → b % bpb ≡ 0 → x < bpb → is_free s dev (b + x) ≡ is_clear (map_of b) x
  bit_of b x e lt =
      let p : (b + x) % bpb ≡ x = omega arith in
      let q : (b + x) / bpb ≡ b / bpb = omega arith in
      ap (λ y. is_clear (s.block dev (y + s.sb.bmapstart)) ((b + x) % bpb)) q
      ∙ ap (λ y. is_clear (map_of b) y) p

  abbrev given : ℕ → ℕ → ℕ → Fs
  given n y z =
      set_block dev n (λ _. 0)
        (set_block dev (y + s.sb.bmapstart) (mark (s.block dev (y + s.sb.bmapstart)) z) s)

  took :
      (b x : ℕ)
      → b % bpb ≡ 0
      → x < bpb
      → take_block dev b (map_of b) x s ≡ some (b + x, allocated dev (b + x) s)
  unfolding take_block bzero
  took b x e lt =
      let p : (b + x) % bpb ≡ x = omega arith in
      let q : (b + x) / bpb ≡ b / bpb = omega arith in
      ap (λ y. some (b + x, given (b + x) y x)) (sym q)
      ∙ ap (λ z. some (b + x, given (b + x) ((b + x) / bpb) z)) (sym p)

  abbrev next : ℕ → ℕ → Option ℕ → Cmd ℕ
  next k b o = elim o [
    | some bi ↦ take_block dev b (map_of b) bi
    | none ↦ balloc_from dev k (b + bpb)
  ]

  -- A round of the loop
  abbrev round : ℕ → ℕ → Bool → Option (ℕ × Fs)
  round k b t = (if t then next k b (free_bit (map_of b) s.sb.size b bpb 0) else panic) s

  balloc_from-suc : (k b : ℕ) → balloc_from dev (suc k) b s ≡ round k b (ltb b s.sb.size)
  unfolding balloc_from
  balloc_from-suc k b = refl

  later :
      (b : ℕ) (r : Option (ℕ × Fs))
      → b % bpb ≡ 0
      → FindEnsures (map_of b) s.sb.size b bpb 0 none
      → FoundEnsures dev (b + bpb) s r
      → FoundEnsures dev b s r
  later b (some (n, s')) e here h = h
  later b none e here h = λ c lo hi. elim (dec_lt c (b + bpb)) [
    | no far ↦ h c (omega arith) hi
    | yes near ↦
        let x : ℕ = c - b in
        let same : b + x ≡ c = omega arith in
        subst (λ y. is_free s dev y ≡ false) same
          (bit_of b x e (omega arith) ∙ here x (omega arith) (omega arith) (omega arith))
  ]

  balloc_from_lem :
      (k b : ℕ)
      → b % bpb ≡ 0
      → s.sb.size ≤ b + k * bpb
      → FoundEnsures dev b s (balloc_from dev k b s)
  unfolding balloc_from
  balloc_from_lem zero b e enough = λ c lo hi. absurd (omega arith)
  balloc_from_lem (suc k) b e enough = elim (Bool-cases (ltb b s.sb.size)) [
    | inr h ↦
        let found : balloc_from dev (suc k) b s ≡ none = balloc_from-suc k b ∙ ap (round k b) h in
        subst (FoundEnsures dev b s) (sym found)
          (λ c lo hi. let out : s.sb.size ≤ b = ltb→le b s.sb.size h in absurd (omega arith))
    | inl h ↦ elim (Option-cases (free_bit (map_of b) s.sb.size b bpb 0)) [
      | inr (x, f) ↦
          let (lo, hi, within, clear) =
            subst (FindEnsures (map_of b) s.sb.size b bpb 0) f
              (free_bit_lem (map_of b) s.sb.size b bpb 0) in
          let found : balloc_from dev (suc k) b s ≡ some (b + x, allocated dev (b + x) s) =
            balloc_from-suc k b ∙ ap (round k b) h ∙ ap (λ o. next k b o s) f ∙ took b x e hi in
          subst (FoundEnsures dev b s) (sym found) (within, bit_of b x e hi ∙ clear, refl)
      | inl f ↦
          let none_here =
            subst (FindEnsures (map_of b) s.sb.size b bpb 0) f
              (free_bit_lem (map_of b) s.sb.size b bpb 0) in
          let found : balloc_from dev (suc k) b s ≡ balloc_from dev k (b + bpb) s =
            balloc_from-suc k b ∙ ap (round k b) h ∙ ap (λ o. next k b o s) f in
          subst (FoundEnsures dev b s) (sym found) (
            later b (balloc_from dev k (b + bpb) s) e none_here
              (balloc_from_lem k (b + bpb) (omega arith) (omega arith)))
    ]
  ]

-- Blocks that the map calls free, and block `n`, are not part of the map.
abbrev pub IsApart : ℕ → Fs → Type 0
IsApart dev s =
    (b c : ℕ) → b < s.sb.size → c < s.sb.size → is_free s dev b ≡ true → bblock c s.sb ≢ b

-- What `balloc` promises.
abbrev pub BallocEnsures : ℕ → Fs → Option (ℕ × Fs) → Type 0
BallocEnsures dev s none = (c : ℕ) → c < s.sb.size → is_free s dev c ≡ false
BallocEnsures dev s (some (n, s')) =
    (n < s.sb.size)
    × (is_free s dev n ≡ true)
    × (is_free s' dev n ≡ false)
    × ((c : ℕ) → c < s.sb.size → c ≢ n → is_free s' dev c ≡ is_free s dev c)
    × ((i : ℕ) → s'.block dev n i ≡ 0)
    × ((b : ℕ) → b ≢ n → b ≢ bblock n s.sb → s'.block dev b ≡ s.block dev b)
    × (s'.inode ≡ s.inode)

-- One block of a device replaced.
module _ (dev n : ℕ) (bytes : Bytes) (s : Fs) where
  pub block_self : (set_block dev n bytes s).block dev n ≡ bytes
  block_self =
      ap (λ f. f n) (update_self s.block dev (update (s.block dev) n bytes))
      ∙ update_self (s.block dev) n bytes

  pub block_ne : (b : ℕ) → b ≢ n → (set_block dev n bytes s).block dev b ≡ s.block dev b
  block_ne b ne =
      ap (λ f. f b) (update_self s.block dev (update (s.block dev) n bytes))
      ∙ update_ne (s.block dev) n b bytes (λ e. ne (sym e))

-- The map after its bit for `n` has changed to `bytes`.
module _ (dev n : ℕ) (bytes : Bytes) (s : Fs) where
  abbrev remapped : Fs
  remapped = set_block dev (bblock n s.sb) bytes s

  free_self : is_free remapped dev n ≡ is_clear bytes (n % bpb)
  free_self = ap (λ m. is_clear m (n % bpb)) (block_self dev (bblock n s.sb) bytes s)

  free_other :
      ((i : ℕ) → i ≢ n % bpb → is_clear bytes i ≡ is_clear (s.block dev (bblock n s.sb)) i)
      → (c : ℕ) → c ≢ n
      → is_free remapped dev c ≡ is_free s dev c
  free_other same c ne = elim (ℕ_discrete (bblock c s.sb) (bblock n s.sb)) [
    | no far ↦
        ap (λ m. is_clear m (c % bpb)) (block_ne dev (bblock n s.sb) bytes s (bblock c s.sb) far)
    | yes e ↦
        let apart : c % bpb ≢ n % bpb = (λ f. ne (omega arith)) in
        ap (λ b. is_clear (remapped.block dev b) (c % bpb)) e
        ∙ ap (λ m. is_clear m (c % bpb)) (block_self dev (bblock n s.sb) bytes s)
        ∙ same (c % bpb) apart
        ∙ ap (λ b. is_clear (s.block dev b) (c % bpb)) (sym e)
  ]

pub allocated_lem :
    (dev n : ℕ) (s : Fs)
    → IsApart dev s
    → n < s.sb.size
    → is_free s dev n ≡ true
    → BallocEnsures dev s (some (n, allocated dev n s))
allocated_lem dev n s apart small free =
    let old : Bytes = s.block dev (bblock n s.sb) in
    let bytes : Bytes = mark old (n % bpb) in
    let s1 : Fs = remapped dev n bytes s in
    let kept = λ (c : ℕ) (k : c < s.sb.size).
      ap (λ m. is_clear m (c % bpb))
        (block_ne dev n (λ _. 0) s1 (bblock c s.sb) (apart n c small k free)) in
    (
      small,
      free,
      kept n small ∙ free_self dev n bytes s ∙ mark_self old (n % bpb),
      λ c k ne.
          kept c k
          ∙ free_other dev n bytes s (λ i ni. mark_other old (n % bpb) i (λ e. ni (sym e))) c ne,
      λ i. ap (λ f. f i) (block_self dev n (λ _. 0) s1),
      λ b nb nm. block_ne dev n (λ _. 0) s1 b nb ∙ block_ne dev (bblock n s.sb) bytes s b nm,
      refl,
    )

-- How `balloc` ends.
pub balloc-cases :
    (dev : ℕ) (s : Fs)
    → ((balloc dev s ≡ none) × ((c : ℕ) → c < s.sb.size → is_free s dev c ≡ false))
      ⊎ ((n : ℕ) × (balloc dev s ≡ some (n, allocated dev n s))
          × (n < s.sb.size)
          × (is_free s dev n ≡ true))
unfolding balloc
balloc-cases dev s = elim (Option-cases (balloc dev s)) [
  | inl e ↦ let h = subst (FoundEnsures dev 0 s) e found in inl (e, λ c k. h c (omega arith) k)
  | inr ((n, s'), e) ↦
      let (small, free, f) = subst (FoundEnsures dev 0 s) e found in
      inr (n, e ∙ ap (λ x. some (n, x)) f, small, free)
]
  where
    found : FoundEnsures dev 0 s (balloc dev s)
    found = balloc_from_lem dev s (s.sb.size / bpb + 1) 0 refl (omega arith)

-- `balloc` answers a block that was free, marks it and no other as used, and fills it with zeros, while every other
-- block but the one of the map stays as it was, if the map's own blocks are in use. It panics only when no block is
-- free.
pub balloc_lem : (dev : ℕ) (s : Fs) → IsApart dev s → BallocEnsures dev s (balloc dev s)
balloc_lem dev s apart = elim (balloc-cases dev s) [
  | inl (e, used) ↦ subst (BallocEnsures dev s) (sym e) used
  | inr (n, e, small, free) ↦
      subst (BallocEnsures dev s) (sym e) (allocated_lem dev n s apart small free)
]

-- A block of the map is still not free after another is taken.
pub allocated-IsApart :
    (dev n : ℕ) (s : Fs)
    → IsApart dev s
    → n < s.sb.size
    → is_free s dev n ≡ true
    → IsApart dev (allocated dev n s)
allocated-IsApart dev n s apart small free b c kb kc f =
    let h = allocated_lem dev n s apart small free in
    elim (ℕ_discrete b n) [
      | yes e ↦ absurd (true≢false (sym f ∙ ap (is_free (allocated dev n s) dev) e ∙ h.2))
      | no ne ↦ apart b c kb kc (sym (h.3 b kb ne) ∙ f)
    ]

-- What `bfree` promises.
abbrev pub BfreeEnsures : ℕ → ℕ → Fs → Option (Unit {0} × Fs) → Type 0
BfreeEnsures dev b s none = is_free s dev b ≡ true
BfreeEnsures dev b s (some (_, s')) =
    (is_free s dev b ≡ false)
    × (is_free s' dev b ≡ true)
    × ((c : ℕ) → c ≢ b → is_free s' dev c ≡ is_free s dev c)
    × ((c : ℕ) → c ≢ bblock b s.sb → s'.block dev c ≡ s.block dev c)
    × (s'.inode ≡ s.inode)

-- `bfree` marks the block and no other as free, and changes nothing but the block of the map. It panics exactly when
-- the block is free already.
pub bfree_lem : (dev b : ℕ) (s : Fs) → BfreeEnsures dev b s (bfree dev b s)
unfolding bfree
bfree_lem dev b s =
    let old : Bytes = s.block dev (bblock b s.sb) in
    let bytes : Bytes = unmark old (b % bpb) in
    let done = λ (t : Bool).
      (if t then panic else (λ (x : Fs). some (tt, set_block dev (bblock b s.sb) bytes x))) s in
    elim (Bool-cases (is_free s dev b)) [
      | inl h ↦
          let found : bfree dev b s ≡ none = ap done h in subst (BfreeEnsures dev b s) (sym found) h
      | inr h ↦
          let found : bfree dev b s ≡ some (tt, remapped dev b bytes s) = ap done h in
          subst (BfreeEnsures dev b s) (sym found) (
            h,
            free_self dev b bytes s ∙ unmark_self old (b % bpb),
            free_other dev b bytes s (λ i ni. unmark_other old (b % bpb) i (λ e. ni (sym e))),
            λ c ne. block_ne dev (bblock b s.sb) bytes s c ne,
            refl,
          )
    ]
