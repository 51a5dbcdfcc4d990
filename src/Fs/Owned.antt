-- ===== src/Fs/Owned.antt =====
-- assignment-3/fs.c: the two places where `bmap` finds a block number or allocates one.
use cs_1217_operating_system.Base.{
  ℕ, ◌+◌, ◌*◌, ◌/◌, ◌%◌, ◌^◌, ◌≡◌, ◌≢◌, ◌<◌, refl, sym, ap, subst, ◌∙◌, Bool, true, false, Option,
  none, some, ◌==◌, if◌then◌else◌, update, update_self, ℕ_discrete, ne→false, inl, inr, arith,
}
use mathlib.Core.Bool.{true≢false}
use cs_1217_operating_system.Fs.{Fs, Inode, pure, and_then, set_inode, set_block}
use cs_1217_operating_system.Fs.Bytes.{Bytes, get32, put16, put32}
use cs_1217_operating_system.Fs.Blocks.{balloc}
use cs_1217_operating_system.Fs.Content.{own_block, indirect}
use cs_1217_operating_system.Fs.Allocation.{
  is_free, allocated, IsApart, balloc-cases, allocated_lem, allocated-IsApart, block_self,
}

put_first : (bytes : Bytes) (i w : ℕ) → put16 bytes i w i ≡ w % 256
put_first bytes i w = ground arith

put_second : (bytes : Bytes) (i w : ℕ) → put16 bytes i w (i + 1) ≡ w / 256 % 256
put_second bytes i w = ground arith

pub put_before : (bytes : Bytes) (i j w : ℕ) → j < i → put16 bytes i w j ≡ bytes j
put_before bytes i j w lt = ground arith

pub get32-put32 : (bytes : Bytes) (i w : ℕ) → w < 2 ^ 32 → get32 (put32 bytes i w) i ≡ w
get32-put32 bytes i w small =
    let low : Bytes = put16 bytes i w in
    let a = put_before low (i + 2) i (w / 65536) (omega arith) ∙ put_first bytes i w in
    let b = put_before low (i + 2) (i + 1) (w / 65536) (omega arith) ∙ put_second bytes i w in
    let c = put_first low (i + 2) (w / 65536) in
    let d = put_second low (i + 2) (w / 65536) in omega (arith, a, b, c, d)

-- The file system is as `mkfs` makes it: the blocks of the map and block 0 are in use.
pub record IsMade (dev : ℕ) (s : Fs) : Type 0 where
  pub apart : IsApart dev s
  pub boot : is_free s dev 0 ≡ false

pub positive : (dev n : ℕ) (s : Fs) → IsMade dev s → is_free s dev n ≡ true → n ≢ 0
positive dev n s made free e = true≢false (sym free ∙ ap (is_free s dev) e ∙ made.boot)

allocated-IsMade :
    (dev n : ℕ) (s : Fs)
    → IsMade dev s
    → n < s.sb.size
    → is_free s dev n ≡ true
    → IsMade dev (allocated dev n s)
allocated-IsMade dev n s made small free =
    let h = allocated_lem dev n s made.apart small free in
    record {
      apart = allocated-IsApart dev n s made.apart small free;
      boot = h.3 0 (omega arith) (λ e. positive dev n s made free (sym e)) ∙ made.boot;
    }

-- At most one block is free.
abbrev pub IsFull : ℕ → Fs → Type 0
IsFull dev s =
    (c d : ℕ)
    → c < s.sb.size
    → d < s.sb.size
    → is_free s dev c ≡ true
    → is_free s dev d ≡ true
    → c ≡ d

module _ (p i : ℕ) (s : Fs) where
  abbrev pub dev_of : ℕ
  dev_of = (s.inode p).dev

  -- The inode with block `n` at index `i`, and the state after it has got this block.
  abbrev pub given : ℕ → Fs
  given n =
      set_inode p (record (s.inode p) { addrs = update (s.inode p).addrs i n })
        (allocated dev_of n s)

  abbrev owning : Bool → Option (ℕ × Fs)
  owning t =
      (if t
          then (λ x. and_then (balloc dev_of x) (λ n y.
              some
                (n, set_inode p (record (y.inode p) { addrs = update (y.inode p).addrs i n }) y)))
          else pure ((s.inode p).addrs i))
        s

  own-owning : own_block p i s ≡ owning ((s.inode p).addrs i == 0)
  unfolding own_block
  own-owning = refl

  pub own_found : (s.inode p).addrs i ≢ 0 → own_block p i s ≡ some ((s.inode p).addrs i, s)
  own_found ne = own-owning ∙ ap owning (ne→false _ 0 ne)

  pub own_new :
      (n : ℕ)
      → (s.inode p).addrs i ≡ 0
      → balloc dev_of s ≡ some (n, allocated dev_of n s)
      → own_block p i s ≡ some (n, given n)
  own_new n z e =
      own-owning
      ∙ ap owning (ap (λ x. x == 0) z)
      ∙ ap
          (λ r. and_then r (λ n y.
            some (n, set_inode p (record (y.inode p) { addrs = update (y.inode p).addrs i n }) y)))
          e

  own_none : (s.inode p).addrs i ≡ 0 → balloc dev_of s ≡ none → own_block p i s ≡ none
  own_none z e =
      own-owning
      ∙ ap owning (ap (λ x. x == 0) z)
      ∙ ap
          (λ r. and_then r (λ n y.
            some (n, set_inode p (record (y.inode p) { addrs = update (y.inode p).addrs i n }) y)))
          e

-- An index that has a block keeps it.
pub own_same :
    (p i a : ℕ) (s : Fs) → (s.inode p).addrs i ≡ a → a ≢ 0 → own_block p i s ≡ some (a, s)
own_same p i a s e ne = own_found p i s (λ z. ne (sym e ∙ z)) ∙ ap (λ x. some (x, s)) e

abbrev pub OwnEnsures : ℕ → ℕ → Fs → Option (ℕ × Fs) → Type 0
OwnEnsures p i s none = (c : ℕ) → c < s.sb.size → is_free s (s.inode p).dev c ≡ false
OwnEnsures p i s (some (a, s')) =
    (a ≢ 0)
    × ((s'.inode p).addrs i ≡ a)
    × ((s'.inode p).dev ≡ (s.inode p).dev)
    × IsMade (s.inode p).dev s'
    × (s'.sb ≡ s.sb)
    × ((c : ℕ) → c < s.sb.size → c ≢ a → is_free s' (s.inode p).dev c ≡ is_free s (s.inode p).dev c)

pub own_lem : (p i : ℕ) (s : Fs) → IsMade (s.inode p).dev s → OwnEnsures p i s (own_block p i s)
own_lem p i s made = elim (ℕ_discrete ((s.inode p).addrs i) 0) [
  | no ne ↦
      subst (OwnEnsures p i s) (sym (own_found p i s ne))
        (ne, refl, refl, made, refl, λ c k n. refl)
  | yes z ↦ elim (balloc-cases (s.inode p).dev s) [
    | inl (e, used) ↦ subst (OwnEnsures p i s) (sym (own_none p i s z e)) used
    | inr (n, e, small, free) ↦
        let dev : ℕ = (s.inode p).dev in
        let r : Inode = record (s.inode p) { addrs = update (s.inode p).addrs i n } in
        let self : (given p i s n).inode p ≡ r = update_self s.inode p r in
        let h = allocated_lem dev n s made.apart small free in
        let m = allocated-IsMade dev n s made small free in
        subst (OwnEnsures p i s) (sym (own_new p i s n z e)) (
          positive dev n s made free,
          ap (λ (x : Inode). x.addrs i) self ∙ update_self (s.inode p).addrs i n,
          ap (λ (x : Inode). x.dev) self,
          record { apart = m.apart; boot = m.boot },
          refl,
          λ c k ne. h.3 c k ne,
        )
  ]
]

module _ (dev addr k : ℕ) (s : Fs) where
  abbrev pub entry : ℕ
  entry = get32 (s.block dev addr) (4 * k)

  abbrev pub entered : ℕ → Fs → Fs
  entered n y = set_block dev addr (put32 (s.block dev addr) (4 * k) n) y

  abbrev entering : Bool → Option (ℕ × Fs)
  entering t =
      (if t then (λ x. and_then (balloc dev x) (λ n y. some (n, entered n y))) else pure entry) s

  indirect-entering : indirect dev addr k s ≡ entering (entry == 0)
  unfolding indirect
  indirect-entering = refl

  pub indirect_found : entry ≢ 0 → indirect dev addr k s ≡ some (entry, s)
  indirect_found ne = indirect-entering ∙ ap entering (ne→false _ 0 ne)

  pub indirect_after :
      entry ≡ 0 → indirect dev addr k s ≡ and_then (balloc dev s) (λ n y. some (n, entered n y))
  indirect_after z = indirect-entering ∙ ap entering (ap (λ x. x == 0) z)

abbrev pub IndirectEnsures : ℕ → ℕ → ℕ → Fs → Option (ℕ × Fs) → Type 0
IndirectEnsures dev addr k s none = (c : ℕ) → c < s.sb.size → is_free s dev c ≡ false
IndirectEnsures dev addr k s (some (a, s')) =
    (a ≢ 0) × (s'.inode ≡ s.inode) × (indirect dev addr k s' ≡ some (a, s'))

pub indirect_lem :
    (dev addr k : ℕ) (s : Fs)
    → IsMade dev s
    → s.sb.size < 2 ^ 32
    → IndirectEnsures dev addr k s (indirect dev addr k s)
indirect_lem dev addr k s made words = elim (ℕ_discrete (entry dev addr k s) 0) [
  | no ne ↦
      let e = indirect_found dev addr k s ne in
      subst (IndirectEnsures dev addr k s) (sym e) (ne, refl, e)
  | yes z ↦ elim (balloc-cases dev s) [
    | inl (e, used) ↦
        let found : indirect dev addr k s ≡ none =
          indirect_after dev addr k s z
          ∙ ap (λ r. and_then r (λ n y. some (n, entered dev addr k s n y))) e in
        subst (IndirectEnsures dev addr k s) (sym found) used
    | inr (n, e, small, free) ↦
        let s' : Fs = entered dev addr k s n (allocated dev n s) in
        let found : indirect dev addr k s ≡ some (n, s') =
          indirect_after dev addr k s z
          ∙ ap (λ r. and_then r (λ n y. some (n, entered dev addr k s n y))) e in
        let ne = positive dev n s made free in
        let bytes : Bytes = put32 (s.block dev addr) (4 * k) n in
        let same : entry dev addr k s' ≡ n =
          ap (λ m. get32 m (4 * k)) (block_self dev addr bytes (allocated dev n s))
          ∙ get32-put32 (s.block dev addr) (4 * k) n (omega arith) in
        subst (IndirectEnsures dev addr k s) (sym found) (
          ne,
          refl,
          indirect_found dev addr k s' (λ y. ne (sym same ∙ y)) ∙ ap (λ x. some (x, s')) same,
        )
  ]
]
