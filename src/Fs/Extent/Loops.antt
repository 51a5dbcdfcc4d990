-- ===== src/Fs/Extent/Loops.antt =====
-- assignment-3/fs.c: the loops of `writei` and `readi` on an inode that owns its blocks.
use cs_1217_operating_system.Base.{
  ℕ, zero, suc, ◌+◌, ◌-◌, ◌/◌, ◌%◌, ◌≡◌, ◌≢◌, ◌<◌, ◌≤◌, ◌⊎◌, refl, sym, ap, subst, ◌∙◌, Bool,
  Option, some, ◌==◌, if◌then◌else◌, ne→false, dec_lt, ℕ_discrete, inl, inr, arith,
}
use cs_1217_operating_system.Fs.{Fs, Cmd, and_then, set_block, pure}
use cs_1217_operating_system.Fs.Bytes.{Bytes}
use cs_1217_operating_system.Fs.Content.{bmap}
use cs_1217_operating_system.Fs.Data.{chunk, splice, write_from}
use cs_1217_operating_system.Fs.Extent.{indirect_at}
use cs_1217_operating_system.Fs.Extent.Supply.{supply}
use cs_1217_operating_system.Fs.Extent.Growth.{home, IsFile}
use cs_1217_operating_system.Fs.Extent.Store.{stored-supply}
use cs_1217_operating_system.Fs.Extent.Find.{bmap-Finds}
use cs_1217_operating_system.Fs.Extent.Write.{
  need, max_size, Wrote, Wrote-none, Wrote-trans, chunked, chunk-Wrote,
}

-- A chunk is not empty, ends in its block, and reaches the end of it unless it is the last.
pub chunk_lem :
    (left off : ℕ)
    → left ≢ 0
    → (0 < chunk left off)
      × (chunk left off ≤ left)
      × (off % 512 + chunk left off ≤ 512)
      × ((chunk left off ≡ left)
          ⊎ (((off + chunk left off) % 512 ≡ 0) × (off % 512 + chunk left off ≡ 512)))
chunk_lem left off ne = elim (dec_lt left (512 - off % 512)) [
  | yes h ↦
      let e : chunk left off ≡ left = ground arith in
      (omega (arith, e), omega (arith, e), omega (arith, e), inl e)
  | no h ↦
      let e : chunk left off ≡ 512 - off % 512 = ground arith in
      (
        omega (arith, e),
        omega (arith, e),
        omega (arith, e),
        inr (omega (arith, e), omega (arith, e)),
      )
]

pub shorter : (left k m : ℕ) → 0 < m → left ≤ suc k → left - m ≤ k
shorter left k m some_ fuel = omega arith

pub together : (left m : ℕ) → m ≤ left → m + (left - m) ≡ left
together left m within = omega arith

pub later : (off left m : ℕ) → m ≤ left → off + left ≤ max_size → off + m + (left - m) ≤ max_size
later off left m within room = omega arith

-- A chunk that ends its block takes two blocks from what the write needs.
need_step :
    (off left m : ℕ)
    → m ≤ left
    → left - m ≢ 0
    → (off + m) % 512 ≡ 0
    → off % 512 + m ≡ 512
    → need off left ≡ 2 + need (off + m) (left - m)
need_step off left m within more_ zero_ full = omega arith

-- What is left is enough for the chunks behind the first.
rest_enough :
    (off left m before after stored_ : ℕ)
    → m ≤ left
    → left - m ≢ 0
    → (m ≡ left) ⊎ (((off + m) % 512 ≡ 0) × (off % 512 + m ≡ 512))
    → need off left ≤ before
    → before ≤ after + 2
    → stored_ ≡ after
    → need (off + m) (left - m) ≤ stored_
rest_enough off left m before after stored_ within more_ ends supplied cost rich = elim ends [
  | inl e ↦ absurd (more_ (omega arith))
  | inr (z, full) ↦ omega (arith, need_step off left m within more_ z full)
]

module _ (dev p : ℕ) where
  module _ (k : ℕ) (src : Bytes) (off left : ℕ) where
    abbrev c : ℕ
    c = chunk left off

    abbrev more : Fs → Option (Unit {0} × Fs)
    more = write_from p k (λ i. src (c + i)) (off + c) (left - c)

    -- The rounds after the call of `bmap`
    abbrev put_chunk : ℕ → ℕ → Fs → Option (Unit {0} × Fs)
    put_chunk d b y = more (set_block d b (splice (y.block d b) (off % 512) src c) y)

    abbrev writing : Bool → Cmd (Unit {0})
    writing t =
        if t then pure tt else (λ x. and_then (bmap p (off / 512) x) (put_chunk (x.inode p).dev))

    write_from-suc : (s : Fs) → write_from p (suc k) src off left s ≡ writing (left == 0) s
    unfolding write_from
    write_from-suc s = refl

  pub write_from_lem :
      (k : ℕ) (src : Bytes) (off left : ℕ) (s : Fs)
      → left ≤ k
      → off + left ≤ max_size
      → IsFile dev p s
      → (left ≢ 0 → need off left ≤ supply dev s)
      → (s' : Fs) × (write_from p k src off left s ≡ some (tt, s')) × Wrote dev p src off left s s'
  unfolding write_from
  write_from_lem zero src off left s fuel room f enough =
      (s, refl, subst (λ l. Wrote dev p src off l s s) (omega arith) (Wrote-none dev p src off s f))
  write_from_lem (suc k) src off left s fuel room f enough = elim (ℕ_discrete left 0) [
    | yes z ↦ (
      s,
      write_from-suc k src off left s ∙ ap (λ l. writing k src off left (l == 0) s) z,
      subst (λ l. Wrote dev p src off l s s) (sym z) (Wrote-none dev p src off s f),
    )
    | no ne ↦
        let (some_, within, fits, ends) = chunk_lem left off ne in
        let m : ℕ = chunk left off in
        let supplied = enough ne in
        let lt : off / 512 < indirect_at = omega arith in
        let (s1, e1, f1, ne1, kept) = bmap-Finds dev p (off / 512) s lt f (omega arith) in
        let wrote = chunk-Wrote dev p src off m s s1 f1 ne1 kept fits (omega arith) lt in
        let s2 : Fs = chunked dev p src off m s s1 f1 ne1 kept fits (omega arith) lt in
        let rich =
          stored-supply dev p (off / 512)
            (splice (s1.block dev (home dev p s1 (off / 512))) (off % 512) src m) s1 f1 lt ne1 in
        let (s3, e3, rest) =
          write_from_lem k (λ i. src (m + i)) (off + m) (left - m) s2 (shorter left k m some_ fuel)
            (later off left m within room) wrote.file
            (λ more_.
              rest_enough off left m (supply dev s) (supply dev s1) (supply dev s2) within more_
                ends supplied kept.cost rich) in
        (
          s3,
          write_from-suc k src off left s
              ∙ ap (λ t. writing k src off left t s) (ne→false left 0 ne)
              ∙ ap (λ r. and_then r (put_chunk k src off left (s.inode p).dev)) e1
              ∙ ap (λ d. put_chunk k src off left d (home dev p s1 (off / 512)) s1) f.on
              ∙ e3,
          subst (λ l. Wrote dev p src off l s s3) (together left m within)
              (Wrote-trans dev p src off m (left - m) s s2 s3 (later off left m within room) wrote
                rest),
        )
  ]
