-- ===== src/Fs/Extent/Read.antt =====
-- assignment-3/fs.c: the loop of `readi` on an inode that owns its blocks.
use cs_1217_operating_system.Base.{
  ℕ, zero, suc, ◌+◌, ◌-◌, ◌/◌, ◌%◌, ◌≡◌, ◌≢◌, ◌<◌, ◌≤◌, refl, sym, ap, ◌∙◌, Bool, Option, some,
  List, [], ◌∷◌, ◌++◌, ◌==◌, if◌then◌else◌, ne→false, ℕ_discrete, arith,
}
use cs_1217_operating_system.Fs.{Fs, Cmd, and_then, pure}
use cs_1217_operating_system.Fs.Bytes.{Bytes}
use cs_1217_operating_system.Fs.Content.{bmap}
use cs_1217_operating_system.Fs.Data.{chunk, slice, read_from}
use cs_1217_operating_system.Fs.Extent.Growth.{home, IsFile}
use cs_1217_operating_system.Fs.Extent.Find.{bmap_has}
use cs_1217_operating_system.Fs.Extent.Write.{max_size, byte}
use cs_1217_operating_system.Fs.Extent.Loops.{chunk_lem, shorter, together, later}

pub slice-eq :
    (k : ℕ) (f g : Bytes) (a b : ℕ)
    → ((i : ℕ) → i < k → f (a + i) ≡ g (b + i))
    → slice f a k ≡ slice g b k
unfolding slice
slice-eq zero f g a b h = refl
slice-eq (suc k) f g a b h =
    let first : f a ≡ g b = ap f (omega arith) ∙ h 0 (omega arith) ∙ ap g (omega arith) in
    let rest =
      slice-eq k f g (a + 1) (b + 1)
        (λ i lt. ap f (omega arith) ∙ h (suc i) (omega arith) ∙ ap g (omega arith)) in
    ap (λ x. x ∷ slice f (a + 1) k) first ∙ ap (λ l. g b ∷ l) rest

slice-++ :
    (c left : ℕ) (f : Bytes) (a : ℕ) → slice f a c ++ slice f (a + c) left ≡ slice f a (c + left)
unfolding slice
slice-++ zero left f a =
    let start : a + 0 ≡ a = omega arith in
    let all : left ≡ 0 + left = omega arith in ap (λ x. slice f x left) start ∙ ap (slice f a) all
slice-++ (suc c) left f a =
    let next : a + suc c ≡ a + 1 + c = omega arith in
    let all : suc (c + left) ≡ suc c + left = omega arith in
    ap (λ l. f a ∷ l)
      (ap (λ x. slice f (a + 1) c ++ slice f x left) next ∙ slice-++ c left f (a + 1))
    ∙ ap (slice f a) all

module _ (dev p : ℕ) where
  module _ (k off left : ℕ) where
    abbrev c : ℕ
    c = chunk left off

    abbrev get_chunk : ℕ → ℕ → Fs → Option (List ℕ × Fs)
    get_chunk d b y =
        and_then (read_from p k (off + c) (left - c) y)
          (λ rest z. some (slice (y.block d b) (off % 512) c ++ rest, z))

    abbrev reading : Bool → Cmd (List ℕ)
    reading t =
        if t then pure [] else (λ x. and_then (bmap p (off / 512) x) (get_chunk (x.inode p).dev))

    read_from-suc : (s : Fs) → read_from p (suc k) off left s ≡ reading (left == 0) s
    unfolding read_from
    read_from-suc s = refl

  -- The bytes of a chunk, from its block
  chunk_bytes :
      (off m : ℕ) (s : Fs)
      → off % 512 + m ≤ 512
      → slice (s.block dev (home dev p s (off / 512))) (off % 512) m ≡ slice (byte dev p s) off m
  chunk_bytes off m s fits =
      slice-eq m (s.block dev (home dev p s (off / 512))) (byte dev p s) (off % 512) off (λ i lt.
        let same_block : off / 512 ≡ (off + i) / 512 = omega arith in
        let same_place : off % 512 + i ≡ (off + i) % 512 = omega arith in
        ap (λ k. s.block dev (home dev p s k) (off % 512 + i)) same_block
        ∙ ap (s.block dev (home dev p s ((off + i) / 512))) same_place)

  pub read_from_lem :
      (k off left : ℕ) (s : Fs)
      → left ≤ k
      → off + left ≤ max_size
      → IsFile dev p s
      → ((i : ℕ) → off ≤ i → i < off + left → home dev p s (i / 512) ≢ 0)
      → read_from p k off left s ≡ some (slice (byte dev p s) off left, s)
  unfolding read_from slice
  read_from_lem zero off left s fuel room f owned =
      let none_left : 0 ≡ left = omega arith in
      ap (λ l. some (slice (byte dev p s) off l, s)) none_left
  read_from_lem (suc k) off left s fuel room f owned = elim (ℕ_discrete left 0) [
    | yes z ↦
        read_from-suc k off left s
        ∙ ap (λ l. reading k off left (l == 0) s) z
        ∙ ap (λ l. some (slice (byte dev p s) off l, s)) (sym z)
    | no ne ↦
        let (some_, within, fits, ends) = chunk_lem left off ne in
        let m : ℕ = chunk left off in
        let here = owned off (omega arith) (omega arith) in
        let rest =
          read_from_lem k (off + m) (left - m) s (shorter left k m some_ fuel)
            (later off left m within room) f (λ i lo hi. owned i (omega arith) (omega arith)) in
        read_from-suc k off left s
        ∙ ap (λ t. reading k off left t s) (ne→false left 0 ne)
        ∙ ap (λ r. and_then r (get_chunk k off left (s.inode p).dev))
            (bmap_has dev p (off / 512) s (omega arith) f here)
        ∙ ap (λ d. get_chunk k off left d (home dev p s (off / 512)) s) f.on
        ∙ ap
            (λ r. and_then r (λ rest z.
              some (slice (s.block dev (home dev p s (off / 512))) (off % 512) m ++ rest, z)))
            rest
        ∙ ap (λ b. some (b ++ slice (byte dev p s) (off + m) (left - m), s))
            (chunk_bytes off m s fits)
        ∙ ap (λ b. some (b, s)) (slice-++ m (left - m) (byte dev p s) off)
        ∙ ap (λ l. some (slice (byte dev p s) off l, s)) (together left m within)
  ]
