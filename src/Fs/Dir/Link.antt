-- ===== src/Fs/Dir/Link.antt =====
-- assignment-3/fs.c: `dirlink` in a directory that owns its blocks, and `dirlookup` behind it.
use cs_1217_operating_system.Base.{
  ℕ, zero, suc, ◌+◌, ◌-◌, ◌*◌, ◌/◌, ◌%◌, ◌≡◌, ◌<◌, ◌≤◌, refl, ap, ◌∙◌, Bool, true, false, not,
  Option, some, List, [], ◌∷◌, ◌==◌, if◌then◌else◌, ltb, lt→ltb, ne→false, ==_refl, ℕ_discrete,
  dec_lt, arith,
}
use cs_1217_operating_system.Fs.{Fs, Cmd, and_then, pure}
use cs_1217_operating_system.Fs.Bytes.{Bytes}
use cs_1217_operating_system.Fs.Data.{Devices, slice, splice, readi}
use cs_1217_operating_system.Fs.Dir.{Dirent, dirent_of, same_name, empty_from, byte_of, new_dirent}
use cs_1217_operating_system.Fs.Extent.Write.{byte}
use cs_1217_operating_system.Fs.Extent.Read.{slice-eq}
use cs_1217_operating_system.Fs.Dir.Entries.{entry_at, IsDir, size_of, read_entry}

either : (t : Bool) → (if t then true else true) ≡ true
either true = refl
either false = refl

-- A name equals what `strncpy` makes of it.
pub same_name_copy : (k : ℕ) (name : List ℕ) → same_name k name (slice (byte_of name) 0 k) ≡ true
unfolding same_name slice
same_name_copy zero name = refl
same_name_copy (suc k) [] = refl
same_name_copy (suc k) (c ∷ cs) =
    let rest : slice (byte_of (c ∷ cs)) 1 k ≡ slice (byte_of cs) 0 k =
      slice-eq k (byte_of (c ∷ cs)) (byte_of cs) 1 0 (λ i lt.
        let left : 1 + i ≡ suc i = omega arith in
        let right : i ≡ 0 + i = omega arith in
        ap (byte_of (c ∷ cs)) left ∙ ap (byte_of cs) right) in
    let ih = ap (same_name k cs) rest ∙ same_name_copy k cs in
    ap
      (λ t.
        if t
        then (if c == 0 then true else same_name k cs (slice (byte_of (c ∷ cs)) 1 k))
        else false)
      (==_refl c)
    ∙ ap (λ t. if c == 0 then true else t) ih
    ∙ either (c == 0)

-- The entries of two directories with the same bytes
pub entry-eq :
    (f g : Bytes) (off : ℕ)
    → ((i : ℕ) → off ≤ i → i < off + 16 → f i ≡ g i)
    → entry_at f off ≡ entry_at g off
entry-eq f g off h =
    let names =
      slice-eq 14 f g (off + 1 + 1) (off + 1 + 1)
        (λ i lt. h (off + 1 + 1 + i) (omega arith) (omega arith)) in
    let low = h off (omega arith) (omega arith) in
    let high = h (off + 1) (omega arith) (omega arith) in
    ap (λ x. record { inum = x + 256 * f (off + 1); name = slice f (off + 1 + 1) 14 }) low
    ∙ ap (λ x. record { inum = g off + 256 * x; name = slice f (off + 1 + 1) 14 }) high
    ∙ ap (λ l. record { inum = g off + 256 * g (off + 1); name = l }) names

-- The entry that `dirlink` writes
abbrev pub linked_entry : ℕ → List ℕ → Dirent
linked_entry inum name = record { inum = inum; name = slice (byte_of name) 0 14 }

pub new_entry :
    (bytes : Bytes) (at inum : ℕ) (name : List ℕ)
    → inum < 65536
    → entry_at (splice bytes at (new_dirent inum name) 16) at ≡ linked_entry inum name
new_entry bytes at inum name small =
    let new : Bytes = splice bytes at (new_dirent inum name) 16 in
    let low : new at ≡ inum % 256 = ground arith in
    let high : new (at + 1) ≡ inum / 256 % 256 = ground arith in
    let number : new at + 256 * new (at + 1) ≡ inum = omega (arith, low, high) in
    let names = slice-eq 14 new (byte_of name) (at + 1 + 1) 0 (λ i lt.
      let place : at + 1 + 1 + i - at - 2 ≡ 0 + i = omega arith in
      let copied : new (at + 1 + 1 + i) ≡ byte_of name (at + 1 + 1 + i - at - 2) = ground arith in
      copied ∙ ap (byte_of name) place) in
    ap (λ x. record { inum = x; name = slice new (at + 1 + 1) 14 }) number
    ∙ ap (λ l. record { inum = inum; name = l }) names

module _ (devices : Devices) (dev p : ℕ) where
  -- The offset that the loop of `dirlink` stops at
  abbrev pub EmptyEnsures : Fs → ℕ → Option (ℕ × Fs) → Type 0
  EmptyEnsures s lo r =
      (at : ℕ) × (r ≡ some (at, s))
      × (lo ≤ at)
      × (at ≤ size_of devices dev p s)
      × (at % 16 ≡ 0)
      × (at < size_of devices dev p s → (entry_at (byte dev p s) at).inum ≡ 0)

  module _ (s : Fs) (d : IsDir devices dev p s) where
    abbrev tested : ℕ → ℕ → Dirent → Cmd ℕ
    tested k off de = if de.inum == 0 then pure off else empty_from devices p k (off + 16)

    abbrev round : ℕ → ℕ → Bool → Option (ℕ × Fs)
    round k off t =
        (if not t then pure off else (λ x.
            and_then (readi devices p off 16 x) (λ r v. and_then (dirent_of r v) (tested k off))))
          s

    empty_from-suc :
        (k off : ℕ) → empty_from devices p (suc k) off s ≡ round k off (ltb off (s.inode p).size)
    unfolding empty_from
    empty_from-suc k off = refl

    pub empty_from_lem :
        (k off : ℕ)
        → size_of devices dev p s ≤ off + 16 * k
        → off ≤ size_of devices dev p s
        → off % 16 ≡ 0
        → EmptyEnsures s off (empty_from devices p k off s)
    unfolding empty_from
    empty_from_lem zero off enough low at =
        (off, refl, omega arith, low, at, λ lt. absurd (omega arith))
    empty_from_lem (suc k) off enough low at = elim (dec_lt off (size_of devices dev p s)) [
      | no out ↦
          let stop : ltb off (s.inode p).size ≡ false = ground arith in
          (
            off,
            empty_from-suc k off ∙ ap (round k off) stop,
            omega arith,
            low,
            at,
            λ lt. absurd (out lt),
          )
      | yes inside ↦
          let de : Dirent = entry_at (byte dev p s) off in
          let read =
            empty_from-suc k off
            ∙ ap (round k off) (lt→ltb _ _ inside)
            ∙ read_entry devices dev p off s (tested k off) d inside at in
          elim (ℕ_discrete de.inum 0) [
            | yes z ↦ (
              off,
              read ∙ ap (λ n. (if n == 0 then pure off else empty_from devices p k (off + 16)) s) z,
              omega arith,
              low,
              at,
              λ lt. z,
            )
            | no nz ↦
                let (x, e, lo, hi, ax, free) =
                  empty_from_lem k (off + 16) (omega arith) (omega (arith, d.aligned))
                    (omega arith) in
                (
                  x,
                  read
                      ∙ ap (λ t. (if t then pure off else empty_from devices p k (off + 16)) s)
                          (ne→false de.inum 0 nz)
                      ∙ e,
                  omega arith,
                  hi,
                  ax,
                  free,
                )
          ]
    ]
