-- ===== src/Sysfile/Empty.antt =====
-- assignment-3/sysfile.c: `isdirempty` on a directory that owns its blocks.
use cs_1217_operating_system.Base.{
  ℕ, zero, suc, ◌+◌, ◌*◌, ◌/◌, ◌%◌, ◌≡◌, ◌<◌, ◌≤◌, ◌↔◌, refl, sym, ap, ◌∙◌, Bool, true, false, not,
  Option, some, ◌==◌, if◌then◌else◌, ltb, lt→ltb, ne→false, ℕ_discrete, dec_lt, arith,
}
use mathlib.Core.Bool.{true≢false}
use cs_1217_operating_system.Fs.{Fs, Cmd, and_then, pure}
use cs_1217_operating_system.Fs.Data.{Devices, readi}
use cs_1217_operating_system.Fs.Dir.{Dirent, dirent_of}
use cs_1217_operating_system.Fs.Extent.Write.{byte}
use cs_1217_operating_system.Fs.Dir.Entries.{entry_at, IsDir, size_of, read_entry}
use cs_1217_operating_system.Sysfile.Links.{none_from, isdirempty}

module _ (devices : Devices) (dev p : ℕ) where
  -- No entry from the offset `lo` on is in use.
  abbrev pub AllFree : Fs → ℕ → Type 0
  AllFree s lo =
      (at : ℕ)
      → lo ≤ at
      → at < size_of devices dev p s
      → at % 16 ≡ 0
      → (entry_at (byte dev p s) at).inum ≡ 0

  abbrev pub EmptyAnswer : Fs → ℕ → Option (Bool × Fs) → Type 0
  EmptyAnswer s lo r = (b : Bool) × (r ≡ some (b, s)) × ((b ≡ true) ↔ AllFree s lo)

  module _ (s : Fs) (d : IsDir devices dev p s) where
    abbrev tested : ℕ → ℕ → Dirent → Cmd Bool
    tested k off de = if de.inum == 0 then none_from devices p k (off + 16) else pure false

    abbrev round : ℕ → ℕ → Bool → Option (Bool × Fs)
    round k off t =
        (if not t then pure true else (λ x.
            and_then (readi devices p off 16 x) (λ r v. and_then (dirent_of r v) (tested k off))))
          s

    none_from-suc :
        (k off : ℕ) → none_from devices p (suc k) off s ≡ round k off (ltb off (s.inode p).size)
    unfolding none_from
    none_from-suc k off = refl

    none_from_lem :
        (k off : ℕ)
        → size_of devices dev p s ≤ off + 16 * k
        → off % 16 ≡ 0
        → EmptyAnswer s off (none_from devices p k off s)
    unfolding none_from
    none_from_lem zero off enough at = (true, refl, (λ e x lo lt. absurd (omega arith), λ h. refl))
    none_from_lem (suc k) off enough at = elim (dec_lt off (size_of devices dev p s)) [
      | no out ↦
          let stop : ltb off (s.inode p).size ≡ false = ground arith in
          (
            true,
            none_from-suc k off ∙ ap (round k off) stop,
            (λ e x lo lt. absurd (omega arith), λ h. refl),
          )
      | yes inside ↦
          let de : Dirent = entry_at (byte dev p s) off in
          let read =
            none_from-suc k off
            ∙ ap (round k off) (lt→ltb _ _ inside)
            ∙ read_entry devices dev p off s (tested k off) d inside at in
          elim (ℕ_discrete de.inum 0) [
            | no nz ↦ (
              false,
              read
                  ∙ ap (λ t. (if t then none_from devices p k (off + 16) else pure false) s)
                      (ne→false de.inum 0 nz),
              (λ e. absurd (true≢false (sym e)), λ h. absurd (nz (h off (omega arith) inside at))),
            )
            | yes z ↦
                let (b, e, (to, from)) = none_from_lem k (off + 16) (omega arith) (omega arith) in
                (
                  b,
                  read
                      ∙ ap
                          (λ n. (if n == 0 then none_from devices p k (off + 16) else pure false) s)
                          z
                      ∙ e,
                  (
                    λ t x lo lt ax. elim (ℕ_discrete x off) [
                      | yes same ↦ ap (λ y. (entry_at (byte dev p s) y).inum) same ∙ z
                      | no ne ↦ to t x (omega arith) lt ax
                    ],
                    λ h. from (λ x lo lt ax. h x (omega arith) lt ax),
                  ),
                )
          ]
    ]

  -- For a directory that owns its blocks and has whole entries, `isdirempty` does not panic and changes nothing, and it
  -- answers true exactly when no entry behind the first two is in use.
  pub isdirempty_lem : (s : Fs) → IsDir devices dev p s → EmptyAnswer s 32 (isdirempty devices p s)
  unfolding isdirempty
  isdirempty_lem s d = none_from_lem s d ((s.inode p).size / 16 + 1) 32 (omega arith) refl
