-- ===== src/Fs/Dir/Lookup.antt =====
-- assignment-3/fs.c: `dirlookup` in a directory that owns its blocks.
use cs_1217_operating_system.Base.{
  ℕ, zero, suc, ◌+◌, ◌*◌, ◌/◌, ◌%◌, ◌≡◌, ◌<◌, ◌≤◌, ◌⊎◌, refl, sym, ap, subst, ◌∙◌, Bool, true,
  false, not, ◌&&◌, Option, none, some, List, ◌==◌, if◌then◌else◌, ltb, lt→ltb, ℕ_discrete, dec_lt,
  Bool-cases, inl, inr, arith,
}
use cs_1217_operating_system.Fs.{Fs, Cmd, and_then, pure, panic}
use cs_1217_operating_system.Fs.Inodes.{iget}
use cs_1217_operating_system.Fs.Data.{Devices, t_dir, readi}
use cs_1217_operating_system.Fs.Dir.{Dirent, dirent_of, namecmp, lookup_from, dirlookup}
use cs_1217_operating_system.Fs.Extent.Write.{byte}
use cs_1217_operating_system.Fs.Dir.Entries.{entry_at, IsDir, size_of, read_entry, is_match}

one_test :
    {A : Type 0} (t u : Bool) (rest found : A)
    → (if t then rest else if u then found else rest) ≡ (if not t && u then found else rest)
one_test true u rest found = refl
one_test false true rest found = refl
one_test false false rest found = refl

module _ (devices : Devices) (dev p : ℕ) (name : List ℕ) where
  -- The inode of an entry, from the cache
  abbrev pub opened : ℕ → ℕ → Fs → Option (Option (ℕ × ℕ) × Fs)
  opened at inum s = and_then (iget dev inum s) (λ ip. pure (some (ip, at)))

  abbrev pub Misses : Fs → (lo hi : ℕ) → Type 0
  Misses s lo hi =
      (at : ℕ)
      → lo ≤ at
      → at < hi
      → at % 16 ≡ 0
      → is_match name (entry_at (byte dev p s) at) ≡ false

  -- What a search from the offset `lo` on answers: nothing, when no entry has the name, or the first entry that has it
  abbrev pub LookupEnsures : Fs → ℕ → Option (Option (ℕ × ℕ) × Fs) → Type 0
  LookupEnsures s lo r =
      ((r ≡ some (none, s)) × Misses s lo (size_of devices dev p s))
      ⊎ ((at : ℕ) × (r ≡ opened at (entry_at (byte dev p s) at).inum s)
          × (lo ≤ at)
          × (at < size_of devices dev p s)
          × (at % 16 ≡ 0)
          × (is_match name (entry_at (byte dev p s) at) ≡ true)
          × Misses s lo at)

  module _ (s : Fs) (d : IsDir devices dev p s) where
    abbrev next : ℕ → ℕ → ℕ → Dirent → Cmd (Option (ℕ × ℕ))
    next on k off de =
        if de.inum == 0
        then lookup_from devices p name k (off + 16)
        else if namecmp name de.name
        then (λ x. and_then (iget on de.inum x) (λ ip. pure (some (ip, off))))
        else lookup_from devices p name k (off + 16)

    abbrev round : ℕ → ℕ → Bool → Option (Option (ℕ × ℕ) × Fs)
    round k off t =
        (if not t then pure none else (λ x.
            and_then (readi devices p off 16 x)
              (λ r v. and_then (dirent_of r v) (next (s.inode p).dev k off))))
          s

    lookup_from-suc :
        (k off : ℕ)
        → lookup_from devices p name (suc k) off s ≡ round k off (ltb off (s.inode p).size)
    unfolding lookup_from
    lookup_from-suc k off = refl

    abbrev chosen : ℕ → ℕ → Dirent → Bool → Option (Option (ℕ × ℕ) × Fs)
    chosen k off de t =
        (if t
            then (λ x. and_then (iget (s.inode p).dev de.inum x) (λ ip. pure (some (ip, off))))
            else lookup_from devices p name k (off + 16))
          s

    -- A round that reads an entry
    round_lem :
        (k off : ℕ)
        → off < size_of devices dev p s
        → off % 16 ≡ 0
        → lookup_from devices p name (suc k) off s
          ≡ chosen k off (entry_at (byte dev p s) off) (is_match name (entry_at (byte dev p s) off))
    round_lem k off inside at =
        let de : Dirent = entry_at (byte dev p s) off in
        lookup_from-suc k off
        ∙ ap (round k off) (lt→ltb _ _ inside)
        ∙ read_entry devices dev p off s (next (s.inode p).dev k off) d inside at
        ∙ ap (λ c. c s)
            (one_test (de.inum == 0) (namecmp name de.name)
              (lookup_from devices p name k (off + 16))
              (λ x. and_then (iget (s.inode p).dev de.inum x) (λ ip. pure (some (ip, off)))))

    missed_more :
        (off hi : ℕ)
        → is_match name (entry_at (byte dev p s) off) ≡ false
        → off % 16 ≡ 0
        → Misses s (off + 16) hi
        → Misses s off hi
    missed_more off hi miss at more x lo lt ax = elim (ℕ_discrete x off) [
      | yes e ↦ subst (λ z. is_match name (entry_at (byte dev p s) z) ≡ false) (sym e) miss
      | no ne ↦ more x (omega arith) lt ax
    ]

    pub lookup_from_lem :
        (k off : ℕ)
        → size_of devices dev p s ≤ off + 16 * k
        → off % 16 ≡ 0
        → LookupEnsures s off (lookup_from devices p name k off s)
    unfolding lookup_from
    lookup_from_lem zero off enough at = inl (refl, λ x lo lt. absurd (omega arith))
    lookup_from_lem (suc k) off enough at = elim (dec_lt off (size_of devices dev p s)) [
      | no out ↦
          let stop : ltb off (s.inode p).size ≡ false = ground arith in
          inl (lookup_from-suc k off ∙ ap (round k off) stop, λ x lo lt. absurd (omega arith))
      | yes inside ↦ elim (Bool-cases (is_match name (entry_at (byte dev p s) off))) [
        | inl hit ↦ inr (
          off,
          round_lem k off inside at
              ∙ ap (chosen k off (entry_at (byte dev p s) off)) hit
              ∙ ap
                  (λ on.
                    and_then (iget on (entry_at (byte dev p s) off).inum s)
                      (λ ip. pure (some (ip, off))))
                  d.whole.file.on,
          omega arith,
          inside,
          at,
          hit,
          λ x lo lt. absurd (omega arith),
        )
        | inr miss ↦
            let same =
              round_lem k off inside at ∙ ap (chosen k off (entry_at (byte dev p s) off)) miss in
            elim (lookup_from_lem k (off + 16) (omega arith) (omega arith)) [
              | inl (e, none_) ↦
                  inl (same ∙ e, missed_more off (size_of devices dev p s) miss at none_)
              | inr (x, e, lo, lt, ax, hit, before) ↦
                  inr (x, same ∙ e, omega arith, lt, ax, hit, missed_more off x miss at before)
            ]
      ]
    ]

  -- In a directory that owns its blocks and has whole entries, `dirlookup` answers the inode of the first entry in use
  -- with the name, and the offset of the entry, or nothing and no change when no entry in use has the name.
  pub dirlookup_lem :
      (s : Fs) → IsDir devices dev p s → LookupEnsures s 0 (dirlookup devices p name s)
  unfolding dirlookup
  dirlookup_lem s d =
      let dir : ((s.inode p).type_ == t_dir) ≡ true = ap (λ x. x == t_dir) d.is_dir in
      subst (LookupEnsures s 0)
        (sym (
          ap
            (λ t.
              (if not t then panic else lookup_from devices p name ((s.inode p).size / 16 + 1) 0) s)
            dir))
        (lookup_from_lem s d ((s.inode p).size / 16 + 1) 0 (omega arith) refl)
