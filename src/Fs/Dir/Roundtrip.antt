-- ===== src/Fs/Dir/Roundtrip.antt =====
-- assignment-3/fs.c: `dirlookup` behind `dirlink`.
use cs_1217_operating_system.Base.{
  ℕ, ◌+◌, ◌/◌, ◌%◌, ◌≡◌, ◌≢◌, ◌<◌, ◌≤◌, refl, sym, ap, ◌∙◌, true, not, ◌&&◌, Option, none, some,
  List, ◌==◌, if◌then◌else◌, ne→false, ℕ_discrete, inl, inr, arith,
}
use mathlib.Core.Bool.{true≢false}
use cs_1217_operating_system.Fs.{Fs, Cmd, and_then, pure, panic, ◌>>◌}
use cs_1217_operating_system.Fs.Content.{iput}
use cs_1217_operating_system.Fs.Data.{Devices, slice, splice, writei}
use cs_1217_operating_system.Fs.Dir.{
  Dirent, namecmp, dirlookup, empty_from, byte_of, new_dirent, add_dirent, dirlink,
}
use cs_1217_operating_system.Fs.Extent.Supply.{supply}
use cs_1217_operating_system.Fs.Extent.Write.{byte, max_size, splice_out}
use cs_1217_operating_system.Fs.Extent.Roundtrip.{Written, writei_lem}
use cs_1217_operating_system.Fs.Dir.Entries.{entry_at, IsDir, size_of, is_match}
use cs_1217_operating_system.Fs.Dir.Lookup.{opened, Misses, dirlookup_lem}
use cs_1217_operating_system.Fs.Dir.Link.{
  same_name_copy, entry-eq, linked_entry, new_entry, empty_from_lem,
}

linked-match : (inum : ℕ) (name : List ℕ) → inum ≢ 0 → is_match name (linked_entry inum name) ≡ true
unfolding namecmp
linked-match inum name nz =
    ap (λ t. not t && namecmp name (slice (byte_of name) 0 14)) (ne→false inum 0 nz)
    ∙ same_name_copy 14 name

module _ (devices : Devices) (dev p : ℕ) (name : List ℕ) (inum : ℕ) where
  -- The directory after the entry has been written at the offset `at`
  module _ (at : ℕ) (s s' : Fs) (d : IsDir devices dev p s) (low : at ≤ size_of devices dev p s)
      (ax : at % 16 ≡ 0) (small : inum < 65536) (nz : inum ≢ 0)
      (wrote : Written devices dev p (new_dirent inum name) at 16 s s') where
    written-IsDir : IsDir devices dev p s'
    written-IsDir = record {
      whole = wrote.whole;
      is_dir = wrote.type_ ∙ d.is_dir;
      aligned = ground (arith, wrote.size, d.aligned);
    }

    written_entry : entry_at (byte dev p s') at ≡ linked_entry inum name
    written_entry =
        entry-eq (byte dev p s') (splice (byte dev p s) at (new_dirent inum name) 16) at
          (λ i lo hi. wrote.bytes i (ground arith))
        ∙ new_entry (byte dev p s) at inum name small

    other_entry :
        (x : ℕ)
        → x < size_of devices dev p s
        → x % 16 ≡ 0
        → x ≢ at
        → entry_at (byte dev p s') x ≡ entry_at (byte dev p s) x
    other_entry x lt xx ne = entry-eq (byte dev p s') (byte dev p s) x (λ i lo hi.
        wrote.bytes i (ground (arith, d.aligned))
        ∙ splice_out (byte dev p s) at (new_dirent inum name) 16 i (λ y. absurd (omega arith)))

    matches : is_match name (entry_at (byte dev p s') at) ≡ true
    matches = ap (is_match name) written_entry ∙ linked-match inum name nz

    -- The entry is the only one with the name, if there was none.
    only :
        Misses devices dev p name s 0 (size_of devices dev p s)
        → (x : ℕ) → x < size_of devices dev p s'
        → x % 16 ≡ 0
        → is_match name (entry_at (byte dev p s') x) ≡ true
        → x ≡ at
    only miss x lt xx hit = elim (ℕ_discrete x at) [
      | yes e ↦ e
      | no ne ↦
          let old : x < size_of devices dev p s = ground (arith, wrote.size, d.aligned) in
          absurd (
            true≢false (
              sym hit ∙ ap (is_match name) (other_entry x old xx ne) ∙ miss x (omega arith) old xx))
    ]

    found :
        Misses devices dev p name s 0 (size_of devices dev p s)
        → dirlookup devices p name s' ≡ opened devices dev p name at inum s'
    found miss = elim (dirlookup_lem devices dev p name s' written-IsDir) [
      | inl (e, none_) ↦
          absurd (true≢false (sym matches ∙ none_ at (omega arith) (ground (arith, wrote.size)) ax))
      | inr (x, e, lo, lt, xx, hit, before) ↦
          let same : x ≡ at = only miss x lt xx hit in
          e
          ∙ ap (λ y. opened devices dev p name y (entry_at (byte dev p s') y).inum s') same
          ∙ ap (λ (de : Dirent). opened devices dev p name at de.inum s') written_entry
    ]

  -- `writei` of an entry, and its check
  abbrev checked : Option ℕ → Cmd (Option ℕ)
  checked done = elim done [ none ↦ panic | some n ↦ if n == 16 then pure (some 0) else panic ]

  abbrev putting : Option (ℕ × Fs) → Option (Option ℕ × Fs)
  putting r =
      and_then r (λ off v. and_then (writei devices p (new_dirent inum name) off 16 v) checked)

  abbrev linking : Option (Option (ℕ × ℕ) × Fs) → Option (Option ℕ × Fs)
  linking r = and_then r (λ found. elim found [
    | some (ip, _) ↦ iput ip >> pure none
    | none ↦ add_dirent devices p name inum
  ])

  -- What is known after `dirlink`: the entry is in a place that was free, and `dirlookup` finds it there.
  abbrev pub Linked : Fs → Type 0
  Linked s =
      (s' : Fs) × (at : ℕ) × (dirlink devices p name inum s ≡ some (some 0, s'))
      × (dirlookup devices p name s' ≡ opened devices dev p name at inum s')
      × IsDir devices dev p s'
      × (at < size_of devices dev p s → (entry_at (byte dev p s) at).inum ≡ 0)
      × ((x : ℕ)
          → x < size_of devices dev p s
          → x % 16 ≡ 0
          → x ≢ at
          → entry_at (byte dev p s') x ≡ entry_at (byte dev p s) x)

  dirlink-missing :
      (s : Fs)
      → IsDir devices dev p s
      → Misses devices dev p name s 0 (size_of devices dev p s)
      → dirlookup devices p name s ≡ some (none, s)
  dirlink-missing s d miss = elim (dirlookup_lem devices dev p name s d) [
    | inl (e, none_) ↦ e
    | inr (x, e, lo, lt, xx, hit, before) ↦ absurd (true≢false (sym hit ∙ miss x lo lt xx))
  ]

  add_dirent-putting :
      (s : Fs)
      → add_dirent devices p name inum s
        ≡ putting (empty_from devices p ((s.inode p).size / 16 + 1) 0 s)
  unfolding add_dirent
  add_dirent-putting s = refl

  -- In a directory that owns its blocks and has whole entries, with no entry of the name, with room for one more and two
  -- free blocks, `dirlink` of a number other than 0 of 16 bits succeeds, `dirlookup` of the name then answers that
  -- inode, the entry took a free place or the end, and the other entries are as they were.
  pub dirlookup-dirlink :
      (s : Fs)
      → IsDir devices dev p s
      → Misses devices dev p name s 0 (size_of devices dev p s)
      → inum ≢ 0
      → inum < 65536
      → size_of devices dev p s + 16 ≤ max_size
      → 2 ≤ supply dev s
      → Linked s
  unfolding dirlink
  dirlookup-dirlink s d miss nz small room some_ =
      let (at, e, lo, low, ax, free) =
        empty_from_lem devices dev p s d ((s.inode p).size / 16 + 1) 0 (omega arith) (omega arith)
          refl in
      let (s', wrote) =
        writei_lem devices dev p (new_dirent inum name) at 16 s d.whole
          (λ z. omega (arith, d.is_dir, z)) low (omega arith) (omega (arith, some_, ax)) in
      (
        s',
        at,
        ap linking (dirlink-missing s d miss)
            ∙ add_dirent-putting s
            ∙ ap putting e
            ∙ ap (λ r. and_then r checked) wrote.ran,
        found at s s' d low ax small nz wrote miss,
        written-IsDir at s s' d low ax small nz wrote,
        free,
        other_entry at s s' d low ax small nz wrote,
      )
