-- ===== src/Fs/Dir/Tests.antt =====
-- assignment-3/fs.c: runs of `dirlookup` and `dirlink`.
use cs_1217_operating_system.Base.{ℕ, ◌≡◌, ◌≤◌, refl, sym, subst, false, [], ◌∷◌, ℕ_discrete, arith}
use cs_1217_operating_system.Fs.Data.{slice}
use cs_1217_operating_system.Fs.Dir.{namecmp, dirlookup}
use cs_1217_operating_system.Fs.Extent.{home_of}
use cs_1217_operating_system.Fs.Extent.Supply.{supply}
use cs_1217_operating_system.Fs.Extent.Write.{byte}
use cs_1217_operating_system.Fs.Extent.Sample as Small
use cs_1217_operating_system.Fs.Dir.Entries.{entry_at, is_match}
use cs_1217_operating_system.Fs.Dir.Lookup.{Misses, LookupEnsures, dirlookup_lem}
use cs_1217_operating_system.Fs.Dir.Roundtrip.{Linked, dirlookup-dirlink}
use cs_1217_operating_system.Fs.Dir.Sample.{no_devices, entries, disk, disk-IsDir}

dirlookup_lem_example :
    LookupEnsures no_devices 1 0 (97 ∷ []) disk 0 (dirlookup no_devices 0 (97 ∷ []) disk)
dirlookup_lem_example = dirlookup_lem no_devices 1 0 (97 ∷ []) disk disk-IsDir

abbrev MissesAt : ℕ → Type 0
MissesAt at = is_match (98 ∷ []) (entry_at (byte 1 0 disk) at) ≡ false

no_b : Misses no_devices 1 0 (98 ∷ []) disk 0 48
unfolding slice namecmp home_of
no_b at lo lt ax = elim (ℕ_discrete at 0) [
  | yes e ↦ subst MissesAt (sym e) refl
  | no n0 ↦ elim (ℕ_discrete at 16) [
    | yes e ↦ subst MissesAt (sym e) refl
    | no n1 ↦ let e : at ≡ 32 = omega arith in subst MissesAt (sym e) refl
  ]
]

some_free : 2 ≤ supply 1 disk
some_free = omega (arith, Small.supply-disk 1 48 entries)

dirlookup-dirlink_example : Linked no_devices 1 0 (98 ∷ []) 9 disk
dirlookup-dirlink_example =
    dirlookup-dirlink no_devices 1 0 (98 ∷ []) 9 disk disk-IsDir no_b (λ e. omega arith)
      (omega arith) (omega arith) some_free
