-- ===== src/Fs/Dir.antt =====
-- assignment-3/fs.c: directories. A name is the list of its bytes, at most `DIRSIZ` of them, without the NUL.
pub mod Entries
pub mod Lookup
pub mod Link
pub mod Roundtrip
pub mod Sample
mod Tests
use cs_1217_operating_system.Base.{
  ℕ, zero, suc, ◌+◌, ◌-◌, ◌*◌, ◌/◌, ◌%◌, Bool, true, false, not, Option, none, some, List, [], ◌∷◌,
  ltb, ◌==◌, if◌then◌else◌,
}
use cs_1217_operating_system.Fs.{Cmd, panic, pure, ◌>>=◌, ◌>>◌, inode_at}
use cs_1217_operating_system.Fs.Bytes.{Bytes, dirsiz, dirent_size}
use cs_1217_operating_system.Fs.Inodes.{iget}
use cs_1217_operating_system.Fs.Content.{iput}
use cs_1217_operating_system.Fs.Data.{Devices, t_dir, readi, writei}

-- `strncmp(s, t, k) == 0`; the end of a list is a NUL.
unfoldable pub same_name : ℕ → List ℕ → List ℕ → Bool
same_name zero s t = true
same_name (suc k) [] [] = true
same_name (suc k) [] (d ∷ t) = d == 0
same_name (suc k) (c ∷ s) [] = c == 0
same_name (suc k) (c ∷ s) (d ∷ t) =
    let rest = same_name k s t in if c == d then (if c == 0 then true else rest) else false

-- `namecmp(s, t) == 0`
unfoldable pub namecmp : List ℕ → List ℕ → Bool
unfolding same_name
namecmp s t = same_name dirsiz s t

-- A `struct dirent`: its number and its name
pub record Dirent : Type 0 where
  pub inum : ℕ
  pub name : List ℕ

-- The entry that `readi` has read; other than 16 bytes are a panic.
unfoldable pub dirent_of : Option (List ℕ) → Cmd Dirent
dirent_of none = panic
dirent_of (some bytes) = elim bytes [
  | [] ↦ panic
  | low ∷ more ↦ elim more [
    | [] ↦ panic
    | high ∷ name ↦
        if count name == dirsiz
        then pure (record { inum = low + 256 * high; name = name })
        else panic
  ]
]
  where
    count : List ℕ → ℕ
    count [] = 0
    count (c ∷ cs) = count cs + 1

-- The loop of `dirlookup`: the inode and where its entry is
unfoldable pub lookup_from : Devices → ℕ → List ℕ → ℕ → ℕ → Cmd (Option (ℕ × ℕ))
unfolding readi dirent_of namecmp iget
lookup_from devices dp name zero off = pure none
lookup_from devices dp name (suc k) off = do
  dir ← inode_at dp
  if not (ltb off dir.size) then pure none else (do
    read ← readi devices dp off dirent_size
    de ← dirent_of read
    if de.inum == 0
        then lookup_from devices dp name k (off + dirent_size)
        else if namecmp name de.name
        then (do ip ← iget dir.dev de.inum; pure (some (ip, off)))
        else lookup_from devices dp name k (off + dirent_size))

-- `dirlookup`
unfoldable pub dirlookup : Devices → ℕ → List ℕ → Cmd (Option (ℕ × ℕ))
unfolding lookup_from
dirlookup devices dp name = do
  dir ← inode_at dp
  if not (dir.type_ == t_dir)
      then panic
      else lookup_from devices dp name (dir.size / dirent_size + 1) 0

-- The loop of `dirlink`: the first entry that is free, or the end
unfoldable pub empty_from : Devices → ℕ → ℕ → ℕ → Cmd ℕ
unfolding readi dirent_of
empty_from devices dp zero off = pure off
empty_from devices dp (suc k) off = do
  dir ← inode_at dp
  if not (ltb off dir.size) then pure off else (do
    read ← readi devices dp off dirent_size
    de ← dirent_of read
    if de.inum == 0 then pure off else empty_from devices dp k (off + dirent_size))

-- `strncpy(de.name, name, DIRSIZ)`, byte by byte
abbrev pub byte_of : List ℕ → ℕ → ℕ
byte_of [] i = 0
byte_of (c ∷ cs) i = elim i [ zero ↦ c | suc j ↦ byte_of cs j ]

abbrev pub new_dirent : ℕ → List ℕ → Bytes
new_dirent inum name i =
    if i == 0 then inum % 256 else if i == 1 then inum / 256 % 256 else byte_of name (i - 2)

unfoldable pub add_dirent : Devices → ℕ → List ℕ → ℕ → Cmd (Option ℕ)
unfolding empty_from writei
add_dirent devices dp name inum = do
  dir ← inode_at dp
  off ← empty_from devices dp (dir.size / dirent_size + 1) 0
  done ← writei devices dp (new_dirent inum name) off dirent_size
  elim done [ none ↦ panic | some n ↦ if n == dirent_size then pure (some 0) else panic ]

-- `dirlink`: `none` is -1.
unfoldable pub dirlink : Devices → ℕ → List ℕ → ℕ → Cmd (Option ℕ)
unfolding dirlookup iput add_dirent
dirlink devices dp name inum = do
  found ← dirlookup devices dp name
  elim found [ some (ip, _) ↦ iput ip >> pure none | none ↦ add_dirent devices dp name inum ]
