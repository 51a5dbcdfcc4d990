-- ===== src/Fs/Path.antt =====
-- assignment-3/fs.c: path names. A path is the list of its bytes, without the NUL.
pub mod Elements
pub mod Rounds
use cs_1217_operating_system.Base.{
  ℕ, zero, suc, ◌+◌, Bool, true, false, ◌&&◌, not, Option, none, some, List, [], ◌∷◌, ◌==◌,
  if◌then◌else◌,
}
use cs_1217_operating_system.Fs.{Fs, Cmd, panic, pure, ◌>>=◌, ◌>>◌, inode_at}
use cs_1217_operating_system.Fs.Bytes.{dirsiz}
use cs_1217_operating_system.Fs.Inodes.{iget, idup, ilock, iunlock}
use cs_1217_operating_system.Fs.Content.{iput, iunlockput}
use cs_1217_operating_system.Fs.Data.{Devices, t_dir}
use cs_1217_operating_system.Fs.Dir.{dirlookup}

-- `/`
abbrev pub slash : ℕ
slash = 47

-- `while(*path == '/') path++`
unfoldable pub skip_slashes : List ℕ → List ℕ
skip_slashes [] = []
skip_slashes (c ∷ cs) = let rest = skip_slashes cs in if c == slash then rest else c ∷ cs

-- `while(*path != '/' && *path != 0) path++`: the bytes passed, and those left
unfoldable pub span : List ℕ → List ℕ × List ℕ
span [] = ([], [])
span (c ∷ cs) = let rest = span cs in if c == slash then ([], c ∷ cs) else (c ∷ rest.0, rest.1)

-- The bytes that fit in `name`
unfoldable pub truncate : ℕ → List ℕ → List ℕ
truncate zero cs = []
truncate (suc k) [] = []
truncate (suc k) (c ∷ cs) = c ∷ truncate k cs

unfoldable pub split : List ℕ → Option (List ℕ × List ℕ)
unfolding skip_slashes span truncate
split [] = none
split (c ∷ cs) = let (e, rest) = span (c ∷ cs) in some (truncate dirsiz e, skip_slashes rest)

-- `skipelem`: the name and the path after it
unfoldable pub skipelem : List ℕ → Option (List ℕ × List ℕ)
unfolding skip_slashes split
skipelem path = split (skip_slashes path)

abbrev pub is_end : List ℕ → Bool
is_end [] = true
is_end (c ∷ cs) = false

-- The loop of `namex`, which reads `name` only when the loop has ended: the inode, and the last name
unfoldable pub walk : Devices → Bool → ℕ → ℕ → List ℕ → List ℕ → Cmd (Option (ℕ × List ℕ))
unfolding skipelem ilock iunlock iput iunlockput dirlookup
walk devices parent zero ip name path = panic
walk devices parent (suc k) ip name path = elim (skipelem path) [
  | none ↦ if parent then iput ip >> pure none else pure (some (ip, name))
  | some (name, rest) ↦ do
    ilock ip
    dir ← inode_at ip
    if not (dir.type_ == t_dir)
        then iunlockput ip >> pure none
        else if parent && is_end rest
        then iunlock ip >> pure (some (ip, name))
        else (do
          found ← dirlookup devices ip name
          iunlockput ip
          elim found [ none ↦ pure none | some (next, _) ↦ walk devices parent k next name rest ])
]

unfoldable pub count : List ℕ → ℕ
count [] = 0
count (c ∷ cs) = count cs + 1

abbrev pub is_absolute : List ℕ → Bool
is_absolute [] = false
is_absolute (c ∷ cs) = c == slash

-- `namex`, in a process with the working directory `cwd`. Every round of the loop takes a byte off the path.
unfoldable pub namex : Devices → ℕ → List ℕ → Bool → Cmd (Option (ℕ × List ℕ))
unfolding iget idup walk count
namex devices cwd path parent = do
  ip ← if is_absolute path then iget 1 1 else idup cwd
  walk devices parent (count path + 1) ip [] path

-- `namei` and `nameiparent`
unfoldable pub namei : Devices → ℕ → List ℕ → Cmd (Option ℕ)
unfolding namex
namei devices cwd path = do
  found ← namex devices cwd path false
  elim found [ none ↦ pure none | some (ip, _) ↦ pure (some ip) ]

unfoldable pub nameiparent : Devices → ℕ → List ℕ → Cmd (Option (ℕ × List ℕ))
unfolding namex
nameiparent devices cwd path = namex devices cwd path true
