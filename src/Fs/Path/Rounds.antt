-- ===== src/Fs/Path/Rounds.antt =====
-- assignment-3/fs.c: the loop of `namex` goes through the names of the path, one after another.
use cs_1217_operating_system.Base.{
  ℕ, zero, suc, ◌+◌, [], ◌∷◌, map, ◌≡◌, ◌<◌, refl, sym, ap, subst, ◌∙◌, Bool, ◌&&◌, not, Option,
  none, some, List, ◌==◌, if◌then◌else◌, Option-cases, inl, inr, arith,
}
use cs_1217_operating_system.Fs.{Cmd, pure, ◌>>=◌, ◌>>◌, inode_at}
use cs_1217_operating_system.Fs.Inodes.{ilock, iunlock, iget, idup}
use cs_1217_operating_system.Fs.Content.{iput, iunlockput}
use cs_1217_operating_system.Fs.Data.{Devices, t_dir}
use cs_1217_operating_system.Fs.Dir.{dirlookup}
use cs_1217_operating_system.Fs.Path.{skipelem, walk, is_end, count, truncate, namex, is_absolute}
use cs_1217_operating_system.Fs.Bytes.{dirsiz}
use cs_1217_operating_system.Fs.Path.Elements.{SkipEnsures, skipelem_lem, words, no_names}

-- A round with the name `name`, the last one if `last`, `next` being the rounds after it.
abbrev round :
    Devices → Bool → ℕ → List ℕ → Bool → (ℕ → Cmd (Option (ℕ × List ℕ))) → Cmd (Option (ℕ × List ℕ))
round devices parent ip name last next = do
  ilock ip
  dir ← inode_at ip
  if not (dir.type_ == t_dir)
      then iunlockput ip >> pure none
      else if parent && last
      then iunlock ip >> pure (some (ip, name))
      else (do
        found ← dirlookup devices ip name
        iunlockput ip
        elim found [ none ↦ pure none | some (p, _) ↦ next p ])

-- The path resolution over a list of names, from the inode `ip`, `name` being the name that led to it.
abbrev pub follow : Devices → Bool → ℕ → List ℕ → List (List ℕ) → Cmd (Option (ℕ × List ℕ))
follow devices parent ip name [] = if parent then iput ip >> pure none else pure (some (ip, name))
follow devices parent ip name (n ∷ ns) =
    round devices parent ip n (no_names ns) (λ p. follow devices parent p n ns)

-- The names of a path: what stands between slashes, cut to the size of a name in a directory.
abbrev pub names_of : List ℕ → List (List ℕ)
names_of path = map (truncate dirsiz) (words [] path)

abbrev Next : Type 0
Next = ℕ → List ℕ → List ℕ → Cmd (Option (ℕ × List ℕ))

-- The loop once `skipelem` has answered.
abbrev after :
    Devices → Bool → ℕ → List ℕ → Next → Option (List ℕ × List ℕ) → Cmd (Option (ℕ × List ℕ))
after devices parent ip name next none =
    if parent then iput ip >> pure none else pure (some (ip, name))
after devices parent ip name next (some (n, rest)) =
    round devices parent ip n (is_end rest) (λ p. next p n rest)

walk-suc :
    (devices : Devices) (parent : Bool) (k ip : ℕ) (name path : List ℕ)
    → walk devices parent (suc k) ip name path
      ≡ after devices parent ip name (walk devices parent k) (skipelem path)
unfolding walk
walk-suc devices parent k ip name path = refl

no_names-map : (ns : List (List ℕ)) → no_names (map (truncate dirsiz) ns) ≡ no_names ns
no_names-map [] = refl
no_names-map (n ∷ ns) = refl

-- With more rounds than the path has bytes, the loop takes the names of the path.
walk-follow :
    (devices : Devices) (parent : Bool) (k ip : ℕ) (name path : List ℕ)
    → count path < k
    → walk devices parent k ip name path ≡ follow devices parent ip name (names_of path)
walk-follow devices parent zero ip name path h = absurd (omega arith)
walk-follow devices parent (suc k) ip name path h = elim (Option-cases (skipelem path)) [
  | inl e ↦
      let none_left : words [] path ≡ [] = subst (SkipEnsures path) e (skipelem_lem path) in
      walk-suc devices parent k ip name path
      ∙ ap (after devices parent ip name (walk devices parent k)) e
      ∙ sym (ap (λ ws. follow devices parent ip name (map (truncate dirsiz) ws)) none_left)
  | inr ((n, rest), e) ↦
      let s : SkipEnsures path (some (n, rest)) = subst (SkipEnsures path) e (skipelem_lem path) in
      let ((w, split_, cut), shorter, ends) = s in
      let same = λ (p : ℕ). walk-follow devices parent k p n rest (omega arith) in
      walk-suc devices parent k ip name path
      ∙ ap (after devices parent ip name (walk devices parent k)) e
      ∙ ap (round devices parent ip n (is_end rest)) (λ i p. same p i)
      ∙ ap (λ last. round devices parent ip n last (λ p. follow devices parent p n (names_of rest)))
          (ends ∙ sym (no_names-map (words [] rest)))
      ∙ ap (λ x. follow devices parent ip name (x ∷ names_of rest)) cut
      ∙ sym (ap (λ ws. follow devices parent ip name (map (truncate dirsiz) ws)) split_)
]

-- `namex` starts at the root for a path that begins with a slash and else at the working directory, and goes through the
-- names that stand between the slashes of the path, in order and each cut to the size of a name in a directory: after the
-- last it answers the inode, or fails if the parent is asked for and there is no name; the parent of the last name is
-- answered before that name is looked up; an inode that is no directory, or a name that is not found, ends it. The
-- right-hand side is by recursion on these names, so that the bound of the loop never ends it.
pub namex-follow :
    (devices : Devices) (cwd : ℕ) (path : List ℕ) (parent : Bool)
    → namex devices cwd path parent ≡ (
        (if is_absolute path then iget 1 1 else idup cwd) >>= λ ip.
        follow devices parent ip [] (names_of path))
unfolding namex
namex-follow devices cwd path parent =
    ap (λ next. (if is_absolute path then iget 1 1 else idup cwd) >>= next)
      (λ i ip. walk-follow devices parent (count path + 1) ip [] path (omega arith) i)
