-- ===== src/Fs/Path/Elements.antt =====
-- assignment-3/fs.c: the names in a path, and the parts that `skipelem` takes off it.
use cs_1217_operating_system.Base.{
  ℕ, zero, suc, ◌+◌, ◌≡◌, ◌≤◌, ◌<◌, ◌⊎◌, refl, sym, ap, subst, ◌∙◌, Bool, true, false, Option, none,
  some, List, [], ◌∷◌, ◌++◌, map, ◌==◌, if◌then◌else◌, Bool-cases, Option-cases, inl, inr, arith,
}
use mathlib.Core.List.{append_assoc, append-nil}
use cs_1217_operating_system.Fs.Bytes.{dirsiz}
use cs_1217_operating_system.Fs.Path.{
  slash, skip_slashes, span, truncate, split, skipelem, count, is_end,
}

-- What stands between slashes, `cur` being the start of a name; nothing for an empty one.
flush : List ℕ → List (List ℕ)
flush [] = []
flush (c ∷ cs) = (c ∷ cs) ∷ []

unfoldable pub words : List ℕ → List ℕ → List (List ℕ)
unfolding flush
words cur [] = flush cur
words cur (c ∷ cs) = if c == slash then flush cur ++ words [] cs else words (cur ++ c ∷ []) cs

words-slash :
    (cur : List ℕ) (c : ℕ) (cs : List ℕ)
    → (c == slash) ≡ true
    → words cur (c ∷ cs) ≡ flush cur ++ words [] cs
unfolding words
words-slash cur c cs h =
    ap (λ t. if t then flush cur ++ words [] cs else words (cur ++ c ∷ []) cs) h

words_char :
    (cur : List ℕ) (c : ℕ) (cs : List ℕ)
    → (c == slash) ≡ false
    → words cur (c ∷ cs) ≡ words (cur ++ c ∷ []) cs
unfolding words
words_char cur c cs h = ap (λ t. if t then flush cur ++ words [] cs else words (cur ++ c ∷ []) cs) h

skip_slash : (c : ℕ) (cs : List ℕ) → (c == slash) ≡ true → skip_slashes (c ∷ cs) ≡ skip_slashes cs
unfolding skip_slashes
skip_slash c cs h = ap (λ t. if t then skip_slashes cs else c ∷ cs) h

skip_char : (c : ℕ) (cs : List ℕ) → (c == slash) ≡ false → skip_slashes (c ∷ cs) ≡ c ∷ cs
unfolding skip_slashes
skip_char c cs h = ap (λ t. if t then skip_slashes cs else c ∷ cs) h

span-slash : (c : ℕ) (cs : List ℕ) → (c == slash) ≡ true → span (c ∷ cs) ≡ ([], c ∷ cs)
unfolding span
span-slash c cs h = ap (λ t. if t then ([], c ∷ cs) else (c ∷ (span cs).0, (span cs).1)) h

span_char :
    (c : ℕ) (cs : List ℕ) → (c == slash) ≡ false → span (c ∷ cs) ≡ (c ∷ (span cs).0, (span cs).1)
unfolding span
span_char c cs h = ap (λ t. if t then ([], c ∷ cs) else (c ∷ (span cs).0, (span cs).1)) h

words-skip_slashes : (path : List ℕ) → words [] path ≡ words [] (skip_slashes path)
unfolding skip_slashes flush
words-skip_slashes [] = refl
words-skip_slashes (c ∷ cs) = elim (Bool-cases (c == slash)) [
  | inl h ↦ words-slash [] c cs h ∙ words-skip_slashes cs ∙ sym (ap (words []) (skip_slash c cs h))
  | inr h ↦ sym (ap (words []) (skip_char c cs h))
]

-- The next name, and the names of what is left.
abbrev first_of : List ℕ → List ℕ × List ℕ → List (List ℕ)
first_of cur (e, rest) = flush (cur ++ e) ++ words [] rest

words-span : (cur path : List ℕ) → words cur path ≡ first_of cur (span path)
unfolding words span flush
words-span cur [] = sym (append-nil (flush (cur ++ [])) ∙ ap flush (append-nil cur))
words-span cur (c ∷ cs) = elim (Bool-cases (c == slash)) [
  | inl h ↦
      words-slash cur c cs h
      ∙ ap (λ x. flush x ++ words [] cs) (sym (append-nil cur))
      ∙ ap (λ x. flush (cur ++ []) ++ x) (sym (words-slash [] c cs h))
      ∙ sym (ap (first_of cur) (span-slash c cs h))
  | inr h ↦
      words_char cur c cs h
      ∙ words-span (cur ++ c ∷ []) cs
      ∙ ap (λ x. flush x ++ words [] (span cs).1) (append_assoc cur (c ∷ []) (span cs).0)
      ∙ sym (ap (first_of cur) (span_char c cs h))
]

count-span : (path : List ℕ) → count (span path).1 ≤ count path
unfolding span count
count-span [] = omega arith
count-span (c ∷ cs) =
    let ih = count-span cs in
    elim (Bool-cases (c == slash)) [
      | inl h ↦ subst (λ x. count x.1 ≤ count cs + 1) (sym (span-slash c cs h)) (omega arith)
      | inr h ↦ subst (λ x. count x.1 ≤ count cs + 1) (sym (span_char c cs h)) (omega (arith, ih))
    ]

count-skip_slashes : (path : List ℕ) → count (skip_slashes path) ≤ count path
unfolding skip_slashes count
count-skip_slashes [] = omega arith
count-skip_slashes (c ∷ cs) =
    let ih = count-skip_slashes cs in
    elim (Bool-cases (c == slash)) [
      | inl h ↦ subst (λ x. count x ≤ count cs + 1) (sym (skip_slash c cs h)) (omega (arith, ih))
      | inr h ↦ subst (λ x. count x ≤ count cs + 1) (sym (skip_char c cs h)) (omega arith)
    ]

-- After the slashes comes the end or another byte.
skip_slashes-cases :
    (path : List ℕ)
    → (skip_slashes path ≡ [])
      ⊎ ((c : ℕ) × (cs : List ℕ) × (skip_slashes path ≡ c ∷ cs) × ((c == slash) ≡ false))
unfolding skip_slashes
skip_slashes-cases [] = inl refl
skip_slashes-cases (c ∷ cs) = elim (Bool-cases (c == slash)) [
  | inr h ↦ inr (c, cs, skip_char c cs h, h)
  | inl h ↦ elim (skip_slashes-cases cs) [
    | inl e ↦ inl (skip_slash c cs h ∙ e)
    | inr (d, ds, e, k) ↦ inr (d, ds, skip_slash c cs h ∙ e, k)
  ]
]

abbrev pub no_names : List (List ℕ) → Bool
no_names [] = true
no_names (n ∷ ns) = false

-- What starts without a slash has a name, or is the end.
is_end-skip_slashes :
    (path : List ℕ) → is_end (skip_slashes path) ≡ no_names (words [] (skip_slashes path))
unfolding words flush
is_end-skip_slashes path = elim (skip_slashes-cases path) [
  | inl e ↦ ap is_end e ∙ sym (ap (λ x. no_names (words [] x)) e)
  | inr (c, cs, e, h) ↦
      ap is_end e
      ∙ sym (
          ap (λ x. no_names (words [] x)) e
          ∙ ap no_names (words_char [] c cs h)
          ∙ ap no_names (words-span (c ∷ []) cs))
]

-- What `skipelem` promises.
abbrev pub SkipEnsures : List ℕ → Option (List ℕ × List ℕ) → Type 0
SkipEnsures path none = words [] path ≡ []
SkipEnsures path (some (name, rest)) =
    ((e : List ℕ) × (words [] path ≡ e ∷ words [] rest) × (name ≡ truncate dirsiz e))
    × (count rest < count path)
    × (is_end rest ≡ no_names (words [] rest))

-- `skipelem` takes the first name off a path, cut to the size of a name in a directory, and leaves a shorter
-- path with the other names, empty when there are none; it finds none exactly when the path has none.
pub skipelem_lem : (path : List ℕ) → SkipEnsures path (skipelem path)
unfolding skipelem split flush count words
skipelem_lem path = elim (skip_slashes-cases path) [
  | inl e ↦
      let found : skipelem path ≡ none = ap split e in
      subst (SkipEnsures path) (sym found) (words-skip_slashes path ∙ ap (words []) e)
  | inr (c, cs, e, h) ↦
      let found : skipelem path
          ≡ some (truncate dirsiz (c ∷ (span cs).0), skip_slashes (span cs).1) =
        ap split e ∙ ap (λ x. some (truncate dirsiz x.0, skip_slashes x.1)) (span_char c cs h) in
      let long = count-skip_slashes path in
      let same : count (skip_slashes path) ≡ count (c ∷ cs) = ap count e in
      subst (SkipEnsures path) (sym found) (
        (
          c ∷ (span cs).0,
          words-skip_slashes path
              ∙ ap (words []) e
              ∙ words-span [] (c ∷ cs)
              ∙ ap (first_of []) (span_char c cs h)
              ∙ ap (λ x. (c ∷ (span cs).0) ∷ x) (words-skip_slashes (span cs).1),
          refl,
        ),
        omega (arith, long, same, count-skip_slashes (span cs).1, count-span cs),
        is_end-skip_slashes (span cs).1,
      )
]

-- The names that the rounds of the loop of `namex` take, at most `k` of them
unfoldable pub elements : ℕ → List ℕ → List (List ℕ)
elements zero path = []
elements (suc k) path = elim (skipelem path) [
  | none ↦ []
  | some (name, rest) ↦ name ∷ elements k rest
]

-- With as many rounds as the path has bytes, or more, the names are all those that stand between slashes, in
-- order, each cut to the size of a name in a directory.
pub elements_lem :
    (k : ℕ) (path : List ℕ)
    → count path ≤ k
    → elements k path ≡ map (truncate dirsiz) (words [] path)
unfolding elements words flush count
elements_lem zero [] h = refl
elements_lem zero (c ∷ cs) h = absurd (omega arith)
elements_lem (suc k) path h = elim (Option-cases (skipelem path)) [
  | inl e ↦
      let names : words [] path ≡ [] = subst (SkipEnsures path) e (skipelem_lem path) in
      rw (elements, e) (sym (ap (map (truncate dirsiz)) names))
  | inr ((name, rest), e) ↦
      let s : SkipEnsures path (some (name, rest)) =
        subst (SkipEnsures path) e (skipelem_lem path) in
      let ((w, names, cut), shorter, _) = s in
      let ih = elements_lem k rest (omega arith) in
      rw (elements, e)
        (ap (λ x. name ∷ x) ih
          ∙ ap (λ x. x ∷ map (truncate dirsiz) (words [] rest)) cut
          ∙ sym (ap (map (truncate dirsiz)) names))
]
