-- ===== src/Pipe/Stream.antt =====
-- assignment-3/pipe.c: what `pipewrite` and `piperead` do to the bytes in a pipe, and what a reader sees of what the
-- writers wrote.
use cs_1217_operating_system.Base.{
  ℕ, zero, suc, ◌+◌, ◌%◌, ◌^◌, ◌≤◌, ◌≡◌, ◌⊎◌, inl, inr, refl, ap, sym, ◌∙◌, Bool, true, false, ◌||◌,
  ◌&&◌, not, List, [], ◌∷◌, ◌++◌, length, arith, Bool-cases,
}
use cs_1217_operating_system.Base.Int.{pos, minus_one}
use cs_1217_operating_system.Pipe.{
  Pipe, at_nread, at_nwrite, Outcome, returns, sleeps, pipe_size, is_full, is_empty, put, advance,
  pipewrite, piperead, copy_out,
}
use cs_1217_operating_system.Pipe.Ring.{
  size, IsPipe, contents, put-IsPipe, advance-IsPipe, contents-put, contents-advance,
}

-- What each outcome of a `pipewrite` of `bs`, of the `n` bytes of the call, promises: the bytes
-- written are a prefix of `bs`, and stand behind those that were there.
abbrev pub WriteEnsures : Bool → ℕ → List ℕ → Pipe → Outcome → Type 0
WriteEnsures killed n bs p (returns code woken p') =
    ((code ≡ pos n) × (woken ≡ at_nread ∷ []) × IsPipe p' × (contents p' ≡ contents p ++ bs))
    ⊎ ((code ≡ minus_one)
        × (woken ≡ [])
        × ((p.readopen ≡ false) ⊎ (killed ≡ true))
        × IsPipe p'
        × (size p' ≡ pipe_size)
        × ((done left : List ℕ) × (bs ≡ done ++ left) × (contents p' ≡ contents p ++ done)))
WriteEnsures killed n bs p (sleeps on woken left p') =
    (on ≡ at_nwrite)
    × (woken ≡ at_nread ∷ [])
    × (p.readopen ≡ true)
    × (killed ≡ false)
    × IsPipe p'
    × (size p' ≡ pipe_size)
    × ((done : List ℕ) × (bs ≡ done ++ left) × (contents p' ≡ contents p ++ done))

snoc_append : (xs ys : List ℕ) (b : ℕ) → (xs ++ (b ∷ [])) ++ ys ≡ xs ++ (b ∷ ys)
snoc_append [] ys b = refl
snoc_append (x ∷ xs) ys b = ap (λ l. x ∷ l) (snoc_append xs ys b)

append_nil : (xs : List ℕ) → xs ++ [] ≡ xs
append_nil [] = refl
append_nil (x ∷ xs) = ap (λ l. x ∷ l) (append_nil xs)

size-full : (p : Pipe) → IsPipe p → is_full p ≡ true → size p ≡ pipe_size
size-full p h full =
    let a = h.nread_lt in
    let c = h.nwrite_lt in let e : p.nwrite ≡ (p.nread + 512) % 2 ^ 32 = ground arith in omega arith

size-empty : (p : Pipe) → IsPipe p → is_empty p ≡ true → size p ≡ 0
size-empty p h empty =
    let a = h.nread_lt in let e : p.nread ≡ p.nwrite = ground arith in omega arith

-- What is promised of the bytes after the first holds with the first put in.
extend :
    (killed : Bool) (n b : ℕ) (bs : List ℕ) (p q : Pipe) (o : Outcome)
    → contents q ≡ contents p ++ (b ∷ [])
    → q.readopen ≡ p.readopen
    → WriteEnsures killed n bs q o
    → WriteEnsures killed n (b ∷ bs) p o
extend killed n b bs p q (returns code woken p') e r (inl (c, w, h, f)) =
    inl (c, w, h, f ∙ ap (λ l. l ++ bs) e ∙ snoc_append (contents p) bs b)
extend killed n b bs p q (returns code woken p') e r
      (inr (c, w, why, h, full, (done, left, s, f))) =
    inr (
      c,
      w,
      (elim why [ inl x ↦ inl (sym r ∙ x) | inr x ↦ inr x ]),
      h,
      full,
      (
        b ∷ done,
        left,
        ap (λ l. b ∷ l) s,
        f ∙ ap (λ l. l ++ done) e ∙ snoc_append (contents p) done b,
      ),
    )
extend killed n b bs p q (sleeps on woken left p') e r (o, w, open_, k, h, full, (done, s, f)) = (
  o,
  w,
  sym r ∙ open_,
  k,
  h,
  full,
  (b ∷ done, ap (λ l. b ∷ l) s, f ∙ ap (λ l. l ++ done) e ∙ snoc_append (contents p) done b),
)

gone_or_killed : (a b : Bool) → (not a || b) ≡ true → (a ≡ false) ⊎ (b ≡ true)
gone_or_killed true b h = inr h
gone_or_killed false b h = inl refl

open_and_alive : (a b : Bool) → (not a || b) ≡ false → (a ≡ true) × (b ≡ false)
open_and_alive true b h = (refl, h)
open_and_alive false b h = cc

both : (a b : Bool) → (a && b) ≡ true → (a ≡ true) × (b ≡ true)
both true b h = (refl, h)
both false b h = cc

-- `pipewrite` puts bytes behind those in the pipe, in their order, and never more than fit. It
-- returns `n` when all are in. With the pipe full it answers -1 if the readers are gone or the
-- process was killed, and sleeps else, after it has woken the readers; what it has yet to write is
-- then the rest of its bytes.
pub pipewrite_lem :
    (killed : Bool) (n : ℕ) (bs : List ℕ) (p : Pipe)
    → IsPipe p
    → WriteEnsures killed n bs p (pipewrite killed n bs p)
unfolding pipewrite put
pipewrite_lem killed n [] p h = inl (refl, refl, h, sym (append_nil (contents p)))
pipewrite_lem killed n (b ∷ bs) p h = elim (Bool-cases (is_full p)) [
  | inl full ↦
      let f = size-full p h full in
      elim (Bool-cases (not p.readopen || killed)) [
        | inl stuck ↦
            rw (full, stuck)
              (inr (
                refl,
                refl,
                gone_or_killed p.readopen killed stuck,
                h,
                f,
                ([], b ∷ bs, refl, sym (append_nil (contents p))),
              ))
        | inr waits ↦
            let (o, k) = open_and_alive p.readopen killed waits in
            rw (full, waits) (refl, refl, o, k, h, f, ([], refl, sym (append_nil (contents p))))
      ]
  | inr room ↦ rw room (
      extend killed n b bs p (put b p) (pipewrite killed n bs (put b p)) (contents-put b p h room)
        refl (pipewrite_lem killed n bs (put b p) (put-IsPipe b p h room)))
]

-- What each outcome of a `piperead` of at most `n` bytes promises.
abbrev pub ReadEnsures : Bool → ℕ → Pipe → List ℕ → Outcome → Type 0
ReadEnsures killed n p bs (returns code woken p') =
    ((code ≡ pos (length bs))
      × (woken ≡ at_nwrite ∷ [])
      × IsPipe p'
      × (contents p ≡ bs ++ contents p')
      × (length bs ≤ n)
      × ((length bs ≡ n) ⊎ (size p' ≡ 0)))
    ⊎ ((code ≡ minus_one) × (bs ≡ []) × (killed ≡ true) × (size p ≡ 0) × (p' ≡ p))
ReadEnsures killed n p bs (sleeps on woken left p') =
    (on ≡ at_nread) × (bs ≡ []) × (killed ≡ false) × (size p ≡ 0) × (p.writeopen ≡ true) × (p' ≡ p)

copy_out_lem :
    (n : ℕ) (p : Pipe)
    → IsPipe p
    → IsPipe (copy_out n p).1
      × (contents p ≡ (copy_out n p).0 ++ contents (copy_out n p).1)
      × (length (copy_out n p).0 ≤ n)
      × ((length (copy_out n p).0 ≡ n) ⊎ (size (copy_out n p).1 ≡ 0))
unfolding copy_out
copy_out_lem zero p h = (h, refl, omega arith, inl refl)
copy_out_lem (suc n) p h = elim (Bool-cases (is_empty p)) [
  | inl empty ↦ rw empty (h, refl, omega arith, inr (size-empty p h empty))
  | inr some_ ↦
      let (h', e, le, or_) = copy_out_lem n (advance p) (advance-IsPipe p h some_) in
      rw some_ (
        h',
        contents-advance p h some_ ∙ ap (λ l. p.data_ (p.nread % pipe_size) ∷ l) e,
        omega arith,
        elim or_ [ inl x ↦ inl (omega arith) | inr x ↦ inr x ],
      )
]

-- `piperead` takes the oldest bytes out of the pipe, in their order: as many as it was asked for, or
-- all there are, and wakes the writers. With the pipe empty and a writer still there it answers -1
-- if the process was killed, and sleeps else, and leaves the pipe as it was.
pub piperead_lem :
    (killed : Bool) (n : ℕ) (p : Pipe)
    → IsPipe p
    → ReadEnsures killed n p (piperead killed n p).0 (piperead killed n p).1
unfolding piperead
piperead_lem killed n p h = elim (Bool-cases (is_empty p && p.writeopen)) [
  | inl waits ↦
      let (empty, open_) = both (is_empty p) p.writeopen waits in
      elim (Bool-cases killed) [
        | inl k ↦ rw (waits, k) (inr (refl, refl, refl, size-empty p h empty, refl))
        | inr k ↦ rw (waits, k) (refl, refl, refl, size-empty p h empty, open_, refl)
      ]
  | inr copies ↦ rw copies (let (a, b, c, d) = copy_out_lem n p h in inl (refl, refl, a, b, c, d))
]
