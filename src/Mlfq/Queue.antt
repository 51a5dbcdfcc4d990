-- ===== src/Mlfq/Queue.antt =====
-- lab-2/proc_mlfq_v02.c: the arrays of the queues hold lists, and the loops that move their entries
-- are list operations.
use cs_1217_operating_system.Base.{
  ℕ, zero, suc, ◌+◌, ◌-◌, ◌≤◌, ◌<◌, ◌≡◌, refl, ap, sym, ◌∙◌, Bool-cases, inl, inr, List, [], ◌∷◌,
  ◌++◌, arith, ltb, leb, ◌==◌, ◌&&◌, if◌then◌else◌, update, update_self, update_ne, take, drop,
}
use mathlib.Core.Path.{ap₂}
use cs_1217_operating_system.Mlfq.{Kernel, enqueue, shift, remove_at}

-- The `n` entries from index `i` on.
abbrev pub entries : (ℕ → ℕ) → ℕ → ℕ → List ℕ
entries q zero i = []
entries q (suc n) i = q i ∷ entries q n (i + 1)

-- A queue as a list, its head first.
abbrev pub contents : Kernel → ℕ → List ℕ
contents s level = entries (s.queue level) (s.count level) 0

entries_ext :
    (q r : ℕ → ℕ) (n i : ℕ)
    → ((j : ℕ) → i ≤ j → j < i + n → q j ≡ r j)
    → entries q n i ≡ entries r n i
entries_ext q r zero i h = refl
entries_ext q r (suc n) i h = rw (
  h i (omega arith) (omega arith),
  entries_ext q r n (i + 1) (λ j lo hi. h j (omega arith) (omega arith)),
)

entries_snoc : (q : ℕ → ℕ) (n i : ℕ) → entries q (suc n) i ≡ entries q n i ++ (q (i + n) ∷ [])
entries_snoc q zero i = let e : i + 0 ≡ i = omega arith in rw e
entries_snoc q (suc n) i =
    let e : i + suc n ≡ i + 1 + n = omega arith in
    rw e (ap (λ l. q i ∷ l) (entries_snoc q n (i + 1)))

pub shift_lem :
    (q : ℕ → ℕ) (n j i : ℕ) → shift q n j i ≡ (if leb j i && ltb i (j + n) then q (i + 1) else q i)
unfolding shift
shift_lem q zero j i = ground arith
shift_lem q (suc n) j i = ground (arith, shift_lem (update q j (q (j + 1))) n (j + 1) i)

entries_push : (q : ℕ → ℕ) (n p : ℕ) → entries (update q n p) (n + 1) 0 ≡ entries q n 0 ++ (p ∷ [])
entries_push q n p =
    let e : n + 1 ≡ suc n = omega arith in
    let z : 0 + n ≡ n = omega arith in
    ap (λ k. entries (update q n p) k 0) e
    ∙ entries_snoc (update q n p) n 0
    ∙ ap₂ (λ l x. l ++ (x ∷ []))
        (entries_ext (update q n p) q n 0 (λ j lo hi. update_ne q n j p (omega arith)))
        (ap (update q n p) z ∙ update_self q n p)

-- Putting a process in a queue appends it to that queue's list and leaves the other queues alone.
pub contents-enqueue :
    (s : Kernel) (level p other : ℕ)
    → contents (enqueue level p s) other
      ≡ (if level == other then contents s level ++ (p ∷ []) else contents s other)
unfolding enqueue
contents-enqueue s level p other = elim (Bool-cases (level == other)) [
  | inl same ↦ rw same (entries_push (s.queue level) (s.count level) p)
  | inr other_ ↦ rw other_ refl
]

entries_move :
    (q r : ℕ → ℕ) (n i : ℕ)
    → ((j : ℕ) → i ≤ j → j < i + n → r j ≡ q (j + 1))
    → entries r n i ≡ entries q n (i + 1)
entries_move q r zero i h = refl
entries_move q r (suc n) i h = rw (
  h i (omega arith) (omega arith),
  entries_move q r n (i + 1) (λ j lo hi. h j (omega arith) (omega arith)),
)

entries_remove :
    (q r : ℕ → ℕ) (d m i : ℕ)
    → ((j : ℕ) → r j ≡ (if leb (i + d) j && ltb j (i + d + m) then q (j + 1) else q j))
    → entries r (d + m) i
      ≡ take d (entries q (suc (d + m)) i) ++ drop (suc d) (entries q (suc (d + m)) i)
entries_remove q r zero m i h =
    let e : 0 + m ≡ m = omega arith in rw e (entries_move q r m i (λ j lo hi. ground (arith, h j)))
entries_remove q r (suc d) m i h =
    let e : suc d + m ≡ suc (d + m) = omega arith in
    let first : r i ≡ q i = ground (arith, h i) in
    rw (e, first) (ap (λ l. q i ∷ l) (entries_remove q r d m (i + 1) (λ j. ground (arith, h j))))

-- Removing the entry at an index takes exactly that entry out of the queue's list, and leaves the
-- order of the others and the other queues alone.
pub contents-remove_at :
    (s : Kernel) (level k other : ℕ)
    → k < s.count level
    → contents (remove_at level k s) other ≡ (
        if level == other
        then take k (contents s level) ++ drop (suc k) (contents s level)
        else contents s other)
unfolding remove_at
contents-remove_at s level k other h = elim (Bool-cases (level == other)) [
  | inl same ↦ rw same removed
  | inr other_ ↦ rw other_ refl
]
  where
    m : ℕ
    m = s.count level - 1 - k

    removed :
        entries (shift (s.queue level) (s.count level - 1 - k) k) (s.count level - 1) 0
        ≡ take k (contents s level) ++ drop (suc k) (contents s level)
    removed =
        let a : s.count level - 1 ≡ k + m = omega arith in
        let b : s.count level ≡ suc (k + m) = omega arith in
        ap (λ n. entries (shift (s.queue level) m k) n 0) a
        ∙ entries_remove (s.queue level) (shift (s.queue level) m k) k m 0
            (λ j. ground (arith, shift_lem (s.queue level) m k j))
        ∙ ap
            (λ n.
              take k (entries (s.queue level) n 0) ++ drop (suc k) (entries (s.queue level) n 0))
            (sym b)
