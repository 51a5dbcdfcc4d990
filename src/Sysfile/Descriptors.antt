-- ===== src/Sysfile/Descriptors.antt =====
-- assignment-3/sysfile.c: which descriptor `fdalloc` takes, and how many descriptors hold a file.
use cs_1217_operating_system.Base.{
  ℕ, zero, suc, ◌+◌, ◌≡◌, ◌≢◌, ◌<◌, ◌≤◌, refl, sym, ap, subst, ◌∙◌, Bool, true, false, Option, none,
  some, ◌==◌, if◌then◌else◌, update, update_self, update_ne, Bool-cases, ℕ_discrete, inl, inr,
  arith, ==_refl, ne→false,
}
use mathlib.Core.Bool.{true≢false}
use cs_1217_operating_system.Base.Counting.{tally, tally-without, tally-eq}
use cs_1217_operating_system.Sysfile.{
  World, nofile, is_none, fdalloc_from, fdalloc, go_on, set_ofile, ret,
}

-- What the loop of `fdalloc` answers, from the descriptor `lo` on
abbrev pub Taken : ℕ → World → (lo hi : ℕ) → Option (Option ℕ × World) → Type 0
Taken f w lo hi none = ⊥
Taken f w lo hi (some (none, w')) =
    (w' ≡ w) × ((i : ℕ) → lo ≤ i → i < hi → is_none (w.ofile i) ≡ false)
Taken f w lo hi (some (some fd, w')) =
    (w' ≡ record w { ofile = update w.ofile fd (some f) })
    × (fd < hi)
    × (is_none (w.ofile fd) ≡ true)
    × ((i : ℕ) → lo ≤ i → i < fd → is_none (w.ofile i) ≡ false)

module _ (f : ℕ) (w : World) where
  one_more :
      (lo hi : ℕ) (r : Option (Option ℕ × World))
      → is_none (w.ofile lo) ≡ false
      → Taken f w (lo + 1) hi r
      → Taken f w lo hi r
  one_more lo hi none busy h = h
  one_more lo hi (some (none, w')) busy (e, all) = (
    e,
    λ i a b. elim (ℕ_discrete i lo) [
      | yes same ↦ subst (λ x. is_none (w.ofile x) ≡ false) (sym same) busy
      | no ne ↦ all i (omega arith) b
    ],
  )
  one_more lo hi (some (some fd, w')) busy (e, lt, free, all) = (
    e,
    lt,
    free,
    λ i a b. elim (ℕ_discrete i lo) [
      | yes same ↦ subst (λ x. is_none (w.ofile x) ≡ false) (sym same) busy
      | no ne ↦ all i (omega arith) b
    ],
  )

  abbrev taking : ℕ → ℕ → Bool → Option (Option ℕ × World)
  taking k lo t =
      (if t
          then (λ v. go_on (set_ofile lo (some f) v) (λ _. ret (some lo)))
          else fdalloc_from f k (lo + 1))
        w

  fdalloc_from-suc : (k lo : ℕ) → fdalloc_from f (suc k) lo w ≡ taking k lo (is_none (w.ofile lo))
  unfolding fdalloc_from
  fdalloc_from-suc k lo = refl

  fdalloc_from_lem : (k lo hi : ℕ) → lo + k ≡ hi → Taken f w lo hi (fdalloc_from f k lo w)
  unfolding fdalloc_from
  fdalloc_from_lem zero lo hi e = (refl, λ i a b. absurd (omega arith))
  fdalloc_from_lem (suc k) lo hi e =
      subst (Taken f w lo hi) (sym (fdalloc_from-suc k lo))
        (elim (Bool-cases (is_none (w.ofile lo))) [
          | inl t ↦
              subst (Taken f w lo hi) (sym (ap (taking k lo) t))
                (refl, omega arith, t, λ i a b. absurd (omega arith))
          | inr n ↦ subst (Taken f w lo hi) (sym (ap (taking k lo) n)) (
              one_more lo hi (fdalloc_from f k (lo + 1) w) n
                (fdalloc_from_lem k (lo + 1) hi (omega arith)))
        ])

  -- `fdalloc` takes the lowest free descriptor, and nothing only when all are in use; it changes no other descriptor.
  pub fdalloc_lem : Taken f w 0 nofile (fdalloc f w)
  unfolding fdalloc
  fdalloc_lem = fdalloc_from_lem nofile 0 nofile refl

-- Whether a descriptor is open on the file `f`
abbrev pub is_on : ℕ → Option ℕ → Bool
is_on f none = false
is_on f (some g) = g == f

-- How many descriptors are open on `f`
abbrev pub holders : (ℕ → Option ℕ) → ℕ → ℕ
holders ofile f = tally (λ fd. is_on f (ofile fd)) nofile

free_is_on : (f : ℕ) (o : Option ℕ) → is_none o ≡ true → is_on f o ≡ false
free_is_on f none e = refl
free_is_on f (some g) e = absurd (true≢false (sym e))

-- Two tables that differ at one descriptor, which one of them has on `f`
module _ (o o' : ℕ → Option ℕ) (fd f g : ℕ) (lt : fd < nofile) (at : o fd ≡ some f)
    (free : is_none (o' fd) ≡ true) (same : (c : ℕ) → c ≢ fd → o' c ≡ o c) where
  off_now : is_on g (o' fd) ≡ false
  off_now = free_is_on g (o' fd) free

  holders_change : holders o g ≡ holders o' g + (if g == f then 1 else 0)
  holders_change = elim (ℕ_discrete g f) [
    | yes e ↦
        let on : is_on g (o fd) ≡ true = ap (is_on g) at ∙ ap (λ x. x == g) (sym e) ∙ ==_refl g in
        let one =
          tally-without (λ c. is_on g (o c)) (λ c. is_on g (o' c)) fd nofile on off_now
            (λ c h ne. ap (is_on g) (same c ne)) in
        ground (arith, one)
    | no ne ↦
        let off : is_on g (o fd) ≡ false = ap (is_on g) at ∙ ne→false f g (λ e. ne (sym e)) in
        let none_ =
          tally-eq (λ c. is_on g (o c)) (λ c. is_on g (o' c)) nofile
            (λ c h. elim (ℕ_discrete c fd) [
              | yes e ↦
                  ap (λ x. is_on g (o x)) e ∙ off ∙ sym off_now ∙ ap (λ x. is_on g (o' x)) (sym e)
              | no far ↦ ap (is_on g) (sym (same c far))
            ]) in
        ground (arith, none_)
  ]

-- A descriptor that is opened on `f`
pub holders_opened :
    (ofile : ℕ → Option ℕ) (fd f g : ℕ)
    → fd < nofile
    → is_none (ofile fd) ≡ true
    → holders (update ofile fd (some f)) g ≡ holders ofile g + (if g == f then 1 else 0)
holders_opened ofile fd f g lt free =
    holders_change (update ofile fd (some f)) ofile fd f g lt (update_self ofile fd (some f)) free
      (λ c ne. sym (update_ne ofile fd c (some f) (λ e. ne (sym e))))

-- A descriptor on `f` that is closed
pub holders_closed :
    (ofile : ℕ → Option ℕ) (fd f g : ℕ)
    → fd < nofile
    → ofile fd ≡ some f
    → holders ofile g ≡ holders (update ofile fd none) g + (if g == f then 1 else 0)
holders_closed ofile fd f g lt at =
    holders_change ofile (update ofile fd none) fd f g lt at
      (ap is_none (update_self ofile fd none)) (λ c ne. update_ne ofile fd c none (λ e. ne (sym e)))
