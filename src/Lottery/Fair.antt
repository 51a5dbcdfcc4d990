-- ===== src/Lottery/Fair.antt =====
-- lab-2/proc_lottery_v02.c: how many lottery numbers select a process.
use cs_1217_operating_system.Base.{
  ℕ, zero, suc, ◌+◌, ◌-◌, ◌≤◌, ◌<◌, ◌^◌, ◌≡◌, Bool, true, false, ◌&&◌, Option, none, some, arith,
  ◌==◌, leb, ltb, Bool-cases, inl, inr, ==_iff, sym, ap, ◌∙◌, ℕ_discrete,
}
use cs_1217_operating_system.Proc.{is_runnable, Table}
use cs_1217_operating_system.Lottery.{draw, add_uint}
use cs_1217_operating_system.Lottery.Draw.{tickets_in, tickets_in_le, draw_iff}

abbrev pub selects : Option ℕ → ℕ → Bool
selects none p = false
selects (some q) p = q == p

abbrev pub as_count : Bool → ℕ
as_count true = 1
as_count false = 0

-- The number of lottery numbers from 1 to `top` that select process `p` among the first `n`.
abbrev pub wins : Table → ℕ → ℕ → ℕ → ℕ
wins t n p zero = 0
wins t n p (suc top) = as_count (selects (draw t (suc top) n 0 0) p) + wins t n p top

selects→eq : (o : Option ℕ) (p : ℕ) → selects o p ≡ true → o ≡ some p
selects→eq none p h = cc
selects→eq (some q) p h = ap some ((==_iff q p).0 h)

eq→selects : (o : Option ℕ) (p : ℕ) → o ≡ some p → selects o p ≡ true
eq→selects none p h = cc
eq→selects (some q) p h = ground arith

module _ (t : Table) (n p : ℕ) (small : tickets_in t n 0 < 2 ^ 32) (here : p < n)
    (runs : is_runnable (t p).state ≡ true) where
  abbrev in_share : ℕ → Bool
  in_share top = leb (tickets_in t p 0) top && ltb top (tickets_in t p 0 + (t p).tickets)

  selects-draw : (top : ℕ) → selects (draw t (suc top) n 0 0) p ≡ in_share top
  selects-draw top = elim (Bool-cases (selects (draw t (suc top) n 0 0) p)) [
    | inl w ↦
        let (_, _, lo, hi) = (draw_iff t n (suc top) p small (omega arith)).0 (selects→eq _ p w) in
        rw w (ground arith)
    | inr l ↦ elim (Bool-cases (in_share top)) [
      | inl y ↦
          let e =
            (draw_iff t n (suc top) p small (omega arith)).1
              (here, runs, ground arith, ground arith) in
          eq→selects _ p e ∙ sym y
      | inr y ↦ l ∙ sym y
    ]
  ]

  wins_lem :
      (top : ℕ)
      → wins t n p top ≡ (top - tickets_in t p 0) - (top - (tickets_in t p 0 + (t p).tickets))
  wins_lem zero = omega arith
  wins_lem (suc top) = rw (selects-draw top) (ground (arith, wins_lem top))

  share_within : tickets_in t p 0 + (t p).tickets ≤ tickets_in t n 0
  share_within = let e : 0 + p ≡ p = omega arith in rw e at (tickets_in_le t p n 0 here (rw e runs))

  -- Among the lottery numbers from 1 to the sum of all tickets, a runnable process is selected by
  -- exactly as many as it has tickets, if the sum does not overflow.
  pub lottery_fair : wins t n p (tickets_in t n 0) ≡ (t p).tickets
  lottery_fair = omega (arith, wins_lem (tickets_in t n 0), share_within)

-- The number 0, which `random_at_most` can return too, selects the first runnable process,
-- whatever its tickets are: no process before it in the table is runnable.
pub draw_zero :
    (t : Table) (p k i count : ℕ)
    → draw t 0 k i count ≡ some p
    → (i ≤ p)
      × (is_runnable (t p).state ≡ true)
      × ((q : ℕ) → i ≤ q → q < p → is_runnable (t q).state ≡ false)
unfolding draw
draw_zero t p zero i count e = cc
draw_zero t p (suc k) i count e = elim (Bool-cases (is_runnable (t i).state)) [
  | inl r ↦
      let ge : ltb (add_uint count (t i).tickets) 0 ≡ false = ground arith in
      let e' : i ≡ p = (let e'' = rw (r, ge) at e in cc) in
      (omega arith, rw (← e') r, λ q lo hi. absurd (omega arith))
  | inr r ↦
      let (lo, runs, before) = draw_zero t p k (i + 1) count (rw r at e) in
      (
        omega arith,
        runs,
        λ q from_ to_. elim (ℕ_discrete i q) [
          | yes same ↦ rw (← same) r
          | no other ↦ before q (omega arith) to_
        ],
      )
]
