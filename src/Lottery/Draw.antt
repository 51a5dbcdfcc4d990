-- ===== src/Lottery/Draw.antt =====
-- lab-2/proc_lottery_v02.c: which process a lottery number selects.
use cs_1217_operating_system.Base.{
  ℕ, zero, suc, Bool-cases, ◌+◌, ◌≤◌, ◌<◌, ◌^◌, ◌≡◌, ◌≢◌, ◌↔◌, ◌⊎◌, refl, true, none, some, arith,
  if◌then◌else◌, ltb, ltb→lt, inl, inr, subst,
}
use cs_1217_operating_system.Proc.{is_runnable, Table}
use cs_1217_operating_system.Lottery.{ticket_sum, draw, add_uint}

-- The tickets of the runnable processes among the `k` from `i` on.
abbrev pub tickets_in : Table → ℕ → ℕ → ℕ
tickets_in t zero i = 0
tickets_in t (suc k) i =
    (if is_runnable (t i).state then (t i).tickets else 0) + tickets_in t k (i + 1)

pub ticket_sum_lem :
    (t : Table) (k i sum : ℕ)
    → sum + tickets_in t k i < 2 ^ 32
    → ticket_sum t k i sum ≡ sum + tickets_in t k i
unfolding ticket_sum
ticket_sum_lem t zero i sum h = omega arith
ticket_sum_lem t (suc k) i sum h =
    ground (arith, ticket_sum_lem t k (i + 1) sum, ticket_sum_lem t k (i + 1) (sum + (t i).tickets))

pub tickets_in_le :
    (t : Table) (m k i : ℕ)
    → m < k
    → is_runnable (t (i + m)).state ≡ true
    → tickets_in t m i + (t (i + m)).tickets ≤ tickets_in t k i
tickets_in_le t m zero i h r = absurd (omega arith)
tickets_in_le t zero (suc k) i h r =
    let e : i + 0 ≡ i = omega arith in rw e (rw (rw e at r) (omega arith))
tickets_in_le t (suc m) (suc k) i h r =
    let e : i + suc m ≡ i + 1 + m = omega arith in
    rw e (omega (arith, tickets_in_le t m k (i + 1) (omega arith) (rw e at r)))

draw_wins :
    (t : Table) (lottery k i count m : ℕ)
    → count + tickets_in t k i < 2 ^ 32
    → m < k
    → is_runnable (t (i + m)).state ≡ true
    → count + tickets_in t m i < lottery
    → lottery ≤ count + tickets_in t m i + (t (i + m)).tickets
    → draw t lottery k i count ≡ some (i + m)
unfolding draw
draw_wins t lottery zero i count m small h r lo hi = absurd (omega arith)
draw_wins t lottery (suc k) i count zero small h r lo hi =
    let e : i + 0 ≡ i = omega arith in
    let r' : is_runnable (t i).state ≡ true = rw e at r in
    let hi' : lottery ≤ count + 0 + (t i).tickets = rw e at hi in rw e (rw r' (ground arith))
draw_wins t lottery (suc k) i count (suc m) small h r lo hi =
    let e : i + suc m ≡ i + 1 + m = omega arith in
    let r' : is_runnable (t (i + 1 + m)).state ≡ true = rw e at r in
    let hi' : lottery ≤ count + tickets_in t (suc m) i + (t (i + 1 + m)).tickets = rw e at hi in
    rw e (
      ground (
        arith,
        draw_wins t lottery k (i + 1) count m,
        draw_wins t lottery k (i + 1) (count + (t i).tickets) m,
      ))

-- The selected process is runnable, and its share of the tickets holds the number. The share's
-- lower end needs a positive number.
record Won (t : Table) (lottery k i count p : ℕ) : Type 0 where
  m : ℕ
  at_ : p ≡ i + m
  within_ : m < k
  runs : is_runnable (t p).state ≡ true
  below : count < lottery → count + tickets_in t m i < lottery
  above : lottery ≤ count + tickets_in t m i + (t p).tickets

Won-later :
    (t : Table) (lottery k i count count' p : ℕ)
    → count' ≡ count + (if is_runnable (t i).state then (t i).tickets else 0)
    → count' < lottery ⊎ (count' ≡ count)
    → Won t lottery k (i + 1) count' p
    → Won t lottery (suc k) i count p
Won-later t lottery k i count count' p e h w = record {
  m = suc w.m;
  at_ = omega (arith, w.at_);
  within_ = omega (arith, w.within_);
  runs = w.runs;
  below = λ lt.
      let below' : count' + tickets_in t w.m (i + 1) < lottery = w.below (omega arith) in
      omega arith;
  above = let above' = w.above in omega arith;
}

draw-Won :
    (t : Table) (lottery k i count p : ℕ)
    → count + tickets_in t k i < 2 ^ 32
    → draw t lottery k i count ≡ some p
    → Won t lottery k i count p
unfolding draw
draw-Won t lottery zero i count p small e = cc
draw-Won t lottery (suc k) i count p small e = elim (Bool-cases (is_runnable (t i).state)) [
  | inl r ↦
      let count_eq : add_uint count (t i).tickets ≡ count + (t i).tickets =
        (let small' = rw r at small in omega arith) in
      elim (Bool-cases (ltb (add_uint count (t i).tickets) lottery)) [
        | inl lt ↦ Won-later t lottery k i count _ p (rw r count_eq) (inl (ltb→lt _ _ lt)) (
            draw-Won t lottery k (i + 1) _ p (let small' = rw r at small in omega (arith, count_eq))
              (rw (r, lt) at e))
        | inr ge ↦
            let e' : p ≡ i = (let e'' = rw (r, ge) at e in cc) in
            record {
              m = 0;
              at_ = omega arith;
              within_ = omega arith;
              runs = rw e' r;
              below = λ h. omega arith;
              above = rw e' (ground arith);
            }
      ]
  | inr r ↦
      Won-later t lottery k i count count p (rw r (omega arith)) (inr refl) (
        draw-Won t lottery k (i + 1) count p (let small' = rw r at small in omega arith)
          (rw r at e))
]

draw-none_below :
    (t : Table) (lottery k i count : ℕ)
    → count + tickets_in t k i < 2 ^ 32
    → count < lottery
    → draw t lottery k i count ≡ none
    → count + tickets_in t k i < lottery
unfolding draw
draw-none_below t lottery zero i count small h e = omega arith
draw-none_below t lottery (suc k) i count small h e = ground (
  arith,
  draw-none_below t lottery k (i + 1) count,
  draw-none_below t lottery k (i + 1) (count + (t i).tickets),
)

draw-none :
    (t : Table) (lottery k i count m : ℕ)
    → count + tickets_in t k i < 2 ^ 32
    → draw t lottery k i count ≡ none
    → m < k
    → is_runnable (t (i + m)).state ≡ true
    → count + tickets_in t k i < lottery
unfolding draw
draw-none t lottery zero i count m small e h r = absurd (omega arith)
draw-none t lottery (suc k) i count zero small e h r =
    let e' : i + 0 ≡ i = omega arith in
    let r' : is_runnable (t i).state ≡ true = rw e' at r in
    ground (arith, draw-none_below t lottery k (i + 1) (count + (t i).tickets))
draw-none t lottery (suc k) i count (suc m) small e h r =
    let e' : i + suc m ≡ i + 1 + m = omega arith in
    let r' : is_runnable (t (i + 1 + m)).state ≡ true = rw e' at r in
    ground (
      arith,
      draw-none t lottery k (i + 1) count m,
      draw-none t lottery k (i + 1) (count + (t i).tickets) m,
    )

-- A positive lottery number selects exactly the runnable process in whose share of the tickets it
-- falls, when the tickets of the runnable processes are laid out in the order of the table and
-- their sum does not overflow.
pub draw_iff :
    (t : Table) (n lottery p : ℕ)
    → tickets_in t n 0 < 2 ^ 32
    → 0 < lottery
    → (draw t lottery n 0 0 ≡ some p) ↔ (
        (p < n)
        × (is_runnable (t p).state ≡ true)
        × (tickets_in t p 0 < lottery)
        × (lottery ≤ tickets_in t p 0 + (t p).tickets))
draw_iff t n lottery p small pos = (
  (λ e.
      let w = draw-Won t lottery n 0 0 p (omega arith) e in
      let q : w.m ≡ p = omega (arith, w.at_) in
      (
        omega (arith, w.within_),
        w.runs,
        subst (λ m. tickets_in t m 0 < lottery) q (let b = w.below pos in omega arith),
        subst (λ m. lottery ≤ tickets_in t m 0 + (t p).tickets) q (let a = w.above in omega arith),
      )),
  (λ h.
      let e : 0 + p ≡ p = omega arith in
      rw e at (
        draw_wins t lottery n 0 0 p (omega arith) h.0 (rw e h.1) (omega (arith, h.2))
          (rw e (omega (arith, h.3))))),
)

-- While some process is runnable, every lottery number up to the sum of the tickets selects one.
pub draw-ne-none :
    (t : Table) (n lottery q : ℕ)
    → tickets_in t n 0 < 2 ^ 32
    → q < n
    → is_runnable (t q).state ≡ true
    → lottery ≤ tickets_in t n 0
    → draw t lottery n 0 0 ≢ none
draw-ne-none t n lottery q small h r le e =
    let e' : 0 + q ≡ q = omega arith in
    omega (arith, draw-none t lottery n 0 0 q (omega arith) e h (rw e' r))

-- What a lottery number selects is a runnable process of the table.
pub draw_runnable :
    (t : Table) (n lottery p : ℕ)
    → tickets_in t n 0 < 2 ^ 32
    → draw t lottery n 0 0 ≡ some p
    → (p < n) × (is_runnable (t p).state ≡ true)
draw_runnable t n lottery p small e =
    let w = draw-Won t lottery n 0 0 p (omega arith) e in (omega (arith, w.at_, w.within_), w.runs)
