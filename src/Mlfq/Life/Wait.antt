-- ===== src/Mlfq/Life/Wait.antt =====
-- lab-2/proc_mlfq_v02.c: what `wait` comes to.
use cs_1217_operating_system.Base.{
  ℕ, Bool, Option, ◌<◌, ◌≡◌, ◌≢◌, ◌⊎◌, refl, true, false, ◌&&◌, none, some, [], arith, update_self,
  update_ne, ap, sym, Bool-cases, Option-cases, inl, inr,
}
use cs_1217_operating_system.Proc.{
  is_zombie, unused, sleeping, nproc, find_proc, find_proc-some, find_proc-none,
}
use cs_1217_operating_system.Mlfq.{Kernel}
use cs_1217_operating_system.Mlfq.Life.{
  wait, sleep, is_child, proc_addr, Waited, reaped, failed, blocked,
}

-- What each outcome of `wait` by `cur` promises.
abbrev pub Ensures : ℕ → Kernel → Waited → Type 0
Ensures cur s (reaped pid s') =
    (p : ℕ) × (p < nproc)
    × (is_child cur (s.table p) ≡ true)
    × (is_zombie (s.table p).state ≡ true)
    × (pid ≡ (s.table p).pid)
    × ((s'.table p).state ≡ unused)
    × ((s'.table p).pid ≡ 0)
    × ((s'.table p).kstack ≡ 0)
    × ((s'.table p).parent ≡ none)
    × ((s'.table p).killed ≡ false)
    × ((s'.table p).name ≡ [])
    × ((q : ℕ) → q ≢ p → s'.table q ≡ s.table q)
Ensures cur s failed =
    ((q : ℕ) → q < nproc → (is_child cur (s.table q) && is_zombie (s.table q).state) ≡ false)
    × (((q : ℕ) → q < nproc → is_child cur (s.table q) ≡ false) ⊎ ((s.table cur).killed ≡ true))
Ensures cur s (blocked s') =
    ((q : ℕ) → q < nproc → (is_child cur (s.table q) && is_zombie (s.table q).state) ≡ false)
    × ((q : ℕ) × (q < nproc) × (is_child cur (s.table q) ≡ true))
    × ((s.table cur).killed ≡ false)
    × ((s'.table cur).state ≡ sleeping)
    × ((s'.table cur).chan ≡ proc_addr cur)
    × ((q : ℕ) → q ≢ cur → s'.table q ≡ s.table q)

abbrev zombie_child : ℕ → Kernel → Option ℕ
zombie_child cur s = find_proc (λ r. is_child cur r && is_zombie r.state) s.table nproc 0

and_left : (a b : Bool) → (a && b) ≡ true → a ≡ true
and_left true b h = refl
and_left false b h = cc

and_right : (a b : Bool) → (a && b) ≡ true → b ≡ true
and_right true b h = h
and_right false b h = cc

-- A round of `wait` reaps a zombie child and answers the id it had, resetting its state, id, kernel stack, parent,
-- killed flag and name, and no other entry; or it fails, when no child is a zombie and the caller has no child or was
-- killed; or, when there are children, none is a zombie and the caller was not killed, the caller sleeps on its own
-- entry's address, and no other entry changes.
pub wait_lem : (cur : ℕ) (s : Kernel) → Ensures cur s (wait cur s)
unfolding wait sleep
wait_lem cur s = elim (Option-cases (zombie_child cur s)) [
  | inr (p, e) ↦
      let (_, bound, passes, _) =
        find_proc-some (λ r. is_child cur r && is_zombie r.state) s.table nproc 0 p e in
      rw (wait, e)
        (
          p,
          bound,
          and_left _ _ passes,
          and_right _ _ passes,
          refl,
          ap (λ r. r.state) (update_self s.table p _),
          ap (λ r. r.pid) (update_self s.table p _),
          ap (λ r. r.kstack) (update_self s.table p _),
          ap (λ r. r.parent) (update_self s.table p _),
          ap (λ r. r.killed) (update_self s.table p _),
          ap (λ r. r.name) (update_self s.table p _),
          λ q ne. update_ne s.table p q _ (λ same. ne (sym same)),
        )
  | inl e ↦ elim (Option-cases (find_proc (is_child cur) s.table nproc 0)) [
    | inl none_ ↦
        rw (wait, e, none_)
          (
            no_zombie e,
            inl (λ x h.
                find_proc-none (is_child cur) s.table nproc 0 x none_ (omega arith) (omega arith)),
          )
    | inr (q, found) ↦ elim (Bool-cases (s.table cur).killed) [
      | inl k ↦ rw (wait, e, found, k) (no_zombie e, inr k)
      | inr k ↦
          rw (wait, e, found, k)
            (
              no_zombie e,
              let (b, w) = waiting q found in (q, b, w),
              k,
              ap (λ r. r.state) (update_self s.table cur _),
              ap (λ r. r.chan) (update_self s.table cur _),
              λ x ne. update_ne s.table cur x _ (λ same. ne (sym same)),
            )
    ]
  ]
]
  where
    no_zombie :
        zombie_child cur s ≡ none
        → (q : ℕ) → q < nproc
        → (is_child cur (s.table q) && is_zombie (s.table q).state) ≡ false
    no_zombie e q h =
        find_proc-none (λ r. is_child cur r && is_zombie r.state) s.table nproc 0 q e (omega arith)
          (omega arith)

    waiting :
        (q : ℕ)
        → find_proc (is_child cur) s.table nproc 0 ≡ some q
        → (q < nproc) × (is_child cur (s.table q) ≡ true)
    waiting q found =
        let (_, bound, passes, _) = find_proc-some (is_child cur) s.table nproc 0 q found in
        (bound, passes)
