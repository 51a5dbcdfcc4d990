-- ===== src/Mlfq/Life/Exit.antt =====
-- lab-2/proc_mlfq_v02.c: what `exit` leaves behind.
use cs_1217_operating_system.Base.{
  ℕ, zero, suc, ◌+◌, ◌<◌, ◌≡◌, refl, sym, ap, ◌∙◌, Bool, true, false, ◌&&◌, Option, none, some,
  arith, ltb, leb, ◌==◌, if◌then◌else◌, some_inj, none-ne-some, update_self, Bool-cases, inl, inr,
  ℕ_discrete, ne→false, ==_refl,
}
use cs_1217_operating_system.Proc.{runnable, zombie, is_zombie, Proc, nproc, nofile}
use cs_1217_operating_system.Mlfq.{Kernel, set_proc}
use cs_1217_operating_system.Mlfq.Life.{
  wakeup, wake_parent, is_child, reparent_one, reparent_from, exit, proc_addr, same_proc,
}
use cs_1217_operating_system.Mlfq.Life.Transitions.{
  sleeps_on, woken, in_loop, table-wakeup, initproc-wake_parent,
}

woken_keeps :
    (chan : ℕ) (r : Proc)
    → ((woken chan r).parent ≡ r.parent) × (r.state ≡ runnable → (woken chan r).state ≡ runnable)
unfolding woken
woken_keeps chan r = elim (Bool-cases (sleeps_on chan r)) [
  | inl h ↦ rw h (refl, λ _. refl)
  | inr h ↦ rw h (refl, λ e. e)
]

wakeup_keeps :
    (chan q : ℕ) (s : Kernel)
    → (((wakeup chan s).table q).parent ≡ (s.table q).parent)
      × ((s.table q).state ≡ runnable → ((wakeup chan s).table q).state ≡ runnable)
wakeup_keeps chan q s = rw (table-wakeup chan q s) (elim (Bool-cases (ltb q nproc)) [
  | inl h ↦ rw h (woken_keeps chan (s.table q))
  | inr h ↦ rw h (refl, λ e. e)
])

parent-wake_parent :
    (o : Option ℕ) (q : ℕ) (s : Kernel) → ((wake_parent o s).table q).parent ≡ (s.table q).parent
parent-wake_parent none q s = (wakeup_keeps 0 q s).0
parent-wake_parent (some p) q s = (wakeup_keeps (proc_addr p) q s).0

abbrev adopted : ℕ → Option ℕ → Option ℕ → Option ℕ
adopted cur init o = if elim o [ none ↦ false | some q ↦ q == cur ] then init else o

abbrev moved : ℕ → Option ℕ → ℕ → Kernel → Kernel
moved cur init p s = set_proc p (record (s.table p) { parent = init }) s

parent-moved :
    (cur : ℕ) (init : Option ℕ) (p q : ℕ) (s : Kernel)
    → is_child cur (s.table p) ≡ true
    → ((moved cur init p s).table q).parent
      ≡ (if p == q then adopted cur init (s.table q).parent else (s.table q).parent)
parent-moved cur init p q s h = elim (ℕ_discrete p q) [
  | yes e ↦ rw (e, ==_refl) (rw (rw e at h) refl)
  | no e ↦ rw (ne→false p q e) refl
]

parent-reparent_one :
    (cur : ℕ) (init : Option ℕ) (p q : ℕ) (s : Kernel)
    → ((reparent_one cur init p s).table q).parent
      ≡ (if p == q then adopted cur init (s.table q).parent else (s.table q).parent)
unfolding reparent_one
parent-reparent_one cur init p q s = elim (Bool-cases (is_child cur (s.table p))) [
  | inl h ↦
      rw (h, reparent_one)
        (elim (Bool-cases (is_zombie (s.table p).state)) [
          | inl z ↦
              rw z (parent-wake_parent init q (moved cur init p s) ∙ parent-moved cur init p q s h)
          | inr z ↦ rw z (parent-moved cur init p q s h)
        ])
  | inr h ↦
      rw (h, reparent_one)
        (elim (ℕ_discrete p q) [
          | yes e ↦ rw (e, ==_refl) (rw (rw e at h) refl)
          | no e ↦ rw (ne→false p q e) refl
        ])
]

parent-reparent_from :
    (cur : ℕ) (init : Option ℕ) (k i q : ℕ) (s : Kernel)
    → ((reparent_from cur init k i s).table q).parent ≡ (
        if leb i q && ltb q (i + k)
        then adopted cur init (s.table q).parent
        else (s.table q).parent)
unfolding reparent_from
parent-reparent_from cur init zero i q s =
    let e : (leb i q && ltb q (i + 0)) ≡ false = ground arith in rw e refl
parent-reparent_from cur init (suc k) i q s =
    parent-reparent_from cur init k (i + 1) q (reparent_one cur init i s)
    ∙ rw (parent-reparent_one cur init i q s) (in_loop (adopted cur init) (s.table q).parent i k q)

abbrev closed : ℕ → Kernel → Proc
closed cur s = record (s.table cur) {
  ofile = λ fd. if ltb fd nofile then none else (s.table cur).ofile fd;
  cwd = none;
}

abbrev announced : ℕ → Kernel → Kernel
announced cur s = wake_parent (s.table cur).parent (set_proc cur (closed cur s) s)

abbrev swept : ℕ → Kernel → Kernel
swept cur s = reparent_from cur (announced cur s).initproc nproc 0 (announced cur s)

abbrev final : ℕ → Kernel → Kernel
final cur s = set_proc cur (record ((swept cur s).table cur) { state = zombie }) (swept cur s)

exit-some :
    (cur : ℕ) (s : Kernel) {s' : Kernel}
    → exit cur s ≡ some s'
    → (same_proc cur s.initproc ≡ false) × (s' ≡ final cur s)
unfolding exit
exit-some cur s e = elim (Bool-cases (same_proc cur s.initproc)) [
  | inl h ↦ absurd (none-ne-some _ (rw h at e))
  | inr h ↦ (h, sym (some_inj (final cur s) _ (rw h at e)))
]

parent-announced :
    (cur q : ℕ) (s : Kernel) → ((announced cur s).table q).parent ≡ (s.table q).parent
parent-announced cur q s =
    parent-wake_parent (s.table cur).parent q (set_proc cur (closed cur s) s)
    ∙ elim (ℕ_discrete cur q) [ yes e ↦ rw (e, ==_refl) refl | no e ↦ rw (ne→false cur q e) refl ]

parent-final :
    (cur : ℕ) (s : Kernel) (q : ℕ)
    → q < nproc
    → ((final cur s).table q).parent ≡ adopted cur s.initproc (s.table q).parent
parent-final cur s q lt =
    kept
    ∙ parent-reparent_from cur (announced cur s).initproc nproc 0 q (announced cur s)
    ∙ rw
        (
          in_range,
          parent-announced cur q s,
          initproc-wake_parent (s.table cur).parent (set_proc cur (closed cur s) s),
        )
        refl
  where
    in_range : (leb 0 q && ltb q (0 + nproc)) ≡ true
    in_range = ground arith

    kept : ((final cur s).table q).parent ≡ ((swept cur s).table q).parent
    kept = elim (ℕ_discrete cur q) [
      | yes e ↦ rw (e, ==_refl) refl
      | no e ↦ rw (ne→false cur q e) refl
    ]

abbrev of_child : ℕ → Option ℕ → Bool
of_child cur o = elim o [ none ↦ false | some q ↦ q == cur ]

no_child :
    (cur : ℕ) (init o : Option ℕ)
    → same_proc cur init ≡ false
    → of_child cur (adopted cur init o) ≡ false
no_child cur none none h = refl
no_child cur none (some p) h = ground arith
no_child cur (some i) none h = refl
no_child cur (some i) (some p) h = ground arith

-- An `exit` that does not panic makes its caller a zombie, and
-- every process of the table that was its child has init for its parent, so that it has no child.
pub exit_lem :
    (cur : ℕ) (s : Kernel) {s' : Kernel}
    → exit cur s ≡ some s'
    → ((s'.table cur).state ≡ zombie)
      × ((q : ℕ) → q < nproc → is_child cur (s.table q) ≡ true → (s'.table q).parent ≡ s.initproc)
      × ((q : ℕ) → q < nproc → is_child cur (s'.table q) ≡ false)
exit_lem cur s e =
    let (guard, same) = exit-some cur s e in
    rw same (
      ap (λ (r : Proc). r.state) (update_self (swept cur s).table cur _),
      λ q lt h. parent-final cur s q lt ∙ rw h refl,
      λ q lt.
          ap (of_child cur) (parent-final cur s q lt)
          ∙ no_child cur s.initproc (s.table q).parent guard,
    )
