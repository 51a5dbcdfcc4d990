-- ===== src/Log/Space.antt =====
-- assignment-3/log.c: file system calls that share the log, interleaved in any order.
use cs_1217_operating_system.Base.{
  ℕ, suc, ◌+◌, ◌*◌, ◌≤◌, ◌<◌, ◌≡◌, ◌≢◌, refl, sym, ◌∙◌, ap, arith, Bool, true, false, ◌==◌,
  if◌then◌else◌, subst, none, some, List, [], ◌∷◌, ◌++◌, length, All, some_inj, none-ne-some,
  Option,
}
use mathlib.Core.Bool.{true≢false}
use mathlib.Core.Path.{ap₂}
use cs_1217_operating_system.Base.Int.{pos}
use cs_1217_operating_system.Log.{System, LogState, Write, commit, log_size, max_op_blocks}
use cs_1217_operating_system.Log.Ops.{
  begin_op, leave_op, clear_committing, commit_if, end_op, log_write, log_write_frame,
  log_write-ne-none, leave_op_frame, leave_op-ne-none, begin_op_frame, log-commit,
}

-- The call that ended last has yet to commit, or has committed and has yet to clear `committing`.
pub data Phase : Type 0 where
  quiet : Phase
  to_commit : Phase
  committed : Phase

-- The log, and for each call between `begin_op` and `end_op` the number of its `log_write`s.
pub record Calls : Type 0 where
  pub sys : System
  pub used : List ℕ
  pub phase : Phase

-- One step of one of the calls. `end_op` takes several: others may run after each critical section and before
-- and after the commit.
pub data Step (c : Calls) : Calls → Type 0 where
  begins :
      {l : LogState}
      → begin_op c.sys.log ≡ some l
      → Step c (record c { sys = record (c.sys) { log = l }; used = 0 ∷ c.used })
  writes :
      (xs ys : List ℕ) (u b : ℕ) {s : System}
      → c.used ≡ xs ++ (u ∷ ys)
      → u < max_op_blocks
      → log_write b c.sys ≡ some s
      → Step c (record c { sys = s; used = xs ++ ((u + 1) ∷ ys) })
  ends :
      (xs ys : List ℕ) (u : ℕ) {last : Bool} {l : LogState}
      → c.used ≡ xs ++ (u ∷ ys)
      → leave_op c.sys.log ≡ some (last, l)
      → Step c (record {
        sys = record (c.sys) { log = l };
        used = xs ++ ys;
        phase = if last then to_commit else c.phase;
      })
  commits : c.phase ≡ to_commit → Step c (record c { sys = (commit c.sys).0; phase = committed })
  clears : c.phase ≡ committed → Step c (record c { sys = clear_committing c.sys; phase = quiet })

-- From the state that `initlog` leaves: nothing outstanding, an empty log of `size` blocks.
pub record IsInitial (size : ℕ) (c : Calls) : Type 0 where
  pub size_is : c.sys.log.size ≡ size
  pub none_out : c.sys.log.outstanding ≡ pos 0
  pub idle : c.sys.log.committing ≡ false
  pub empty : c.sys.log.lh.n ≡ 0
  pub no_calls : c.used ≡ []
  pub calm : c.phase ≡ quiet

pub data Reach (size : ℕ) : Calls → Type 0 where
  start : {c : Calls} → IsInitial size c → Reach size c
  later : {c c' : Calls} → Reach size c → Step c c' → Reach size c'

abbrev total : List ℕ → ℕ
total [] = 0
total (u ∷ us) = u + total us

total-append : (xs ys : List ℕ) → total (xs ++ ys) ≡ total xs + total ys
total-append [] ys = omega arith
total-append (x ∷ xs) ys = omega (arith, total-append xs ys)

length-replace : (xs ys : List ℕ) (u v : ℕ) → length (xs ++ (u ∷ ys)) ≡ length (xs ++ (v ∷ ys))
length-replace [] ys u v = refl
length-replace (x ∷ xs) ys u v = omega (arith, length-replace xs ys u v)

length-remove : (xs ys : List ℕ) (u : ℕ) → length (xs ++ (u ∷ ys)) ≡ suc (length (xs ++ ys))
length-remove [] ys u = refl
length-remove (x ∷ xs) ys u = omega (arith, length-remove xs ys u)

All-replace :
    (P : ℕ → Type 0) (xs ys : List ℕ) (u v : ℕ)
    → All P (xs ++ (u ∷ ys))
    → P v
    → All P (xs ++ (v ∷ ys))
All-replace P [] ys u v h p = (p, h.1)
All-replace P (x ∷ xs) ys u v h p = (h.0, All-replace P xs ys u v h.1 p)

All-remove :
    (P : ℕ → Type 0) (xs ys : List ℕ) (u : ℕ) → All P (xs ++ (u ∷ ys)) → P u × All P (xs ++ ys)
All-remove P [] ys u h = h
All-remove P (x ∷ xs) ys u h = let (p, q) = All-remove P xs ys u h.1 in (p, (h.0, q))

total_le : (xs : List ℕ) → All (λ u. u ≤ max_op_blocks) xs → total xs ≤ max_op_blocks * length xs
total_le [] h = omega arith
total_le (x ∷ xs) h = omega (arith, total_le xs h.1)

-- While a commit is under way `committing` is set and no call is in progress.
abbrev Guarded : Phase → Bool → List ℕ → Type 0
Guarded quiet b us = b ≡ false
Guarded to_commit b us = (b ≡ true) × (us ≡ [])
Guarded committed b us = (b ≡ true) × (us ≡ [])

-- The log has room for what the calls in progress may still write.
record Inv (size : ℕ) (c : Calls) : Type 0 where
  size_is : c.sys.log.size ≡ size
  guarded : Guarded c.phase c.sys.log.committing c.used
  counted : c.sys.log.outstanding ≡ pos (length c.used)
  within : All (λ u. u ≤ max_op_blocks) c.used
  room : c.sys.log.lh.n + max_op_blocks * length c.used ≤ log_size + total c.used

not-empty : (xs ys : List ℕ) (u : ℕ) → xs ++ (u ∷ ys) ≢ []
not-empty [] ys u e = cc
not-empty (x ∷ xs) ys u e = cc

-- With a call in progress, or `committing` not set, no commit is under way.
busy-quiet :
    (p : Phase) (b : Bool) (us xs ys : List ℕ) (u : ℕ)
    → Guarded p b us
    → us ≡ xs ++ (u ∷ ys)
    → p ≡ quiet
busy-quiet quiet b us xs ys u g e = refl
busy-quiet to_commit b us xs ys u g e = absurd (not-empty xs ys u (sym e ∙ g.1))
busy-quiet committed b us xs ys u g e = absurd (not-empty xs ys u (sym e ∙ g.1))

clear-quiet : (p : Phase) (b : Bool) (us : List ℕ) → Guarded p b us → b ≡ false → p ≡ quiet
clear-quiet quiet b us g e = refl
clear-quiet to_commit b us g e = absurd (true≢false (sym g.0 ∙ e))
clear-quiet committed b us g e = absurd (true≢false (sym g.0 ∙ e))

quiet-clear : (p : Phase) (b : Bool) (us : List ℕ) → p ≡ quiet → Guarded p b us → b ≡ false
quiet-clear p b us e g = subst (λ q. Guarded q b us) e g

clear-Guarded : (p : Phase) (b : Bool) (us : List ℕ) → p ≡ quiet → b ≡ false → Guarded p b us
clear-Guarded p b us e h = subst (λ q. Guarded q b us) (sym e) h

begin_op-Inv :
    {size : ℕ} {c : Calls} {l : LogState}
    → Inv size c
    → begin_op c.sys.log ≡ some l
    → Inv size (record c { sys = record (c.sys) { log = l }; used = 0 ∷ c.used })
begin_op-Inv {c} {l} v e =
    let (free, clear, size_eq, out_eq, n_eq, fits) =
      begin_op_frame c.sys.log (length c.used) v.counted e in
    record {
      size_is = size_eq ∙ v.size_is;
      guarded =
          clear-Guarded c.phase l.committing (0 ∷ c.used)
            (clear-quiet c.phase c.sys.log.committing c.used v.guarded free) clear;
      counted = out_eq;
      within = (omega arith, v.within);
      room = omega (arith, fits);
    }

log_write-Inv :
    {size : ℕ} {c : Calls} (xs ys : List ℕ) (u b : ℕ) {s : System}
    → Inv size c
    → c.used ≡ xs ++ (u ∷ ys)
    → u < max_op_blocks
    → log_write b c.sys ≡ some s
    → Inv size (record c { sys = s; used = xs ++ ((u + 1) ∷ ys) })
log_write-Inv {c} xs ys u b {s} v e h q =
    let (size_eq, same, out_eq, n_le) = log_write_frame b c.sys q in
    let calm = busy-quiet c.phase c.sys.log.committing c.used xs ys u v.guarded e in
    let within' : All (λ u. u ≤ max_op_blocks) (xs ++ (u ∷ ys)) = rw e at v.within in
    record {
      size_is = size_eq ∙ v.size_is;
      guarded =
          clear-Guarded c.phase s.log.committing (xs ++ ((u + 1) ∷ ys)) calm
            (same ∙ quiet-clear c.phase c.sys.log.committing c.used calm v.guarded);
      counted = out_eq ∙ v.counted ∙ ap pos (ap length e ∙ length-replace xs ys u (u + 1));
      within = All-replace _ xs ys u (u + 1) within' (omega arith);
      room = omega (
        arith,
        ap length e,
        ap total e,
        length-replace xs ys u (u + 1),
        total-append xs (u ∷ ys),
        total-append xs ((u + 1) ∷ ys),
        v.room,
        n_le,
      );
    }

empty_list : (us : List ℕ) → (length us == 0) ≡ true → us ≡ []
empty_list [] h = refl
empty_list (u ∷ us) h = ground arith

-- The call that ends last leaves none in progress and sets `committing`.
leave-Guarded :
    (p : Phase) (b last : Bool) (us : List ℕ)
    → p ≡ quiet
    → b ≡ last
    → last ≡ (length us == 0)
    → Guarded (if last then to_commit else p) b us
leave-Guarded p b true us calm e z = (e, empty_list us (sym z))
leave-Guarded p b false us calm e z = clear-Guarded p b us calm e

leave_op-Inv :
    {size : ℕ} {c : Calls} (xs ys : List ℕ) (u : ℕ) {last : Bool} {l : LogState}
    → Inv size c
    → c.used ≡ xs ++ (u ∷ ys)
    → leave_op c.sys.log ≡ some (last, l)
    → Inv size (record {
      sys = record (c.sys) { log = l };
      used = xs ++ ys;
      phase = if last then to_commit else c.phase;
    })
leave_op-Inv {c} xs ys u {last} {l} v e q =
    let count_eq : c.sys.log.outstanding ≡ pos (suc (length (xs ++ ys))) =
      v.counted ∙ ap pos (ap length e ∙ length-remove xs ys u) in
    let (size_eq, set, out_eq, n_eq, zero_) =
      leave_op_frame c.sys.log (length (xs ++ ys)) count_eq q in
    let within' : All (λ u. u ≤ max_op_blocks) (xs ++ (u ∷ ys)) = rw e at v.within in
    let (u_le, within_rest) = All-remove _ xs ys u within' in
    record {
      size_is = size_eq ∙ v.size_is;
      guarded =
          leave-Guarded c.phase l.committing last (xs ++ ys)
            (busy-quiet c.phase c.sys.log.committing c.used xs ys u v.guarded e) set zero_;
      counted = out_eq;
      within = within_rest;
      room = omega (
        arith,
        ap length e,
        ap total e,
        length-remove xs ys u,
        total-append xs (u ∷ ys),
        total-append xs ys,
        v.room,
        n_eq,
        u_le,
      );
    }

commit-Inv :
    {size : ℕ} {c : Calls}
    → Inv size c
    → c.phase ≡ to_commit
    → Inv size (record c { sys = (commit c.sys).0; phase = committed })
commit-Inv {size} {c} v e =
    let same = log-commit c.sys in
    let held = subst (λ q. Guarded q c.sys.log.committing c.used) e v.guarded in
    record {
      size_is = ap (λ (l : LogState). l.size) same ∙ v.size_is;
      guarded = (ap (λ (l : LogState). l.committing) same ∙ held.0, held.1);
      counted = ap (λ (l : LogState). l.outstanding) same ∙ v.counted;
      within = v.within;
      room = omega (arith, ap (λ (l : LogState). l.lh.n) same, v.room);
    }

clear-Inv :
    {size : ℕ} {c : Calls}
    → Inv size c
    → Inv size (record c { sys = clear_committing c.sys; phase = quiet })
clear-Inv v = record {
  size_is = v.size_is;
  guarded = refl;
  counted = v.counted;
  within = v.within;
  room = v.room;
}

Step-Inv : {size : ℕ} {c c' : Calls} → Step c c' → Inv size c → Inv size c'
Step-Inv (begins e) v = begin_op-Inv v e
Step-Inv (writes xs ys u b e h q) v = log_write-Inv xs ys u b v e h q
Step-Inv (ends xs ys u e q) v = leave_op-Inv xs ys u v e q
Step-Inv (commits e) v = commit-Inv v e
Step-Inv (clears e) v = clear-Inv v

Reach-Inv : {size : ℕ} {c : Calls} → Reach size c → Inv size c
Reach-Inv (start {c} i) = record {
  size_is = i.size_is;
  guarded = clear-Guarded c.phase c.sys.log.committing c.used i.calm i.idle;
  counted = i.none_out ∙ ap pos (sym (ap length i.no_calls));
  within = rw i.no_calls tt;
  room = omega (arith, i.empty, ap length i.no_calls, ap total i.no_calls);
}
Reach-Inv (later r st) = Step-Inv st (Reach-Inv r)

-- In every state that calls of the log interface can reach, where any may take a step between the two critical
-- sections of an `end_op`, before and after its commit: while a call is in progress no other is about to commit or has yet
-- to clear `committing`; the call, if it has made fewer than MAXOPBLOCKS writes, can make one more without a
-- panic, provided that the log has more than LOGSIZE blocks; and whatever the log's size, it can end without a panic.
pub calls_safe :
    {size : ℕ} {c : Calls} (xs ys : List ℕ) (u b : ℕ)
    → Reach size c
    → c.used ≡ xs ++ (u ∷ ys)
    → (c.phase ≡ quiet)
      × (u < max_op_blocks → log_size < size → log_write b c.sys ≢ none)
      × (leave_op c.sys.log ≢ none)
calls_safe {size} {c} xs ys u b r e = (
  calm,
  λ h big.
      log_write-ne-none b c.sys (length (xs ++ ys)) count_eq (room_lem h)
        (omega (arith, room_lem h, v.size_is)),
  leave_op-ne-none c.sys.log (quiet-clear c.phase c.sys.log.committing c.used calm v.guarded),
)
  where
    v : Inv size c
    v = Reach-Inv r

    calm : c.phase ≡ quiet
    calm = busy-quiet c.phase c.sys.log.committing c.used xs ys u v.guarded e

    count_eq : c.sys.log.outstanding ≡ pos (suc (length (xs ++ ys)))
    count_eq = v.counted ∙ ap pos (ap length e ∙ length-remove xs ys u)

    room_lem : u < max_op_blocks → c.sys.log.lh.n < log_size
    room_lem h =
        let w : All (λ u. u ≤ max_op_blocks) (xs ++ (u ∷ ys)) = rw e at v.within in
        let rest : All (λ u. u ≤ max_op_blocks) (xs ++ ys) = (All-remove _ xs ys u w).1 in
        omega (
          arith,
          v.room,
          ap length e,
          ap total e,
          length-remove xs ys u,
          total-append xs (u ∷ ys),
          total-append xs ys,
          total_le (xs ++ ys) rest,
        )

module _ {size : ℕ} {c : Calls} (xs ys : List ℕ) (u : ℕ) (r : Reach size c) where
  ended :
      {s : System} {ws : List Write} (o : Option (Bool × LogState))
      → c.used ≡ xs ++ (u ∷ ys)
      → leave_op c.sys.log ≡ o
      → commit_if c.sys o ≡ some (s, ws)
      → Reach size (record { sys = s; used = xs ++ ys; phase = quiet })
  ended {s} {ws} none e q h = absurd (none-ne-some (s, ws) h)
  ended (some (false, l)) e q h =
      subst
        (λ (x : System × Phase). Reach size (record { sys = x.0; used = xs ++ ys; phase = x.1 }))
        (ap₂ (λ a b. (a, b)) (ap (λ (x : System × List Write). x.0) (some_inj _ _ h))
          (calls_safe xs ys u 0 r e).0)
        (later r (ends xs ys u e q))
  ended (some (true, l)) e q h =
      subst (λ (x : System). Reach size (record { sys = x; used = xs ++ ys; phase = quiet }))
        (ap (λ (x : System × List Write). x.0) (some_inj _ _ h))
        (later (later (later r (ends xs ys u e q)) (commits refl)) (clears refl))

  -- `end_op` in one go, when no other call runs in between, is a run of these steps.
  end_op-Reach :
      {s : System} {ws : List Write}
      → c.used ≡ xs ++ (u ∷ ys)
      → end_op c.sys ≡ some (s, ws)
      → Reach size (record { sys = s; used = xs ++ ys; phase = quiet })
  unfolding end_op
  end_op-Reach e h = ended (leave_op c.sys.log) e refl h
