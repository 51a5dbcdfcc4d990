-- ===== src/Sysfile/Sound.antt =====
-- assignment-3/sysfile.c: the references that descriptors hold, and the transactions that are open.
use cs_1217_operating_system.Base.{
  ℕ, ◌+◌, ◌-◌, ◌≡◌, ◌<◌, sym, ap, subst, ◌∙◌, Bool, true, false, Option, none, some, ◌∷◌, ◌==◌,
  if◌then◌else◌, ltb, update, update_self, update_ne, ℕ_discrete, arith,
}
use cs_1217_operating_system.File.{
  File, Files, Release, keep, close_pipe, put_inode, filealloc, filedup, fileclose,
}
use cs_1217_operating_system.File.Refs.{
  AllocEnsures, filealloc_lem, CloseEnsures, closes, closes_lem,
}
use cs_1217_operating_system.Kalloc.{Kmem, kfree}
use cs_1217_operating_system.Pipe.{Pipe, Channel, pipeclose}
use cs_1217_operating_system.Fs.{Fs}
use cs_1217_operating_system.Fs.Content.{iput}
use cs_1217_operating_system.Sysfile.{
  World, nofile, go_on, with_fs, on_fs, enter_op, leave_op, fdalloc, free_page, close_end, dupped,
  dup_file, let_go, close_file,
}
use cs_1217_operating_system.Sysfile.Pipes.{alloc_file}
use cs_1217_operating_system.Sysfile.After.{After, After-then, After-if}
use cs_1217_operating_system.Sysfile.Descriptors.{
  holders, holders_opened, holders_closed, Taken, fdalloc_lem,
}

-- One more reference to `f`
abbrev pub bump : ℕ → (ℕ → ℕ) → ℕ → ℕ
bump f others g = others g + (if g == f then 1 else 0)

-- Each file counts the descriptors that are open on it and the references of others; `n` transactions are open.
pub record IsSound (others : ℕ → ℕ) (n : ℕ) (w : World) : Type 0 where
  pub ops : w.open_ops ≡ n
  pub counted : (f : ℕ) → (w.files f).ref ≡ others f + holders w.ofile f

-- Code that keeps this
abbrev pub Stays : {A : Type 0} → (ℕ → ℕ) → ℕ → Option (A × World) → Type 0
Stays others n = After (λ a. IsSound others n)

module _ (o : ℕ → ℕ) (n : ℕ) where
  pub sound_fs :
      {A : Type 0} (w : World) (r : Option (A × Fs)) → IsSound o n w → Stays o n (with_fs w r)
  sound_fs w none h = tt
  sound_fs w (some (a, s)) h = record { ops = h.ops; counted = h.counted }

  pub sound_enter : (w : World) → IsSound o n w → Stays o (n + 1) (enter_op w)
  sound_enter w h = record { ops = ap (λ x. x + 1) h.ops; counted = h.counted }

  pub sound_leave : (w : World) → IsSound o (n + 1) w → Stays o n (leave_op w)
  sound_leave w h =
      After-if (λ a. IsSound o n) (w.open_ops == 0) none
        (some (tt, record w { open_ops = w.open_ops - 1 })) tt
        (record { ops = omega (arith, h.ops); counted = h.counted })

  -- Changes of files that keep their counts
  pub IsSound-files :
      (w : World) (t : Files)
      → ((g : ℕ) → (t g).ref ≡ (w.files g).ref)
      → IsSound o n w
      → IsSound o n (record w { files = t })
  IsSound-files w t same h = record { ops = h.ops; counted = λ g. same g ∙ h.counted g }

  pub same_ref :
      (t : Files) (f : ℕ) (file : File)
      → file.ref ≡ (t f).ref
      → (g : ℕ) → (update t f file g).ref ≡ (t g).ref
  same_ref t f file e g = elim (ℕ_discrete g f) [
    | yes z ↦
        ap (λ x. (update t f file x).ref) z
        ∙ ap (λ (x : File). x.ref) (update_self t f file)
        ∙ e
        ∙ ap (λ x. (t x).ref) (sym z)
    | no ne ↦ ap (λ (x : File). x.ref) (update_ne t f g file (λ z. ne (sym z)))
  ]

  -- What `filealloc` answers: no file, or one with a reference more
  abbrev pub GotFile : Option ℕ → World → Type 0
  GotFile none w = IsSound o n w
  GotFile (some f) w = IsSound (bump f o) n w

  pub sound_alloc : (w : World) → IsSound o n w → After GotFile (alloc_file w)
  sound_alloc w h = from_table (filealloc w.files) (filealloc_lem w.files)
    where
      from_table :
          (r : Option ℕ × Files)
          → AllocEnsures w.files r
          → After GotFile (let (f, t) = r in some (f, record w { files = t }))
      from_table (none, t) (e, full) = IsSound-files w t (λ g. ap (λ (x : Files). (x g).ref) e) h
      from_table (some f, t) (lt, z, one, rest) = record {
        ops = h.ops;
        counted = λ g. elim (ℕ_discrete g f) [
          | yes e ↦
              let at_f = h.counted f in
              let same : (t g).ref ≡ (t f).ref = ap (λ x. (t x).ref) e in
              let held : o g + holders w.ofile g ≡ o f + holders w.ofile f =
                ap (λ x. o x + holders w.ofile x) e in
              ground (arith, at_f, same, held, one, z)
          | no ne ↦
              let same : (t g).ref ≡ (w.files g).ref = ap (λ (x : File). x.ref) (rest g ne) in
              ground (arith, h.counted g, same)
        ];
      }

  -- What `fdalloc` answers: nothing has changed, or the descriptor has the reference.
  abbrev pub GotFd : ℕ → World → Option ℕ → World → Type 0
  GotFd f w none w' = w' ≡ w
  GotFd f w (some fd) w' = IsSound o n w' × (w'.ofile fd ≡ some f) × (fd < nofile)

  pub sound_fdalloc : (f : ℕ) (w : World) → IsSound (bump f o) n w → After (GotFd f w) (fdalloc f w)
  sound_fdalloc f w h = from_loop (fdalloc f w) (fdalloc_lem f w)
    where
      from_loop : (r : Option (Option ℕ × World)) → Taken f w 0 nofile r → After (GotFd f w) r
      from_loop none h = absurd h
      from_loop (some (none, w')) (e, all) = e
      from_loop (some (some fd, w')) (e, lt, free, all) = subst (GotFd f w (some fd)) (sym e) (
        record {
          ops = h.ops;
          counted = λ g.
              let held = holders_opened w.ofile fd f g lt free in ground (arith, h.counted g, held);
        },
        update_self w.ofile fd (some f),
        lt,
      )

  -- A descriptor that is cleared leaves its reference.
  pub IsSound-clear :
      (f fd : ℕ) (w : World)
      → fd < nofile
      → w.ofile fd ≡ some f
      → IsSound o n w
      → IsSound (bump f o) n (record w { ofile = update w.ofile fd none })
  IsSound-clear f fd w lt at h = record {
    ops = h.ops;
    counted =
        λ g. let held = holders_closed w.ofile fd f g lt at in ground (arith, h.counted g, held);
  }

  abbrev paged : World → Option Kmem → Option (Unit {0} × World)
  paged w none = none
  paged w (some m) = some (tt, record w { kmem = m })

  sound_paged : (w : World) (r : Option Kmem) → IsSound o n w → Stays o n (paged w r)
  sound_paged w none h = tt
  sound_paged w (some m) h = record { ops = h.ops; counted = h.counted }

  sound_page : (end_ v : ℕ) (w : World) → IsSound o n w → Stays o n (free_page end_ v w)
  sound_page end_ v w h = sound_paged w (kfree end_ v w.kmem) h

  sound_end :
      (end_ at : ℕ) (writable : Bool) (w : World)
      → IsSound o n w
      → Stays o n (close_end end_ at writable w)
  unfolding close_end
  sound_end end_ at writable w h = from_pipe (pipeclose writable (w.pipes at))
    where
      from_pipe :
          (r : Pipe × Channel × Bool)
          → Stays o n (
              let (p, channel, freed) = r in
              let w' : World = record w {
                pipes = update w.pipes at p;
                woken = (at, channel) ∷ w.woken;
              } in
              if freed then free_page end_ at w' else some (tt, w'))
      from_pipe (p, channel, freed) =
          let w' : World = record w {
            pipes = update w.pipes at p;
            woken = (at, channel) ∷ w.woken;
          } in
          let h' : IsSound o n w' = record { ops = h.ops; counted = h.counted } in
          After-if (λ a. IsSound o n) freed (free_page end_ at w') (some (tt, w'))
            (sound_page end_ at w' h') h'

module _ (o : ℕ → ℕ) (n : ℕ) where
  pub sound_let_go :
      (end_ : ℕ) (r : Release) (w : World) → IsSound o n w → Stays o n (let_go end_ r w)
  unfolding let_go
  sound_let_go end_ keep w h = h
  sound_let_go end_ (close_pipe at writable) w h = sound_end o n end_ at writable w h
  sound_let_go end_ (put_inode ip) w h =
      After-then (λ a. IsSound o (n + 1)) (λ a. IsSound o n) (enter_op w)
        (λ _ v. go_on (on_fs (iput ip) v) (λ _. leave_op)) (sound_enter o n w h)
        (λ a v hv.
          After-then (λ a. IsSound o (n + 1)) (λ a. IsSound o n) (on_fs (iput ip) v) (λ _. leave_op)
            (sound_fs o (n + 1) v (iput ip v.fs) hv) (λ b u hu. sound_leave o n u hu))

  -- `fileclose` takes a reference away.
  pub sound_close :
      (end_ f : ℕ) (w : World) → IsSound (bump f o) n w → Stays o n (close_file end_ f w)
  unfolding close_file
  sound_close end_ f w h =
      from_close (fileclose f w.files)
        (closes_lem 1 f w.files (omega arith) (ground (arith, h.counted f)))
    where
      from_close :
          (r : Option (Release × Files))
          → CloseEnsures 1 f w.files (elim r [ none ↦ none | some (r', t') ↦ closes 0 f r' t' ])
          → Stays o n
              (elim r [ none ↦ none | some (r', t') ↦ let_go end_ r' (record w { files = t' }) ])
      from_close none h0 = tt
      from_close (some (r, t)) (e, less, rest) =
          sound_let_go end_ r (record w { files = t })
            (record {
              ops = h.ops;
              counted = λ g. elim (ℕ_discrete g f) [
                | yes z ↦
                    let at_f = h.counted f in
                    let same : (t g).ref ≡ (t f).ref = ap (λ x. (t x).ref) z in
                    let held : o g + holders w.ofile g ≡ o f + holders w.ofile f =
                      ap (λ x. o x + holders w.ofile x) z in
                    ground (arith, at_f, same, held, less)
                | no ne ↦
                    let same : (t g).ref ≡ (w.files g).ref = ap (λ (x : File). x.ref) (rest g ne) in
                    ground (arith, h.counted g, same)
              ];
            })

  -- `filedup` gives a descriptor the reference that it lacks.
  pub sound_dup :
      (f : ℕ) (w : World)
      → w.open_ops ≡ n
      → ((g : ℕ) → (w.files g).ref + (if g == f then 1 else 0) ≡ o g + holders w.ofile g)
      → Stays o n (dup_file f w)
  unfolding filedup
  sound_dup f w ops owed = from_test (ltb (w.files f).ref 1)
    where
      more : File
      more = record (w.files f) { ref = (w.files f).ref + 1 }

      from_test :
          (t : Bool) → Stays o n (dupped w (if t then none else some (update w.files f more)))
      from_test true = tt
      from_test false = record {
        ops = ops;
        counted = λ g. elim (ℕ_discrete g f) [
          | yes e ↦
              let now : (update w.files f more g).ref ≡ (w.files f).ref + 1 =
                ap (λ x. (update w.files f more x).ref) e
                ∙ ap (λ (x : File). x.ref) (update_self w.files f more) in
              let at_f : (w.files g).ref ≡ (w.files f).ref = ap (λ x. (w.files x).ref) e in
              ground (arith, owed g, now, at_f)
          | no ne ↦
              let same : (update w.files f more g).ref ≡ (w.files g).ref =
                ap (λ (x : File). x.ref) (update_ne w.files f g more (λ e. ne (sym e))) in
              ground (arith, owed g, same)
        ];
      }
