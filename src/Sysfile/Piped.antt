-- ===== src/Sysfile/Piped.antt =====
-- assignment-3/sysfile.c and pipe.c: `sys_pipe` keeps the references of descriptors.
use cs_1217_operating_system.Base.{
  ℕ, ◌≡◌, ◌<◌, refl, sym, subst, Option, none, some, true, false, Bool, not, update, arith,
}
use cs_1217_operating_system.Base.Int.{pos}
use cs_1217_operating_system.Syscall.{argptr}
use cs_1217_operating_system.Kalloc.{Kmem, kalloc}
use cs_1217_operating_system.File.{fd_pipe}
use cs_1217_operating_system.Sysfile.{
  World, Action, nofile, go_on, ret, on_option, ◌>>=◌, ◌>>◌, set_ofile, fdalloc, close_file,
}
use cs_1217_operating_system.Sysfile.Pipes
use cs_1217_operating_system.Sysfile.After.{After, After-then}
use cs_1217_operating_system.Sysfile.Sound.{
  bump, IsSound, Stays, IsSound-files, same_ref, GotFile, sound_alloc, GotFd, sound_fdalloc,
  IsSound-clear, sound_close,
}
use cs_1217_operating_system.Sysfile.Kept.{option-Stays}

module _ (o : ℕ → ℕ) (n : ℕ) where
  swap : (a b : ℕ) (w : World) → IsSound (bump a (bump b o)) n w → IsSound (bump b (bump a o)) n w
  swap a b w h = record { ops = h.ops; counted = λ g. ground (arith, h.counted g) }

  abbrev both : ℕ → ℕ → ℕ → ℕ
  both rf wf = bump rf (bump wf o)

  close_both :
      {A : Type 0} (Q : A → World → Type 0) (end_ rf wf : ℕ) (r : A) (w : World)
      → IsSound (both rf wf) n w
      → ((v : World) → IsSound o n v → Q r v)
      → After Q ((close_file end_ rf >> (close_file end_ wf >> ret r)) w)
  close_both Q end_ rf wf r w h done =
      After-then (λ a. IsSound (bump wf o) n) Q (close_file end_ rf w)
        (λ _. close_file end_ wf >> ret r) (sound_close (bump wf o) n end_ rf w h)
        (λ _ v hv.
          After-then (λ a. IsSound o n) Q (close_file end_ wf v) (λ _. ret r)
            (sound_close o n end_ wf v hv) (λ _ x hx. done x hx))

  -- What `pipealloc` answers: nothing, or two files that are referred to once more
  abbrev GotPipe : Option (ℕ × ℕ) → World → Type 0
  GotPipe none w = IsSound o n w
  GotPipe (some (rf, wf)) w = IsSound (both rf wf) n w

  abbrev ends_of : ℕ → ℕ → ℕ → Action (Option (ℕ × ℕ))
  ends_of rf wf at =
      Pipes.set_pipe at
      >> (Pipes.set_end rf at false >> (Pipes.set_end wf at true >> ret (some (rf, wf))))

  end_sound :
      (f at : ℕ) (writes : Bool) (rf wf : ℕ) (w : World)
      → IsSound (both rf wf) n w
      → Stays (both rf wf) n (Pipes.set_end f at writes w)
  end_sound f at writes rf wf w h =
      IsSound-files (both rf wf) n w
        (update w.files f (record (w.files f) {
          type_ = fd_pipe;
          readable = not writes;
          writable = writes;
          pipe = at;
        }))
        (same_ref (both rf wf) n w.files f
          (record (w.files f) {
            type_ = fd_pipe;
            readable = not writes;
            writable = writes;
            pipe = at;
          })
          refl)
        h

  ends_sound :
      (rf wf at : ℕ) (w : World) → IsSound (both rf wf) n w → After GotPipe (ends_of rf wf at w)
  ends_sound rf wf at w h =
      let made : World = record w {
        pipes =
            update w.pipes at
              (record (w.pipes at) { readopen = true; writeopen = true; nwrite = 0; nread = 0 });
      } in
      After-then (λ a. IsSound (both rf wf) n) GotPipe (Pipes.set_end rf at false made)
        (λ _. Pipes.set_end wf at true >> ret (some (rf, wf)))
        (end_sound rf at false rf wf made (record { ops = h.ops; counted = h.counted }))
        (λ _ v hv.
          After-then (λ a. IsSound (both rf wf) n) GotPipe (Pipes.set_end wf at true v)
            (λ _. ret (some (rf, wf))) (end_sound wf at true rf wf v hv) (λ _ x hx. hx))

  abbrev with_page : ℕ → ℕ → ℕ → Option ℕ → Action (Option (ℕ × ℕ))
  with_page end_ rf wf page =
      on_option page (close_file end_ rf >> (close_file end_ wf >> ret none))
        (λ at. ends_of rf wf at)

  page_sound :
      (end_ rf wf : ℕ) (page : Option ℕ) (w : World)
      → IsSound (both rf wf) n w
      → After GotPipe (with_page end_ rf wf page w)
  page_sound end_ rf wf none w h = close_both GotPipe end_ rf wf none w h (λ v hv. hv)
  page_sound end_ rf wf (some at) w h = ends_sound rf wf at w h

  abbrev with_writer : ℕ → ℕ → Option ℕ → Action (Option (ℕ × ℕ))
  with_writer end_ rf writer =
      on_option writer (close_file end_ rf >> ret none)
        (λ wf. Pipes.alloc_page >>= with_page end_ rf wf)

  writer_sound :
      (end_ rf : ℕ) (writer : Option ℕ) (w : World)
      → GotFile (bump rf o) n writer w
      → After GotPipe (with_writer end_ rf writer w)
  writer_sound end_ rf none w h =
      After-then (λ a. IsSound o n) GotPipe (close_file end_ rf w) (λ _. ret none)
        (sound_close o n end_ rf w h) (λ _ x hx. hx)
  writer_sound end_ rf (some wf) w h = from_page (kalloc w.kmem)
    where
      from_page :
          (r : Option ℕ × Kmem)
          → After GotPipe
              (go_on (let (p, m) = r in some (p, record w { kmem = m })) (with_page end_ rf wf))
      from_page (p, m) =
          page_sound end_ rf wf p (record w { kmem = m })
            (swap wf rf (record w { kmem = m }) (record { ops = h.ops; counted = h.counted }))

  abbrev with_reader : ℕ → Option ℕ → Action (Option (ℕ × ℕ))
  with_reader end_ reader =
      on_option reader (ret none) (λ rf. Pipes.alloc_file >>= with_writer end_ rf)

  reader_sound :
      (end_ : ℕ) (reader : Option ℕ) (w : World)
      → GotFile o n reader w
      → After GotPipe (with_reader end_ reader w)
  reader_sound end_ none w h = h
  reader_sound end_ (some rf) w h =
      After-then (GotFile (bump rf o) n) GotPipe (Pipes.alloc_file w) (with_writer end_ rf)
        (sound_alloc (bump rf o) n w h) (λ writer x hx. writer_sound end_ rf writer x hx)

  pipealloc_sound : (end_ : ℕ) (w : World) → IsSound o n w → After GotPipe (Pipes.pipealloc end_ w)
  unfolding Pipes.pipealloc
  pipealloc_sound end_ w h =
      After-then (GotFile o n) GotPipe (Pipes.alloc_file w) (with_reader end_) (sound_alloc o n w h)
        (λ reader x hx. reader_sound end_ reader x hx)

  drop-Stays :
      (end_ rf wf : ℕ) (w : World)
      → IsSound (both rf wf) n w
      → Stays o n (Pipes.drop_pipe end_ rf wf w)
  unfolding Pipes.drop_pipe
  drop-Stays end_ rf wf w h = close_both (λ a. IsSound o n) end_ rf wf none w h (λ v hv. hv)

  abbrev with_second : ℕ → ℕ → ℕ → ℕ → ℕ → Option ℕ → Action (Option ℕ)
  with_second end_ addr rf wf fd0 second =
      on_option second (set_ofile fd0 none >> Pipes.drop_pipe end_ rf wf)
        (λ fd1. Pipes.store_fds addr fd0 fd1 >> ret (some 0))

  second-Stays :
      (end_ addr rf wf fd0 : ℕ) (second : Option ℕ) (v w : World)
      → IsSound (bump wf o) n v
      → v.ofile fd0 ≡ some rf
      → fd0 < nofile
      → GotFd o n wf v second w
      → Stays o n (with_second end_ addr rf wf fd0 second w)
  second-Stays end_ addr rf wf fd0 none v w h at lt e =
      subst (λ x. Stays o n ((set_ofile fd0 none >> Pipes.drop_pipe end_ rf wf) x)) (sym e)
        (drop-Stays end_ rf wf (record v { ofile = update v.ofile fd0 none })
          (IsSound-clear (bump wf o) n rf fd0 v lt at h))
  second-Stays end_ addr rf wf fd0 (some fd1) v w h at lt (hw, _, _) = record {
    ops = hw.ops;
    counted = hw.counted;
  }

  abbrev with_first : ℕ → ℕ → ℕ → ℕ → Option ℕ → Action (Option ℕ)
  with_first end_ addr rf wf first =
      on_option first (Pipes.drop_pipe end_ rf wf)
        (λ fd0. fdalloc wf >>= with_second end_ addr rf wf fd0)

  first-Stays :
      (end_ addr rf wf : ℕ) (first : Option ℕ) (v w : World)
      → IsSound (both rf wf) n v
      → GotFd (bump wf o) n rf v first w
      → Stays o n (with_first end_ addr rf wf first w)
  first-Stays end_ addr rf wf none v w h e =
      drop-Stays end_ rf wf w (subst (IsSound (both rf wf) n) (sym e) h)
  first-Stays end_ addr rf wf (some fd0) v w h (hw, at, lt) =
      After-then (GotFd o n wf w) (λ a. IsSound o n) (fdalloc wf w)
        (with_second end_ addr rf wf fd0) (sound_fdalloc o n wf w hw)
        (λ second x hx. second-Stays end_ addr rf wf fd0 second w x hw at lt hx)

  install-Stays :
      (end_ addr rf wf : ℕ) (w : World)
      → IsSound (both rf wf) n w
      → Stays o n (Pipes.install_pipe end_ addr rf wf w)
  unfolding Pipes.install_pipe
  install-Stays end_ addr rf wf w h =
      After-then (GotFd (bump wf o) n rf w) (λ a. IsSound o n) (fdalloc rf w)
        (with_first end_ addr rf wf) (sound_fdalloc (bump wf o) n rf w h)
        (λ first x hx. first-Stays end_ addr rf wf first w x h hx)

  abbrev with_pipe : ℕ → ℕ → Option (ℕ × ℕ) → Action (Option ℕ)
  with_pipe end_ addr made =
      on_option made (ret none) (λ (rf, wf). Pipes.install_pipe end_ addr rf wf)

  made-Stays :
      (end_ addr : ℕ) (made : Option (ℕ × ℕ)) (w : World)
      → GotPipe made w
      → Stays o n (with_pipe end_ addr made w)
  made-Stays end_ addr none w h = h
  made-Stays end_ addr (some (rf, wf)) w h = install-Stays end_ addr rf wf w h

  pub pipe-Stays : (end_ : ℕ) (w : World) → IsSound o n w → Stays o n (Pipes.sys_pipe end_ w)
  unfolding Pipes.sys_pipe
  pipe-Stays end_ w h =
      option-Stays o n (argptr w.user 0 (pos 8)) (ret none)
        (λ addr. Pipes.pipealloc end_ >>= with_pipe end_ addr) w h
        (λ addr.
          After-then GotPipe (λ a. IsSound o n) (Pipes.pipealloc end_ w) (with_pipe end_ addr)
            (pipealloc_sound end_ w h) (λ made x hx. made-Stays end_ addr made x hx))
