-- ===== src/Sysfile/Opened.antt =====
-- assignment-3/sysfile.c: the calls that make and close descriptors keep the references of descriptors and end the
-- transactions that they begin.
use cs_1217_operating_system.Base.{
  ℕ, ◌+◌, ◌≡◌, ◌<◌, refl, sym, subst, Bool, true, false, Option, none, some, List, if◌then◌else◌,
  leb, update, arith,
}
use cs_1217_operating_system.Syscall.{argint}
use cs_1217_operating_system.Fs.Data.{Devices}
use cs_1217_operating_system.Fs.Inodes.{iunlock}
use cs_1217_operating_system.Fs.Content.{iunlockput}
use cs_1217_operating_system.Sysfile.{
  World, Action, nofile, go_on, on_fs, enter_op, leave_op, string_arg, ret, on_option, ◌>>=◌, ◌>>◌,
  file_of, argfd, set_ofile, fdalloc, dup_file, close_file, sys_dup, sys_close,
}
use cs_1217_operating_system.Sysfile.Create.{open_inode}
use cs_1217_operating_system.Sysfile.Calls
use cs_1217_operating_system.Sysfile.Pipes
use cs_1217_operating_system.Sysfile.After.{After-then}
use cs_1217_operating_system.Sysfile.Descriptors.{holders_opened, Taken, fdalloc_lem}
use cs_1217_operating_system.Sysfile.Sound.{
  bump, IsSound, Stays, sound_fs, sound_enter, sound_leave, IsSound-files, same_ref, GotFile,
  sound_alloc, GotFd, sound_fdalloc, IsSound-clear, sound_close, sound_dup,
}
use cs_1217_operating_system.Sysfile.Kept.{Stays-then, ends, option-Stays}

-- What `argfd` answers is a descriptor of the process that is open, with its file.
abbrev IsOpen : World → Option (ℕ × ℕ) → Type 0
IsOpen w none = Unit
IsOpen w (some (fd, f)) = (fd < nofile) × (w.ofile fd ≡ some f)

file_of-IsOpen :
    (w : World) (fd : ℕ) (o : Option ℕ) → fd < nofile → w.ofile fd ≡ o → IsOpen w (file_of o fd)
file_of-IsOpen w fd none lt e = tt
file_of-IsOpen w fd (some f) lt e = (lt, e)

argfd-IsOpen : (n : ℕ) (w : World) → IsOpen w (argfd n w)
unfolding argfd
argfd-IsOpen n w = from_arg (argint w.user n)
  where
    from_test :
        (fd : ℕ) (t : Bool)
        → leb nofile fd ≡ t
        → IsOpen w (if t then none else file_of (w.ofile fd) fd)
    from_test fd true e = tt
    from_test fd false e = file_of-IsOpen w fd (w.ofile fd) (ground (arith, e)) refl

    from_arg :
        (r : Option ℕ)
        → IsOpen w (elim r [
          | none ↦ none
          | some fd ↦ if leb nofile fd then none else file_of (w.ofile fd) fd
        ])
    from_arg none = tt
    from_arg (some fd) = from_test fd (leb nofile fd) refl

module _ (o : ℕ → ℕ) (n : ℕ) where
  give_up-Stays : (ip : ℕ) (w : World) → IsSound o (n + 1) w → Stays o n (Calls.give_up ip w)
  unfolding Calls.give_up
  give_up-Stays ip w h =
      Stays-then o (n + 1) n (on_fs (iunlockput ip) w) (λ _. leave_op >> ret none)
        (sound_fs o (n + 1) w (iunlockput ip w.fs) h) (λ _ v hv. ends o n none v hv)

  -- `sys_open`, with its file
  abbrev with_slot : ℕ → ℕ → ℕ → ℕ → Option ℕ → Action (Option ℕ)
  with_slot end_ ip omode f slot = on_option slot (close_file end_ f >> Calls.give_up ip) (λ fd.
      on_fs (iunlock ip)
      >> (leave_op >> (Calls.set_file f (Calls.opened ip omode) >> ret (some fd))))

  slot-Stays :
      (end_ ip omode f : ℕ) (v : World) (slot : Option ℕ) (w : World)
      → IsSound (bump f o) (n + 1) v
      → GotFd o (n + 1) f v slot w
      → Stays o n (with_slot end_ ip omode f slot w)
  slot-Stays end_ ip omode f v none w h e =
      Stays-then o (n + 1) n (close_file end_ f w) (λ _. Calls.give_up ip)
        (sound_close o (n + 1) end_ f w (subst (IsSound (bump f o) (n + 1)) (sym e) h))
        (λ _ x hx. give_up-Stays ip x hx)
  slot-Stays end_ ip omode f v (some fd) w h (hw, at, lt) =
      Stays-then o (n + 1) n (on_fs (iunlock ip) w)
        (λ _. leave_op >> (Calls.set_file f (Calls.opened ip omode) >> ret (some fd)))
        (sound_fs o (n + 1) w (iunlock ip w.fs) hw)
        (λ _ x hx.
          Stays-then o n n (leave_op x)
            (λ _. Calls.set_file f (Calls.opened ip omode) >> ret (some fd)) (sound_leave o n x hx)
            (λ _ y hy.
              IsSound-files o n y (update y.files f (Calls.opened ip omode (y.files f)))
                (same_ref o n y.files f (Calls.opened ip omode (y.files f)) refl) hy))

  abbrev with_file : ℕ → ℕ → ℕ → Option ℕ → Action (Option ℕ)
  with_file end_ ip omode file =
      on_option file (Calls.give_up ip) (λ f. fdalloc f >>= with_slot end_ ip omode f)

  file-Stays :
      (end_ ip omode : ℕ) (file : Option ℕ) (w : World)
      → GotFile o (n + 1) file w
      → Stays o n (with_file end_ ip omode file w)
  file-Stays end_ ip omode none w h = give_up-Stays ip w h
  file-Stays end_ ip omode (some f) w h =
      After-then (GotFd o (n + 1) f w) (λ a. IsSound o n) (fdalloc f w) (with_slot end_ ip omode f)
        (sound_fdalloc o (n + 1) f w h) (λ slot x hx. slot-Stays end_ ip omode f w slot x h hx)

  open_file-Stays :
      (end_ ip omode : ℕ) (w : World)
      → IsSound o (n + 1) w
      → Stays o n (Calls.open_file end_ ip omode w)
  unfolding Calls.open_file
  open_file-Stays end_ ip omode w h =
      After-then (GotFile o (n + 1)) (λ a. IsSound o n) (Pipes.alloc_file w)
        (with_file end_ ip omode) (sound_alloc o (n + 1) w h)
        (λ file x hx. file-Stays end_ ip omode file x hx)

  -- `sys_open`, with the inode that it has found or created
  abbrev with_inode : ℕ → ℕ → Option ℕ → Action (Option ℕ)
  with_inode end_ omode found =
      on_option found (leave_op >> ret none) (λ ip. Calls.open_file end_ ip omode)

  open_path-Stays :
      (devices : Devices) (end_ : ℕ) (path : List ℕ) (omode : ℕ) (w : World)
      → IsSound o n w
      → Stays o n (Calls.open_path devices end_ path omode w)
  unfolding Calls.open_path
  open_path-Stays devices end_ path omode w h =
      Stays-then o (n + 1) n (enter_op w)
        (λ _ v. go_on (on_fs (open_inode devices v.cwd path omode) v) (with_inode end_ omode))
        (sound_enter o n w h)
        (λ _ v hv.
          Stays-then o (n + 1) n (on_fs (open_inode devices v.cwd path omode) v)
            (with_inode end_ omode)
            (sound_fs o (n + 1) v (open_inode devices v.cwd path omode v.fs) hv)
            (λ found u hu.
              option-Stays o n found (leave_op >> ret none) (λ ip. Calls.open_file end_ ip omode) u
                (ends o n none u hu) (λ ip. open_file-Stays end_ ip omode u hu)))

  pub open-Stays :
      (devices : Devices) (end_ : ℕ) (w : World)
      → IsSound o n w
      → Stays o n (Calls.sys_open devices end_ w)
  unfolding Calls.sys_open
  open-Stays devices end_ w h =
      option-Stays o n (string_arg w 0) (ret none)
        (λ path.
          on_option (argint w.user 1) (ret none) (λ omode. Calls.open_path devices end_ path omode))
        w h
        (λ path.
          option-Stays o n (argint w.user 1) (ret none)
            (λ omode. Calls.open_path devices end_ path omode) w h
            (λ omode. open_path-Stays devices end_ path omode w h))

  -- Code on an open descriptor
  open_then :
      (w : World) (r : Option (ℕ × ℕ)) (k : ℕ × ℕ → Action (Option ℕ))
      → IsSound o n w
      → IsOpen w r
      → ((fd f : ℕ) → fd < nofile → w.ofile fd ≡ some f → Stays o n (k (fd, f) w))
      → Stays o n (on_option r (ret none) k w)
  open_then w none k h open_ next = h
  open_then w (some (fd, f)) k h (lt, at) next = next fd f lt at

  pub close-Stays : (end_ : ℕ) (w : World) → IsSound o n w → Stays o n (sys_close end_ w)
  unfolding sys_close
  close-Stays end_ w h =
      open_then w (argfd 0 w) (λ (fd, f). set_ofile fd none >> (close_file end_ f >> ret (some 0)))
        h (argfd-IsOpen 0 w)
        (λ fd f lt at.
          Stays-then o n n (close_file end_ f (record w { ofile = update w.ofile fd none }))
            (λ _. ret (some 0))
            (sound_close o n end_ f (record w { ofile = update w.ofile fd none })
              (IsSound-clear o n f fd w lt at h))
            (λ _ x hx. hx))

  -- `sys_dup`, with its descriptor
  abbrev with_dup : ℕ → Option ℕ → Action (Option ℕ)
  with_dup f found = on_option found (ret none) (λ fd. dup_file f >> ret (some fd))

  dup_slot :
      (f : ℕ) (w : World) (r : Option (Option ℕ × World))
      → IsSound o n w
      → Taken f w 0 nofile r
      → Stays o n (go_on r (with_dup f))
  dup_slot f w none h taken = tt
  dup_slot f w (some (none, w')) h (e, all) = subst (IsSound o n) (sym e) h
  dup_slot f w (some (some fd, w')) h (e, lt, free, all) =
      let opened : World = record w { ofile = update w.ofile fd (some f) } in
      subst (λ v. Stays o n ((dup_file f >> ret (some fd)) v)) (sym e)
        (Stays-then o n n (dup_file f opened) (λ _. ret (some fd))
          (sound_dup o n f opened h.ops (λ g.
            let held = holders_opened w.ofile fd f g lt free in ground (arith, h.counted g, held)))
          (λ _ x hx. hx))

  pub dup-Stays : (w : World) → IsSound o n w → Stays o n (sys_dup w)
  unfolding sys_dup
  dup-Stays w h =
      open_then w (argfd 0 w) (λ (old, f). fdalloc f >>= with_dup f) h (argfd-IsOpen 0 w)
        (λ fd f lt at. dup_slot f w (fdalloc f w) h (fdalloc_lem f w))
