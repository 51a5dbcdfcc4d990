-- ===== src/Sysfile/Run.antt =====
-- assignment-3/sysfile.c: sequences of system calls on files, each with the memory and registers that the process has
-- by then. `sys_read`, `sys_write`, `sys_fstat` and `sys_exec` are not among them.
use cs_1217_operating_system.Base.{ℕ, Option, List, [], ◌∷◌}
use cs_1217_operating_system.Syscall.{User}
use cs_1217_operating_system.Fs.Data.{Devices}
use cs_1217_operating_system.Sysfile.{World, Action, go_on, ret, sys_dup, sys_close}
use cs_1217_operating_system.Sysfile.Pipes.{sys_pipe}
use cs_1217_operating_system.Sysfile.Calls.{
  sys_link, sys_unlink, sys_open, sys_mkdir, sys_mknod, sys_chdir,
}
use cs_1217_operating_system.Sysfile.Sound.{IsSound, Stays}
use cs_1217_operating_system.Sysfile.Kept.{
  Stays-then, unlink-Stays, link-Stays, mkdir-Stays, mknod-Stays, chdir-Stays,
}
use cs_1217_operating_system.Sysfile.Opened.{open-Stays, close-Stays, dup-Stays}
use cs_1217_operating_system.Sysfile.Piped.{pipe-Stays}

pub data FileCall : Type 0 where
  dup close link unlink open_ mkdir mknod chdir pipe : FileCall

module _ (devices : Devices) (end_ : ℕ) where
  abbrev pub run : FileCall → Action (Option ℕ)
  run dup = sys_dup
  run close = sys_close end_
  run link = sys_link devices
  run unlink = sys_unlink devices
  run open_ = sys_open devices end_
  run mkdir = sys_mkdir devices
  run mknod = sys_mknod devices
  run chdir = sys_chdir devices
  run pipe = sys_pipe end_

  -- The calls of a process, one after the other
  unfoldable pub runs : List (User × FileCall) → Action (Unit {0})
  runs [] w = ret tt w
  runs ((user, call) ∷ calls) w = go_on (run call (record w { user = user })) (λ _. runs calls)

  module _ (o : ℕ → ℕ) (n : ℕ) where
    run_sound : (call : FileCall) (w : World) → IsSound o n w → Stays o n (run call w)
    run_sound dup w h = dup-Stays o n w h
    run_sound close w h = close-Stays o n end_ w h
    run_sound link w h = link-Stays o n w h devices
    run_sound unlink w h = unlink-Stays o n w h devices
    run_sound open_ w h = open-Stays o n devices end_ w h
    run_sound mkdir w h = mkdir-Stays o n w h devices
    run_sound mknod w h = mknod-Stays o n w h devices
    run_sound chdir w h = chdir-Stays o n w h devices
    run_sound pipe w h = pipe-Stays o n end_ w h

    -- If each file counts the descriptors that are open on it, together with the references that others have, then it
    -- does so after any sequence of calls that does not panic, and as many transactions are open as before.
    pub runs_sound :
        (calls : List (User × FileCall)) (w : World) → IsSound o n w → Stays o n (runs calls w)
    unfolding runs
    runs_sound [] w h = h
    runs_sound ((user, call) ∷ calls) w h =
        let w' : World = record w { user = user } in
        Stays-then o n n (run call w') (λ _. runs calls)
          (run_sound call w' (record { ops = h.ops; counted = h.counted }))
          (λ _ v hv. runs_sound calls v hv)
