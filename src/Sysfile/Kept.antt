-- ===== src/Sysfile/Kept.antt =====
-- assignment-3/sysfile.c: each call keeps the references of descriptors and ends the transactions that it begins.
use cs_1217_operating_system.Base.{ℕ, ◌+◌, Option, none, some}
use cs_1217_operating_system.Fs.{Cmd}
use cs_1217_operating_system.Fs.Data.{Devices, t_dir, t_dev}
use cs_1217_operating_system.Fs.Content.{iput}
use cs_1217_operating_system.Sysfile.{
  World, Action, go_on, on_fs, enter_op, leave_op, string_arg, the_world, ret, on_option, ◌>>=◌,
  ◌>>◌,
}
use cs_1217_operating_system.Sysfile.Create.{make_node, find_dir}
use cs_1217_operating_system.Sysfile.Links.{link_paths, unlink_path}
use cs_1217_operating_system.Sysfile.Calls
use cs_1217_operating_system.Sysfile.After.{After-then}
use cs_1217_operating_system.Sysfile.Sound.{IsSound, Stays, sound_fs, sound_enter, sound_leave}

module _ (o : ℕ → ℕ) (m n : ℕ) where
  -- Code with more code behind it
  pub Stays-then :
      {A B : Type 0} (r : Option (A × World)) (k : A → Action B)
      → Stays o m r
      → ((a : A) (w : World) → IsSound o m w → Stays o n (k a w))
      → Stays o n (go_on r k)
  Stays-then r k h next = After-then (λ a. IsSound o m) (λ a. IsSound o n) r k h next

module _ (o : ℕ → ℕ) (n : ℕ) where
  pub ends :
      {A : Type 0} (r : A) (w : World) → IsSound o (n + 1) w → Stays o n ((leave_op >> ret r) w)
  ends r w h = Stays-then o n n (leave_op w) (λ _. ret r) (sound_leave o n w h) (λ _ x hx. hx)

  -- A command of the file system, and then the end of the transaction
  fs_ends :
      {A : Type 0} (c : Cmd A) (r : A → Option ℕ) (w : World)
      → IsSound o (n + 1) w
      → Stays o n ((on_fs c >>= (λ a. leave_op >> ret (r a))) w)
  fs_ends c r w h =
      Stays-then o (n + 1) n (on_fs c w) (λ a. leave_op >> ret (r a))
        (sound_fs o (n + 1) w (c w.fs) h) (λ a u hu. ends (r a) u hu)

  -- A command of the file system in a transaction
  op-Stays : (c : Cmd (Option ℕ)) (w : World) → IsSound o n w → Stays o n (Calls.in_op c w)
  op-Stays c w h =
      Stays-then o (n + 1) n (enter_op w) (λ _. on_fs c >>= (λ r. leave_op >> ret r))
        (sound_enter o n w h) (λ _ v hv. fs_ends c (λ r. r) v hv)

  pub option-Stays :
      {A B : Type 0} (r : Option A) (a : Action B) (k : A → Action B) (w : World)
      → Stays o n (a w)
      → ((x : A) → Stays o n (k x w))
      → Stays o n (on_option r a k w)
  option-Stays none a k w ha hk = ha
  option-Stays (some x) a k w ha hk = hk x

  module _ (w : World) (h : IsSound o n w) where
    pub unlink-Stays : (devices : Devices) → Stays o n (Calls.sys_unlink devices w)
    unfolding Calls.sys_unlink
    unlink-Stays devices =
        option-Stays (string_arg w 0) (ret none)
          (λ path. Calls.in_op (unlink_path devices w.cwd path)) w h
          (λ path. op-Stays (unlink_path devices w.cwd path) w h)

    pub link-Stays : (devices : Devices) → Stays o n (Calls.sys_link devices w)
    unfolding Calls.sys_link
    link-Stays devices =
        option-Stays (string_arg w 0) (ret none)
          (λ old.
            on_option (string_arg w 1) (ret none)
              (λ new. Calls.in_op (link_paths devices w.cwd old new)))
          w h
          (λ old.
            option-Stays (string_arg w 1) (ret none)
              (λ new. Calls.in_op (link_paths devices w.cwd old new)) w h
              (λ new. op-Stays (link_paths devices w.cwd old new) w h))

module _ (o : ℕ → ℕ) (n : ℕ) (w : World) (h : IsSound o n w) where
  -- A call that begins a transaction before it looks at its arguments
  within_op :
      (c : World → Action (Option ℕ))
      → ((v : World) → IsSound o (n + 1) v → Stays o (n + 1) (c v v))
      → Stays o n ((enter_op >> (the_world >>= (λ v. c v >>= (λ r. leave_op >> ret r)))) w)
  within_op c kept =
      Stays-then o (n + 1) n (enter_op w) (λ _ v. go_on (c v v) (λ r. leave_op >> ret r))
        (sound_enter o n w h)
        (λ _ v hv.
          Stays-then o (n + 1) n (c v v) (λ r. leave_op >> ret r) (kept v hv)
            (λ r u hu. ends o n r u hu))

  fs_option :
      {A : Type 0} (r : Option A) (c : A → Cmd (Option ℕ)) (v : World)
      → IsSound o (n + 1) v
      → Stays o (n + 1) (on_option r (ret none) (λ a. on_fs (c a)) v)
  fs_option r c v hv =
      option-Stays o (n + 1) r (ret none) (λ a. on_fs (c a)) v hv
        (λ a. sound_fs o (n + 1) v (c a v.fs) hv)

  pub mkdir-Stays : (devices : Devices) → Stays o n (Calls.sys_mkdir devices w)
  unfolding Calls.sys_mkdir
  mkdir-Stays devices =
      within_op
        (λ v.
          on_option (string_arg v 0) (ret none)
            (λ path. on_fs (make_node devices v.cwd path t_dir 0 0)))
        (λ v hv. fs_option (string_arg v 0) (λ path. make_node devices v.cwd path t_dir 0 0) v hv)

  pub mknod-Stays : (devices : Devices) → Stays o n (Calls.sys_mknod devices w)
  unfolding Calls.sys_mknod
  mknod-Stays devices =
      within_op
        (λ v.
          on_option (Calls.mknod_args v) (ret none)
            (λ (path, major, minor). on_fs (make_node devices v.cwd path t_dev major minor)))
        (λ v hv.
          fs_option (Calls.mknod_args v)
            (λ (path, major, minor). make_node devices v.cwd path t_dev major minor) v hv)

  abbrev finding : Devices → World → Action (Option ℕ)
  finding devices v =
      on_option (string_arg v 0) (ret none) (λ path. on_fs (find_dir devices v.cwd path))

  abbrev moved : World → ℕ → Action (Option ℕ)
  moved v ip = on_fs (iput v.cwd) >> (leave_op >> (Calls.set_cwd ip >> ret (some 0)))

  abbrev chosen : World → Option ℕ → Action (Option ℕ)
  chosen v found = on_option found (leave_op >> ret none) (moved v)

  pub chdir-Stays : (devices : Devices) → Stays o n (Calls.sys_chdir devices w)
  unfolding Calls.sys_chdir
  chdir-Stays devices =
      Stays-then o (n + 1) n (enter_op w) (λ _ v. go_on (finding devices v v) (chosen v))
        (sound_enter o n w h)
        (λ _ v hv.
          Stays-then o (n + 1) n (finding devices v v) (chosen v)
            (fs_option (string_arg v 0) (λ path. find_dir devices v.cwd path) v hv)
            (λ found u hu.
              option-Stays o n found (leave_op >> ret none) (moved v) u (ends o n none u hu) (λ ip.
                Stays-then o (n + 1) n (on_fs (iput v.cwd) u)
                  (λ _. leave_op >> (Calls.set_cwd ip >> ret (some 0)))
                  (sound_fs o (n + 1) u (iput v.cwd u.fs) hu)
                  (λ _ x hx.
                    Stays-then o n n (leave_op x) (λ _. Calls.set_cwd ip >> ret (some 0))
                      (sound_leave o n x hx)
                      (λ _ y hy. record { ops = hy.ops; counted = hy.counted })))))
