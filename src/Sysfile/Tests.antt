-- ===== src/Sysfile/Tests.antt =====
-- assignment-3/sysfile.c: runs of the calls.
use cs_1217_operating_system.Base.{
  ℕ, ◌≡◌, refl, false, Option, none, some, List, [], ◌∷◌, ◌==◌, if◌then◌else◌, arith,
}
use cs_1217_operating_system.Base.Counting.{tally}
use cs_1217_operating_system.Syscall.{User, argint, argptr}
use cs_1217_operating_system.Kalloc.{kalloc}
use cs_1217_operating_system.File.{fd_none, filealloc, filedup, fileclose}
use cs_1217_operating_system.Fs.{Inode}
use cs_1217_operating_system.Fs.Data.{Devices}
use cs_1217_operating_system.Sysfile.{World, nofile, fdalloc, sys_dup, sys_close}
use cs_1217_operating_system.Sysfile.Pipes.{sys_pipe}
use cs_1217_operating_system.Sysfile.Descriptors.{Taken, fdalloc_lem}
use cs_1217_operating_system.Sysfile.Sound.{IsSound, Stays}
use cs_1217_operating_system.Sysfile.Links.{isdirempty}
use cs_1217_operating_system.Sysfile.Empty.{EmptyAnswer, isdirempty_lem}
use cs_1217_operating_system.Fs.Dir.Sample
use cs_1217_operating_system.Sysfile.Run.{dup, close, pipe, runs, runs_sound}

abbrev no_devices : Devices
no_devices = record { read = λ major. none; write = λ major. none }

-- Arguments that are all zero
abbrev zeros : User
zeros = record { sz = 4096; memory = λ a. 0; esp = 1024; eax = 0 }

abbrev no_inode : Inode
no_inode = record {
  dev = 0;
  inum = 0;
  ref = 0;
  locked = false;
  valid = false;
  type_ = 0;
  major = 0;
  minor = 0;
  nlink = 0;
  size = 0;
  addrs = λ i. 0;
}

-- A process with descriptor 0 on file 3
abbrev one_file : World
one_file = record {
  user = zeros;
  ofile = λ fd. if fd == 0 then some 3 else none;
  cwd = 0;
  files = λ f. record {
    type_ = fd_none;
    ref = if f == 3 then 1 else 0;
    readable = false;
    writable = false;
    pipe = 0;
    ip = 0;
    off = 0;
  };
  pipes =
      λ at. record { data_ = λ i. 0; nread = 0; nwrite = 0; readopen = false; writeopen = false };
  woken = [];
  kmem = record { use_lock = false; freelist = []; memory = λ a. 0 };
  fs = record {
    block = λ dev n i. 0;
    sb = record { size = 0; ninodes = 0; inodestart = 0; bmapstart = 0 };
    inode = λ p. no_inode;
  };
  open_ops = 0;
}

one_file-IsSound : IsSound (λ f. 0) 0 one_file
unfolding tally
one_file-IsSound = record { ops = refl; counted = λ f. ground arith }

runs_sound_example :
    Stays
      (λ f. 0)
      0
      (runs no_devices 0
        ((zeros, dup) ∷ (zeros, dup) ∷ (zeros, pipe) ∷ (zeros, close) ∷ [])
        one_file)
runs_sound_example =
    runs_sound no_devices 0 (λ f. 0) 0
      ((zeros, dup) ∷ (zeros, dup) ∷ (zeros, pipe) ∷ (zeros, close) ∷ []) one_file one_file-IsSound

fdalloc-one_file : Taken 3 one_file 0 nofile (fdalloc 3 one_file)
fdalloc-one_file = fdalloc_lem 3 one_file

-- The counts of files 0 and 3, and the transactions, after a run
abbrev seen : Option (Unit {0} × World) → List ℕ
seen none = []
seen (some (r, w)) = (w.files 0).ref ∷ (w.files 3).ref ∷ w.open_ops ∷ []

-- The run does not panic: file 3 is open at descriptors 1 and 2, and no page is left for a pipe.
runs-one_file :
    seen (
      runs no_devices 0
        ((zeros, dup) ∷ (zeros, dup) ∷ (zeros, pipe) ∷ (zeros, close) ∷ [])
        one_file)
    ≡ 0 ∷ 2 ∷ 0 ∷ []
unfolding runs sys_dup argint filedup sys_pipe argptr filealloc kalloc fileclose sys_close
runs-one_file = refl

isdirempty_lem_example :
    EmptyAnswer no_devices 1 0 Sample.disk 32 (isdirempty no_devices 0 Sample.disk)
isdirempty_lem_example = isdirempty_lem no_devices 1 0 Sample.disk Sample.disk-IsDir
