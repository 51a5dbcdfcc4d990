-- ===== src/Sysfile/Pipes.antt =====
-- assignment-3/pipe.c and sysfile.c: a new pipe and its two files and descriptors.
use cs_1217_operating_system.Base.{ℕ, ◌/◌, ◌%◌, Bool, true, false, Option, none, some, update, not}
use cs_1217_operating_system.Base.Int.{pos}
use cs_1217_operating_system.Syscall.{add_uint, argptr}
use cs_1217_operating_system.Kalloc.{kalloc}
use cs_1217_operating_system.File.{fd_pipe, filealloc}
use cs_1217_operating_system.Sysfile.{
  Action, ret, ◌>>=◌, ◌>>◌, the_world, on_option, set_ofile, fdalloc, close_file,
}

-- `filealloc` and `kalloc`
abbrev pub alloc_file : Action (Option ℕ)
alloc_file w = let (f, t) = filealloc w.files in some (f, record w { files = t })

abbrev pub alloc_page : Action (Option ℕ)
alloc_page w = let (p, m) = kalloc w.kmem in some (p, record w { kmem = m })

-- `pipealloc`: a new pipe in the page `at`, and its ends
abbrev pub set_pipe : ℕ → Action (Unit {0})
set_pipe at w = some (
  tt,
  record w {
    pipes =
        update w.pipes at
          (record (w.pipes at) { readopen = true; writeopen = true; nwrite = 0; nread = 0 });
  },
)

abbrev pub set_end : ℕ → ℕ → Bool → Action (Unit {0})
set_end f at writes w = some (
  tt,
  record w {
    files = update w.files f (record (w.files f) {
      type_ = fd_pipe;
      readable = not writes;
      writable = writes;
      pipe = at;
    });
  },
)

-- `pipealloc`: the files of the end that reads and of the one that writes
unfoldable pub pipealloc : ℕ → Action (Option (ℕ × ℕ))
unfolding close_file
pipealloc end_ = do
  reader ← alloc_file
  on_option reader (ret none) (λ rf. do
    writer ← alloc_file
    on_option writer (close_file end_ rf >> ret none) (λ wf. do
      page ← alloc_page
      on_option page (close_file end_ rf >> (close_file end_ wf >> ret none))
          (λ at. do set_pipe at; set_end rf at false; set_end wf at true; ret (some (rf, wf)))))

-- A word, the low byte first
abbrev store_word : ℕ → ℕ → (ℕ → ℕ) → ℕ → ℕ
store_word addr v m =
    update
      (update (update (update m addr (v % 256)) (add_uint addr 1) (v / 256 % 256)) (add_uint addr 2)
        (v / 65536 % 256))
      (add_uint addr 3) (v / 16777216 % 256)

-- `fd[0] = fd0; fd[1] = fd1`
abbrev pub store_fds : ℕ → ℕ → ℕ → Action (Unit {0})
store_fds addr fd0 fd1 w = some (
  tt,
  record w {
    user = record w.user {
      memory = store_word (add_uint addr 4) fd1 (store_word addr fd0 w.user.memory);
    };
  },
)

-- `sys_pipe`, when a descriptor is missing
unfoldable pub drop_pipe : ℕ → ℕ → ℕ → Action (Option ℕ)
unfolding close_file
drop_pipe end_ rf wf = do close_file end_ rf; close_file end_ wf; ret none

-- `sys_pipe`, with the two files
unfoldable pub install_pipe : ℕ → ℕ → ℕ → ℕ → Action (Option ℕ)
unfolding fdalloc drop_pipe
install_pipe end_ addr rf wf = do
  first ← fdalloc rf
  on_option first (drop_pipe end_ rf wf) (λ fd0. do
    second ← fdalloc wf
    on_option second (set_ofile fd0 none >> drop_pipe end_ rf wf)
        (λ fd1. store_fds addr fd0 fd1 >> ret (some 0)))

-- `sys_pipe`
unfoldable pub sys_pipe : ℕ → Action (Option ℕ)
unfolding pipealloc install_pipe
sys_pipe end_ = do
  w ← the_world
  on_option (argptr w.user 0 (pos 8)) (ret none) (λ addr. do
    made ← pipealloc end_
    on_option made (ret none) (λ (rf, wf). install_pipe end_ addr rf wf))
