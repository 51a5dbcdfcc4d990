-- ===== src/Tests.antt =====
-- assignment-3: runs of the routines on memory, pipes, system calls, pages and files.
use cs_1217_operating_system.Base.{
  ℕ, ◌+◌, ◌≤◌, ◌<◌, ◌%◌, ◌≡◌, ◌≢◌, ◌⊎◌, inl, inr, Member, refl, true, false, Option, some, [], ◌∷◌,
  arith, ◌==◌, if◌then◌else◌,
}
use cs_1217_operating_system.Base.Int.{pos, ltb_ℤ}
use cs_1217_operating_system.Memory.{Mem, memmove, memmove_lem, within}
use cs_1217_operating_system.Memory.Strings.{safestrcpy, safestrcpy_lem}
use cs_1217_operating_system.Pipe.{Pipe, pipewrite, piperead}
use cs_1217_operating_system.Pipe.Ring.{IsPipe}
use cs_1217_operating_system.Pipe.Stream.{WriteEnsures, ReadEnsures, pipewrite_lem, piperead_lem}
use cs_1217_operating_system.Syscall.{
  User, Call, unknown, argint, argptr, fetchint, fetchstr, syscall,
}
use cs_1217_operating_system.Syscall.Args.{FetchEnsures, fetchstr_lem, argptr_lem}
use cs_1217_operating_system.Syscall.Trace.{answer, number, syscall_lem}
use cs_1217_operating_system.Kalloc.{Kmem, kalloc, kfree, freerange}
use cs_1217_operating_system.Kalloc.Pages.{
  IsKmem, AllocEnsures, FreeEnsures, RangeEnsures, kalloc_lem, kfree_lem, freerange_lem,
}
use cs_1217_operating_system.File.{Files, fd_pipe, keep}
use cs_1217_operating_system.File.Refs.{closes, CloseEnsures, closes_lem}

-- Each byte holds the low byte of its address.
abbrev counting : Mem
counting a = a % 256

-- Two overlapping ranges.
memmove_lem_example : memmove counting 12 10 8 15 ≡ 13
memmove_lem_example = memmove_lem counting 12 10 8 15

-- No zero among the bytes to copy.
safestrcpy-counting :
    ((i : ℕ) × (i < 4) × (safestrcpy 100 10 (pos 4) counting (100 + i) ≡ 0))
    × ((a : ℕ) → within 100 4 a ≡ false → safestrcpy 100 10 (pos 4) counting a ≡ counting a)
safestrcpy-counting = safestrcpy_lem 100 10 4 counting (omega arith)

-- Two bytes, stored where the counters have wrapped around.
abbrev wrapped : Pipe
wrapped = record {
  data_ = λ i. i;
  nread = 4294967295;
  nwrite = 1;
  readopen = true;
  writeopen = true;
}

wrapped-IsPipe : IsPipe wrapped
wrapped-IsPipe = record { nread_lt = omega arith; nwrite_lt = omega arith; fits = omega arith }

pipewrite_lem_example :
    WriteEnsures false 2 (8 ∷ 9 ∷ []) wrapped (pipewrite false 2 (8 ∷ 9 ∷ []) wrapped)
pipewrite_lem_example = pipewrite_lem false 2 (8 ∷ 9 ∷ []) wrapped wrapped-IsPipe

piperead_lem_example :
    ReadEnsures false 5 wrapped (piperead false 5 wrapped).0 (piperead false 5 wrapped).1
piperead_lem_example = piperead_lem false 5 wrapped wrapped-IsPipe

-- The stack holds the address 64 as the first argument, and every other byte is zero.
abbrev user : User
user = record { sz = 128; memory = λ a. if a == 104 then 64 else 0; esp = 100; eax = 14 }

argptr-user : argptr user 0 (pos 64) ≡ some 64
unfolding argptr argint fetchint
argptr-user = refl

argptr_lem_example :
    (ltb_ℤ (pos 64) (pos 0) ≡ false) × (64 < 128) × (64 + 64 ≤ 128) × (argint user 0 ≡ some 64)
argptr_lem_example = argptr_lem user 0 (pos 64) 64 (omega arith) (omega arith) argptr-user

fetchstr_lem_example : FetchEnsures user 104 (fetchstr user 104)
fetchstr_lem_example = fetchstr_lem user 104

abbrev clock : Call → User → Option (ℕ × User)
clock c u = some (33, u)

syscall_lem_example :
    ((c : Call) × (number c ≡ 14) × (syscall clock user ≡ answer c (clock c user)))
    ⊎ (((c : Call) → number c ≢ 14)
        × (syscall clock user ≡ some (record user { eax = 4294967295 }, unknown 14)))
syscall_lem_example = syscall_lem clock user

abbrev kernel_end : ℕ
kernel_end = 2148532224

-- Two free pages above the kernel.
abbrev two_pages : Kmem
two_pages = record {
  use_lock = true;
  freelist = 2148532224 ∷ 2148536320 ∷ [];
  memory = λ a.
      if a == 2148532225
      then 16
      else if a == 2148532226
      then 16
      else if a == 2148532227
      then 128
      else 0;
}

two_pages-IsKmem : IsKmem kernel_end two_pages
two_pages-IsKmem = record {
  pages = (
    record { aligned = refl; above = omega arith; mapped = omega arith; backed = omega arith },
    (
      record { aligned = refl; above = omega arith; mapped = omega arith; backed = omega arith },
      tt,
    ),
  );
  distinct = ((λ m. elim m [ inl e ↦ omega (arith, e) | inr x ↦ x ]), ((λ x. x), tt));
  linked = (refl, (refl, tt));
}

kalloc-page : AllocEnsures kernel_end two_pages (kalloc two_pages).0 (kalloc two_pages).1
kalloc-page = kalloc_lem kernel_end two_pages two_pages-IsKmem

fresh_page : ¬ Member 2148540416 two_pages.freelist
fresh_page m = elim m [
  | inl e ↦ omega (arith, e)
  | inr x ↦ elim x [ inl e ↦ omega (arith, e) | inr y ↦ y ]
]

kfree_lem_example :
    FreeEnsures kernel_end 2148540416 two_pages (kfree kernel_end 2148540416 two_pages)
kfree_lem_example =
    kfree_lem kernel_end 2148540416 two_pages (omega arith) two_pages-IsKmem fresh_page

freerange-two_pages :
    RangeEnsures 2148540417 2148556800 two_pages
      (freerange kernel_end 2148540417 2148556800 two_pages)
freerange-two_pages =
    freerange_lem kernel_end 2148540417 2148556800 two_pages (omega arith) (omega arith)
      (omega arith) (omega arith)

-- A pipe end with two references, and nothing else open.
abbrev open_files : Files
open_files f = record {
  type_ = fd_pipe;
  ref = if f == 0 then 2 else 0;
  readable = true;
  writable = false;
  pipe = 4096;
  ip = 0;
  off = 0;
}

closes_lem_example : CloseEnsures 2 0 open_files (closes 2 0 keep open_files)
closes_lem_example = closes_lem 2 0 open_files (omega arith) (omega arith)
