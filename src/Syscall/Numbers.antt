-- ===== src/Syscall/Numbers.antt =====
-- assignment-3/syscall.h: the numbers of the system calls, the constants `SYS_`.
use cs_1217_operating_system.Base.{ℕ}

abbrev pub num_fork : ℕ
num_fork = 1

abbrev pub num_exit : ℕ
num_exit = 2

abbrev pub num_wait : ℕ
num_wait = 3

abbrev pub num_pipe : ℕ
num_pipe = 4

abbrev pub num_read : ℕ
num_read = 5

abbrev pub num_kill : ℕ
num_kill = 6

abbrev pub num_exec : ℕ
num_exec = 7

abbrev pub num_fstat : ℕ
num_fstat = 8

abbrev pub num_chdir : ℕ
num_chdir = 9

abbrev pub num_dup : ℕ
num_dup = 10

abbrev pub num_getpid : ℕ
num_getpid = 11

abbrev pub num_sbrk : ℕ
num_sbrk = 12

abbrev pub num_sleep : ℕ
num_sleep = 13

abbrev pub num_uptime : ℕ
num_uptime = 14

abbrev pub num_open : ℕ
num_open = 15

abbrev pub num_write : ℕ
num_write = 16

abbrev pub num_mknod : ℕ
num_mknod = 17

abbrev pub num_unlink : ℕ
num_unlink = 18

abbrev pub num_link : ℕ
num_link = 19

abbrev pub num_mkdir : ℕ
num_mkdir = 20

abbrev pub num_close : ℕ
num_close = 21

abbrev pub num_date : ℕ
num_date = 22
