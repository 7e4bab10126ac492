-- ===== src/Sysproc/Number.antt =====
-- The system call numbers of initial-xv6/src/kernel/syscall.h that sysproc.c and sys_exec count under.
use cpu_scheduling_algos.Prelude.{ℕ}

abbrev pub fork : ℕ
fork = 1

abbrev pub exit : ℕ
exit = 2

abbrev pub wait : ℕ
wait = 3

abbrev pub kill : ℕ
kill = 6

abbrev pub exec : ℕ
exec = 7

abbrev pub getpid : ℕ
getpid = 11

abbrev pub sbrk : ℕ
sbrk = 12

abbrev pub sleep : ℕ
sleep = 13

abbrev pub uptime : ℕ
uptime = 14

abbrev pub waitx : ℕ
waitx = 22

abbrev pub get_sys_count : ℕ
get_sys_count = 23

abbrev pub sigalarm : ℕ
sigalarm = 24

abbrev pub sigreturn : ℕ
sigreturn = 25

abbrev pub settickets : ℕ
settickets = 26
