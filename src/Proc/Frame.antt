-- ===== src/Proc/Frame.antt =====
-- `struct trapframe` of proc.h. A trapframe is a page; its fields are words of that page, at the
-- byte offsets of proc.h over 8.
use cpu_scheduling_algos.Prelude.{ℕ}

abbrev pub kernel_satp : ℕ
kernel_satp = 0

abbrev pub kernel_sp : ℕ
kernel_sp = 1

abbrev pub kernel_trap : ℕ
kernel_trap = 2

abbrev pub epc : ℕ
epc = 3

abbrev pub kernel_hartid : ℕ
kernel_hartid = 4

abbrev pub sp : ℕ
sp = 6

abbrev pub a0 : ℕ
a0 = 14

-- `sizeof(struct trapframe)` is 288 bytes.
abbrev pub size : ℕ
size = 36
