-- ===== src/Io.antt =====
-- What the kernel does to the hardware, in order: the port writes and reads, the interrupt flag and
-- the TLB flush of student-distrib/lib.h and student-distrib/paging.c.
use linux_os.Prelude.{ℕ, List}

pub data Io : Type 0 where
  outb : ℕ → ℕ → Io
  inb : ℕ → Io
  cli : Io
  sti : Io
  flush_tlb : Io

abbrev pub Trace : Type 0
Trace = List Io
