-- ===== src/Kstack/Usage.antt =====
-- A fresh kernel stack of kernel/src/proc/kstack.c.
use pros.Pmm.{Pmm}
