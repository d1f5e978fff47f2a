-- ===== src/Uaccess/Tests.antt =====
-- kernel/src/mm/uaccess.c at concrete ranges.
use pros.Common.{ℕ, ◌-◌, ◌%◌, ◌^◌, ◌≡◌, refl, arith, err}
use pros.Uaccess.{vmm_addr_split, efault, copy_from_user, copy_to_user}
use pros.Uaccess.Bounds.{Copies, copy_from_user-Copies, copy_to_user-Copies}

abbrev memory : ℕ → ℕ
memory a = a % 256

-- The end wraps around to 5.
wraps : copy_to_user (2 ^ 64 - 5) 10 10 memory ≡ err efault
unfolding copy_to_user
wraps = refl

-- The last byte is the kernel's.
spills : copy_from_user 10 (vmm_addr_split - 5) 6 memory ≡ err efault
unfolding copy_from_user
spills = refl

copy_from_user-Copies_example :
    Copies 0x1000 0xffff_8000_0000_0000 0x1000 64 memory
      (copy_from_user 0xffff_8000_0000_0000 0x1000 64 memory)
copy_from_user-Copies_example =
    copy_from_user-Copies 0xffff_8000_0000_0000 0x1000 64 memory (omega arith) (omega arith)
      (omega arith)

copy_to_user-Copies_example :
    Copies 0x1000 0x1000 0xffff_8000_0000_0000 64 memory
      (copy_to_user 0x1000 0xffff_8000_0000_0000 64 memory)
copy_to_user-Copies_example =
    copy_to_user-Copies 0x1000 0xffff_8000_0000_0000 64 memory (omega arith) (omega arith)
      (omega arith)
