-- ===== src/Uaccess.antt =====
-- kernel/src/mm/uaccess.c: copies between kernel and user memory, which one memory stands for here.
pub mod Bounds
mod Tests
use pros.Common.{ℕ, ◌^◌, Bool, add64, ltb, if◌then◌else◌, Res, ok, err}
use pros.Memory.{memcpy}

-- `VMM_ADDR_SPLIT`: addresses below are those of the user.
abbrev pub vmm_addr_split : ℕ
vmm_addr_split = 2 ^ 47

abbrev pub efault : ℕ
efault = 14

-- The memory after the call, or the error number.
unfoldable pub copy_from_user : ℕ → ℕ → ℕ → (ℕ → ℕ) → Res (ℕ → ℕ)
copy_from_user kernel_dst user_src len m =
    let start = user_src in
    let end = add64 start len in
    if ltb end start
    then err efault
    else if ltb vmm_addr_split end
    then err efault
    else ok (memcpy kernel_dst user_src len m)

unfoldable pub copy_to_user : ℕ → ℕ → ℕ → (ℕ → ℕ) → Res (ℕ → ℕ)
copy_to_user user_dst kernel_src len m =
    let start = user_dst in
    let end = add64 start len in
    if ltb end start
    then err efault
    else if ltb vmm_addr_split end
    then err efault
    else ok (memcpy user_dst kernel_src len m)
