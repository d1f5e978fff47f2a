-- ===== src/Sched/Spinlock.antt =====
-- kernel/src/core/spinlock.c on a store of locks; a lock is known by its address.
use pros.Common.{ℕ, Bool, true, false, Option, none, some, update, if◌then◌else◌}

-- One CPU runs, so the loop on a lock that is held does not end: `none`.
unfoldable pub spinlock_lock : (ℕ → Bool) → ℕ → Option (ℕ → Bool)
spinlock_lock locked lk = if locked lk then none else some (update locked lk true)

unfoldable pub spinlock_unlock : (ℕ → Bool) → ℕ → ℕ → Bool
spinlock_unlock locked lk = update locked lk false
