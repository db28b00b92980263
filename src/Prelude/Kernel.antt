-- ===== src/Prelude/Kernel.antt =====
-- The status codes of the driver, and the kernel's allocator.
use mathlib.Core.Bool.{Bool, true, false}
use mathlib.Core.List.{List, [], ◌∷◌}

-- The `int` results: SUCCESS, the negated errno values, and the ENODATA that is returned unnegated.
pub data Status : Type 0 where
  success einval enomem enodata ealready efault eio edeadlk ebusy enodev enosys pos_enodata : Status

abbrev pub is_success : Status → Bool
is_success success = true
is_success _ = false

-- What the calls of the allocator to come will answer. Past the end of the list they all succeed.
abbrev pub Memory : Type 0
Memory = List Bool

abbrev pub alloc : Memory → Bool × Memory
alloc [] = (true, [])
alloc (b ∷ mem) = (b, mem)
