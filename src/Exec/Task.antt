-- ===== src/Exec/Task.antt =====
-- exec/task.c: process numbers.
use vireo_kernel.Prelude.{ℕ, zero, suc, ◌+◌, ◌%◌, ◌≡◌, refl, arith, if◌then◌else◌, ◌==◌, u8}

-- The static `pid` goes in, and its new value is the answer. It starts as `PID_KERNEL`, 0.
unfoldable pub task_new_pid : ℕ → ℕ
task_new_pid pid = if pid == 0xff then 1 else u8 (pid + 1)

-- The number that the call after `n` others returns.
abbrev pub nth_pid : ℕ → ℕ
nth_pid zero = task_new_pid 0
nth_pid (suc n) = task_new_pid (nth_pid n)

-- The calls go round the numbers 1 to 255: never `PID_KERNEL`, but each 255th call returns
-- `PID_RESV`, the mark of pages that belong to nobody.
pub nth_pid_lem : (n : ℕ) → nth_pid n ≡ n % 255 + 1
unfolding task_new_pid
nth_pid_lem zero = refl
nth_pid_lem (suc n) = ground (arith, nth_pid_lem n)
