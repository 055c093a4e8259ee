-- ===== src/Util/Sleep.antt =====
-- util/util.c: sleep. `ticks n` is what the n-th read of the timer gives.
use vireo_kernel.Prelude.{
  ℕ, zero, suc, ◌+◌, ◌-◌, ◌^◌, ◌≤◌, ◌<◌, ◌≡◌, arith, true, false, if◌then◌else◌, ltb, leb, u32, Run,
  done, stop,
}
use vireo_kernel.Util.{max_u32}

-- The tick to wait for.
unfoldable pub wait_for : ℕ → ℕ → ℕ
wait_for current time_in_ms =
    if leb max_u32 (u32 (current + time_in_ms))
    then u32 (time_in_ms + 2 ^ 32 - (max_u32 - current))
    else u32 (current + time_in_ms)

-- The waiting loop at read number `i`, for `patience` reads at most: the number of the last read.
unfoldable pub sleep_loop : ℕ → (ℕ → ℕ) → ℕ → ℕ → Run ℕ
sleep_loop zero ticks until i = stop
sleep_loop (suc patience) ticks until i =
    let rest = sleep_loop patience ticks until (i + 1) in
    if ltb (ticks i) until then rest else done i

unfoldable pub sleep : ℕ → (ℕ → ℕ) → ℕ → Run ℕ
sleep patience ticks time_in_ms = sleep_loop patience ticks (wait_for (ticks 0) time_in_ms) 1

sleep_loop_lem :
    (k patience : ℕ) (ticks : ℕ → ℕ) (until i : ℕ)
    → k < patience
    → ((j : ℕ) → j < k → ticks (i + j) < until)
    → until ≤ ticks (i + k)
    → sleep_loop patience ticks until i ≡ done (i + k)
unfolding sleep_loop
sleep_loop_lem k zero ticks until i fuel before reached = absurd (omega arith)
sleep_loop_lem zero (suc patience) ticks until i fuel before reached =
    let z : i + 0 ≡ i = omega arith in
    let over : ltb (ticks i) until ≡ false = lt_false (ticks i) until (rw z at reached) in
    rw (z, over)
  where
    lt_false : (a b : ℕ) → b ≤ a → ltb a b ≡ false
    lt_false a b h = ground arith
sleep_loop_lem (suc k) (suc patience) ticks until i fuel before reached =
    let z : i + 0 ≡ i = omega arith in
    let next : (j : ℕ) → i + suc j ≡ i + 1 + j = λ j. omega arith in
    let go : ltb (ticks i) until ≡ true =
      lt_true (ticks i) until (rw z at (before 0 (omega arith))) in
    rw (go, next k)
      (sleep_loop_lem k patience ticks until (i + 1) (omega arith)
        (λ j h. rw (next j) at (before (suc j) (omega arith))) (rw (next k) at reached))
  where
    lt_true : (a b : ℕ) → a < b → ltb a b ≡ true
    lt_true a b h = ground arith

-- When the sum reaches 2^32 - 1 the tick to wait for is not behind the present one.
wait_for-wraps :
    (current time : ℕ)
    → current < max_u32
    → time < 2 ^ 32
    → max_u32 ≤ current + time
    → wait_for current time ≤ current
unfolding wait_for
wait_for-wraps current time start short wraps = ground arith

-- When the sum of the tick and the time is below 2^32 - 1, sleep ends with the first read of the
-- timer that is the time or more behind the first one. When it is 2^32 - 1 or more, it ends with the
-- next read already, if the timer has not started again.
pub sleep_lem :
    (patience k : ℕ) (ticks : ℕ → ℕ) (time_in_ms : ℕ)
    → ticks 0 < max_u32
    → time_in_ms < 2 ^ 32
    → 0 < patience
    → (ticks 0 + time_in_ms < max_u32
        → k < patience
        → ((j : ℕ) → j < k → ticks (1 + j) < ticks 0 + time_in_ms)
        → ticks 0 + time_in_ms ≤ ticks (1 + k)
        → sleep patience ticks time_in_ms ≡ done (1 + k))
      × (max_u32 ≤ ticks 0 + time_in_ms
          → ticks 0 ≤ ticks 1
          → sleep patience ticks time_in_ms ≡ done 1)
unfolding sleep wait_for
sleep_lem patience k ticks time_in_ms start short some_patience = (
  λ fits fuel before reached.
      let sum : u32 (ticks 0 + time_in_ms) ≡ ticks 0 + time_in_ms = omega arith in
      let below : leb max_u32 (ticks 0 + time_in_ms) ≡ false = ground arith in
      rw (sum, below)
        (sleep_loop_lem k patience ticks (ticks 0 + time_in_ms) 1 fuel before reached),
  λ wraps later.
      sleep_loop_lem 0 patience ticks (wait_for (ticks 0) time_in_ms) 1 some_patience
        (λ j h. absurd (omega arith))
        (omega (arith, later, wait_for-wraps (ticks 0) time_in_ms start short wraps)),
)
