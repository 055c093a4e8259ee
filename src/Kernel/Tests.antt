-- ===== src/Kernel/Tests.antt =====
-- The interrupt routines at concrete states.
use vireo_kernel.Prelude.{◌+◌, ◌%◌, ◌≡◌, arith, [], ◌++◌, replicate, done}
use vireo_kernel.Hardware.Io.{Ports, out_byte}
use vireo_kernel.Hardware.Timer.{max_ticks}
use vireo_kernel.Kernel.Isr.{timer_interrupts, timer_interrupts_lem}

abbrev quiet : Ports
quiet = record { device = λ _. 0; reads = 0; trace = [] }

-- The second interrupt starts the counter again.
timer_interrupts_lem_example :
    timer_interrupts 3 0xfffffffd quiet
    ≡ done (
      (0xfffffffd + 3) % max_ticks,
      record quiet { trace = replicate 3 (out_byte 0x20 0x20) ++ [] },
    )
timer_interrupts_lem_example = timer_interrupts_lem 3 0xfffffffd quiet (omega arith)
