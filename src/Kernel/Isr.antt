-- ===== src/Kernel/Isr.antt =====
-- cpu/interrupts/isr.c: the routines behind the gates for exceptions, the timer and the keyboard.
use vireo_kernel.Prelude.{
  ℕ, zero, suc, ◌+◌, ◌/◌, ◌%◌, ◌<◌, ◌≡◌, ◌≢◌, refl, arith, ap, List, ◌∷◌, ◌++◌, replicate,
  if◌then◌else◌, ◌==◌, ◌||◌, bit_and, Run, done,
}
use vireo_kernel.Prelude.Bits.{bit_and-mask}
use vireo_kernel.Hardware.Io.{Ports, out_byte, Io, ◌>>=◌, ◌>>◌, pure, inb}
use vireo_kernel.Hardware.Pic.{pic_eoi}
use vireo_kernel.Hardware.Timer.{timer_inc_ticks, max_ticks}
use vireo_kernel.Screen.{Screen}
use vireo_kernel.Kernel.{BuildTexts}
use vireo_kernel.Kernel.Panic.{CpuState, panic, panic_stops}

-- The addresses of the texts.
pub record IsrTexts : Type 0 where
  pub exception : ℕ
  pub divide_by_zero : ℕ
  pub bound_range_exceeded : ℕ
  pub general_protection_fault : ℕ
  pub supervisor_non_present_page : ℕ
  pub supervisor_page_fault : ℕ
  pub user_non_present_page : ℕ
  pub user_page_fault : ℕ
  pub page_fault : ℕ

-- The text for the bits of a page fault that the routine looks at.
unfoldable pub fault_text : IsrTexts → ℕ → ℕ
fault_text texts error_code =
    if error_code == 0 || error_code == 2
    then texts.supervisor_non_present_page
    else if error_code == 1 || error_code == 3
    then texts.supervisor_page_fault
    else if error_code == 4 || error_code == 6
    then texts.user_non_present_page
    else if error_code == 5 || error_code == 7
    then texts.user_page_fault
    else texts.page_fault

-- `state` is what CPU_get_state returns.
module _ (text_at : ℕ → List ℕ) (at : BuildTexts) (texts : IsrTexts) (state : CpuState) where
  unfoldable pub isr_00_handler : Screen → Run Screen
  isr_00_handler = panic text_at at texts.exception texts.divide_by_zero state

  unfoldable pub isr_05_handler : Screen → Run Screen
  isr_05_handler = panic text_at at texts.exception texts.bound_range_exceeded state

  unfoldable pub isr_06_handler : Screen → Run Screen
  isr_06_handler = panic text_at at texts.exception texts.general_protection_fault state

  unfoldable pub isr_0d_handler : Screen → Run Screen
  isr_0d_handler = panic text_at at texts.exception texts.general_protection_fault state

  unfoldable pub isr_0e_handler : ℕ → Screen → Run Screen
  isr_0e_handler error_code =
      panic text_at at texts.exception (fault_text texts (bit_and error_code 0x07)) state

-- The counter of the timer goes in and out.
unfoldable pub isr_20_handler : ℕ → Io ℕ
isr_20_handler ticks = pic_eoi 0 >> pure (timer_inc_ticks ticks)

unfoldable pub isr_21_handler : Io (Unit {0})
isr_21_handler = do character ← inb 0x60; pic_eoi 1

-- The timer interrupts from a counter on.
unfoldable pub timer_interrupts : ℕ → ℕ → Io ℕ
timer_interrupts zero ticks = pure ticks
timer_interrupts (suc n) ticks = isr_20_handler ticks >>= timer_interrupts n

timer_once :
    (ticks : ℕ) (p : Ports)
    → isr_20_handler ticks p
      ≡ done (timer_inc_ticks ticks, record p { trace = out_byte 0x20 0x20 ∷ p.trace })
unfolding isr_20_handler pic_eoi
timer_once ticks p = refl

timer_count :
    (ticks n : ℕ)
    → ticks < max_ticks
    → (timer_inc_ticks ticks < max_ticks)
      × ((timer_inc_ticks ticks + n) % max_ticks ≡ (ticks + suc n) % max_ticks)
unfolding timer_inc_ticks
timer_count ticks n small = (ground arith, ground arith)

replicate-++ :
    {A : Type 0} (n : ℕ) (a : A) (l : List A) → replicate n a ++ (a ∷ l) ≡ a ∷ (replicate n a ++ l)
replicate-++ zero a l = refl
replicate-++ (suc n) a l = ap (λ t. a ∷ t) (replicate-++ n a l)

-- After n timer interrupts the counter is n ahead modulo 2^32 - 1, and the first interrupt
-- controller has been told the end of each of them, with no other access to a port.
pub timer_interrupts_lem :
    (n ticks : ℕ) (p : Ports)
    → ticks < max_ticks
    → timer_interrupts n ticks p
      ≡ done (
        (ticks + n) % max_ticks,
        record p { trace = replicate n (out_byte 0x20 0x20) ++ p.trace },
      )
unfolding timer_interrupts
timer_interrupts_lem zero ticks p small =
    let same : (ticks + 0) % max_ticks ≡ ticks = omega arith in rw same
timer_interrupts_lem (suc n) ticks p small =
    let count = timer_count ticks n small in
    rw (
      timer_once ticks p,
      timer_interrupts_lem n (timer_inc_ticks ticks)
          (record p { trace = out_byte 0x20 0x20 ∷ p.trace }) count.0,
      count.1,
      replicate-++ n (out_byte 0x20 0x20) p.trace,
    )

-- The text for a page fault: who did it, and whether the page was there.
abbrev pub page_fault_text : IsrTexts → ℕ → ℕ → ℕ
page_fault_text texts user present =
    if user == 0
    then (if present == 0 then texts.supervisor_non_present_page else texts.supervisor_page_fault)
    else if present == 0
    then texts.user_non_present_page
    else texts.user_page_fault

fault_text_lem :
    (texts : IsrTexts) (code : ℕ)
    → fault_text texts (bit_and code 0x07) ≡ page_fault_text texts (code / 4 % 2) (code % 2)
unfolding fault_text
fault_text_lem texts code = rw (bit_and-mask 3 code) (ground arith)

-- A page fault is reported by the bits 0 and 2 of its code, and the routine does not return.
pub isr_0e_handler_lem :
    (text_at : ℕ → List ℕ) (at : BuildTexts) (texts : IsrTexts) (state : CpuState) (code : ℕ)
    (s : Screen)
    → (isr_0e_handler text_at at texts state code s
        ≡ panic text_at at texts.exception
            (page_fault_text texts (code / 4 % 2) (code % 2))
            state
            s)
      × ((s' : Screen) → isr_0e_handler text_at at texts state code s ≢ done s')
unfolding isr_0e_handler
isr_0e_handler_lem text_at at texts state code s = (
  ap (λ t. panic text_at at texts.exception t state s) (fault_text_lem texts code),
  panic_stops text_at at texts.exception (fault_text texts (bit_and code 0x07)) state s,
)
