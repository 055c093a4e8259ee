-- ===== src/Kernel/Panic.antt =====
-- kernel/panic.c: the last words of the kernel. Each function ends in an endless loop; what is on
-- the screen by then is a function of its own.
use vireo_kernel.Prelude.{ℕ, ◌≢◌, List, [], ◌∷◌, Run, done, stop, fault, ◌>>=◌}
use vireo_kernel.Screen.{Screen, print, on_ports, screen_basic_disable_cursor}
use vireo_kernel.Screen.Text.{print_value, screen_set_hexdigits}
use vireo_kernel.Kernel.{BuildTexts, info_print_panic_version}

abbrev text_panic : List ℕ
text_panic =
    10 ∷ b' ' ∷ b'[' ∷ b'K' ∷ b'E' ∷ b'R' ∷ b'N' ∷ b'E' ∷ b'L' ∷ b' ' ∷ b'P' ∷ b'A' ∷ b'N' ∷ b'I'
    ∷ b'C' ∷ b']' ∷ 10 ∷ 0 ∷ []

abbrev text_fatal : List ℕ
text_fatal = b' ' ∷ b'F' ∷ b'a' ∷ b't' ∷ b'a' ∷ b'l' ∷ b' ' ∷ b'%' ∷ b's' ∷ b':' ∷ b' ' ∷ 0 ∷ []

abbrev text_line : List ℕ
text_line = b'%' ∷ b's' ∷ 10 ∷ 0 ∷ []

abbrev text_dump : List ℕ
text_dump =
    10 ∷ b' ' ∷ b'R' ∷ b'e' ∷ b'g' ∷ b'i' ∷ b's' ∷ b't' ∷ b'e' ∷ b'r' ∷ b' ' ∷ b'd' ∷ b'u' ∷ b'm'
    ∷ b'p' ∷ b':' ∷ 10 ∷ 9 ∷ 0 ∷ []

abbrev text_eax : List ℕ
text_eax = b'e' ∷ b'a' ∷ b'x' ∷ b':' ∷ b' ' ∷ b'0' ∷ b'x' ∷ b'%' ∷ b'x' ∷ 9 ∷ 0 ∷ []

abbrev text_ecx : List ℕ
text_ecx = b'e' ∷ b'c' ∷ b'x' ∷ b':' ∷ b' ' ∷ b'0' ∷ b'x' ∷ b'%' ∷ b'x' ∷ 9 ∷ 0 ∷ []

abbrev text_edx : List ℕ
text_edx = b'e' ∷ b'd' ∷ b'x' ∷ b':' ∷ b' ' ∷ b'0' ∷ b'x' ∷ b'%' ∷ b'x' ∷ 10 ∷ 9 ∷ 0 ∷ []

abbrev text_ebx : List ℕ
text_ebx = b'e' ∷ b'b' ∷ b'x' ∷ b':' ∷ b' ' ∷ b'0' ∷ b'x' ∷ b'%' ∷ b'x' ∷ 9 ∷ 0 ∷ []

abbrev text_esp : List ℕ
text_esp = b'e' ∷ b's' ∷ b'p' ∷ b':' ∷ b' ' ∷ b'0' ∷ b'x' ∷ b'%' ∷ b'x' ∷ 9 ∷ 0 ∷ []

abbrev text_ebp : List ℕ
text_ebp = b'e' ∷ b'b' ∷ b'p' ∷ b':' ∷ b' ' ∷ b'0' ∷ b'x' ∷ b'%' ∷ b'x' ∷ 10 ∷ 9 ∷ 0 ∷ []

abbrev text_esi : List ℕ
text_esi = b'e' ∷ b's' ∷ b'i' ∷ b':' ∷ b' ' ∷ b'0' ∷ b'x' ∷ b'%' ∷ b'x' ∷ 9 ∷ 0 ∷ []

abbrev text_edi : List ℕ
text_edi = b'e' ∷ b'd' ∷ b'i' ∷ b':' ∷ b' ' ∷ b'0' ∷ b'x' ∷ b'%' ∷ b'x' ∷ 10 ∷ 10 ∷ 0 ∷ []

abbrev text_eip : List ℕ
text_eip = 9 ∷ b'e' ∷ b'i' ∷ b'p' ∷ b':' ∷ b' ' ∷ b'0' ∷ b'x' ∷ b'%' ∷ b'x' ∷ 10 ∷ 0 ∷ []

abbrev text_debug : List ℕ
text_debug =
    10 ∷ b' ' ∷ b'D' ∷ b'e' ∷ b'b' ∷ b'u' ∷ b'g' ∷ b' ' ∷ b'i' ∷ b'n' ∷ b'f' ∷ b'o' ∷ b'r' ∷ b'm'
    ∷ b'a' ∷ b't' ∷ b'i' ∷ b'o' ∷ b'n' ∷ b':' ∷ 10 ∷ 9 ∷ 0 ∷ []

abbrev text_file : List ℕ
text_file = b'f' ∷ b'i' ∷ b'l' ∷ b'e' ∷ b':' ∷ b' ' ∷ b'%' ∷ b's' ∷ 10 ∷ 9 ∷ 0 ∷ []

abbrev text_number : List ℕ
text_number = b'l' ∷ b'i' ∷ b'n' ∷ b'e' ∷ b':' ∷ b' ' ∷ b'%' ∷ b'i' ∷ 10 ∷ 9 ∷ 0 ∷ []

abbrev text_fptr : List ℕ
text_fptr = b'f' ∷ b'p' ∷ b't' ∷ b'r' ∷ b':' ∷ b' ' ∷ b'0' ∷ b'x' ∷ b'%' ∷ b'x' ∷ 10 ∷ 0 ∷ []

-- CPU_STATE
pub record CpuState : Type 0 where
  pub edi : ℕ
  pub esi : ℕ
  pub ebp : ℕ
  pub esp : ℕ
  pub ebx : ℕ
  pub edx : ℕ
  pub ecx : ℕ
  pub eax : ℕ
  pub eip : ℕ

-- The cursor and the number of digits at the end of each of the functions.
unfoldable pub quit_screen : Screen → Run Screen
quit_screen s = do r ← on_ports screen_basic_disable_cursor s; done (screen_set_hexdigits 0 r.1)

module _ (text_at : ℕ → List ℕ) (at : BuildTexts) where
  -- The heading that the functions share: `type` and `error` are addresses of texts.
  unfoldable pub panic_heading : ℕ → ℕ → Screen → Run Screen
  panic_heading type error s = do
    s₁ ← print text_panic s
    s₂ ← print_value text_at text_fatal type s₁
    s₃ ← print_value text_at text_line error s₂
    info_print_panic_version text_at at s₃

  unfoldable pub register_dump : CpuState → Screen → Run Screen
  register_dump cpustate s = do
    s₀ ← print text_dump s
    s₁ ← print_value text_at text_eax cpustate.eax s₀
    s₂ ← print_value text_at text_ecx cpustate.ecx s₁
    s₃ ← print_value text_at text_edx cpustate.edx s₂
    s₄ ← print_value text_at text_ebx cpustate.ebx s₃
    s₅ ← print_value text_at text_esp cpustate.esp s₄
    s₆ ← print_value text_at text_ebp cpustate.ebp s₅
    s₇ ← print_value text_at text_esi cpustate.esi s₆
    s₈ ← print_value text_at text_edi cpustate.edi s₇
    print_value text_at text_eip cpustate.eip s₈

  unfoldable pub panic_screen : ℕ → ℕ → CpuState → Screen → Run Screen
  panic_screen type error cpustate s = do
    s₁ ← panic_heading type error (screen_set_hexdigits 8 s)
    s₂ ← register_dump cpustate s₁
    quit_screen s₂

  unfoldable pub panic : ℕ → ℕ → CpuState → Screen → Run Screen
  panic type error cpustate s = panic_screen type error cpustate s >>= λ _. stop

  unfoldable pub easy_panic_screen : ℕ → ℕ → ℕ → ℕ → ℕ → Screen → Run Screen
  easy_panic_screen type error file line fptr s = do
    s₁ ← panic_heading type error s
    s₂ ← print text_debug s₁
    s₃ ← print_value text_at text_file file s₂
    s₄ ← print_value text_at text_number line s₃
    s₅ ← print_value text_at text_fptr fptr s₄
    quit_screen s₅

  unfoldable pub easy_panic : ℕ → ℕ → ℕ → ℕ → ℕ → Screen → Run Screen
  easy_panic type error file line fptr s =
      easy_panic_screen type error file line fptr s >>= λ _. stop

  unfoldable pub really_easy_panic_screen : ℕ → ℕ → Screen → Run Screen
  really_easy_panic_screen type error s = panic_heading type error s >>= quit_screen

  unfoldable pub really_easy_panic : ℕ → ℕ → Screen → Run Screen
  really_easy_panic type error s = really_easy_panic_screen type error s >>= λ _. stop

stop_after : {A B : Type 0} (m : Run A) (b : B) → (m >>= λ _. stop) ≢ done b
stop_after (done a) b = λ same. cc
stop_after stop b = λ same. cc
stop_after fault b = λ same. cc

-- panic does not return.
pub panic_stops :
    (text_at : ℕ → List ℕ) (at : BuildTexts) (type error : ℕ) (cpustate : CpuState) (s s' : Screen)
    → panic text_at at type error cpustate s ≢ done s'
unfolding panic
panic_stops text_at at type error cpustate s s' =
    stop_after (panic_screen text_at at type error cpustate s) s'
