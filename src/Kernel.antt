-- ===== src/Kernel.antt =====
-- kernel/info.c and dbg/debug.c: the version of the kernel and messages in colour.
pub mod Panic
pub mod Isr
mod Tests
use vireo_kernel.Prelude.{ℕ, List, [], ◌∷◌, Run, done, ◌>>=◌}
use vireo_kernel.Screen.{Screen, print}
use vireo_kernel.Screen.Text.{print_value, screen_basic_set_screen_color}

abbrev text_version : List ℕ
text_version =
    b'V' ∷ b'i' ∷ b'r' ∷ b'e' ∷ b'o' ∷ b' ' ∷ b'I' ∷ b'I' ∷ b' ' ∷ b'b' ∷ b'u' ∷ b'i' ∷ b'l' ∷ b'd'
    ∷ b' ' ∷ b'%' ∷ b'i' ∷ 10 ∷ 0 ∷ []

abbrev text_kernel : List ℕ
text_kernel = 10 ∷ b'[' ∷ b'K' ∷ b'E' ∷ b'R' ∷ b'N' ∷ b'E' ∷ b'L' ∷ b']' ∷ b' ' ∷ 0 ∷ []

abbrev text_kernel_build : List ℕ
text_kernel_build =
    b'[' ∷ b'K' ∷ b'E' ∷ b'R' ∷ b'N' ∷ b'E' ∷ b'L' ∷ b']' ∷ b' ' ∷ b'B' ∷ b'u' ∷ b'i' ∷ b'l' ∷ b'd'
    ∷ b' ' ∷ b'o' ∷ b'n' ∷ b':' ∷ b' ' ∷ b'%' ∷ b's' ∷ b' ' ∷ 0 ∷ []

abbrev text_at_time : List ℕ
text_at_time = b'a' ∷ b't' ∷ b' ' ∷ b'%' ∷ b's' ∷ 10 ∷ 0 ∷ []

abbrev text_version_string : List ℕ
text_version_string =
    b' ' ∷ b'K' ∷ b'e' ∷ b'r' ∷ b'n' ∷ b'e' ∷ b'l' ∷ b' ' ∷ b'v' ∷ b'e' ∷ b'r' ∷ b's' ∷ b'i' ∷ b'o'
    ∷ b'n' ∷ b' ' ∷ b's' ∷ b't' ∷ b'r' ∷ b'i' ∷ b'n' ∷ b'g' ∷ b':' ∷ b' ' ∷ 0 ∷ []

abbrev text_build : List ℕ
text_build =
    b' ' ∷ b'B' ∷ b'u' ∷ b'i' ∷ b'l' ∷ b'd' ∷ b' ' ∷ b'o' ∷ b'n' ∷ b':' ∷ b' ' ∷ b'%' ∷ b's' ∷ b' '
    ∷ 0 ∷ []

abbrev text_warning : List ℕ
text_warning =
    b'[' ∷ b'W' ∷ b'A' ∷ b'R' ∷ b'N' ∷ b'I' ∷ b'N' ∷ b'G' ∷ b']' ∷ b' ' ∷ b'%' ∷ b's' ∷ 10 ∷ 10 ∷ 0
    ∷ []

abbrev text_error : List ℕ
text_error = b'[' ∷ b'E' ∷ b'R' ∷ b'R' ∷ b'O' ∷ b'R' ∷ b']' ∷ b' ' ∷ b'%' ∷ b's' ∷ 10 ∷ 10 ∷ 0 ∷ []

abbrev pub build : ℕ
build = 3658

-- The addresses of `__DATE__` and `__TIME__`.
pub record BuildTexts : Type 0 where
  pub build_date : ℕ
  pub build_time : ℕ

-- `text_at` is the memory from an address on.
module _ (text_at : ℕ → List ℕ) (at : BuildTexts) where
  unfoldable pub info_print_version : Screen → Run Screen
  info_print_version s = print_value text_at text_version build s

  unfoldable pub info_print_full_version : Screen → Run Screen
  info_print_full_version s = do
    s₁ ← print text_kernel s
    s₂ ← info_print_version s₁
    s₃ ← print_value text_at text_kernel_build at.build_date s₂
    print_value text_at text_at_time at.build_time s₃

  unfoldable pub info_print_panic_version : Screen → Run Screen
  info_print_panic_version s = do
    s₁ ← print text_version_string s
    s₂ ← info_print_version s₁
    s₃ ← print_value text_at text_build at.build_date s₂
    print_value text_at text_at_time at.build_time s₃

-- A message in a color, the color of ordinary text behind it.
unfoldable pub debug_print_warning : (ℕ → List ℕ) → ℕ → Screen → Run Screen
debug_print_warning text_at warning s = do
  t ← print_value text_at text_warning warning (screen_basic_set_screen_color 0x0e s)
  done (screen_basic_set_screen_color 0x07 t)

unfoldable pub debug_print_error : (ℕ → List ℕ) → ℕ → Screen → Run Screen
debug_print_error text_at error s = do
  t ← print_value text_at text_error error (screen_basic_set_screen_color 0x04 s)
  done (screen_basic_set_screen_color 0x07 t)
