-- ===== src/Screen/Tests.antt =====
-- The screen at concrete texts.
use vireo_kernel.Prelude.{ℕ, zero, suc, ◌<◌, ◌≡◌, arith, List, [], ◌∷◌, get_or, done}
use vireo_kernel.Hardware.Io.{Ports}
use vireo_kernel.Util.Strings.{terminated}
use vireo_kernel.Screen.{Screen, print}
use vireo_kernel.Screen.Write.{Ordinary, written, print_lem}

abbrev quiet : Ports
quiet = record { device = λ _. 0; reads = 0; trace = [] }

abbrev blank : Screen
blank = record {
  cursor_y = 2;
  cursor_x = 78;
  screen_flags = 1;
  color = 7;
  hexdigits = 0;
  pool = [];
  vidmem = λ _. 0;
  ports = quiet;
}

abbrev hello : List ℕ
hello = b'h' ∷ b'e' ∷ b'y' ∷ b'!' ∷ []

hello-Ordinary : (k : ℕ) → k < 4 → Ordinary (get_or (terminated hello []) k 0)
hello-Ordinary zero h = (ground arith, ground arith, ground arith)
hello-Ordinary (suc zero) h = (ground arith, ground arith, ground arith)
hello-Ordinary (suc (suc zero)) h = (ground arith, ground arith, ground arith)
hello-Ordinary (suc (suc (suc zero))) h = (ground arith, ground arith, ground arith)
hello-Ordinary (suc (suc (suc (suc k)))) h = absurd (omega arith)

-- The text runs over the end of row 2, and the cursor stays in that row, at column 82.
print_lem_example :
    (s' : Screen) × (print (terminated hello []) blank ≡ done s')
    × (s'.cursor_y ≡ 2)
    × (s'.cursor_x ≡ 82)
    × ((j : ℕ) → s'.vidmem j ≡ written 238 4 0 (terminated hello []) 7 (λ _. 0) j)
print_lem_example =
    print_lem hello [] blank (ground arith, (ground arith, (ground arith, (ground arith, tt))))
      hello-Ordinary (omega arith) (omega arith) (omega arith)
