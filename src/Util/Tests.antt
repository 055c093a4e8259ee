-- ===== src/Util/Tests.antt =====
-- Runs of the string routines, and the theorems at concrete strings.
use vireo_kernel.Prelude.{
  ℕ, ◌+◌, ◌<◌, ◌≤◌, ◌≡◌, refl, arith, List, [], ◌∷◌, take, get_or, replicate, done, fault, some,
}
use vireo_kernel.Util.{max_u32, strlen, find_in_str, find_loop, strchr}
use vireo_kernel.Util.Strings.{IsText, terminated}
use vireo_kernel.Util.Find.{Found, find_in_str-Found}
use vireo_kernel.Util.Sleep.{sleep, sleep_lem}
use vireo_kernel.Util.Digits.{intstr, digit_count, hexstr}
use vireo_kernel.Util.Digits.Print.{decimal, number_from, intstr_lem}

-- "CD0/A.B" and its parts
abbrev path : List ℕ
path = b'C' ∷ b'D' ∷ b'0' ∷ b'/' ∷ b'A' ∷ b'.' ∷ b'B' ∷ []

abbrev cd : List ℕ
cd = b'C' ∷ b'D' ∷ []

abbrev slash : List ℕ
slash = b'/' ∷ []

path-IsText : IsText path
path-IsText = omega arith

slash_in_path : find_in_str (terminated path []) (terminated slash []) ≡ done 3
unfolding find_in_str find_loop
slash_in_path = refl

unterminated : strlen (some path) ≡ fault
unfolding strlen
unterminated = refl

-- The first character is not looked at.
strchr_first : strchr (terminated cd []) b'C' ≡ done 1
unfolding strchr
strchr_first = refl

print_42 :
    (out : List ℕ) × (intstr (replicate 32 0) 42 ≡ done out) × (take 3 out ≡ b'4' ∷ b'2' ∷ 0 ∷ [])
unfolding intstr
print_42 = (_, refl, refl)

print_hex :
    (out : List ℕ) × (hexstr (replicate 32 0) 0x2f 4 ≡ done out)
    × (take 5 out ≡ b'0' ∷ b'0' ∷ b'2' ∷ b'F' ∷ 0 ∷ [])
unfolding hexstr
print_hex = (_, refl, refl)

find_in_str-Found_example :
    (k : ℕ) × (find_in_str (terminated path []) (terminated slash []) ≡ done k)
    × Found (terminated path []) slash 7 k
find_in_str-Found_example =
    find_in_str-Found path slash [] [] path-IsText (omega arith) (omega arith) (omega arith)

-- The timer counts each read.
sleep_lem_example :
    (10 + 5 < max_u32
      → 4 < 9
      → ((j : ℕ) → j < 4 → 10 + (1 + j) < 10 + 5)
      → 10 + 5 ≤ 10 + (1 + 4)
      → sleep 9 (λ i. 10 + i) 5 ≡ done (1 + 4))
    × (max_u32 ≤ 10 + 5 → 10 ≤ 11 → sleep 9 (λ i. 10 + i) 5 ≡ done 1)
sleep_lem_example = sleep_lem 9 4 (λ i. 10 + i) 5 (omega arith) (omega arith) (omega arith)

intstr_lem_example :
    (out : List ℕ) × (intstr (replicate 32 0) 42 ≡ done out)
    × (take (digit_count 42) out ≡ decimal (digit_count 42) 42)
    × (number_from 0 (take (digit_count 42) out) ≡ 42)
    × (get_or out (digit_count 42) 0 ≡ 0)
intstr_lem_example = intstr_lem (replicate 32 0) 42 refl (omega arith)
