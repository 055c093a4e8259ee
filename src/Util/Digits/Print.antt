-- ===== src/Util/Digits/Print.antt =====
-- `intstr` prints a number that reads back as that number.
use native.Mathlib.Nat.{pow-suc}
use vireo_kernel.Prelude.{
  ℕ, zero, suc, ◌+◌, ◌-◌, ◌*◌, ◌/◌, ◌%◌, ◌^◌, ◌≤◌, ◌<◌, ◌≡◌, ◌⊎◌, refl, arith, ap, ◌∙◌, List, [],
  ◌∷◌, ◌++◌, length, get_or, set, take, done, store-eq-done, length-set, get_or-set_self,
  get_or-set_ne,
}
use vireo_kernel.Util.Digits.{digit_count, int_loop, intstr}

-- The `n` last decimal digits of a number, as characters.
abbrev pub decimal : ℕ → ℕ → List ℕ
decimal zero v = []
decimal (suc n) v = decimal n (v / 10) ++ (v % 10 + b'0') ∷ []

-- The number that a text of digits stands for, after those read already.
abbrev pub number_from : ℕ → List ℕ → ℕ
number_from acc [] = acc
number_from acc (c ∷ s) = number_from (acc * 10 + (c - b'0')) s

number_from-snoc :
    (acc c : ℕ) (s : List ℕ) → number_from acc (s ++ c ∷ []) ≡ number_from acc s * 10 + (c - b'0')
number_from-snoc acc c [] = refl
number_from-snoc acc c (x ∷ s) = number_from-snoc (acc * 10 + (x - b'0')) c s

number_from-decimal : (n v : ℕ) → v < 10 ^ n → number_from 0 (decimal n v) ≡ v
number_from-decimal zero v h = omega arith
number_from-decimal (suc n) v h = omega (
  arith,
  number_from-snoc 0 (v % 10 + b'0') (decimal n (v / 10)),
  number_from-decimal n (v / 10) (omega (arith, pow-suc 10 n)),
)

take-suc : (s : List ℕ) (n : ℕ) → n < length s → take (suc n) s ≡ take n s ++ get_or s n 0 ∷ []
take-suc [] n h = absurd (omega arith)
take-suc (x ∷ s) zero h = refl
take-suc (x ∷ s) (suc n) h = ap (λ r. x ∷ r) (take-suc s n (omega arith))

int_loop-decimal :
    (pool : List ℕ) (n v : ℕ)
    → n ≤ length pool
    → (out : List ℕ) × (int_loop pool n v ≡ done out)
      × (length out ≡ length pool)
      × (take n out ≡ decimal n v)
      × ((j : ℕ) → n ≤ j → get_or out j 0 ≡ get_or pool j 0)
unfolding int_loop
int_loop-decimal pool zero v h = (pool, refl, refl, refl, λ j p. refl)
int_loop-decimal pool (suc n) v h =
    let c = v % 10 + b'0' in
    let (out, run, l, t, o) =
      int_loop-decimal (set pool n c) n (v / 10) (rw length-set (omega arith)) in
    (
      out,
      rw (store-eq-done pool n c (omega arith)) run,
      l ∙ length-set pool n c,
      take-suc out n (omega (arith, l, length-set pool n c))
          ∙ rw (t, o n (omega arith), get_or-set_self pool n c 0 (omega arith)) refl,
      λ j p. o j (omega arith) ∙ get_or-set_ne pool n j c 0 (omega arith),
    )

-- `digit_count` is the number of decimal digits.
pub digit_count_lem :
    (v : ℕ)
    → v < 2 ^ 32
    → (v < 10 ^ digit_count v)
      × ((v ≡ 0) ⊎ (10 ^ (digit_count v - 1) ≤ v))
      × (0 < digit_count v)
      × (digit_count v ≤ 10)
unfolding digit_count
digit_count_lem v h = ground arith

take-set : (s : List ℕ) (n c : ℕ) → take n (set s n c) ≡ take n s
take-set [] zero c = refl
take-set [] (suc n) c = refl
take-set (x ∷ s) zero c = refl
take-set (x ∷ s) (suc n) c = ap (λ r. x ∷ r) (take-set s n c)

-- `intstr` leaves a terminated text of decimal digits in the pool that reads back as the number.
pub intstr_lem :
    (pool : List ℕ) (v : ℕ)
    → length pool ≡ 32
    → v < 2 ^ 32
    → (out : List ℕ) × (intstr pool v ≡ done out)
      × (take (digit_count v) out ≡ decimal (digit_count v) v)
      × (number_from 0 (take (digit_count v) out) ≡ v)
      × (get_or out (digit_count v) 0 ≡ 0)
unfolding intstr
intstr_lem pool v l h =
    let n = digit_count v in
    let (fits, least, pos, few) = digit_count_lem v h in
    let (out, run, len, t, o) = int_loop-decimal pool n v (omega arith) in
    let inside : digit_count v < length out = omega arith in
    (
      set out n 0,
      rw run (store-eq-done out n 0 inside),
      take-set out n 0 ∙ t,
      ap (number_from 0) (take-set out n 0 ∙ t) ∙ number_from-decimal n v fits,
      get_or-set_self out n 0 0 inside,
    )
