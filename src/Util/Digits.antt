-- ===== src/Util/Digits.antt =====
-- util/util.c: numbers as text, in the pool of 32 characters that all calls share.
pub mod Print
use vireo_kernel.Prelude.{
  ℕ, zero, suc, ◌+◌, ◌-◌, ◌*◌, ◌/◌, ◌%◌, ◌^◌, Bool, true, false, ◌&&◌, ◌||◌, List, [], ◌∷◌,
  if◌then◌else◌, ltb, leb, ◌==◌, get_or, replicate, u8, bit_and, ◌>>>◌, Run, done, load, store,
  ◌>>=◌,
}

abbrev pub util_pool_size : ℕ
util_pool_size = 32

abbrev pub within : ℕ → ℕ → ℕ → Bool
within lo hi value = leb lo value && leb value hi

unfoldable pub digit_count : ℕ → ℕ
digit_count value =
    if within 10 99 value
    then 2
    else if within 100 999 value
    then 3
    else if within 1000 9999 value
    then 4
    else if within 10000 99999 value
    then 5
    else if within 100000 999999 value
    then 6
    else if within 1000000 9999999 value
    then 7
    else if within 10000000 99999999 value
    then 8
    else if within 100000000 999999999 value
    then 9
    else if leb 1000000000 value
    then 10
    else 1

unfoldable pub hex_digit_count : ℕ → ℕ
hex_digit_count value =
    if within 0x100 0xfff value
    then 3
    else if within 0x1000 0xffff value
    then 4
    else if within 0x10000 0xfffff value
    then 5
    else if within 0x100000 0xffffff value
    then 6
    else if within 0x1000000 0xfffffff value
    then 7
    else if within 0x10000000 0xffffffff value
    then 8
    else 2

-- The loop of `intstr`, with the characters below index `i` to write.
pub int_loop : List ℕ → ℕ → ℕ → Run (List ℕ)
int_loop pool zero value = done pool
int_loop pool (suc i) value = do
  pool' ← store pool i (value % 10 + b'0')
  int_loop pool' i (value / 10)

-- The pool with the text in it.
unfoldable pub intstr : List ℕ → ℕ → Run (List ℕ)
unfolding digit_count int_loop
intstr pool value = do
  pool' ← int_loop pool (digit_count value) value
  store pool' (digit_count value) 0

-- `hexDig`, with its terminator
abbrev pub hex_dig : List ℕ
hex_dig =
    b'0' ∷ b'1' ∷ b'2' ∷ b'3' ∷ b'4' ∷ b'5' ∷ b'6' ∷ b'7' ∷ b'8' ∷ b'9' ∷ b'A' ∷ b'B' ∷ b'C' ∷ b'D'
    ∷ b'E' ∷ b'F' ∷ 0 ∷ []

-- The loop of `hexstr`, with the characters below index `i` to write.
pub hex_loop : List ℕ → ℕ → ℕ → Run (List ℕ)
hex_loop pool zero tempval = done pool
hex_loop pool (suc i) tempval = do
  c ← load hex_dig (u8 (bit_and tempval 0xf))
  pool' ← store pool i c
  hex_loop pool' i (tempval >>> 4)

-- `digit_amount` 0, or below the number of digits, stands for that number.
unfoldable pub hex_digits : ℕ → ℕ → ℕ
unfolding hex_digit_count
hex_digits value digit_amount =
    if digit_amount == 0 || ltb digit_amount (hex_digit_count value)
    then hex_digit_count value
    else digit_amount

-- The loop index is an `int8_t`: with more than 128 digits it starts below 0.
unfoldable pub hexstr : List ℕ → ℕ → ℕ → Run (List ℕ)
unfolding hex_digits hex_loop
hexstr pool value digit_amount =
    let digits = hex_digits value digit_amount in
    do pool' ← hex_loop pool (if leb digits 128 then digits else 0) value; store pool' digits 0
