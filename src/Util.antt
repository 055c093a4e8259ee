-- ===== src/Util.antt =====
-- util/util.c: strings and memory. A `char *` is the list of the bytes from the pointer to the end
-- of its object; a read or write past that end is a fault.
pub mod Strings
pub mod Find
pub mod FindChar
pub mod Edit
pub mod Tokens
pub mod Copy
pub mod Sleep
pub mod Digits
mod Tests
use vireo_kernel.Prelude.{
  ℕ, zero, suc, ◌+◌, ◌-◌, ◌%◌, ◌^◌, Bool, true, false, not, ◌&&◌, ◌||◌, Option, none, some, List,
  [], ◌∷◌, if◌then◌else◌, ltb, leb, ◌==◌, get_or, u8, u32, bit_and, Run, done, fault, load, store,
  ◌>>=◌,
}

abbrev pub exit_code_global_success : ℕ
exit_code_global_success = 0x00

abbrev pub exit_code_global_general_fail : ℕ
exit_code_global_general_fail = 0x01

abbrev pub exit_code_global_unsupported : ℕ
exit_code_global_unsupported = 0x0a

-- `MAX` of include/types.h
abbrev pub max_u32 : ℕ
max_u32 = 0xffffffff

-- The loop of `strlen` at character `i`.
unfoldable pub strlen_from : List ℕ → ℕ → Run ℕ
strlen_from [] i = fault
strlen_from (c ∷ s) i = let rest = strlen_from s (i + 1) in if c == 0 then done i else rest

-- `none` is the NULL pointer.
unfoldable pub strlen : Option (List ℕ) → Run ℕ
unfolding strlen_from
strlen none = done 0
strlen (some s) = strlen_from s 0

-- The loop of `strcmp`: whether no pair of characters differs before one of the strings ends.
pub strcmp_loop : List ℕ → List ℕ → Run Bool
strcmp_loop [] t = fault
strcmp_loop (c ∷ s) [] = if c == 0 then done true else fault
strcmp_loop (c ∷ s) (d ∷ t) =
    let rest = strcmp_loop s t in
    if c == 0 || d == 0 then done true else if c == d then rest else done false

unfoldable pub strcmp : List ℕ → List ℕ → Run ℕ
unfolding strlen strcmp_loop
strcmp str1 str2 = do
  len1 ← strlen (some str1)
  len2 ← strlen (some str2)
  if not (len1 == len2) then done exit_code_global_general_fail else do
    same ← strcmp_loop str1 str2
    done (if same then exit_code_global_success else exit_code_global_general_fail)

-- The loop of `strcmp_until` with `left` comparisons to go. Both characters are read before the
-- count is looked at.
unfoldable pub strcmp_until_loop : List ℕ → List ℕ → ℕ → Run Bool
strcmp_until_loop [] t left = fault
strcmp_until_loop (c ∷ s) [] left = if c == 0 then done true else fault
strcmp_until_loop (c ∷ s) (d ∷ t) zero = done true
strcmp_until_loop (c ∷ s) (d ∷ t) (suc left) =
    let rest = strcmp_until_loop s t left in
    if c == 0 || d == 0 then done true else if c == d then rest else done false

unfoldable pub strcmp_until : List ℕ → List ℕ → ℕ → Run ℕ
unfolding strcmp_until_loop
strcmp_until str1 str2 stop = do
  same ← strcmp_until_loop str1 str2 stop
  c ← load str1 0
  d ← load str2 0
  done
      (if not same || not (c == d) then exit_code_global_general_fail else exit_code_global_success)

-- The loop of `find_in_str` at character `i` with `c` characters matched. The list is `o` from
-- `i` on, and `left` is `olen - i`.
pub find_loop : List ℕ → ℕ → List ℕ → ℕ → ℕ → ℕ → Run ℕ
find_loop fnd len o zero i c = done max_u32
find_loop fnd len [] (suc left) i c = fault
find_loop fnd len (x ∷ o) (suc left) i c = do
  y ← load fnd c
  let c' = if x == y then c + 1 else 0
  let rest = find_loop fnd len o left (i + 1) c'
  if c' == len then done (u32 (i + 2 ^ 32 - len + 1)) else rest

unfoldable pub find_in_str : List ℕ → List ℕ → Run ℕ
unfolding strlen
find_in_str o fnd = do
  len ← strlen (some fnd)
  olen ← strlen (some o)
  find_loop fnd len o (olen + 1) 0 0

-- The loop of `strchr` from the character after the current one on.
pub strchr_from : List ℕ → ℕ → Run ℕ
strchr_from [] ch = fault
strchr_from (c ∷ s) ch =
    let rest = strchr_from s ch in
    if c == 0
    then done exit_code_global_general_fail
    else if c == ch
    then done exit_code_global_success
    else rest

-- `++i` comes before the first read.
unfoldable pub strchr : List ℕ → ℕ → Run ℕ
unfolding strchr_from
strchr [] ch = fault
strchr (c ∷ s) ch = strchr_from s ch

-- The loop of `replace_in_str` over the `max` characters of the string.
pub replace_loop : List ℕ → ℕ → ℕ → ℕ → List ℕ
replace_loop p zero c repl = p
replace_loop [] (suc left) c repl = []
replace_loop (x ∷ p) (suc left) c repl = (if x == c then repl else x) ∷ replace_loop p left c repl

pub replace_in_str : List ℕ → ℕ → ℕ → Run (List ℕ)
unfolding strlen replace_loop
replace_in_str p c repl = do max ← strlen (some p); done (replace_loop p max c repl)

-- The loop of `remove_from_str`: `left` moves of a character from `s` to `i`.
pub remove_loop : List ℕ → ℕ → ℕ → ℕ → Run (List ℕ)
remove_loop p zero i s = done p
remove_loop p (suc left) i s = do
  x ← load p s
  p' ← store p i x
  remove_loop p' left (i + 1) (s + 1)

pub remove_from_str : List ℕ → ℕ → Run (List ℕ)
unfolding strlen remove_loop
remove_from_str p n = do
  max ← strlen (some p)
  p' ← remove_loop p (max - n) 0 n
  store p' (u32 (max + 2 ^ 32 - n)) 0

-- `memset` counts down.
pub memset : List ℕ → ℕ → ℕ → Run (List ℕ)
memset p zero val = done p
memset p (suc size) val = do p' ← store p size val; memset p' size val

-- The loop of `memcpy` from index `i` on, between objects that do not overlap.
pub memcpy_from : List ℕ → List ℕ → ℕ → ℕ → Run (List ℕ)
memcpy_from destination source zero i = done destination
memcpy_from destination source (suc left) i = do
  x ← load source i
  d ← store destination i x
  memcpy_from d source left (i + 1)

unfoldable pub memcpy : List ℕ → List ℕ → ℕ → Run (List ℕ)
unfolding memcpy_from
memcpy destination source size = memcpy_from destination source size 0

-- A copy of a string, if kmalloc gives a block.
pub create_backup_str : (ℕ → Option (List ℕ)) → List ℕ → Run (Option (List ℕ))
unfolding strlen memcpy
create_backup_str kmalloc str = do
  len ← strlen (some str)
  elim (kmalloc (len + 1)) [
    | none ↦ done none
    | some backup ↦ (memcpy backup str (len + 1) >>= λ copy. done (some copy))
  ]

unfoldable pub strdigit_to_int : ℕ → ℕ
strdigit_to_int digit =
    if ltb digit b'0' || ltb b'9' digit then exit_code_global_unsupported else u8 (digit - b'0')

unfoldable pub flag_check : ℕ → ℕ → ℕ
flag_check flag to_check =
    if bit_and flag to_check == to_check
    then exit_code_global_success
    else exit_code_global_general_fail
