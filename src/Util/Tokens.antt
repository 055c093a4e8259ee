-- ===== src/Util/Tokens.antt =====
-- util/util.c: strtok and what it stands on. A pointer into a buffer is the buffer from there on.
-- The token that strtok returns is read behind its terminator only before the next call, which
-- writes there; so the token and the static `holder` may be two lists.
pub mod Delims
pub mod Words
use vireo_kernel.Prelude.{
  ℕ, zero, suc, ◌+◌, Bool, true, false, if◌then◌else◌, ◌==◌, u8, bit_xor, List, [], ◌∷◌, drop,
  replicate, length, Option, none, some, Run, done, stop, fault, load, store, ◌>>=◌,
}

-- The bitmap of the characters of `map`: `while (*map) matchmap[(unsigned char)*map++] = 1;`
unfoldable pub mark_map : List ℕ → List ℕ → Run (List ℕ)
mark_map [] matchmap = fault
mark_map (c ∷ map) matchmap =
    let rest = λ (m : List ℕ). mark_map map m in
    if c == 0 then done matchmap else (store matchmap (u8 c) 1 >>= rest)

-- `while (matchmap[(unsigned char)*s++] ^ parity) n++;`
unfoldable pub span_from : List ℕ → List ℕ → ℕ → ℕ → Run ℕ
span_from matchmap [] parity n = fault
span_from matchmap (c ∷ s) parity n = do
  m ← load matchmap (u8 c)
  let rest = span_from matchmap s parity (n + 1)
  if bit_xor m parity == 0 then done n else rest

-- `char matchmap[UCHAR_MAX + 1]`, cleared
unfoldable pub empty_map : List ℕ
empty_map = replicate 256 0

unfoldable pub strxspn : List ℕ → List ℕ → ℕ → Run ℕ
strxspn s map parity = do
  marked ← mark_map map empty_map
  matchmap ← store marked 0 parity
  span_from matchmap s parity 0

-- The index of the character that is found; `none` is NULL.
unfoldable pub strpbrk : List ℕ → List ℕ → Run (Option ℕ)
strpbrk s accept = do n ← strxspn s accept 1; c ← load s n; done (if c == 0 then none else some n)

-- The token and the new `*stringp`.
unfoldable pub cut_at : List ℕ → Option ℕ → Run (Option (List ℕ) × Option (List ℕ))
cut_at s none = done (some s, none)
cut_at s (some n) = do token ← store s n 0; done (some token, some (drop (n + 1) s))

unfoldable pub strsep : Option (List ℕ) → List ℕ → Run (Option (List ℕ) × Option (List ℕ))
unfolding cut_at
strsep none delim = done (none, none)
strsep (some s) delim = do e ← strpbrk s delim; cut_at s e

-- `s && !*s`
unfoldable pub is_empty : Option (List ℕ) → Run Bool
is_empty none = done false
is_empty (some s) = do c ← load s 0; done (c == 0)

-- The loop of `strtok`, for `left` rounds at most: the token and the new `holder`.
unfoldable pub strtok_loop : ℕ → Option (List ℕ) → List ℕ → Run (Option (List ℕ) × Option (List ℕ))
strtok_loop zero holder delim = stop
strtok_loop (suc left) holder delim = do
  r ← strsep holder delim
  again ← is_empty r.0
  let rest = strtok_loop left r.1 delim
  if again then rest else done r

-- The rounds: each but the last takes a character off.
abbrev pub rounds_for : Option (List ℕ) → ℕ
rounds_for none = 1
rounds_for (some s) = length s + 2

abbrev pub or_holder : Option (List ℕ) → Option (List ℕ) → Option (List ℕ)
or_holder none holder = holder
or_holder (some s) holder = some s

-- `strtok(s, delim)` with the holder that the last call left.
unfoldable pub strtok :
    Option (List ℕ) → List ℕ → Option (List ℕ) → Run (Option (List ℕ) × Option (List ℕ))
strtok s delim holder = strtok_loop (rounds_for (or_holder s holder)) (or_holder s holder) delim
