-- ===== src/Drv/Fat/Names.antt =====
-- drv/FS/fat.c: names of files and the walk over a path. `holder` is the static variable of strtok,
-- which all of these share.
pub mod Convert
use vireo_kernel.Prelude.{
  ℕ, zero, suc, ◌+◌, ◌-◌, ◌*◌, ◌/◌, ◌%◌, ◌^◌, Bool, not, ◌&&◌, ◌||◌, if◌then◌else◌, ltb, leb, ◌==◌,
  u8, u32, at_most, Run, done, stop, fault, ◌>>=◌, load, store, List, [], ◌∷◌, ◌++◌, drop, take,
  replicate, length, Option, none, some,
}
use vireo_kernel.Util.{max_u32, strlen, strchr, memcpy, find_in_str}
use vireo_kernel.Util.Tokens.{rounds_for, strtok}
use vireo_kernel.Drv.Machine.{Machine, or_low, fetch, put_bytes}
use vireo_kernel.Drv.Fat.Dirs.{filename_len}

abbrev pub dot : List ℕ
dot = b'.' ∷ 0 ∷ []

abbrev pub slash : List ℕ
slash = b'/' ∷ 0 ∷ []

-- `for(i = 0; i < spaces; ++i) filename[at+i] = ' ';`
pub pad : ℕ → List ℕ → ℕ → Run (List ℕ)
pad zero filename at = done filename
pad (suc spaces) filename at = do f ← store filename at b' '; pad spaces f (at + 1)

-- A string of delimiters behind strtok, which has ended each empty word in it.
abbrev pub all_ended : List ℕ → List ℕ
all_ended [] = []
all_ended (c ∷ s) = if c == 0 then c ∷ s else 0 ∷ all_ended s

-- A string behind strtok, from the token that was found in it.
abbrev pub left_of : List ℕ → Option (List ℕ) → List ℕ
left_of s none = all_ended s
left_of s (some t) = replicate (length s - length t) 0 ++ t

-- A string behind two calls of strtok, from the first token, the holder between the calls, which is the
-- end of the string, and the second token.
abbrev pub path_after : List ℕ → Option (List ℕ) → Option (List ℕ) → Option (List ℕ) → List ℕ
path_after path first none second = left_of path first
path_after path first (some h) second =
    let p = left_of path first in take (length p - length h) p ++ left_of h second

module _ {W : Type 0} (m : Machine W) where
  -- The name that stands in `dummy` after it, the path, into which strtok writes, and the new holder.
  pub convert_with_dot : List ℕ → List ℕ → Option (List ℕ) → Run (List ℕ × List ℕ × Option (List ℕ))
  convert_with_dot path dummy holder = do
    name ← strtok (some path) dot holder
    n ← strlen name.0
    let len = at_most (filename_len - 3) (u8 n)
    f0 ← memcpy (m.stack 12) (or_low m.low name.0) len
    f1 ← pad (8 - len) f0 len
    ext ← strtok none dot name.1
    k ← strlen ext.0
    let len3 = at_most 3 k
    bytes ← fetch (or_low m.low ext.0) 0 len3
    f2 ← put_bytes f1 8 bytes
    f3 ← pad (3 - len3) f2 (8 + len3)
    f4 ← store f3 11 0
    d ← memcpy dummy f4 12
    done (d, path_after path name.0 name.1 ext.0, ext.1)

  -- strchr answers 0 when it has found the character.
  unfoldable pub fat_convert_filename :
      List ℕ → List ℕ → Option (List ℕ) → Run (List ℕ × List ℕ × Option (List ℕ))
  fat_convert_filename path dummy holder = do
    len ← strlen (some path)
    missing ← strchr path b'.'
    let convert = convert_with_dot path dummy holder
    if not (missing == 0)
        then (memcpy dummy path filename_len >>= λ d. done (d, path, holder))
        else convert

  -- The loop of `path_find_last`: the last token, its length, and the holder.
  pub last_token : ℕ → List ℕ → ℕ → Option (List ℕ) → Run (List ℕ × (ℕ × Option (List ℕ)))
  last_token zero prev size holder = stop
  last_token (suc left) prev size holder = do
    t ← strtok none slash holder
    elim (t.0) [
      | none ↦ done (prev, (size, t.1))
      | some current ↦ do
        n ← strlen (some current)
        prev' ← memcpy prev current n
        last_token left prev' n t.1
    ]

  -- The index of the last part of a path.
  pub path_find_last : List ℕ → Option (List ℕ) → Run (ℕ × Option (List ℕ))
  path_find_last str holder = do
    len ← strlen (some str)
    s ← memcpy (m.fresh (len + 1)) str len
    t ← strtok (some s) slash holder
    r ← last_token (rounds_for t.1) (m.stack 12) 0 t.1
    prev ← store r.0 r.1.0 0
    i ← find_in_str str prev
    done (i, r.1.1)

  pub fat_get_file_name : List ℕ → List ℕ → Option (List ℕ) → Run (List ℕ × Option (List ℕ))
  fat_get_file_name path output holder = do
    r ← path_find_last path holder
    c ← load path r.0
    let last = drop r.0 path
    n ← strlen (some last)
    filename ← memcpy (m.fresh 12) last n
    f ← fat_convert_filename filename output r.1
    done (f.0, f.2)
