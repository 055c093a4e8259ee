-- ===== src/Drv/Fat/Dirs/Search.antt =====
-- drv/FS/fat.c: the search for a name in a directory.
use mathlib.Core.Bool.{false≢true}
use vireo_kernel.Prelude.{
  ℕ, zero, suc, ◌+◌, ◌*◌, ◌≤◌, ◌<◌, ◌≡◌, ◌≢◌, ◌⊎◌, inl, inr, refl, arith, sym, ◌∙◌, ◌==◌, ◌||◌,
  true, false, ltb, Bool-cases, if◌then◌else◌, done, load, List, [], ◌∷◌, ◌++◌, length, get_or,
  take, length-append, append_assoc,
}
use vireo_kernel.Util.{max_u32, strcmp}
use vireo_kernel.Util.Strings.{IsText, terminated, strlen_lem, strcmp_lem}
use vireo_kernel.Drv.Machine.{fetch}
use vireo_kernel.Drv.Fat.Dirs.{entry_size, is_skipped, file_exists_loop, fat_file_exists}

-- A directory entry in use: 32 bytes that start with a name of eleven bytes other than zero.
abbrev pub IsEntry : List ℕ → Type 0
IsEntry e = (length e ≡ 32) × IsText (take 11 e)

abbrev pub AllEntries : List (List ℕ) → Type 0
AllEntries [] = Unit
AllEntries (e ∷ es) = IsEntry e × AllEntries es

-- A directory: the entries in use, and one that starts with a zero byte.
abbrev pub directory : List (List ℕ) → List ℕ → List ℕ
directory [] rest = 0 ∷ rest
directory (e ∷ es) rest = e ++ directory es rest

-- The entry is not skipped and has this name.
abbrev pub HasName : List ℕ → List ℕ → Type 0
HasName e name = (is_skipped (get_or e 0 0) (get_or e 11 0) ≡ false) × (take 11 e ≡ name)

-- `r` is the number of the first entry with the name, where the numbers start at `i`; MAX if there is none.
abbrev pub FirstNamed : List (List ℕ) → List ℕ → ℕ → ℕ → Type 0
FirstNamed [] name i r = r ≡ max_u32
FirstNamed (e ∷ es) name i r =
    (HasName e name × (r ≡ i)) ⊎ (¬ HasName e name × FirstNamed es name (i + 1) r)

load-append : (xs ys : List ℕ) (k : ℕ) → load (xs ++ ys) (length xs + k) ≡ load ys k
load-append [] ys k = let z : 0 + k ≡ k = omega arith in rw z
load-append (x ∷ xs) ys k =
    let z : suc (length xs) + k ≡ suc (length xs + k) = omega arith in rw z (load-append xs ys k)

load-append_left :
    (xs ys : List ℕ) (k : ℕ) → k < length xs → load (xs ++ ys) k ≡ done (get_or xs k 0)
load-append_left [] ys k h = absurd (omega arith)
load-append_left (x ∷ xs) ys zero h = refl
load-append_left (x ∷ xs) ys (suc k) h = load-append_left xs ys k (omega arith)

fetch-append : (n : ℕ) (xs ys : List ℕ) (k : ℕ) → fetch (xs ++ ys) (length xs + k) n ≡ fetch ys k n
unfolding fetch
fetch-append zero xs ys k = refl
fetch-append (suc n) xs ys k =
    let z : length xs + k + 1 ≡ length xs + (k + 1) = omega arith in
    rw (load-append xs ys k, z, fetch-append n xs ys (k + 1))

pub fetch_shift : (n x k : ℕ) (xs : List ℕ) → fetch (x ∷ xs) (suc k) n ≡ fetch xs k n
unfolding fetch
fetch_shift zero x k xs = refl
fetch_shift (suc n) x k xs =
    let z : suc k + 1 ≡ suc (k + 1) = omega arith in rw (z, fetch_shift n x (k + 1) xs)

fetch-take : (n : ℕ) (xs ys : List ℕ) → n ≤ length xs → fetch (xs ++ ys) 0 n ≡ done (take n xs)
unfolding fetch
fetch-take zero xs ys h = refl
fetch-take (suc n) [] ys h = absurd (omega arith)
fetch-take (suc n) (x ∷ xs) ys h =
    rw (fetch_shift n x 0 (xs ++ ys), fetch-take n xs ys (omega arith))

-- The entry at index `i`, behind `pre`.
module _ (pre e more : List ℕ) (i : ℕ) (at : length pre ≡ 32 * i) (is : IsEntry e) where
  load_first : load (pre ++ (e ++ more)) (entry_size * i) ≡ done (get_or e 0 0)
  load_first =
      let z : 32 * i ≡ length pre + 0 = omega arith in
      rw (z, load-append pre (e ++ more) 0) (load-append_left e more 0 (omega (arith, is.0)))

  load_attrib : load (pre ++ (e ++ more)) (entry_size * i + 11) ≡ done (get_or e 11 0)
  load_attrib =
      rw (← at, load-append pre (e ++ more) 11) (load-append_left e more 11 (omega (arith, is.0)))

  fetch_name : fetch (pre ++ (e ++ more)) (entry_size * i) 11 ≡ done (take 11 e)
  fetch_name =
      let z : 32 * i ≡ length pre + 0 = omega arith in
      rw (z, fetch-append 11 pre (e ++ more) 0) (fetch-take 11 e more (omega (arith, is.0)))

first_used : (e : List ℕ) → IsEntry e → get_or e 0 0 ≢ 0
first_used [] (long, text) = absurd (omega arith)
first_used (x ∷ e) (long, text) = text.0

file_exists_skip :
    (left i f a : ℕ) (dir name : List ℕ)
    → f ≢ 0
    → i < max_u32
    → load dir (entry_size * i) ≡ done f
    → load dir (entry_size * i + 11) ≡ done a
    → is_skipped f a ≡ true
    → file_exists_loop (suc left) dir name i ≡ file_exists_loop left dir name (i + 1)
unfolding file_exists_loop
file_exists_skip left i f a dir name used small first attrib skip =
    let go : (f == 0 || i == max_u32) ≡ false = ground arith in rw (first, go, attrib, skip)

file_exists_look :
    (left i f a v : ℕ) (dir name file : List ℕ)
    → f ≢ 0
    → i < max_u32
    → load dir (entry_size * i) ≡ done f
    → load dir (entry_size * i + 11) ≡ done a
    → is_skipped f a ≡ false
    → fetch dir (entry_size * i) 11 ≡ done file
    → strcmp (file ++ (0 ∷ [])) name ≡ done v
    → file_exists_loop (suc left) dir name i
      ≡ (if v == 0 then done i else file_exists_loop left dir name (i + 1))
unfolding file_exists_loop
file_exists_look left i f a v dir name file used small first attrib keep fetched compared =
    let go : (f == 0 || i == max_u32) ≡ false = ground arith in
    rw (first, go, attrib, keep, fetched, compared)

file_exists_over :
    (left i : ℕ) (dir name : List ℕ)
    → load dir (entry_size * i) ≡ done 0
    → file_exists_loop (suc left) dir name i ≡ done max_u32
unfolding file_exists_loop
file_exists_over left i dir name first = rw first

length-pre :
    (pre e : List ℕ) (i : ℕ)
    → length pre ≡ 32 * i
    → length e ≡ 32
    → length (pre ++ e) ≡ 32 * (i + 1)
length-pre pre e i at long = omega (arith, length-append pre e)

module _ (name q rest : List ℕ) (text : IsText name) where
  file_exists_entry :
      (e : List ℕ) (es : List (List ℕ)) (pre : List ℕ) (i left : ℕ)
      → length pre ≡ 32 * i
      → IsEntry e
      → i < max_u32
      → (r : ℕ)
      → file_exists_loop left (pre ++ (e ++ directory es rest)) (terminated name q) (i + 1) ≡ done r
      → FirstNamed es name (i + 1) r
      → (r' : ℕ) × (file_exists_loop
            (suc left)
            (pre ++ (e ++ directory es rest))
            (terminated name q)
            i
          ≡ done r')
        × FirstNamed (e ∷ es) name i r'
  file_exists_entry e es pre i left at is small r run found =
      let dir = pre ++ (e ++ directory es rest) in
      let more = directory es rest in
      let used = first_used e is in
      let first = load_first pre e more i at is in
      let attrib = load_attrib pre e more i at is in
      elim (Bool-cases (is_skipped (get_or e 0 0) (get_or e 11 0))) [
        | inl skip ↦ (
          r,
          file_exists_skip left i (get_or e 0 0) (get_or e 11 0) dir (terminated name q) used small
                first attrib skip
              ∙ run,
          inr (λ has. false≢true (sym has.0 ∙ skip), found),
        )
        | inr keep ↦
            let fetched = fetch_name pre e more i at is in
            elim (strcmp_lem (take 11 e) name [] q is.1 text) [
              | inl (compared, same) ↦ (
                i,
                file_exists_look left i (get_or e 0 0) (get_or e 11 0) 0 dir (terminated name q)
                    (take 11 e) used small first attrib keep fetched compared,
                inl ((keep, same), refl),
              )
              | inr (compared, differ) ↦ (
                r,
                file_exists_look left i (get_or e 0 0) (get_or e 11 0) 1 dir (terminated name q)
                      (take 11 e) used small first attrib keep fetched compared
                    ∙ run,
                inr (λ has. differ has.1, found),
              )
            ]
      ]

  file_exists_loop_lem :
      (es : List (List ℕ)) (pre : List ℕ) (i left : ℕ)
      → length pre ≡ 32 * i
      → AllEntries es
      → length es < left
      → i + length es < max_u32
      → (r : ℕ) × (file_exists_loop left (pre ++ directory es rest) (terminated name q) i ≡ done r)
        × FirstNamed es name i r
  file_exists_loop_lem es pre i zero at all fuel small = absurd (omega arith)
  file_exists_loop_lem [] pre i (suc left) at all fuel small =
      let z : 32 * i ≡ length pre + 0 = omega arith in
      (
        max_u32,
        file_exists_over left i (pre ++ (0 ∷ rest)) (terminated name q)
            (rw z (load-append pre (0 ∷ rest) 0)),
        refl,
      )
  file_exists_loop_lem (e ∷ es) pre i (suc left) at (is, all) fuel small =
      let (r, run, found) =
        file_exists_loop_lem es (pre ++ e) (i + 1) left (length-pre pre e i at is.0) all
          (omega arith) (omega arith) in
      file_exists_entry e es pre i left at is (omega arith) r
        (rw (append_assoc pre e (directory es rest)) at run) found

  length-directory :
      (es : List (List ℕ)) → AllEntries es → length es < length (directory es rest) + 1
  length-directory [] all = omega arith
  length-directory (e ∷ es) (is, all) =
      omega (arith, length-append e (directory es rest), is.0, length-directory es all)

  -- FAT_file_exists of a name of 1 to 11 characters answers with the number of the first entry of that
  -- name, or with MAX if there is none. Deleted entries, long names, volume names and hidden files
  -- are passed over.
  pub fat_file_exists_lem :
      (es : List (List ℕ))
      → AllEntries es
      → 0 < length name
      → length name ≤ 11
      → length es < max_u32
      → (r : ℕ) × (fat_file_exists (directory es rest) (terminated name q) ≡ done r)
        × FirstNamed es name 0 r
  unfolding fat_file_exists
  fat_file_exists_lem es all some_text short small =
      let (r, run, found) =
        file_exists_loop_lem es [] 0 (length (directory es rest) + 1) refl all
          (length-directory es all) (omega arith) in
      let fits : (ltb 11 (length name) || length name == 0) ≡ false = ground arith in
      (r, rw (strlen_lem name q text, fits) run, found)
