-- ===== src/Drv/Fat/Names/Convert.antt =====
-- drv/FS/fat.c: FAT_convertFilenameToFATCompat on a name with a dot.
use vireo_kernel.Prelude.{
  ℕ, zero, suc, ◌+◌, ◌-◌, ◌≤◌, ◌<◌, ◌≡◌, inl, inr, refl, arith, sym, ap, ◌∙◌, u8, done, store, List,
  [], ◌∷◌, ◌++◌, length, take, drop, replicate, length-append, length-replicate, append_assoc,
  append_nil, snoc_append, length-snoc, set?_middle, of_option, Option, none, some, take-drop,
  length-take, split,
}
use vireo_kernel.Util.{strlen, memcpy}
use vireo_kernel.Util.Copy.{memcpy_over}
use vireo_kernel.Util.Strings.{IsText, strlen_lem}
use vireo_kernel.Util.Tokens.{strtok}
use vireo_kernel.Util.Tokens.Words.{IsWord, strtok_one, strchr_word}
use vireo_kernel.Drv.Machine.{Machine, fetch, put_bytes}
use vireo_kernel.Drv.Machine.Buffers.{put_over, fetch_all}
use vireo_kernel.Drv.Fat.Names.{
  left_of, path_after, dot, pad, convert_with_dot, fat_convert_filename,
}

pad_over :
    (n : ℕ) (old pre rest : List ℕ)
    → length old ≡ n
    → pad n (pre ++ (old ++ rest)) (length pre) ≡ done (pre ++ (replicate n b' ' ++ rest))
unfolding pad
pad_over zero [] pre rest same = refl
pad_over zero (o ∷ old) pre rest same = absurd (omega arith)
pad_over (suc n) [] pre rest same = absurd (omega arith)
pad_over (suc n) (o ∷ old) pre rest same =
    rw
      (
        set?_middle pre b' ' o (old ++ rest),
        ← length-snoc pre b' ',
        ← snoc_append pre b' ' (old ++ rest),
        ← snoc_append pre b' ' (replicate n b' ' ++ rest),
      )
      (pad_over n old (pre ++ (b' ' ∷ [])) rest (omega arith))

pub IsText-IsWord : (w : List ℕ) → IsWord b'.' w → IsText w
IsText-IsWord [] h = tt
IsText-IsWord (c ∷ w) h = (h.0.0, IsText-IsWord w h.1)

-- The name in the form of a directory entry: eight characters and three, filled up with blanks.
abbrev pub short_name : List ℕ → List ℕ → List ℕ
short_name n e =
    ((take 8 n ++ replicate (8 - length (take 8 n)) b' ') ++ take 3 e)
    ++ replicate (3 - length (take 3 e)) b' '

-- The parts of the buffer of twelve characters.
record Parts (xs : List ℕ) (i j k l : ℕ) : Type 0 where
  p0 : List ℕ
  p1 : List ℕ
  p2 : List ℕ
  p3 : List ℕ
  end : ℕ
  whole : xs ≡ p0 ++ (p1 ++ (p2 ++ (p3 ++ (end ∷ []))))
  l0 : length p0 ≡ i
  l1 : length p1 ≡ j
  l2 : length p2 ≡ k
  l3 : length p3 ≡ l

parts : (xs : List ℕ) (i j k l : ℕ) → length xs ≡ i + (j + (k + (l + 1))) → Parts xs i j k l
parts xs i j k l h =
    let (p0, xs1, e0, l0, h1) = split i (j + (k + (l + 1))) xs h in
    let (p1, xs2, e1, l1, h2) = split j (k + (l + 1)) xs1 h1 in
    let (p2, xs3, e2, l2, h3) = split k (l + 1) xs2 h2 in
    let (p3, xs4, e3, l3, h4) = split l 1 xs3 h3 in
    let (end, e4) = single xs4 h4 in
    record {
      p0 = p0;
      p1 = p1;
      p2 = p2;
      p3 = p3;
      end = end;
      whole =
          e0
          ∙ ap (λ t. p0 ++ t)
              (e1 ∙ ap (λ t. p1 ++ t) (e2 ∙ ap (λ t. p2 ++ t) (e3 ∙ ap (λ t. p3 ++ t) e4)));
      l0 = l0;
      l1 = l1;
      l2 = l2;
      l3 = l3;
    }
  where
    single : (ys : List ℕ) → length ys ≡ 1 → (y : ℕ) × (ys ≡ y ∷ [])
    single [] h = absurd (omega arith)
    single (y ∷ []) h = (y, refl)
    single (y ∷ z ∷ ys) h = absurd (omega arith)

-- The parts are filled one after the other.
module _ (n e : List ℕ) (p0 p1 p2 p3 : List ℕ) (end : ℕ) (l0 : length p0 ≡ length (take 8 n))
    (l1 : length p1 ≡ 8 - length (take 8 n)) (l2 : length p2 ≡ length (take 3 e))
    (l3 : length p3 ≡ 3 - length (take 3 e)) where
  abbrev blanks : ℕ → List ℕ
  blanks k = replicate k b' '

  abbrev base : List ℕ
  base = take 8 n ++ blanks (8 - length (take 8 n))

  short : length (take 8 n) ≤ 8
  short = grind (arith, length-take 8 n)

  short3 : length (take 3 e) ≤ 3
  short3 = grind (arith, length-take 3 e)

  length-base : length base ≡ 8
  length-base = omega (
    arith,
    length-append (take 8 n) (blanks (8 - length (take 8 n))),
    length-replicate {A = ℕ} (8 - length (take 8 n)) b' ',
    short,
  )

  length-ext : length (base ++ take 3 e) ≡ 8 + length (take 3 e)
  length-ext = omega (arith, length-append base (take 3 e), length-base)

  length-short_name : length (short_name n e) ≡ 11
  length-short_name = omega (
    arith,
    length-append (base ++ take 3 e) (blanks (3 - length (take 3 e))),
    length-ext,
    length-replicate {A = ℕ} (3 - length (take 3 e)) b' ',
    short3,
  )

  copy_base :
      (more : List ℕ)
      → memcpy (p0 ++ (p1 ++ (p2 ++ (p3 ++ (end ∷ []))))) (n ++ more) (length (take 8 n))
        ≡ done (take 8 n ++ (p1 ++ (p2 ++ (p3 ++ (end ∷ [])))))
  copy_base more =
      let whole = sym (
        sym (append_assoc (take 8 n) (drop 8 n) more)
        ∙ ap (λ (t : List ℕ). t ++ more) (take-drop 8 n)) in
      rw whole (memcpy_over (take 8 n) p0 (p1 ++ (p2 ++ (p3 ++ (end ∷ [])))) (drop 8 n ++ more) l0)

  pad-base :
      pad
        (8 - length (take 8 n))
        (take 8 n ++ (p1 ++ (p2 ++ (p3 ++ (end ∷ [])))))
        (length (take 8 n))
      ≡ done (base ++ (p2 ++ (p3 ++ (end ∷ []))))
  pad-base =
      pad_over (8 - length (take 8 n)) p1 (take 8 n) (p2 ++ (p3 ++ (end ∷ []))) l1
      ∙ ap done (
          sym (append_assoc (take 8 n) (blanks (8 - length (take 8 n))) (p2 ++ (p3 ++ (end ∷ [])))))

  put_ext :
      put_bytes (base ++ (p2 ++ (p3 ++ (end ∷ [])))) 8 (take 3 e)
      ≡ done ((base ++ take 3 e) ++ (p3 ++ (end ∷ [])))
  put_ext =
      (rw length-base at (put_over (take 3 e) p2 base (p3 ++ (end ∷ [])) l2))
      ∙ ap done (sym (append_assoc base (take 3 e) (p3 ++ (end ∷ []))))

  pad_ext :
      pad (3 - length (take 3 e)) ((base ++ take 3 e) ++ (p3 ++ (end ∷ []))) (8 + length (take 3 e))
      ≡ done (short_name n e ++ (end ∷ []))
  pad_ext =
      rw (← length-ext) (pad_over (3 - length (take 3 e)) p3 (base ++ take 3 e) (end ∷ []) l3)
      ∙ ap done (sym (append_assoc (base ++ take 3 e) (blanks (3 - length (take 3 e))) (end ∷ [])))

  store_end : store (short_name n e ++ (end ∷ [])) 11 0 ≡ done (short_name n e ++ (0 ∷ []))
  store_end =
      let z : 11 ≡ length (short_name n e) = sym length-short_name in
      rw z (ap of_option (set?_middle (short_name n e) 0 end []))

  copy_out :
      (d more : List ℕ)
      → length d ≡ 12
      → memcpy (d ++ more) (short_name n e ++ (0 ∷ [])) 12
        ≡ done ((short_name n e ++ (0 ∷ [])) ++ more)
  copy_out d more long =
      let whole =
        length-append (short_name n e) (0 ∷ []) ∙ ap (λ (k : ℕ). k + 1) length-short_name in
      let over = memcpy_over (short_name n e ++ (0 ∷ [])) d more [] (long ∙ sym whole) in
      rw (append_nil (short_name n e ++ (0 ∷ [])), whole) at over

  -- The buffer behind the two calls of strtok.
  convert_lem :
      {W : Type 0} (m : Machine W) (path d more : List ℕ) (r q : List ℕ)
      (holder h1 h2 : Option (List ℕ))
      → m.stack 12 ≡ p0 ++ (p1 ++ (p2 ++ (p3 ++ (end ∷ []))))
      → length d ≡ 12
      → length n < 256
      → strtok (some path) dot holder ≡ done (some (n ++ r), h1)
      → strtok none dot h1 ≡ done (some (e ++ q), h2)
      → strlen (some (n ++ r)) ≡ done (length n)
      → strlen (some (e ++ q)) ≡ done (length e)
      → convert_with_dot m path (d ++ more) holder
        ≡ done (
          (short_name n e ++ (0 ∷ [])) ++ more,
          path_after path (some (n ++ r)) h1 (some (e ++ q)),
          h2,
        )
  unfolding convert_with_dot
  convert_lem {W} m path d more r q holder h1 h2 stack long byte first second len1 len2 =
      let byte8 : u8 (length n) ≡ length n = omega arith in
      let z8 = sym (length-take 8 n) in
      let z3 = sym (length-take 3 e) in
      let fetched : fetch (e ++ q) 0 (length (take 3 e)) ≡ done (take 3 e) =
        rw
          (sym (
            sym (append_assoc (take 3 e) (drop 3 e) q)
            ∙ ap (λ (t : List ℕ). t ++ q) (take-drop 3 e)))
          (fetch_all (take 3 e) [] (drop 3 e ++ q)) in
      rw (
        first,
        len1,
        byte8,
        z8,
        stack,
        copy_base r,
        pad-base,
        second,
        len2,
        z3,
        fetched,
        put_ext,
        pad_ext,
        store_end,
        copy_out d more long,
      )

IsText-append : (s t : List ℕ) → IsText s → IsText t → IsText (s ++ t)
IsText-append [] t hs ht = ht
IsText-append (c ∷ s) t hs ht = (hs.0, IsText-append s t hs.1 ht)

left_of_same : (s t : List ℕ) → length s ≡ length t → left_of s (some t) ≡ t
left_of_same s t e = let z : length s - length t ≡ 0 = omega arith in rw z

path_after_lem :
    (n e rest : List ℕ)
    → path_after
        (n ++ (b'.' ∷ (e ++ (0 ∷ rest))))
        (some (n ++ (0 ∷ (e ++ (0 ∷ rest)))))
        (some (e ++ (0 ∷ rest)))
        (some (e ++ (0 ∷ rest)))
      ≡ n ++ (0 ∷ (e ++ (0 ∷ rest)))
path_after_lem n e rest =
    let b = e ++ (0 ∷ rest) in
    let whole = length-append n (0 ∷ b) in
    let same : length (n ++ (b'.' ∷ b)) ≡ length (n ++ (0 ∷ b)) =
      length-append n (b'.' ∷ b) ∙ sym (length-append n (0 ∷ b)) in
    let first = left_of_same (n ++ (b'.' ∷ b)) (n ++ (0 ∷ b)) same in
    let second = left_of_same b b refl in
    let front : length (n ++ (0 ∷ b)) - length b ≡ length (n ++ (0 ∷ [])) =
      omega (arith, whole, length-append n (0 ∷ [])) in
    let taken : take (length (n ++ (0 ∷ []))) (n ++ (0 ∷ b)) ≡ n ++ (0 ∷ []) =
      rw (append_assoc n (0 ∷ []) b) at (take_front (n ++ (0 ∷ [])) b) in
    rw (first, second, front, taken) (append_assoc n (0 ∷ []) b)
  where
    take_front : (s t : List ℕ) → take (length s) (s ++ t) ≡ s
    take_front [] t = refl
    take_front (x ∷ s) t = ap (λ (l : List ℕ). x ∷ l) (take_front s t)

-- A name of two nonempty words with one dot between them, the first of fewer than 256 characters,
-- becomes the eleven characters of a directory entry and a terminator: at most eight characters of
-- the first word and three of the second, filled up with blanks. Afterwards the name that was given
-- has a terminator for its dot, and strtok has forgotten the string that its caller was in.
pub fat_convert_filename_lem :
    {W : Type 0} (m : Machine W) (x y : ℕ) (w v rest d more : List ℕ) (holder : Option (List ℕ))
    → length (m.stack 12) ≡ 12
    → length d ≡ 12
    → length (x ∷ w) < 256
    → IsWord b'.' (x ∷ w)
    → IsWord b'.' (y ∷ v)
    → fat_convert_filename m ((x ∷ w) ++ (b'.' ∷ ((y ∷ v) ++ (0 ∷ rest)))) (d ++ more) holder
      ≡ done (
        (short_name (x ∷ w) (y ∷ v) ++ (0 ∷ [])) ++ more,
        (x ∷ w) ++ (0 ∷ ((y ∷ v) ++ (0 ∷ rest))),
        none,
      )
unfolding fat_convert_filename
fat_convert_filename_lem m x y w v rest d more holder room long byte hn he =
    let n = x ∷ w in
    let e = y ∷ v in
    let behind_dot = e ++ (0 ∷ rest) in
    let path = n ++ (b'.' ∷ behind_dot) in
    let text_e = IsText-IsWord e he in
    let text_n = IsText-IsWord n hn in
    let measured : strlen (some path) ≡ done (length (n ++ (b'.' ∷ e))) =
      rw (append_assoc n (b'.' ∷ e) (0 ∷ rest)) at (
        strlen_lem (n ++ (b'.' ∷ e)) rest
          (IsText-append n (b'.' ∷ e) text_n ((omega arith), text_e))) in
    let first =
      strtok_one 0 b'.' b'.' x w behind_dot holder (omega arith) (omega arith) hn (inr refl) in
    let second = strtok_one 0 b'.' 0 y v rest none (omega arith) (omega arith) he (inl refl) in
    let lt8 : length (take 8 n) ≤ 8 = grind (arith, length-take 8 n) in
    let lt3 : length (take 3 e) ≤ 3 = grind (arith, length-take 3 e) in
    let b =
      parts (m.stack 12) (length (take 8 n)) (8 - length (take 8 n)) (length (take 3 e))
        (3 - length (take 3 e)) (omega arith) in
    rw (measured, strchr_word x w behind_dot hn.1, ← path_after_lem n e rest)
      (convert_lem n e b.p0 b.p1 b.p2 b.p3 b.end b.l0 b.l1 b.l2 b.l3 m path d more (0 ∷ behind_dot)
        (0 ∷ rest) holder (some behind_dot) none b.whole long byte first.0 second.1
        (strlen_lem n behind_dot text_n) (strlen_lem e rest text_e))
