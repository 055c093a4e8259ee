-- ===== src/Util/Tokens/Delims.antt =====
-- util/util.c: which token strtok finds, for any string of delimiters.
use vireo_kernel.Prelude.{
  ℕ, zero, suc, ◌+◌, ◌<◌, ◌≡◌, ◌≢◌, refl, ◌∙◌, arith, true, false, inl, inr, if◌then◌else◌, ◌==◌,
  u8, List, [], ◌∷◌, ◌++◌, drop, length, get_or, set, get_or-set_self, get_or-set_ne, length-append,
  length-set, get_or-replicate, ◌⊎◌, load_middle, set?_middle, Option, none, some, Run, done, load,
  load-eq-done, store-eq-done, ℕ_discrete,
}
use vireo_kernel.Util.Tokens.{
  empty_map, mark_map, span_from, strxspn, strpbrk, cut_at, strsep, is_empty, strtok_loop,
  rounds_for, strtok,
}

-- 1 for a character of the string of delimiters, and 0 for another.
abbrev pub is_delim : List ℕ → ℕ → ℕ
is_delim [] c = 0
is_delim (d ∷ ds) c = if d == c then 1 else is_delim ds c

abbrev pub AreBytes : List ℕ → Type 0
AreBytes [] = Unit
AreBytes (d ∷ ds) = ((d ≢ 0) × (d < 256)) × AreBytes ds

-- Characters of a word, and delimiters only.
abbrev pub IsToken : List ℕ → List ℕ → Type 0
IsToken ds [] = Unit
IsToken ds (c ∷ w) = ((c ≢ 0) × (is_delim ds c ≡ 0) × (c < 256)) × IsToken ds w

abbrev pub AreDelims : List ℕ → List ℕ → Type 0
AreDelims ds [] = Unit
AreDelims ds (c ∷ w) = ((c ≢ 0) × (is_delim ds c ≡ 1) × (c < 256)) × AreDelims ds w

abbrev marks : List ℕ → List ℕ → List ℕ
marks [] map = map
marks (d ∷ ds) map = marks ds (set map d 1)

length-marks : (ds map : List ℕ) → length (marks ds map) ≡ length map
length-marks [] map = refl
length-marks (d ∷ ds) map = length-marks ds (set map d 1) ∙ length-set map d 1

mark_map_lem :
    (ds map : List ℕ)
    → AreBytes ds
    → length map ≡ 256
    → mark_map (ds ++ (0 ∷ [])) map ≡ done (marks ds map)
unfolding mark_map
mark_map_lem [] map all size = refl
mark_map_lem (d ∷ ds) map ((nz, byte), all) size =
    let small : u8 d ≡ d = omega arith in
    let some_char : (d == 0) ≡ false = ground arith in
    rw (some_char, small, store-eq-done map d 1 (omega arith))
      (mark_map_lem ds (set map d 1) all (length-set map d 1 ∙ size))

get_or-marks :
    (ds map : List ℕ) (c : ℕ)
    → AreBytes ds
    → length map ≡ 256
    → get_or (marks ds map) c 0 ≡ (if is_delim ds c == 1 then 1 else get_or map c 0)
get_or-marks [] map c all size = refl
get_or-marks (d ∷ ds) map c ((nz, byte), all) size =
    let rest = get_or-marks ds (set map d 1) c all (length-set map d 1 ∙ size) in
    elim (ℕ_discrete d c) [
      | yes same ↦
          let here : get_or (set map d 1) c 0 ≡ 1 =
            rw (← same) (get_or-set_self map d 1 0 (omega arith)) in
          let is : (d == c) ≡ true = ground arith in rw (is, rest, here) (if_same (is_delim ds c))
      | no differ ↦
          let keep : get_or (set map d 1) c 0 ≡ get_or map c 0 = get_or-set_ne map d c 1 0 differ in
          let is : (d == c) ≡ false = ground arith in rw (is, rest, keep)
    ]
  where
    if_same : (n : ℕ) → (if n == 1 then suc zero else suc zero) ≡ suc zero
    if_same n = ground arith

is_delim-bit : (ds : List ℕ) (c : ℕ) → (is_delim ds c ≡ 0) ⊎ (is_delim ds c ≡ 1)
is_delim-bit [] c = inl refl
is_delim-bit (d ∷ ds) c = elim (ℕ_discrete d c) [
  | yes same ↦ let is : (d == c) ≡ true = ground arith in inr (rw is)
  | no differ ↦ let is : (d == c) ≡ false = ground arith in rw is (is_delim-bit ds c)
]

length-empty_map : length empty_map ≡ 256
unfolding empty_map
length-empty_map = refl

get_or-empty_map : (i : ℕ) → i < 256 → get_or empty_map i 0 ≡ 0
unfolding empty_map
get_or-empty_map i h = get_or-replicate {A = ℕ} 256 0 0 i h

abbrev map_for : List ℕ → List ℕ
map_for ds = set (marks ds empty_map) 0 1

length-map_for : (ds : List ℕ) → length (map_for ds) ≡ 256
length-map_for ds =
    length-set (marks ds empty_map) 0 1 ∙ length-marks ds empty_map ∙ length-empty_map

-- The terminator and the delimiters are marked.
load_map :
    (ds : List ℕ) (c : ℕ)
    → AreBytes ds
    → c < 256
    → load (map_for ds) (u8 c) ≡ done (if c == 0 then 1 else is_delim ds c)
load_map ds c all byte =
    let small : u8 c ≡ c = omega arith in
    let found = load-eq-done (map_for ds) c 0 (omega (arith, length-map_for ds)) in
    elim (ℕ_discrete 0 c) [
      | yes z ↦
          let here : get_or (map_for ds) c 0 ≡ 1 = rw (← z) (
            get_or-set_self (marks ds empty_map) 0 1 0
              (omega (arith, length-marks ds empty_map, length-empty_map))) in
          let is : (c == 0) ≡ true = ground arith in rw (small, found, here, is)
      | no nz ↦
          let keep = get_or-set_ne (marks ds empty_map) 0 c 1 0 nz in
          let is : (c == 0) ≡ false = ground arith in
          rw
            (
              small,
              found,
              keep,
              is,
              get_or-marks ds empty_map c all length-empty_map,
              get_or-empty_map c byte,
            )
            (elim (is_delim-bit ds c) [ inl e ↦ rw e refl | inr e ↦ rw e refl ])
    ]

strxspn_start :
    (s ds : List ℕ) → AreBytes ds → strxspn s (ds ++ (0 ∷ [])) 1 ≡ span_from (map_for ds) s 1 0
unfolding strxspn
strxspn_start s ds all = rw (
  mark_map_lem ds empty_map all length-empty_map,
  store-eq-done (marks ds empty_map) 0 1
      (omega (arith, length-marks ds empty_map, length-empty_map)),
)

-- What ends a word: the terminator or a delimiter.
abbrev pub IsEnd : List ℕ → ℕ → Type 0
IsEnd ds e = (e ≡ 0) ⊎ ((e ≢ 0) × (is_delim ds e ≡ 1) × (e < 256))

span_from-stop :
    (ds s : List ℕ) (e n : ℕ)
    → AreBytes ds
    → IsEnd ds e
    → span_from (map_for ds) (e ∷ s) 1 n ≡ done n
unfolding span_from
span_from-stop ds s e n all (inl z) = rw (z, load_map ds 0 all (omega arith))
span_from-stop ds s e n all (inr (nz, marked, byte)) =
    let is : (e == 0) ≡ false = ground arith in rw (load_map ds e all byte, is, marked)

span_from_token :
    (ds w s : List ℕ) (e n : ℕ)
    → AreBytes ds
    → IsToken ds w
    → IsEnd ds e
    → span_from (map_for ds) (w ++ (e ∷ s)) 1 n ≡ done (n + length w)
unfolding span_from
span_from_token ds [] s e n all hw end =
    let z : n + 0 ≡ n = omega arith in rw z (span_from-stop ds s e n all end)
span_from_token ds (c ∷ w) s e n all ((nz, not_delim, byte), hw) end =
    let is : (c == 0) ≡ false = ground arith in
    let z : n + suc (length w) ≡ n + 1 + length w = omega arith in
    rw (load_map ds c all byte, is, not_delim, z) (span_from_token ds w s e (n + 1) all hw end)

drop_past : (w : List ℕ) (c : ℕ) (rest : List ℕ) → drop (length w + 1) (w ++ (c ∷ rest)) ≡ rest
drop_past [] c rest = refl
drop_past (x ∷ w) c rest =
    let z : suc (length w) + 1 ≡ suc (length w + 1) = omega arith in rw z (drop_past w c rest)

cut_at_word :
    (d : ℕ) (w rest : List ℕ)
    → cut_at (w ++ (d ∷ rest)) (some (length w)) ≡ done (some (w ++ (0 ∷ rest)), some rest)
unfolding cut_at
cut_at_word d w rest = rw (set?_middle w 0 d rest, drop_past w d rest)

-- The holder behind a token that ends at `e`.
abbrev pub behind : ℕ → List ℕ → Option (List ℕ)
behind e rest = if e == 0 then none else some rest

-- strsep takes the word off, with a delimiter or the terminator behind it.
strsep_token :
    (ds w rest : List ℕ) (e : ℕ)
    → AreBytes ds
    → IsToken ds w
    → IsEnd ds e
    → strsep (some (w ++ (e ∷ rest))) (ds ++ (0 ∷ []))
      ≡ done (some (w ++ (0 ∷ rest)), behind e rest)
unfolding strsep strpbrk
strsep_token ds w rest e all hw (inl z) =
    let spanned = span_from_token ds w rest 0 0 all hw (inl refl) in
    let n : 0 + length w ≡ length w = omega arith in
    rw (z, strxspn_start (w ++ (0 ∷ rest)) ds all, spanned, n, load_middle w 0 rest)
strsep_token ds w rest e all hw (inr (nz, marked, byte)) =
    let spanned = span_from_token ds w rest e 0 all hw (inr (nz, marked, byte)) in
    let z : 0 + length w ≡ length w = omega arith in
    let is : (e == 0) ≡ false = ground arith in
    rw (strxspn_start (w ++ (e ∷ rest)) ds all, spanned, z, load_middle w e rest, is)
      (cut_at_word e w rest)

strtok_loop-step :
    (left : ℕ) (holder h : Option (List ℕ)) (t delim : List ℕ) (c : ℕ)
    → strsep holder delim ≡ done (some (c ∷ t), h)
    → strtok_loop (suc left) holder delim
      ≡ (if c == 0 then strtok_loop left h delim else done (some (c ∷ t), h))
unfolding strtok_loop is_empty
strtok_loop-step left holder h t delim c e = rw e

strtok_none : (delim : List ℕ) → strtok_loop 1 none delim ≡ done (none, none)
unfolding strtok_loop strsep is_empty
strtok_none delim = refl

strtok_loop_token :
    (left : ℕ) (ds ks w rest : List ℕ) (e x : ℕ)
    → length ks < left
    → AreBytes ds
    → AreDelims ds ks
    → IsToken ds (x ∷ w)
    → IsEnd ds e
    → strtok_loop left (some (ks ++ ((x ∷ w) ++ (e ∷ rest)))) (ds ++ (0 ∷ []))
      ≡ done (some ((x ∷ w) ++ (0 ∷ rest)), behind e rest)
strtok_loop_token zero ds ks w rest e x h all hk hw end = absurd (omega arith)
strtok_loop_token (suc left) ds [] w rest e x h all hw' hw end =
    let nonzero : (x == 0) ≡ false = ground (arith, hw.0.0) in
    rw (
      strtok_loop-step left (some ((x ∷ w) ++ (e ∷ rest))) (behind e rest) (w ++ (0 ∷ rest))
          (ds ++ (0 ∷ [])) x (strsep_token ds (x ∷ w) rest e all hw end),
      nonzero,
    )
strtok_loop_token (suc left) ds (k ∷ ks) w rest e x h all ((nz, marked, byte), hk) hw end =
    let tail = ks ++ ((x ∷ w) ++ (e ∷ rest)) in
    let is : (k == 0) ≡ false = ground arith in
    let off : strsep (some (k ∷ tail)) (ds ++ (0 ∷ [])) ≡ done (some (0 ∷ tail), some tail) =
      rw is at (strsep_token ds [] tail k all tt (inr (nz, marked, byte))) in
    rw (strtok_loop-step left (some (k ∷ tail)) (some tail) tail (ds ++ (0 ∷ [])) 0 off)
      (strtok_loop_token left ds ks w rest e x (omega arith) all hk hw end)

pub strtok_lem :
    (ds ks w rest : List ℕ) (e x : ℕ) (old : Option (List ℕ))
    → AreBytes ds
    → AreDelims ds ks
    → IsToken ds (x ∷ w)
    → IsEnd ds e
    → let s = ks ++ ((x ∷ w) ++ (e ∷ rest)) in
      let found : Run (Option (List ℕ) × Option (List ℕ)) =
        done (some ((x ∷ w) ++ (0 ∷ rest)), behind e rest) in
      (strtok (some s) (ds ++ (0 ∷ [])) old ≡ found)
      × (strtok none (ds ++ (0 ∷ [])) (some s) ≡ found)
      × (strtok none (ds ++ (0 ∷ [])) none ≡ done (none, none))
unfolding strtok
strtok_lem ds ks w rest e x old all hk hw end =
    let run =
      strtok_loop_token (rounds_for (some (ks ++ ((x ∷ w) ++ (e ∷ rest))))) ds ks w rest e x
        (omega (arith, length-append ks ((x ∷ w) ++ (e ∷ rest)))) all hk hw end in
    (run, run, strtok_none (ds ++ (0 ∷ [])))
