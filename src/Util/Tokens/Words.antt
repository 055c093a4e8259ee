-- ===== src/Util/Tokens/Words.antt =====
-- util/util.c: words between delimiters of one character.
use vireo_kernel.Prelude.{
  ℕ, zero, suc, ◌<◌, ◌≡◌, ◌≢◌, refl, arith, true, false, inl, inr, ◌==◌, List, [], ◌∷◌, ◌++◌,
  replicate, ◌⊎◌, Option, none, some, Run, done,
}
use vireo_kernel.Util.{strchr_from, strchr}
use vireo_kernel.Util.Tokens.{strtok}
use vireo_kernel.Util.Tokens.Delims.{behind, AreDelims, IsToken, IsEnd, strtok_lem}

-- The delimiter string of one character.
abbrev pub delim_of : ℕ → List ℕ
delim_of d = d ∷ 0 ∷ []

-- A word: its characters are bytes, no terminator and no delimiter.
abbrev pub IsWord : ℕ → List ℕ → Type 0
IsWord d [] = Unit
IsWord d (c ∷ w) = ((c ≢ 0) × (c ≢ d) × (c < 256)) × IsWord d w

IsToken-IsWord : (d : ℕ) (w : List ℕ) → IsWord d w → IsToken (d ∷ []) w
IsToken-IsWord d [] h = tt
IsToken-IsWord d (c ∷ w) ((nz, nd, byte), h) =
    let is : (d == c) ≡ false = ground arith in ((nz, rw is, byte), IsToken-IsWord d w h)

AreDelims-replicate : (k d : ℕ) → d ≢ 0 → d < 256 → AreDelims (d ∷ []) (replicate k d)
AreDelims-replicate zero d nz byte = tt
AreDelims-replicate (suc k) d nz byte =
    let is : (d == d) ≡ true = ground arith in ((nz, rw is, byte), AreDelims-replicate k d nz byte)

IsEnd-one : (d e : ℕ) → d ≢ 0 → d < 256 → (e ≡ 0) ⊎ (e ≡ d) → IsEnd (d ∷ []) e
IsEnd-one d e nz byte (inl z) = inl z
IsEnd-one d e nz byte (inr same) =
    let is : (d == e) ≡ true = ground arith in inr (ground arith, rw is, omega arith)

-- strtok with one delimiter.
pub strtok_one :
    (k d e x : ℕ) (w rest : List ℕ) (old : Option (List ℕ))
    → d ≢ 0
    → d < 256
    → IsWord d (x ∷ w)
    → (e ≡ 0) ⊎ (e ≡ d)
    → let s = replicate k d ++ ((x ∷ w) ++ (e ∷ rest)) in
      let found : Run (Option (List ℕ) × Option (List ℕ)) =
        done (some ((x ∷ w) ++ (0 ∷ rest)), behind e rest) in
      (strtok (some s) (delim_of d) old ≡ found)
      × (strtok none (delim_of d) (some s) ≡ found)
      × (strtok none (delim_of d) none ≡ done (none, none))
strtok_one k d e x w rest old nz hd hw end =
    strtok_lem (d ∷ []) (replicate k d) w rest e x old ((nz, hd), tt)
      (AreDelims-replicate k d nz hd) (IsToken-IsWord d (x ∷ w) hw) (IsEnd-one d e nz hd end)

-- `strchr` finds the dot behind a word that starts at index 1.
strchr_from_word :
    (w rest : List ℕ) → IsWord b'.' w → strchr_from (w ++ (b'.' ∷ rest)) b'.' ≡ done 0
unfolding strchr_from
strchr_from_word [] rest h = refl
strchr_from_word (c ∷ w) rest (h, hw) =
    let nz : (c == 0) ≡ false = ground arith in
    let nd : (c == b'.') ≡ false = ground arith in rw (nz, nd) (strchr_from_word w rest hw)

pub strchr_word :
    (x : ℕ) (w rest : List ℕ) → IsWord b'.' w → strchr (x ∷ (w ++ (b'.' ∷ rest))) b'.' ≡ done 0
unfolding strchr
strchr_word x w rest h = strchr_from_word w rest h

strchr_from_missing :
    (d : ℕ) (w rest : List ℕ) → IsWord d w → strchr_from (w ++ (0 ∷ rest)) d ≡ done 1
unfolding strchr_from
strchr_from_missing d [] rest h = refl
strchr_from_missing d (c ∷ w) rest ((nz, nd, hc), hw) =
    let z : (c == 0) ≡ false = ground arith in
    let n : (c == d) ≡ false = ground arith in rw (z, n) (strchr_from_missing d w rest hw)

pub strchr_missing :
    (d x : ℕ) (w rest : List ℕ) → IsWord d w → strchr (x ∷ (w ++ (0 ∷ rest))) d ≡ done 1
unfolding strchr
strchr_missing d x w rest h = strchr_from_missing d w rest h
