-- ===== src/Drv/Iso/Paths/Reverse.antt =====
-- drv/FS/iso9660.c: reverse_path on a path of words.
use vireo_kernel.Prelude.{
  ℕ, zero, suc, ◌+◌, ◌-◌, ◌^◌, ◌≤◌, ◌<◌, ◌≡◌, inl, inr, refl, arith, ◌∙◌, ◌==◌, false, u32, done,
  fault, store-eq-fault, store-eq-done, set, length-set, List, [], ◌∷◌, ◌++◌, length, append_assoc,
  length-append, Option, none, some, dec_lt,
}
use vireo_kernel.Util.{strlen}
use vireo_kernel.Util.Copy.{create_backup_str_lem}
use vireo_kernel.Util.Strings.{IsText, strlen_lem}
use vireo_kernel.Util.Tokens.{strtok}
use vireo_kernel.Util.Tokens.Words.{IsWord, strtok_one}
use vireo_kernel.Drv.Machine.{fetch}
use vireo_kernel.Drv.Machine.Buffers.{fetch_all, put_bytes-Ends, length-put_bytes}
use vireo_kernel.Drv.Iso.Table.{slash}
use vireo_kernel.Drv.Iso.Paths.{reverse_loop, reverse_path}

-- The parts of a path: words that are not empty.
abbrev pub AllWords : List (List ℕ) → Type 0
AllWords [] = Unit
AllWords (w ∷ ws) = (IsWord b'/' w × (0 < length w)) × AllWords ws

-- The path of a first word and others.
abbrev pub joined : List ℕ → List (List ℕ) → List ℕ
joined w [] = w
joined w (v ∷ vs) = w ++ (b'/' ∷ joined v vs)

IsWord-IsText : (w : List ℕ) → IsWord b'/' w → IsText w
IsWord-IsText [] h = tt
IsWord-IsText (c ∷ w) h = (h.0.0, IsWord-IsText w h.1)

-- A word that ends at a slash or at the terminator.
token : (w : List ℕ) (vs : List (List ℕ)) → List ℕ → List ℕ
token w [] rest = w ++ (0 ∷ rest)
token w (v ∷ vs) rest = w ++ (0 ∷ (joined v vs ++ (0 ∷ rest)))

holder_of : List (List ℕ) → List ℕ → Option (List ℕ)
holder_of [] rest = none
holder_of (v ∷ vs) rest = some (joined v vs ++ (0 ∷ rest))

strtok-joined :
    (w : List ℕ) (vs : List (List ℕ)) (rest : List ℕ) (old : Option (List ℕ))
    → IsWord b'/' w
    → 0 < length w
    → (strtok (some (joined w vs ++ (0 ∷ rest))) slash old
        ≡ done (some (token w vs rest), holder_of vs rest))
      × (strtok none slash (some (joined w vs ++ (0 ∷ rest)))
          ≡ done (some (token w vs rest), holder_of vs rest))
unfolding token holder_of
strtok-joined [] vs rest old h some_text = absurd (omega arith)
strtok-joined (x ∷ w) [] rest old h some_text =
    let r = strtok_one 0 b'/' 0 x w rest old (omega arith) (omega arith) h (inl refl) in (r.0, r.1)
strtok-joined (x ∷ w) (v ∷ vs) rest old h some_text =
    let r =
      strtok_one 0 b'/' b'/' x w (joined v vs ++ (0 ∷ rest)) old (omega arith) (omega arith) h
        (inr refl) in
    rw (append_assoc (x ∷ w) (b'/' ∷ joined v vs) (0 ∷ rest)) (r.0, r.1)

strlen-token :
    (w : List ℕ) (vs : List (List ℕ)) (rest : List ℕ)
    → IsWord b'/' w
    → strlen (some (token w vs rest)) ≡ done (length w)
unfolding token
strlen-token w [] rest h = strlen_lem w rest (IsWord-IsText w h)
strlen-token w (v ∷ vs) rest h = strlen_lem w (joined v vs ++ (0 ∷ rest)) (IsWord-IsText w h)

fetch-token :
    (w : List ℕ) (vs : List (List ℕ)) (rest : List ℕ)
    → fetch (token w vs rest) 0 (length w) ≡ done w
unfolding token
fetch-token w [] rest = fetch_all w [] (0 ∷ rest)
fetch-token w (v ∷ vs) rest = fetch_all w [] (0 ∷ (joined v vs ++ (0 ∷ rest)))

length-joined :
    (w v : List ℕ) (vs : List (List ℕ))
    → length (joined w (v ∷ vs)) ≡ length w + 1 + length (joined v vs)
length-joined w v vs = omega (arith, length-append w (b'/' ∷ joined v vs))

some_length : (w : List ℕ) (vs : List (List ℕ)) → 0 < length w → 0 < length (joined w vs)
some_length w [] h = h
some_length w (v ∷ vs) h = omega (arith, length-joined w v vs)

-- The last word: the slash behind it is written before the buffer.
reverse_last :
    (left : ℕ) (new w rest : List ℕ)
    → IsWord b'/' w
    → 0 < length w
    → length w < 2 ^ 31
    → length new < 2 ^ 31
    → reverse_loop (suc left) new (length w - 1) (some (token w [] rest)) none ≡ fault
unfolding reverse_loop
reverse_last left new w rest h some_text small short =
    let index : u32 (length w - 1 + 2 ^ 32 - length w) ≡ 2 ^ 32 - 1 = omega arith in
    let at = u32 (length w - 1 + 2 ^ 32 - length w + 1) in
    elim (put_bytes-Ends w new at) [
      | inr e ↦ rw (strlen-token w [] rest h, fetch-token w [] rest, e)
      | inl (new', e) ↦ rw (
        strlen-token w [] rest h,
        fetch-token w [] rest,
        e,
        index,
        store-eq-fault new' (2 ^ 32 - 1) b'/' (omega (arith, length-put_bytes w new new' at e)),
      )
    ]

reverse_more :
    (left : ℕ) (new w v : List ℕ) (vs : List (List ℕ)) (rest : List ℕ)
    → IsWord b'/' w
    → 0 < length w
    → IsWord b'/' v
    → 0 < length v
    → length (joined w (v ∷ vs)) < 2 ^ 31
    → ((new' : List ℕ)
        → length new' ≡ length new
        → reverse_loop left new'
            (length (joined v vs) - 1)
            (some (token v vs rest))
            (holder_of vs rest)
          ≡ fault)
    → reverse_loop
        (suc left)
        new
        (length (joined w (v ∷ vs)) - 1)
        (some (token w (v ∷ vs) rest))
        (holder_of (v ∷ vs) rest)
      ≡ fault
unfolding reverse_loop holder_of
reverse_more left new w v vs rest h some_w hv some_v small later =
    let total = length (joined w (v ∷ vs)) in
    let len = length-joined w v vs in
    let pos = some_length v vs some_v in
    let index : u32 (total - 1 + 2 ^ 32 - length w) ≡ length (joined v vs) =
      omega (arith, len, pos) in
    let go : (length (joined v vs) == 0) ≡ false = ground (arith, pos) in
    let next : u32 (length (joined v vs) + 2 ^ 32 - 1) ≡ length (joined v vs) - 1 =
      omega (arith, len, pos) in
    let at = u32 (total - 1 + 2 ^ 32 - length w + 1) in
    elim (put_bytes-Ends w new at) [
      | inr e ↦ rw (strlen-token w (v ∷ vs) rest h, fetch-token w (v ∷ vs) rest, e)
      | inl (new1, e) ↦ elim (dec_lt (length (joined v vs)) (length new1)) [
        | no outside ↦ rw (
          strlen-token w (v ∷ vs) rest h,
          fetch-token w (v ∷ vs) rest,
          e,
          index,
          go,
          store-eq-fault new1 (length (joined v vs)) b'/' (omega arith),
        )
        | yes inside ↦
            rw
              (
                strlen-token w (v ∷ vs) rest h,
                fetch-token w (v ∷ vs) rest,
                e,
                index,
                go,
                store-eq-done new1 (length (joined v vs)) b'/' inside,
                (strtok-joined v vs rest none hv some_v).1,
                next,
              )
              (later (set new1 (length (joined v vs)) b'/')
                (length-set new1 (length (joined v vs)) b'/' ∙ length-put_bytes w new new1 at e))
      ]
    ]

reverse_loop_fault :
    (vs : List (List ℕ)) (left : ℕ) (new w rest : List ℕ)
    → AllWords (w ∷ vs)
    → length vs < left
    → length (joined w vs) < 2 ^ 31
    → length new < 2 ^ 31
    → reverse_loop left new (length (joined w vs) - 1) (some (token w vs rest)) (holder_of vs rest)
      ≡ fault
unfolding holder_of
reverse_loop_fault vs zero new w rest all fuel small short = absurd (omega arith)
reverse_loop_fault [] (suc left) new w rest ((h, some_w), _) fuel small short =
    reverse_last left new w rest h some_w small short
reverse_loop_fault (v ∷ vs) (suc left) new w rest ((h, some_w), all) fuel small short =
    reverse_more left new w v vs rest h some_w all.0.0 all.0.1 small (λ new' same.
      reverse_loop_fault vs left new' v rest all (omega arith) (omega (arith, length-joined w v vs))
        (omega arith))

few_words : (w : List ℕ) (vs : List (List ℕ)) → AllWords (w ∷ vs) → length vs < length (joined w vs)
few_words w [] ((h, some_w), _) = some_w
few_words w (v ∷ vs) ((h, some_w), all) = omega (arith, length-joined w v vs, few_words v vs all)

joined-IsText : (w : List ℕ) (vs : List (List ℕ)) → AllWords (w ∷ vs) → IsText (joined w vs)
joined-IsText w [] ((h, _), _) = IsWord-IsText w h
joined-IsText w (v ∷ vs) ((h, _), all) = append_text w h (joined v vs) (joined-IsText v vs all)
  where
    append_text : (u : List ℕ) → IsWord b'/' u → (t : List ℕ) → IsText t → IsText (u ++ (b'/' ∷ t))
    append_text [] hu t ht = ((omega arith), ht)
    append_text (c ∷ u) hu t ht = (hu.0.0, append_text u hu.1 t ht)

-- A path of one or more nonempty words with single slashes between them, and none at the start or
-- the end, makes reverse_path write a slash to the byte before its buffer, behind the last part.
pub reverse_path_underflow :
    (kmalloc : ℕ → Option (List ℕ)) (w : List ℕ) (vs : List (List ℕ)) (rest block : List ℕ)
    (holder : Option (List ℕ))
    → AllWords (w ∷ vs)
    → length (joined w vs) < 2 ^ 31
    → kmalloc (length (joined w vs) + 1) ≡ some block
    → length (joined w vs) + 1 ≤ length block
    → length block < 2 ^ 31
    → reverse_path kmalloc (joined w vs ++ (0 ∷ rest)) holder ≡ fault
unfolding reverse_path
reverse_path_underflow kmalloc w vs rest block holder all small granted room short =
    let s = joined w vs in
    let text = joined-IsText w vs all in
    let (more, copied) = create_backup_str_lem kmalloc s rest block text granted room in
    let pos = some_length w vs all.0.1 in
    let index : u32 (length (joined w vs) + 2 ^ 32 - 1) ≡ length (joined w vs) - 1 = omega arith in
    rw (
      strlen_lem s rest text,
      copied,
      granted,
      (strtok-joined w vs more holder all.0.0 all.0.1).0,
      index,
      reverse_loop_fault vs (length (joined w vs) + 1) block w more all
          (omega (arith, few_words w vs all)) small short,
    )
