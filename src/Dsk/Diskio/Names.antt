-- ===== src/Dsk/Diskio/Names.antt =====
-- dsk/diskio.c: what the names of drives stand for.
use vireo_kernel.Prelude.{
  ℕ, zero, suc, ◌+◌, ◌*◌, ◌%◌, ◌^◌, ◌≤◌, ◌<◌, ◌≡◌, refl, ap, arith, ◌≢◌, false, if◌then◌else◌, ◌==◌,
  bit_and, done, List, [], ◌∷◌, length, get_or,
}
use vireo_kernel.Prelude.Bits.{bit_and-mask, bit_or-fields, zero-bit_or}
use vireo_kernel.Util.{strcmp_until, strcmp_until_loop, strdigit_to_int}
use vireo_kernel.Dsk.Diskio.{drive_type, nth_drive, to_actual_drive, convert_drive_id}

-- The numbers of the drives of a type, with `i` for the first drive of the list.
abbrev pub numbers_of : ℕ → List ℕ → ℕ → List ℕ
numbers_of type [] i = []
numbers_of type (t ∷ drives) i =
    let rest = numbers_of type drives (i + 1) in if t == type then i ∷ rest else rest

pub length-numbers_of :
    (type : ℕ) (drives : List ℕ) (i : ℕ) → length (numbers_of type drives i) ≤ length drives
length-numbers_of type [] i = omega arith
length-numbers_of type (t ∷ drives) i = ground (arith, length-numbers_of type drives (i + 1))

nth_drive_lem :
    (drives : List ℕ) (n type nfound i : ℕ)
    → nfound + n + 1 < 256
    → nth_drive drives (nfound + n + 1) type nfound i ≡ get_or (numbers_of type drives i) n 0xff
unfolding nth_drive
nth_drive_lem [] n type nfound i h = refl
nth_drive_lem (t ∷ drives) zero type nfound i h =
    ground (arith, nth_drive_lem drives zero type nfound (i + 1))
nth_drive_lem (t ∷ drives) (suc n) type nfound i h = ground (
  arith,
  nth_drive_lem drives (suc n) type nfound (i + 1),
  nth_drive_lem drives n type (nfound + 1) (i + 1),
)

-- The drive with number `n` of a type is the entry `n` of the list of all drives of that type, and
-- 255 if there are not so many.
pub to_actual_drive_lem :
    (drives : List ℕ) (n type : ℕ)
    → n < 255
    → to_actual_drive drives n type ≡ get_or (numbers_of type drives 0) n 0xff
unfolding to_actual_drive
to_actual_drive_lem drives n type h = ground (arith, nth_drive_lem drives n type 0 0)

numbers_of_bound :
    (type : ℕ) (drives : List ℕ) (i n : ℕ)
    → i + length drives ≤ 255
    → get_or (numbers_of type drives i) n 0xff < 256
numbers_of_bound type [] i n h = omega arith
numbers_of_bound type (t ∷ drives) i zero h =
    ground (arith, numbers_of_bound type drives (i + 1) zero)
numbers_of_bound type (t ∷ drives) i (suc n) h =
    ground
      (arith, numbers_of_bound type drives (i + 1) n, numbers_of_bound type drives (i + 1) (suc n))

-- The first letter of the names of a type of drive.
abbrev pub letter : ℕ → ℕ
letter type = if type == 0 then b'H' else b'C'

drive_type_lem :
    (type digit : ℕ) (rest : List ℕ)
    → type ≤ 1
    → drive_type (letter type ∷ b'D' ∷ digit ∷ rest) ≡ done type
unfolding drive_type strcmp_until strcmp_until_loop
drive_type_lem zero digit rest h = refl
drive_type_lem (suc zero) digit rest h = refl
drive_type_lem (suc (suc type)) digit rest h = absurd (omega arith)

strdigit_to_int_lem : (n : ℕ) → n < 10 → strdigit_to_int (b'0' + n) ≡ n
unfolding strdigit_to_int
strdigit_to_int_lem n h = ground arith

low_byte : (x : ℕ) → x < 256 → bit_and x 0xff ≡ x
low_byte x h = rw (bit_and-mask 8 x) (omega arith)

-- A name HDn or CDn, with one digit n, stands for the n-th hard disk or CD drive: the high byte of
-- the answer is its number, or 255 if there is none. With P and a digit p after it the low byte is
-- p; with another byte than P after it, whatever follows, the low byte is 0.
pub convert_drive_id_lem :
    (drives : List ℕ) (type n : ℕ)
    → length drives ≤ 255
    → type ≤ 1
    → n < 10
    → ((mark : ℕ) (rest : List ℕ)
        → mark ≢ b'P'
        → convert_drive_id drives (letter type ∷ b'D' ∷ (b'0' + n) ∷ mark ∷ rest)
          ≡ done (get_or (numbers_of type drives 0) n 0xff * 256))
      × ((p : ℕ) (rest : List ℕ)
          → p < 10
          → convert_drive_id drives (letter type ∷ b'D' ∷ (b'0' + n) ∷ b'P' ∷ (b'0' + p) ∷ rest)
            ≡ done (get_or (numbers_of type drives 0) n 0xff * 256 + p))
unfolding convert_drive_id
convert_drive_id_lem drives type n few ht hn =
    let number = get_or (numbers_of type drives 0) n 0xff in
    let small : number < 256 = numbers_of_bound type drives 0 n (omega arith) in
    let known : (type == 0xff) ≡ false = ground arith in
    let n_digit : (n == 0x0a) ≡ false = ground arith in
    let fits : number * 2 ^ 8 % 2 ^ 16 ≡ number * 2 ^ 8 = omega arith in
    let drive = to_actual_drive_lem drives n type (omega arith) in
    (
      λ mark rest other.
          let no_part : (mark == b'P') ≡ false = ground arith in
          rw (
            drive_type_lem type (b'0' + n) (mark ∷ rest) ht,
            known,
            strdigit_to_int_lem n hn,
            n_digit,
            drive,
            low_byte number small,
            zero-bit_or (number * 2 ^ 8),
            fits,
            no_part,
          ),
      λ p rest hp.
          let p_digit : (p == 0x0a) ≡ false = ground arith in
          rw
            (
              drive_type_lem type (b'0' + n) (b'P' ∷ (b'0' + p) ∷ rest) ht,
              known,
              strdigit_to_int_lem n hn,
              n_digit,
              drive,
              low_byte number small,
              zero-bit_or (number * 2 ^ 8),
              strdigit_to_int_lem p hp,
              p_digit,
              low_byte p (omega arith),
              fits,
              bit_or-fields 8 number p (omega arith),
            )
            (ap done (omega arith)),
    )
