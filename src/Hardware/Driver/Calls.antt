-- ===== src/Hardware/Driver/Calls.antt =====
-- hardware/driver.c: which driver a packet reaches.
use vireo_kernel.Prelude.{
  ℕ, suc, ◌+◌, ◌≡◌, ◌≢◌, refl, arith, true, false, leb, ◌==◌, u8, Run, done, stop, ◌>>=◌, load,
  store, List, [], ◌∷◌, ◌++◌, length, length-append, snoc_append, load_middle, length-snoc,
  set?_middle,
}
use vireo_kernel.Hardware.Driver.{
  DriverEntry, driver_loc, handler_at, index_of, driver_add_internal_driver, driver_exec,
}

zero_add : (n : ℕ) → 0 + n ≡ n
zero_add n = omega arith

-- No entry of a list has the type.
abbrev pub NoneOf : ℕ → List DriverEntry → Type 0
NoneOf type [] = Unit
NoneOf type (e ∷ es) = (e.type ≢ type) × NoneOf type es

index_of-end : (list : List DriverEntry) (type i : ℕ) → index_of list type 0 i ≡ done i
unfolding index_of
index_of-end list type i = refl

index_of-skip :
    (list : List DriverEntry) (type left i : ℕ) (e : DriverEntry)
    → load list i ≡ done e
    → e.type ≢ type
    → index_of list type (suc left) i ≡ index_of list type left (i + 1)
unfolding index_of
index_of-skip list type left i e h ne =
    let other : (e.type == type) ≡ false = ground arith in rw (h, other)

index_of-here :
    (list : List DriverEntry) (type left i : ℕ) (e : DriverEntry)
    → load list i ≡ done e
    → e.type ≡ type
    → index_of list type (suc left) i ≡ done i
unfolding index_of
index_of-here list type left i e h same =
    let here : (e.type == type) ≡ true = ground arith in rw (h, here)

index_of_first :
    (type left : ℕ) (todo before after : List DriverEntry) (e : DriverEntry)
    → NoneOf type todo
    → e.type ≡ type
    → index_of (before ++ (todo ++ (e ∷ after))) type (length todo + suc left) (length before)
      ≡ done (length before + length todo)
index_of_first type left [] before after e none same =
    let z : 0 + suc left ≡ suc left = omega arith in
    let z' : length before + 0 ≡ length before = omega arith in
    rw (z, z')
      (index_of-here (before ++ (e ∷ after)) type left (length before) e
        (load_middle before e after) same)
index_of_first type left (x ∷ todo) before after e none same =
    let list = before ++ (x ∷ (todo ++ (e ∷ after))) in
    let z : suc (length todo) + suc left ≡ suc (length todo + suc left) = omega arith in
    let z' : length before + suc (length todo) ≡ length before + 1 + length todo = omega arith in
    let ih : index_of list type (length todo + suc left) (length before + 1)
        ≡ done (length before + 1 + length todo) =
      rw (snoc_append before x (todo ++ (e ∷ after)), length-snoc before x) at
        (index_of_first type left todo (before ++ (x ∷ [])) after e none.1 same) in
    rw
      (
        z,
        z',
        index_of-skip list type (length todo + suc left) (length before) x
            (load_middle before x (todo ++ (e ∷ after))) none.0,
      )
      ih

index_of_none :
    (type : ℕ) (todo before : List DriverEntry)
    → NoneOf type todo
    → index_of (before ++ todo) type (length todo) (length before)
      ≡ done (length before + length todo)
index_of_none type [] before none =
    let z : length before + 0 ≡ length before = omega arith in
    rw z (index_of-end (before ++ []) type (length before))
index_of_none type (x ∷ todo) before none =
    let list = before ++ (x ∷ todo) in
    let z : length before + suc (length todo) ≡ length before + 1 + length todo = omega arith in
    let ih : index_of list type (length todo) (length before + 1)
        ≡ done (length before + 1 + length todo) =
      rw (snoc_append before x todo, length-snoc before x) at
        (index_of_none type todo (before ++ (x ∷ [])) none.1) in
    rw
      (
        z,
        index_of-skip list type (length todo) (length before) x (load_middle before x todo) none.0,
      )
      ih

-- With a list of 64 entries, a packet for a type goes to the driver of the first entry of that
-- type.
pub driver_exec_first :
    {W : Type 0} (call : ℕ → List ℕ → W → Run (List ℕ × W)) (front after : List DriverEntry)
    (e : DriverEntry) (count : ℕ) (packet : List ℕ) (w : W)
    → NoneOf e.type front
    → length (front ++ (e ∷ after)) ≡ 64
    → driver_exec call
        (record { drv_list = front ++ (e ∷ after); cur_devices = count })
        e.type
        packet
        w
      ≡ call e.driver packet w
unfolding driver_exec
driver_exec_first call front after e count packet w none size =
    let total : length front + suc (length after) ≡ 64 =
      omega (arith, length-append front (e ∷ after)) in
    let here : index_of (front ++ (e ∷ after)) e.type 64 0 ≡ done (length front) =
      rw (total, zero_add (length front)) at
        (index_of_first e.type (length after) front [] after e none refl) in
    let inside : leb 64 (length front) ≡ false = ground arith in
    rw (here, inside, load_middle front e after)

-- With no driver for the type the packet stops the kernel.
pub driver_exec_none :
    {W : Type 0} (call : ℕ → List ℕ → W → Run (List ℕ × W)) (list : List DriverEntry)
    (type count : ℕ) (packet : List ℕ) (w : W)
    → NoneOf type list
    → length list ≡ 64
    → driver_exec call (record { drv_list = list; cur_devices = count }) type packet w ≡ stop
unfolding driver_exec
driver_exec_none call list type count packet w none size =
    let past : index_of list type 64 0 ≡ done 64 =
      rw (size, zero_add 64) at (index_of_none type list [] none) in
    rw past

-- A packet for the type of an internal driver that was just added reaches the handler whose address
-- stands behind the structure that was found for it, if that structure exists, the list has 64
-- places with one free, and no driver of the type was there before.
pub driver_added :
    {W : Type 0} (call : ℕ → List ℕ → W → Run (List ℕ × W)) (mem : ℕ → ℕ) (beyond at : ℕ)
    (front after : List DriverEntry) (old : DriverEntry) (identifier : ℕ) (packet : List ℕ) (w : W)
    → NoneOf identifier front
    → length front + length after ≡ 63
    → driver_loc mem beyond at identifier ≢ 0
    → (driver_add_internal_driver mem beyond at identifier
          (record { drv_list = front ++ (old ∷ after); cur_devices = length front })
        >>= λ d. driver_exec call d identifier packet w)
      ≡ call (handler_at mem (driver_loc mem beyond at identifier)) packet w
unfolding driver_add_internal_driver
driver_added call mem beyond at front after old identifier packet w none size found =
    let e : DriverEntry = record {
      device = 0;
      type = identifier;
      driver = handler_at mem (driver_loc mem beyond at identifier);
    } in
    let is_found : (driver_loc mem beyond at identifier == 0) ≡ false = ground arith in
    let room : (length front == 64) ≡ false = ground arith in
    let put : store (front ++ (old ∷ after)) (length front) e ≡ done (front ++ (e ∷ after)) =
      rw (set?_middle front e old after) in
    rw (is_found, room, put)
      (driver_exec_first call front after e (u8 (length front + 1)) packet w none
        (rw (length-append front (e ∷ after)) (omega arith)))
