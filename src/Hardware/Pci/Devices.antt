-- ===== src/Hardware/Pci/Devices.antt =====
-- hardware/pci.c: the answer of pciGetDevices.
use vireo_kernel.Prelude.{
  snoc_append, load_middle, set?_middle, length-snoc, ℕ, suc, ◌+◌, ◌≤◌, ◌≡◌, inl, inr, arith, Bool,
  true, false, Bool-cases, ◌&&◌, if◌then◌else◌, ◌==◌, u8, bit_and, done, load, store, List, [], ◌∷◌,
  ◌++◌, length, drop,
}
use vireo_kernel.Hardware.Pci.{PciDev, pci_subclass, get_devices_from, pci_get_devices}

-- The device words of the entries of a class and subclass, in their order.
abbrev is_asked : (ℕ → ℕ) → ℕ → ℕ → PciDev → Bool
is_asked config class subclass e =
    u8 (bit_and e.device 0xff) == class && u8 (pci_subclass config e.device) == subclass

abbrev pub asked : (ℕ → ℕ) → ℕ → ℕ → List PciDev → List ℕ
asked config class subclass [] = []
asked config class subclass (e ∷ es) =
    let rest = asked config class subclass es in
    if u8 (bit_and e.device 0xff) == class && u8 (pci_subclass config e.device) == subclass
    then e.device ∷ rest
    else rest

length-asked :
    (config : ℕ → ℕ) (class subclass : ℕ) (es : List PciDev)
    → length (asked config class subclass es) ≤ length es
length-asked config class subclass [] = omega arith
length-asked config class subclass (e ∷ es) = ground (arith, length-asked config class subclass es)

-- One round: the entry is added to the answer, or it is passed over.
get_devices_from-asked :
    (config : ℕ → ℕ) (class subclass left k j : ℕ) (list : List PciDev) (answer answer' : List ℕ)
    (e : PciDev)
    → load list k ≡ done e
    → is_asked config class subclass e ≡ true
    → store answer j e.device ≡ done answer'
    → get_devices_from config list class subclass (suc left) k j answer
      ≡ get_devices_from config list class subclass left (k + 1) (j + 1) answer'
unfolding get_devices_from
get_devices_from-asked config class subclass left k j list answer answer' e hl ha hs =
    rw (hl, ha, hs)

get_devices_from-other :
    (config : ℕ → ℕ) (class subclass left k j : ℕ) (list : List PciDev) (answer : List ℕ)
    (e : PciDev)
    → load list k ≡ done e
    → is_asked config class subclass e ≡ false
    → get_devices_from config list class subclass (suc left) k j answer
      ≡ get_devices_from config list class subclass left (k + 1) j answer
unfolding get_devices_from
get_devices_from-other config class subclass left k j list answer e hl ha = rw (hl, ha)

get_devices_from-nil :
    (config : ℕ → ℕ) (class subclass k j : ℕ) (list : List PciDev) (answer : List ℕ)
    → get_devices_from config list class subclass 0 k j answer ≡ done (answer, j + 0)
unfolding get_devices_from
get_devices_from-nil config class subclass k j list answer =
    let e : j ≡ j + 0 = omega arith in rw (← e)

-- The state of the loop: the entries before `todo` are done, and `front` is the answer so far.
get_devices_from_lem :
    (config : ℕ → ℕ) (class subclass : ℕ) (todo before after : List PciDev) (front rest : List ℕ)
    → length todo ≤ length rest
    → get_devices_from config
        (before ++ (todo ++ after))
        class
        subclass
        (length todo)
        (length before)
        (length front)
        (front ++ rest)
      ≡ done (
        front
            ++ (asked config class subclass todo
                ++ drop (length (asked config class subclass todo)) rest),
        length front + length (asked config class subclass todo),
      )
get_devices_from_lem config class subclass [] before after front rest h =
    get_devices_from-nil config class subclass (length before) (length front) (before ++ after)
      (front ++ rest)
get_devices_from_lem config class subclass (e ∷ todo) before after front [] h = absurd (omega arith)
get_devices_from_lem config class subclass (e ∷ todo) before after front (r ∷ rest) h =
    let here = load_middle before e (todo ++ after) in
    let list = before ++ (e ∷ (todo ++ after)) in
    let m = asked config class subclass todo in
    let d = e.device in
    elim (Bool-cases (is_asked config class subclass e)) [
      | inl yes_asked ↦
          let put : store (front ++ (r ∷ rest)) (length front) d ≡ done (front ++ (d ∷ rest)) =
            rw (set?_middle front d r rest) in
          let ih : get_devices_from config list class subclass (length todo) (length before + 1)
                (length front + 1) (front ++ (d ∷ rest))
              ≡ done (front ++ (d ∷ (m ++ drop (length m) rest)), length front + 1 + length m) =
            rw
              (
                snoc_append before e (todo ++ after),
                length-snoc before e,
                length-snoc front d,
                snoc_append front d rest,
                snoc_append front d (m ++ drop (length m) rest),
              )
              at
              (get_devices_from_lem config class subclass todo (before ++ (e ∷ [])) after
                (front ++ (d ∷ [])) rest (omega arith)) in
          let sum : length front + suc (length m) ≡ length front + 1 + length m = omega arith in
          rw
            (
              get_devices_from-asked config class subclass (length todo) (length before)
                  (length front) list (front ++ (r ∷ rest)) (front ++ (d ∷ rest)) e here yes_asked
                  put,
              yes_asked,
              sum,
            )
            ih
      | inr not_asked ↦
          let ih : get_devices_from config list class subclass (length todo) (length before + 1)
                (length front) (front ++ (r ∷ rest))
              ≡ done (front ++ (m ++ drop (length m) (r ∷ rest)), length front + length m) =
            rw (snoc_append before e (todo ++ after), length-snoc before e) at
              (get_devices_from_lem config class subclass todo (before ++ (e ∷ [])) after front
                (r ∷ rest) (omega arith)) in
          rw
            (
              get_devices_from-other config class subclass (length todo) (length before)
                  (length front) list (front ++ (r ∷ rest)) e here not_asked,
              not_asked,
            )
            ih
    ]

-- On a full list of 64 entries and an answer block of 512 words, pciGetDevices returns the block
-- with one more than the number of answers in front and then the device words of the entries of
-- the class and subclass, in order; the last entry of the list is not looked at.
pub pci_get_devices_lem :
    (config : ℕ → ℕ) (class subclass : ℕ) (todo : List PciDev) (last : PciDev) (first : ℕ)
    (rest : List ℕ)
    → length todo ≡ 63
    → length rest ≡ 511
    → pci_get_devices config (todo ++ (last ∷ [])) class subclass (first ∷ rest)
      ≡ done (
          (1 + length (asked config class subclass todo))
          ∷ (asked config class subclass todo
              ++ drop (length (asked config class subclass todo)) rest))
unfolding pci_get_devices
pci_get_devices_lem config class subclass todo last first rest h63 h511 =
    let m = asked config class subclass todo in
    let run : get_devices_from config (todo ++ (last ∷ [])) class subclass 63 0 1 (first ∷ rest)
        ≡ done (first ∷ (m ++ drop (length m) rest), 1 + length m) =
      rw h63 at (
        get_devices_from_lem config class subclass todo [] (last ∷ []) (first ∷ []) rest
          (omega arith)) in
    rw run
