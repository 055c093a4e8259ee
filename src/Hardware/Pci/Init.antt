-- ===== src/Hardware/Pci/Init.antt =====
-- hardware/pci.c: the list that pci_init leaves.
use vireo_kernel.Prelude.{
  set?_middle, set?_past, append_assoc, append_nil, snoc_append, length-snoc, inl, inr, ℕ, zero,
  suc, ◌+◌, ◌-◌, ◌≤◌, ◌<◌, ◌≡◌, sym, arith, true, false, Bool-cases, if◌then◌else◌, leb, ◌==◌, u16,
  ◌>>>◌, ◌<<<◌, bit_or, Run, done, fault, ◌>>=◌, store, rounds, List, [], ◌∷◌, ◌++◌, length,
  replicate, length-append, dec_le, dec_lt, set?, some,
}
use vireo_kernel.Hardware.Pci.{
  PciDev, no_dev, PciList, pci_config_read, device_word, probe, probe_device, probe_bus, pci_init,
}

abbrev pub vendor : (ℕ → ℕ) → ℕ → ℕ → ℕ → ℕ
vendor config bus device func = u16 (pci_config_read config bus device func 0)

abbrev pub entry_of : (ℕ → ℕ) → ℕ → ℕ → ℕ → PciDev
entry_of config bus device func = record {
  device =
      device_word bus device func (u16 ((pci_config_read config bus device func 2 >>> 16) >>> 8));
  reg0 =
      bit_or (u16 (pci_config_read config bus device func 0 >>> 16) <<< 16)
        (vendor config bus device func);
}

-- The entry for one function of the bus, if it answers with a vendor.
unfoldable pub present : (ℕ → ℕ) → ℕ → ℕ → ℕ → List PciDev
present config bus device func =
    if vendor config bus device func == 0xffff then [] else entry_of config bus device func ∷ []

abbrev pub gather : ℕ → ℕ → (ℕ → List PciDev) → List PciDev
gather zero i f = []
gather (suc n) i f = f i ++ gather n (i + 1) f

-- The entries of all functions that answer, in the order of their numbers.
abbrev pub all_present : (ℕ → ℕ) → List PciDev
all_present config =
    gather 256 0
      (λ bus. gather 32 0 (λ device. gather 8 0 (λ func. present config bus device func)))

abbrev pub listed : List PciDev → PciList
listed found = record {
  pci_dev_list = found ++ replicate (64 - length found) no_dev;
  i = length found;
}

abbrev pub listed_if_room : List PciDev → Run PciList
listed_if_room found = if leb (length found) 64 then done (listed found) else fault

-- A round that appends the entries of `f` where there is room for them.
abbrev Appends : (ℕ → PciList → Run PciList) → (ℕ → List PciDev) → Type 0
Appends body f =
    (i : ℕ) (front : List PciDev)
    → length front ≤ 64
    → body i (listed front) ≡ listed_if_room (front ++ f i)

listed_if_room-fits :
    (found : List PciDev) → length found ≤ 64 → listed_if_room found ≡ done (listed found)
listed_if_room-fits found h = ground arith

listed_if_room-full : (found : List PciDev) → 64 < length found → listed_if_room found ≡ fault
listed_if_room-full found h = ground arith

longer : (a b c : List PciDev) → 64 < length (a ++ b) → 64 < length (a ++ (b ++ c))
longer a b c h = ground (arith, length-append a b, length-append a (b ++ c), length-append b c)

rounds-gather :
    (body : ℕ → PciList → Run PciList) (f : ℕ → List PciDev)
    → Appends body f
    → (n i : ℕ) (front : List PciDev) → length front ≤ 64
    → rounds n i body (listed front) ≡ listed_if_room (front ++ gather n i f)
rounds-gather body f h zero i front le = rw (append_nil front) (sym (listed_if_room-fits front le))
rounds-gather body f h (suc n) i front le =
    rw (h i front le) (elim (dec_le (length (front ++ f i)) 64) [
      | yes fits ↦
          rw
            (
              listed_if_room-fits (front ++ f i) fits,
              ← append_assoc front (f i) (gather n (i + 1) f),
            )
            (rounds-gather body f h n (i + 1) (front ++ f i) fits)
      | no full ↦ rw (
        listed_if_room-full (front ++ f i) (omega arith),
        listed_if_room-full (front ++ (f i ++ gather n (i + 1) f))
            (longer front (f i) (gather n (i + 1) f) (omega arith)),
      )
    ])

-- One function.
set?_end :
    (front : List PciDev) (e : PciDev)
    → length front < 64
    → set? (listed front).pci_dev_list (length front) e
      ≡ some (listed (front ++ (e ∷ []))).pci_dev_list
set?_end front e h =
    let here : 64 - length front ≡ suc (64 - length (front ++ (e ∷ []))) =
      ground (arith, length-snoc front e) in
    rw (
      here,
      set?_middle front e no_dev (replicate (64 - length (front ++ (e ∷ []))) no_dev),
      snoc_append front e (replicate (64 - length (front ++ (e ∷ []))) no_dev),
    )

probe-absent :
    (config : ℕ → ℕ) (bus device func : ℕ) (l : PciList)
    → (vendor config bus device func == 0xffff) ≡ true
    → probe config bus device func l ≡ done l
unfolding probe
probe-absent config bus device func l h = rw h

probe-present :
    (config : ℕ → ℕ) (bus device func : ℕ) (l : PciList)
    → (vendor config bus device func == 0xffff) ≡ false
    → probe config bus device func l ≡ (
        store l.pci_dev_list l.i (entry_of config bus device func) >>= λ list.
        done (record { pci_dev_list = list; i = l.i + 1 }))
unfolding probe
probe-present config bus device func l h = rw h

probe-Appends :
    (config : ℕ → ℕ) (bus device : ℕ)
    → Appends (λ func. probe config bus device func) (λ func. present config bus device func)
unfolding present
probe-Appends config bus device func front le =
    elim (Bool-cases (vendor config bus device func == 0xffff)) [
      | inl absent ↦
          rw (probe-absent config bus device func (listed front) absent, absent, append_nil front)
            (sym (listed_if_room-fits front le))
      | inr here ↦
          rw (probe-present config bus device func (listed front) here, here)
            (elim (dec_lt (length front) 64) [
              | yes room ↦ rw (
                set?_end front (entry_of config bus device func) room,
                listed_if_room-fits (front ++ (entry_of config bus device func ∷ []))
                    (rw (length-snoc front (entry_of config bus device func)) (omega arith)),
                length-snoc front (entry_of config bus device func),
              )
              | no full ↦
                  let left : 64 - length front ≡ 0 = omega arith in
                  rw (
                    left,
                    append_nil front,
                    set?_past front (entry_of config bus device func),
                    listed_if_room-full (front ++ (entry_of config bus device func ∷ []))
                        (rw (length-snoc front (entry_of config bus device func)) (omega arith)),
                  )
            ])
    ]

-- After pci_init the list holds the entries of all functions that answer with a vendor, in the
-- order of bus, device and function, and no others, if there are at most 64; with more of them
-- the code writes past the end of the list.
pub pci_init_lem : (config : ℕ → ℕ) → pci_init config ≡ listed_if_room (all_present config)
unfolding pci_init probe_bus probe_device
pci_init_lem config =
    let device_Appends : (bus : ℕ)
        → Appends (λ device. probe_device config bus device)
            (λ device. gather 8 0 (λ func. present config bus device func)) =
      λ bus device front le.
        rounds-gather (λ func. probe config bus device func)
          (λ func. present config bus device func) (probe-Appends config bus device) 8 0 front le in
    let bus_Appends : Appends (λ bus. probe_bus config bus)
        (λ bus. gather 32 0 (λ device. gather 8 0 (λ func. present config bus device func))) =
      λ bus front le.
        rounds-gather (λ device. probe_device config bus device)
          (λ device. gather 8 0 (λ func. present config bus device func)) (device_Appends bus) 32 0
          front le in
    rounds-gather (λ bus. probe_bus config bus)
      (λ bus. gather 32 0 (λ device. gather 8 0 (λ func. present config bus device func)))
      bus_Appends 256 0 [] (omega arith)
