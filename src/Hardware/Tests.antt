-- ===== src/Hardware/Tests.antt =====
-- The hardware at concrete inputs.
use vireo_kernel.Prelude.{
  ℕ, ◌/◌, ◌%◌, ◌^◌, ◌≡◌, refl, arith, if◌then◌else◌, ◌==◌, ◌∷◌, ◌++◌, [], replicate, done,
}
use vireo_kernel.Prelude.{zero, suc, List, Run, ◌>>=◌, ltb, get_or, ◌-◌, length}
use vireo_kernel.Hardware.Driver.{
  DriverEntry, driver_search, memsrch, memsrch_from, driver_loc, handler_at,
  driver_add_internal_driver, driver_exec,
}
use vireo_kernel.Hardware.Driver.Calls.{NoneOf, driver_added}
use vireo_kernel.Hardware.Io.{Ports}
use vireo_kernel.Hardware.Pic.{pic_mask, pic_umask, after_mask, pic_mask_lem}
use vireo_kernel.Prelude.{◌<◌}
use vireo_kernel.Hardware.Pci.{PciDev, no_dev, pci_subclass, pci_config_read, pci_init}
use vireo_kernel.Hardware.Pci.Devices.{asked}
use vireo_kernel.Hardware.Pci.Init.{all_present, listed_if_room, pci_init_lem}

-- The mask registers read as 0x81.
abbrev some_mask : Ports
some_mask = record { device = λ _. 0x81; reads = 0; trace = [] }

pic_mask_lem_example :
    (v : ℕ) × (w : ℕ) × (pic_mask 11 some_mask ≡ done (tt, after_mask 11 v some_mask))
    × (pic_umask 11 some_mask ≡ done (tt, after_mask 11 w some_mask))
    × ((other : ℕ)
        → other < 8
        → v / 2 ^ other % 2 ≡ (if 3 == other then 1 else 0x81 / 2 ^ other % 2))
    × ((other : ℕ)
        → other < 8
        → w / 2 ^ other % 2 ≡ (if 3 == other then 0 else 0x81 / 2 ^ other % 2))
pic_mask_lem_example = pic_mask_lem 11 some_mask (omega arith)

-- A bus whose only function is an IDE controller at device 1, function 1 of bus 0.
one_controller : ℕ → ℕ
one_controller a =
    if a == 0x80000900 then 0x70108086 else if a == 0x80000908 then 0x01018000 else 0xffffffff

abbrev controller : PciDev
controller = record { device = 0x10101; reg0 = 0x70108086 }

pci_init_lem_example : pci_init one_controller ≡ listed_if_room (all_present one_controller)
pci_init_lem_example = pci_init_lem one_controller

-- The controller is found.
asked-controller : asked one_controller 1 1 (controller ∷ no_dev ∷ []) ≡ 0x10101 ∷ []
unfolding one_controller pci_subclass pci_config_read
asked-controller = refl

abbrev no_driver : DriverEntry
no_driver = record { device = 0; type = 0; driver = 0 }

-- The handler's address is put in front of the packet.
abbrev note : ℕ → List ℕ → ℕ → Run (List ℕ × ℕ)
note address packet w = done (address ∷ packet, w)

-- A kernel image with the structure of the driver at its start, and the handler's address 0x101000
-- behind it.
abbrev image : ℕ → ℕ
image a =
    if ltb a 0x100000
    then 0
    else get_or (driver_search 0x2000096 ++ (0 ∷ 0x10 ∷ 0x10 ∷ 0 ∷ [])) (a - 0x100000) 0

-- Sixteen bytes match, and the round behind them ends the search.
image_match :
    (left : ℕ)
    → memsrch_from image
        (driver_search 0x2000096)
        0
        0x90000
        0x100000
        (suc (
          suc (
            suc (
              suc (
                suc (
                  suc (suc (suc (suc (suc (suc (suc (suc (suc (suc (suc (suc (left))))))))))))))))))
        0
        0
      ≡ 16
unfolding memsrch_from driver_search
image_match left = refl

length-driver_search : (type : ℕ) → length (driver_search type) ≡ 16
unfolding driver_search
length-driver_search type = refl

image_found : driver_loc image 0 0x90000 0x2000096 ≡ 0x100000
unfolding memsrch
image_found = rw (image_match 0xfffef, length-driver_search 0x2000096)

driver_added_example :
    (driver_add_internal_driver image 0 0x90000 0x2000096
        (record { drv_list = [] ++ (no_driver ∷ replicate 63 no_driver); cur_devices = 0 })
      >>= λ d. driver_exec note d 0x2000096 (0 ∷ []) 5)
    ≡ note (handler_at image (driver_loc image 0 0x90000 0x2000096)) (0 ∷ []) 5
driver_added_example =
    driver_added note image 0 0x90000 [] (replicate 63 no_driver) no_driver 0x2000096 (0 ∷ []) 5 tt
      refl (λ e. omega (arith, image_found, e))

none_of : (n : ℕ) → NoneOf 0x1000101 (replicate n no_driver)
none_of zero = tt
none_of (suc n) = (ground arith, none_of n)
