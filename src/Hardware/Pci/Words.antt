-- ===== src/Hardware/Pci/Words.antt =====
-- hardware/pci.c: what the words of the device list say.
use vireo_kernel.Prelude.{
  ℕ, ◌+◌, ◌*◌, ◌/◌, ◌%◌, ◌^◌, ◌<◌, ◌≡◌, refl, arith, true, ◌==◌, ==_iff, every_below,
  every_below-at, bit_and,
}
use vireo_kernel.Prelude.Bits.{bit_and-mask, bit_or-fields, zero-bit_or}
use vireo_kernel.Hardware.Pci.{
  device_word, pci_subclass, pci_get_info, pci_config_read, bus_of, dev_of, func_of,
}

no_bus_bits : every_below (λ bus. bit_and bus 0xff000000 == 0) 256 ≡ true
unfolding every_below
no_bus_bits = refl

bus_bits-zero : (bus : ℕ) → bus < 256 → bit_and bus 0xff000000 ≡ 0
bus_bits-zero bus h =
    (==_iff (bit_and bus 0xff000000) 0).0
      (every_below-at (λ b. bit_and b 0xff000000 == 0) 256 bus h no_bus_bits)

pub device_word_lem :
    (bus device func class : ℕ)
    → bus < 256
    → device < 32
    → func < 8
    → device_word bus device func class ≡ device * 65536 + func * 256 + class % 256
unfolding device_word
device_word_lem bus device func class hb hd hf =
    let shift : device * 2 ^ 16 + func * 2 ^ 8 ≡ (device * 256 + func) * 2 ^ 8 = omega arith in
    rw
      (
        bus_bits-zero bus hb,
        zero-bit_or (device * 2 ^ 16),
        bit_or-fields 16 device (func * 2 ^ 8) (omega arith),
        bit_and-mask 8 class,
        shift,
        bit_or-fields 8 (device * 256 + func) (class % 2 ^ 8) (omega arith),
      )
      (omega arith)

low_byte : (x : ℕ) → x < 256 → bit_and x 0xff ≡ x
low_byte x h = rw (bit_and-mask 8 x) (omega arith)

-- The list entry of a function on any bus makes pciGetInfo read the configuration of the function
-- with the same device and function numbers on bus 0: the answer is the class of the listed
-- function and the subclass of that other one.
pub pci_get_info_lem :
    (config : ℕ → ℕ) (bus device func class : ℕ)
    → bus < 256
    → device < 32
    → func < 8
    → pci_get_info config (device_word bus device func class)
      ≡ class % 256 * 256 + pci_config_read config 0 device func 2 / 65536 % 256
unfolding pci_get_info pci_subclass
pci_get_info_lem config bus device func class hb hd hf =
    let w = device_word bus device func class in
    let e : w ≡ device * 65536 + func * 256 + class % 256 =
      device_word_lem bus device func class hb hd hf in
    let e0 : bus_of w ≡ 0 = rw (bit_and-mask 8 (w / 2 ^ 24)) (omega arith) in
    let e1 : dev_of w ≡ device = rw (bit_and-mask 8 (w / 2 ^ 16)) (omega arith) in
    let e2 : func_of w ≡ func = rw (bit_and-mask 8 (w / 2 ^ 8)) (omega arith) in
    let x = pci_config_read config 0 device func 2 / 65536 in
    rw
      (
        e0,
        e1,
        e2,
        bit_and-mask 8 x,
        low_byte (x % 2 ^ 8) (omega arith),
        bit_and-mask 8 w,
        bit_or-fields 8 (w % 2 ^ 8) (x % 2 ^ 8) (omega arith),
      )
      (omega arith)
