-- ===== src/Hardware/Pci.antt =====
-- hardware/pci.c: the list of the functions on the PCI bus. The bus is a parameter: `config a` is
-- the word that port 0xcfc answers after `a` was written to port 0xcf8.
pub mod Words
pub mod Devices
pub mod Init
use vireo_kernel.Prelude.{
  ℕ, zero, suc, ◌+◌, ◌-◌, ◌*◌, ◌/◌, ◌%◌, ◌^◌, ◌≤◌, ◌<◌, ◌≡◌, ◌≢◌, refl, arith, Bool, true, false,
  ◌&&◌, ◌||◌, if◌then◌else◌, ltb, ◌==◌, u8, u16, u32, ◌<<<◌, ◌>>>◌, bit_and, bit_or, Run, done,
  stop, fault, ◌>>=◌, load, store, rounds, List, [], ◌∷◌, replicate,
}

pub record PciDev : Type 0 where
  pub device : ℕ
  pub reg0 : ℕ

abbrev pub pci_devlist_length : ℕ
pci_devlist_length = 64

abbrev pub no_dev : PciDev
no_dev = record { device = 0; reg0 = 0 }

-- The list and the index `i` of the next entry.
pub record PciList : Type 0 where
  pub pci_dev_list : List PciDev
  pub i : ℕ

abbrev pub empty_list : PciList
empty_list = record { pci_dev_list = replicate pci_devlist_length no_dev; i = 0 }

unfoldable pub config_address : ℕ → ℕ → ℕ → ℕ → ℕ
config_address bus device func reg =
    bit_or (bit_or (bit_or (bit_or (bus <<< 16) (device <<< 11)) (func <<< 8)) (reg <<< 2))
      0x80000000

unfoldable pub pci_config_read : (ℕ → ℕ) → ℕ → ℕ → ℕ → ℕ → ℕ
unfolding config_address
pci_config_read config bus device func reg = u32 (config (config_address bus device func reg))

-- `(bus & 0xFF << 24) | (device << 16) | (func << 8) | (class & 0xFF)`
unfoldable pub device_word : ℕ → ℕ → ℕ → ℕ → ℕ
device_word bus device func class =
    bit_or (bit_or (bit_or (bit_and bus (0xff <<< 24)) (device <<< 16)) (func <<< 8))
      (bit_and class 0xff)

-- One round of the innermost loop of `pci_init`.
unfoldable pub probe : (ℕ → ℕ) → ℕ → ℕ → ℕ → PciList → Run PciList
unfolding device_word pci_config_read
probe config bus device func l =
    let vendorid = u16 (pci_config_read config bus device func 0) in
    let deviceid = u16 (pci_config_read config bus device func 0 >>> 16) in
    let class = u16 ((pci_config_read config bus device func 2 >>> 16) >>> 8) in
    let entry : PciDev = record {
      device = device_word bus device func class;
      reg0 = bit_or (deviceid <<< 16) vendorid;
    } in
    if vendorid == 0xffff
    then done l
    else (store l.pci_dev_list l.i entry >>= λ list.
        done (record { pci_dev_list = list; i = l.i + 1 }))

unfoldable pub probe_device : (ℕ → ℕ) → ℕ → ℕ → PciList → Run PciList
probe_device config bus device l = rounds 8 0 (λ func. probe config bus device func) l

unfoldable pub probe_bus : (ℕ → ℕ) → ℕ → PciList → Run PciList
probe_bus config bus l = rounds 32 0 (λ device. probe_device config bus device) l

unfoldable pub pci_init : (ℕ → ℕ) → Run PciList
pci_init config = rounds 256 0 (λ bus. probe_bus config bus) empty_list

-- The fields of a device word.
abbrev pub bus_of : ℕ → ℕ
bus_of device = u8 (bit_and (device >>> 24) 0xff)

abbrev pub dev_of : ℕ → ℕ
dev_of device = u8 (bit_and (device >>> 16) 0xff)

abbrev pub func_of : ℕ → ℕ
func_of device = u8 (bit_and (device >>> 8) 0xff)

unfoldable pub pci_subclass : (ℕ → ℕ) → ℕ → ℕ
unfolding pci_config_read
pci_subclass config device =
    bit_and (pci_config_read config (bus_of device) (dev_of device) (func_of device) 2 >>> 16) 0xff

unfoldable pub pci_get_info : (ℕ → ℕ) → ℕ → ℕ
unfolding pci_subclass
pci_get_info config device =
    bit_or (bit_and device 0xff <<< 8) (bit_and (pci_subclass config device) 0xff)

-- The loop of `pciGetDevices` at entry `k`; `j` is the next free place of the answer.
unfoldable pub get_devices_from :
    (ℕ → ℕ) → List PciDev → ℕ → ℕ → ℕ → ℕ → ℕ → List ℕ → Run (List ℕ × ℕ)
get_devices_from config list class subclass zero k j answer = done (answer, j)
get_devices_from config list class subclass (suc left) k j answer = do
  entry ← load list k
  let rest = get_devices_from config list class subclass left (k + 1)
  let found =
      u8 (bit_and entry.device 0xff) == class && u8 (pci_subclass config entry.device) == subclass
  if found then (store answer j entry.device >>= λ answer'. rest (j + 1) answer') else rest j answer

-- `answer` is the block of 512 words that `kmalloc` returned, whatever it holds.
unfoldable pub pci_get_devices : (ℕ → ℕ) → List PciDev → ℕ → ℕ → List ℕ → Run (List ℕ)
pci_get_devices config list class subclass answer =
    get_devices_from config list class subclass (pci_devlist_length - 1) 0 1 answer >>= λ r.
    store r.0 0 r.1

unfoldable pub pci_get_all_devices : List PciDev → List ℕ → Run (List ℕ)
pci_get_all_devices list answer =
    rounds pci_devlist_length 0 (λ k a. load list k >>= λ entry. store a k entry.device) answer

unfoldable pub pci_get_interrupt_line : (ℕ → ℕ) → ℕ → ℕ → ℕ → ℕ
pci_get_interrupt_line config bus device func = u8 (pci_config_read config bus device func 0x0f)

-- The search of `pciGetReg0` and `pciGetDeviceByReg0`: the index it stops at.
unfoldable pub index_from : List PciDev → (PciDev → Bool) → ℕ → ℕ → Run ℕ
index_from list test zero k = done k
index_from list test (suc left) k = do
  entry ← load list k
  let rest = index_from list test left (k + 1)
  if test entry then done k else rest

unfoldable pub pci_get_reg0 : List PciDev → ℕ → Run ℕ
unfolding index_from
pci_get_reg0 list device = do
  k ← index_from list (λ e. e.device == device) pci_devlist_length 0
  entry ← load list k
  done entry.reg0

unfoldable pub pci_get_device_by_reg0 : List PciDev → ℕ → Run ℕ
unfolding index_from
pci_get_device_by_reg0 list reg0 = do
  k ← index_from list (λ e. e.reg0 == reg0) pci_devlist_length 0
  entry ← load list k
  done entry.device

unfoldable pub pci_get_bar : (ℕ → ℕ) → ℕ → ℕ → ℕ
pci_get_bar config device bar =
    if ltb bar 4 || ltb 9 bar
    then 0
    else pci_config_read config (bus_of device) (dev_of device) (func_of device) bar
