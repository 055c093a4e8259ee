-- ===== src/Dsk/Cd.antt =====
-- dsk/cd.c: the start of the CD drives. The driver list is a state `W` with two operations on it,
-- driver_addInternalDriver and driver_exec, the latter with the packet that the driver leaves.
use vireo_kernel.Prelude.{
  ℕ, zero, suc, ◌+◌, Bool, true, false, not, if◌then◌else◌, ◌==◌, ◌<<<◌, bit_or, Run, done, ◌>>=◌,
  load, store, rounds, List,
}
use vireo_kernel.Dsk.Diskio.{drive_type_ide_patapi, drv_command_init}

abbrev pub fs_type_iso : ℕ
fs_type_iso = 0x96

abbrev pub driver_type_fs : ℕ
driver_type_fs = 0x02 <<< 24

-- The loop of `cd_check_exists` from number `i` on.
unfoldable pub check_from : List ℕ → ℕ → ℕ → Run Bool
check_from drives zero i = done false
check_from drives (suc left) i = do
  t ← load drives i
  let rest = check_from drives left (i + 1)
  if t == drive_type_ide_patapi then done true else rest

unfoldable pub cd_check_exists : List ℕ → Run Bool
unfolding check_from
cd_check_exists drives = check_from drives 4 0

module _ {W : Type 0} (add_driver : ℕ → W → Run W) (exec : ℕ → List ℕ → W → Run (List ℕ × W)) where
  -- One round of the loop of `cd_init`: the packet is kept from round to round.
  unfoldable pub init_drive : List ℕ → ℕ → List ℕ × W → Run (List ℕ × W)
  init_drive drives i r = do
    t ← load drives i
    if not (t == drive_type_ide_patapi) then done r else do
      drv₁ ← store r.0 0 drv_command_init
      drv₂ ← store drv₁ 1 i
      drv₃ ← store drv₂ 2 0
      drv₄ ← store drv₃ 2 fs_type_iso
      exec (bit_or fs_type_iso driver_type_fs) drv₄ r.1

  -- `drv` is the packet as `kmalloc` returned it.
  unfoldable pub cd_init : List ℕ → List ℕ → W → Run W
  unfolding cd_check_exists init_drive
  cd_init drives drv w = do
    exists ← cd_check_exists drives
    if not exists then done w else do
      w' ← add_driver (bit_or fs_type_iso driver_type_fs) w
      r ← rounds 4 0 (λ i s. init_drive drives i s) (drv, w')
      done r.1
