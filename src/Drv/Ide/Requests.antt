-- ===== src/Drv/Ide/Requests.antt =====
-- drv/IDE/IDEController.c: what reaches the disk, and where its answer goes.
use vireo_kernel.Prelude.{
  ℕ, zero, suc, ◌+◌, ◌-◌, ◌/◌, ◌%◌, ◌^◌, ◌≤◌, ◌<◌, ◌≡◌, refl, ◌∙◌, arith, if◌then◌else◌, ltb,
  dec_lt, ℕ_discrete, u8, u16, ◌>>>◌, bit_and, done, fault, List, ◌∷◌, length, length-set, get_or,
  set, get_or-set_self, get_or-set_ne, store-eq-done, store-eq-fault,
}
use vireo_kernel.Prelude.Bits.{bit_and-mask, zero-bit_and}
use vireo_kernel.Hardware.Io.{Ports, insw_from, in_word}
use vireo_kernel.Drv.Ide.{
  Ide, send_request, ide_read_pio28, ide_write_pio28, ide_get_port, ide_get_slavebit,
}

-- The high bits of the sector number do not reach the drive.
no_high_bits : (start : ℕ) → bit_and (u8 start >>> 24) 0x0f ≡ 0
no_high_bits start = let none : u8 start / 2 ^ 24 ≡ 0 = omega arith in rw (none, zero-bit_and 0x0f)

low : (start : ℕ) → u8 (bit_and start 0x0fffffff) ≡ start % 256
low start = rw (bit_and-mask 28 start) (omega arith)

mid : (start : ℕ) → u8 (bit_and start 0x0fffffff >>> 8) ≡ start / 256 % 256
mid start = rw (bit_and-mask 28 start) (omega arith)

high : (start : ℕ) → u8 (bit_and start 0x0fffffff >>> 16) ≡ start / 65536 % 256
high start = rw (bit_and-mask 28 start) (omega arith)

send_request_lost :
    (port slavebit start sctrs command : ℕ)
    → send_request port slavebit start sctrs command
      ≡ send_request port slavebit (start % 2 ^ 24) sctrs command
unfolding send_request
send_request_lost port slavebit start sctrs command =
    let l : start % 2 ^ 24 % 256 ≡ start % 256 = omega arith in
    let m : start % 2 ^ 24 / 256 % 256 ≡ start / 256 % 256 = omega arith in
    let h : start % 2 ^ 24 / 65536 % 256 ≡ start / 65536 % 256 = omega arith in
    rw (
      no_high_bits start,
      no_high_bits (start % 2 ^ 24),
      low start,
      low (start % 2 ^ 24),
      mid start,
      mid (start % 2 ^ 24),
      high start,
      high (start % 2 ^ 24),
      l,
      m,
      h,
    )

-- A read of a disk and a write to it do the same for two sector numbers that agree in their low 24
-- bits, so no sector from 2 ^ 24 on can be reached.
pub ide_pio28_lost :
    (patience : ℕ) (ide : Ide) (drive start sctrs : ℕ) (buf : List ℕ)
    → (ide_read_pio28 patience ide drive start sctrs buf
        ≡ ide_read_pio28 patience ide drive (start % 2 ^ 24) sctrs buf)
      × (ide_write_pio28 patience ide drive start sctrs buf
          ≡ ide_write_pio28 patience ide drive (start % 2 ^ 24) sctrs buf)
unfolding ide_read_pio28 ide_write_pio28
ide_pio28_lost patience ide drive start sctrs buf = (
  rw (send_request_lost (ide_get_port ide drive) (ide_get_slavebit drive) start sctrs 0x20),
  rw (send_request_lost (ide_get_port ide drive) (ide_get_slavebit drive) start sctrs 0x30),
)

-- The port state after `n` reads.
abbrev pub Reads : ℕ → Ports → Ports → Type 0
Reads n p p' = (p'.device ≡ p.device) × (p'.reads ≡ p.reads + n)

-- A buffer with the answers to `n` reads, from number `reads` on, at the words from `at` on.
abbrev pub filled : (ℕ → ℕ) → ℕ → ℕ → ℕ → List ℕ → ℕ → ℕ
filled device reads n at buf j =
    if ltb j at
    then get_or buf j 0
    else if ltb j (at + n)
    then u16 (device (reads + (j - at)))
    else get_or buf j 0

abbrev after_inw : ℕ → Ports → Ports
after_inw port p = record p { reads = p.reads + 1; trace = in_word port ∷ p.trace }

insw_from-step :
    (port left at : ℕ) (buf : List ℕ) (p : Ports)
    → at < length buf
    → insw_from port (suc left) buf at p
      ≡ insw_from port left (set buf at (u16 (p.device p.reads))) (at + 1) (after_inw port p)
unfolding insw_from
insw_from-step port left at buf p h = rw (store-eq-done buf at (u16 (p.device p.reads)) h)

insw_from-fault :
    (port left at : ℕ) (buf : List ℕ) (p : Ports)
    → length buf ≤ at
    → insw_from port (suc left) buf at p ≡ fault
unfolding insw_from
insw_from-fault port left at buf p h = rw (store-eq-fault buf at (u16 (p.device p.reads)) h)

filled-set :
    (device : ℕ → ℕ) (reads n at : ℕ) (buf : List ℕ) (j : ℕ)
    → at < length buf
    → filled device (reads + 1) n (at + 1) (set buf at (u16 (device reads))) j
      ≡ filled device reads (suc n) at buf j
filled-set device reads n at buf j h =
    let v = u16 (device reads) in
    elim (ℕ_discrete at j) [
      | yes e ↦
          let self : get_or (set buf at v) j 0 ≡ v = rw (← e) (get_or-set_self buf at v 0 h) in
          let first : device (reads + (j - at)) ≡ device reads =
            (let z : reads + (j - at) ≡ reads = omega arith in rw z) in
          ground (arith, self, first)
      | no ne ↦
          let other : get_or (set buf at v) j 0 ≡ get_or buf j 0 = get_or-set_ne buf at j v 0 ne in
          elim (dec_lt at j) [
            | yes after ↦
                let next : device (reads + 1 + (j - (at + 1))) ≡ device (reads + (j - at)) =
                  (let z : reads + 1 + (j - (at + 1)) ≡ reads + (j - at) = omega arith in rw z) in
                ground (arith, other, next)
            | no before ↦ ground (arith, other)
          ]
    ]

pub insw_from_lem :
    (port n at : ℕ) (buf : List ℕ) (p : Ports)
    → at + n ≤ length buf
    → (buf' : List ℕ) × (p' : Ports) × (insw_from port n buf at p ≡ done (buf', p'))
      × Reads n p p'
      × (length buf' ≡ length buf)
      × ((j : ℕ) → get_or buf' j 0 ≡ filled p.device p.reads n at buf j)
unfolding insw_from
insw_from_lem port zero at buf p h = (buf, p, refl, (refl, omega arith), refl, λ j. ground arith)
insw_from_lem port (suc n) at buf p h =
    let v = u16 (p.device p.reads) in
    let (buf', p', run, count, len, same) =
      insw_from_lem port n (at + 1) (set buf at v) (after_inw port p)
        (rw (length-set buf at v) (omega arith)) in
    (
      buf',
      p',
      insw_from-step port n at buf p (omega arith) ∙ run,
      (count.0, omega arith),
      len ∙ length-set buf at v,
      λ j. same j ∙ filled-set p.device p.reads n at buf j (omega arith),
    )

pub insw_from-overflow :
    (port n at : ℕ) (buf : List ℕ) (p : Ports)
    → 0 < n
    → length buf < at + n
    → insw_from port n buf at p ≡ fault
insw_from-overflow port zero at buf p pos over = absurd (omega arith)
insw_from-overflow port (suc n) at buf p pos over = elim (dec_lt at (length buf)) [
  | yes inside ↦
      insw_from-step port n at buf p inside
      ∙ insw_from-overflow port n (at + 1) (set buf at (u16 (p.device p.reads))) (after_inw port p)
          (omega arith) (rw (length-set buf at (u16 (p.device p.reads))) (omega arith))
  | no past ↦ insw_from-fault port n at buf p (omega arith)
]
