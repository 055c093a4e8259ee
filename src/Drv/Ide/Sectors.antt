-- ===== src/Drv/Ide/Sectors.antt =====
-- drv/IDE/IDEController.c: where the sectors of a read are put.
use vireo_kernel.Prelude.{
  ℕ, zero, suc, ◌+◌, ◌-◌, ◌*◌, ◌/◌, ◌%◌, ◌≤◌, ◌<◌, ◌≡◌, ◌≢◌, refl, ◌∙◌, arith, false, ◌&&◌,
  if◌then◌else◌, ltb, ◌==◌, dec_lt, u8, u16, bit_and, bit_or, done, fault, List, ◌∷◌, length,
  get_or,
}
use vireo_kernel.Hardware.Io.{Ports, Io, ◌>>◌, >>=-at_done, >>=-at_fault, insw_from, insw, in_byte}
use vireo_kernel.Drv.Ide.{wait_set, read_sectors}
use vireo_kernel.Drv.Ide.Requests.{Reads, filled, insw_from_lem, insw_from-overflow}

-- The drive is ready whenever its status is read: behind each of `n` sectors of 256 words.
abbrev pub Ready : (ℕ → ℕ) → ℕ → ℕ → Type 0
Ready device reads n = (k : ℕ) → k < n → bit_and (u8 (device (reads + 257 * k + 256))) 0x40 ≢ 0

Ready-next :
    (device : ℕ → ℕ) (reads reads' n : ℕ)
    → reads' ≡ reads + 257
    → Ready device reads (suc n)
    → Ready device reads' n
Ready-next device reads reads' n e ready k h =
    let z : reads + 257 * suc k + 256 ≡ reads' + 257 * k + 256 = omega arith in
    rw z at (ready (suc k) (omega arith))

Ready-first :
    (device : ℕ → ℕ) (reads reads' n : ℕ)
    → reads' ≡ reads + 256
    → Ready device reads (suc n)
    → bit_and (u8 (device reads')) 0x40 ≢ 0
Ready-first device reads reads' n e ready =
    let z : reads + 257 * 0 + 256 ≡ reads' = omega arith in rw z at (ready 0 (omega arith))

wait_set-Ready :
    (patience port : ℕ) (p : Ports)
    → bit_and (u8 (p.device p.reads)) 0x40 ≢ 0
    → (p' : Ports) × (wait_set (suc patience) port 0x40 p ≡ done (tt, p')) × Reads 1 p p'
unfolding wait_set
wait_set-Ready patience port p ready =
    let set_bit : (bit_and (u8 (p.device p.reads)) 0x40 == 0) ≡ false = ground (arith, ready) in
    (record p { reads = p.reads + 1; trace = in_byte port ∷ p.trace }, rw set_bit, (refl, refl))

-- A buffer with `n` sectors of 256 words, each 512 words after the one before; a read of the
-- status port follows each sector.
abbrev pub sectors_in : (ℕ → ℕ) → ℕ → ℕ → ℕ → List ℕ → ℕ → ℕ
sectors_in device reads n at buf j =
    if ltb j at
    then get_or buf j 0
    else if ltb ((j - at) / 512) n && ltb ((j - at) % 512) 256
    then u16 (device (reads + 257 * ((j - at) / 512) + (j - at) % 512))
    else get_or buf j 0

sectors_in-suc :
    (device : ℕ → ℕ) (reads n at : ℕ) (buf buf' : List ℕ) (j : ℕ)
    → get_or buf' j 0 ≡ filled device reads 256 at buf j
    → sectors_in device (reads + 257) n (at + 512) buf' j ≡ sectors_in device reads (suc n) at buf j
sectors_in-suc device reads n at buf buf' j h = elim (dec_lt j (at + 512)) [
  | yes first ↦
      let q : (j - at) / 512 ≡ 0 = omega arith in
      let r : (j - at) % 512 ≡ j - at = omega arith in
      let z : reads + 257 * ((j - at) / 512) + (j - at) % 512 ≡ reads + (j - at) = omega arith in
      let same : device (reads + 257 * ((j - at) / 512) + (j - at) % 512)
          ≡ device (reads + (j - at)) =
        rw z in
      ground (arith, h, same)
  | no later ↦
      let q : (j - at) / 512 ≡ (j - (at + 512)) / 512 + 1 = omega arith in
      let r : (j - at) % 512 ≡ (j - (at + 512)) % 512 = omega arith in
      let z : reads + 257 + 257 * ((j - (at + 512)) / 512) + (j - (at + 512)) % 512
          ≡ reads + 257 * ((j - at) / 512) + (j - at) % 512 =
        omega arith in
      let same : device (reads + 257 + 257 * ((j - (at + 512)) / 512) + (j - (at + 512)) % 512)
          ≡ device (reads + 257 * ((j - at) / 512) + (j - at) % 512) =
        rw z in
      ground (arith, h, same)
]

read_sectors-step :
    (patience port left at : ℕ) (buf buf' : List ℕ) (p p' p'' : Ports)
    → insw_from port 256 buf at p ≡ done (buf', p')
    → wait_set patience (bit_or port 7) 0x40 p' ≡ done (tt, p'')
    → read_sectors patience port (suc left) buf at p
      ≡ read_sectors patience port left buf' (at + 512) p''
unfolding read_sectors insw
read_sectors-step patience port left at buf buf' p p' p'' a b =
    let next : List ℕ → Io (List ℕ) = λ b'.
      wait_set patience (bit_or port 7) 0x40 >> read_sectors patience port left b' (at + 512) in
    >>=-at_done (insw_from port 256 buf at) next p p' buf' a
    ∙ >>=-at_done (wait_set patience (bit_or port 7) 0x40)
        (λ _. read_sectors patience port left buf' (at + 512)) p' p'' tt b

-- With a drive that is ready behind each sector and a buffer that reaches from the place of the first sector to
-- the end of the last one, the sector loop ends: sector k is at word 512 * k behind the first, and
-- no other word of the buffer is changed.
pub read_sectors_lem :
    (patience port n at : ℕ) (buf : List ℕ) (p : Ports)
    → Ready p.device p.reads n
    → (n ≢ 0 → at + 512 * n ≤ length buf + 256)
    → (buf' : List ℕ) × (p' : Ports) × (read_sectors (suc patience) port n buf at p
        ≡ done (buf', p'))
      × (length buf' ≡ length buf)
      × ((j : ℕ) → get_or buf' j 0 ≡ sectors_in p.device p.reads n at buf j)
unfolding read_sectors
read_sectors_lem patience port zero at buf p ready room = (buf, p, refl, refl, λ j. ground arith)
read_sectors_lem patience port (suc n) at buf p ready room =
    let enough : at + 512 * suc n ≤ length buf + 256 = room (omega arith) in
    let (buf₁, p₁, run₁, reads₁, len₁, same₁) = insw_from_lem port 256 at buf p (omega arith) in
    let (p₂, run₂, reads₂) =
      wait_set-Ready patience (bit_or port 7) p₁
        (rw reads₁.0 (Ready-first p.device p.reads p₁.reads n reads₁.1 ready)) in
    let device : p₂.device ≡ p.device = reads₂.0 ∙ reads₁.0 in
    let count : p₂.reads ≡ p.reads + 257 = omega (arith, reads₁.1, reads₂.1) in
    let (buf₃, p₃, run₃, len₃, same₃) =
      read_sectors_lem patience port n (at + 512) buf₁ p₂
        (rw device (Ready-next p.device p.reads p₂.reads n count ready)) (λ ne. omega arith) in
    let shape = sectors_in-suc p.device p.reads n at buf buf₁ in
    (
      buf₃,
      p₃,
      read_sectors-step (suc patience) port n at buf buf₁ p p₁ p₂ run₁ run₂ ∙ run₃,
      len₃ ∙ len₁,
      λ j. same₃ j ∙ rw (device, count) (shape j (same₁ j)),
    )

read_sectors-fault :
    (patience port left at : ℕ) (buf : List ℕ) (p : Ports)
    → insw_from port 256 buf at p ≡ fault
    → read_sectors patience port (suc left) buf at p ≡ fault
unfolding read_sectors insw
read_sectors-fault patience port left at buf p a =
    let next : List ℕ → Io (List ℕ) = λ b'.
      wait_set patience (bit_or port 7) 0x40 >> read_sectors patience port left b' (at + 512) in
    >>=-at_fault (insw_from port 256 buf at) next p a

too_small :
    (patience port n at : ℕ) (buf : List ℕ) (p : Ports)
    → Ready p.device p.reads n
    → 0 < n
    → length buf + 256 < at + 512 * n
    → read_sectors (suc patience) port n buf at p ≡ fault
too_small patience port zero at buf p ready pos over = absurd (omega arith)
too_small patience port (suc n) at buf p ready pos over = elim (dec_lt (length buf) (at + 256)) [
  | yes now ↦
      read_sectors-fault (suc patience) port n at buf p
        (insw_from-overflow port 256 at buf p (omega arith) now)
  | no later ↦
      let (buf₁, p₁, run₁, reads₁, len₁, same₁) = insw_from_lem port 256 at buf p (omega arith) in
      let (p₂, run₂, reads₂) =
        wait_set-Ready patience (bit_or port 7) p₁
          (rw reads₁.0 (Ready-first p.device p.reads p₁.reads n reads₁.1 ready)) in
      let device : p₂.device ≡ p.device = reads₂.0 ∙ reads₁.0 in
      let count : p₂.reads ≡ p.reads + 257 = omega (arith, reads₁.1, reads₂.1) in
      read_sectors-step (suc patience) port n at buf buf₁ p p₁ p₂ run₁ run₂
      ∙ too_small patience port n (at + 512) buf₁ p₂
          (rw device (Ready-next p.device p.reads p₂.reads n count ready)) (omega arith)
          (omega arith)
]

-- With a drive that is ready behind each sector, reading two sectors or more into a buffer of just their size
-- writes past its end.
pub read_sectors_overflow :
    (patience port n : ℕ) (buf : List ℕ) (p : Ports)
    → Ready p.device p.reads n
    → 2 ≤ n
    → length buf ≡ 256 * n
    → read_sectors (suc patience) port n buf 0 p ≡ fault
read_sectors_overflow patience port n buf p ready two size =
    too_small patience port n 0 buf p ready (omega arith) (omega arith)
