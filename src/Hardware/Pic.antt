-- ===== src/Hardware/Pic.antt =====
-- hardware/pic.c: the two interrupt controllers.
use vireo_kernel.Prelude.{
  ◌+◌, arith, done, ◌∷◌, ℕ, ◌-◌, ◌/◌, ◌%◌, ◌^◌, ◌<◌, ◌≡◌, refl, Bool, true, ◌&&◌, if◌then◌else◌,
  ltb, ◌==◌, ==_iff, every_below, every_below-at, &&-parts, u8, u16, ◌<<<◌, bit_and, bit_or,
  bit_xor,
}
use vireo_kernel.Hardware.Io.{
  Ports, out_byte, in_byte, Io, ◌>>=◌, ◌>>◌, pure, emit, inb, outb, io_wait, pit_init,
}

abbrev pub pic_master_cmndstat : ℕ
pic_master_cmndstat = 0x20

abbrev pub pic_master_imrdata : ℕ
pic_master_imrdata = 0x21

abbrev pub pic_slave_cmndstat : ℕ
pic_slave_cmndstat = 0xa0

abbrev pub pic_slave_imrdata : ℕ
pic_slave_imrdata = 0xa1

abbrev pub pic_read_isr_command : ℕ
pic_read_isr_command = 0x0b

-- Both controllers get a byte, with a pause after each.
abbrev pub both : ℕ → ℕ → ℕ → ℕ → Io (Unit {0})
both master m slave s = do outb master m; emit io_wait; outb slave s; emit io_wait

unfoldable pub pic_controller_setup : Io (Unit {0})
pic_controller_setup = do
  both pic_master_cmndstat 0x11 pic_slave_cmndstat 0x11
  both pic_master_imrdata 0x20 pic_slave_imrdata 0x28
  both pic_master_imrdata 0x04 pic_slave_imrdata 0x02
  both pic_master_imrdata 0x01 pic_slave_imrdata 0x01
  outb pic_master_imrdata 0x00
  emit io_wait
  outb pic_slave_imrdata 0x00
  emit io_wait
  outb pic_master_cmndstat 0x00
  emit io_wait
  outb pic_slave_cmndstat 0x00
  emit pit_init

-- The port of the mask register of an interrupt, and its number on that controller.
abbrev pub imr_port : ℕ → ℕ
imr_port irq = if ltb 7 irq then pic_slave_imrdata else pic_master_imrdata

abbrev pub line_of : ℕ → ℕ
line_of irq = if ltb 7 irq then u8 (irq - 8) else irq

-- `mask = inb(port) | (1 << IRQ)` and `mask = inb(port) & ~(1 << IRQ)`
unfoldable pub masked : ℕ → ℕ → ℕ
masked value line = u8 (bit_or value (1 <<< line))

unfoldable pub unmasked : ℕ → ℕ → ℕ
unmasked value line = u8 (bit_and value (bit_xor 0xffffffff (1 <<< line)))

unfoldable pub pic_mask : ℕ → Io (Unit {0})
unfolding masked
pic_mask irq = do value ← inb (imr_port irq); outb (imr_port irq) (masked value (line_of irq))

unfoldable pub pic_umask : ℕ → Io (Unit {0})
unfolding unmasked
pic_umask irq = do value ← inb (imr_port irq); outb (imr_port irq) (unmasked value (line_of irq))

unfoldable pub pic_eoi : ℕ → Io (Unit {0})
pic_eoi irq = do
  outb pic_master_cmndstat 0x20
  if ltb 7 irq then outb pic_slave_cmndstat 0x20 else pure tt

unfoldable pub pic_read_isr : Io ℕ
pic_read_isr = do
  outb pic_master_cmndstat pic_read_isr_command
  outb pic_slave_cmndstat pic_read_isr_command
  hi ← inb pic_slave_cmndstat
  lo ← inb pic_master_cmndstat
  pure (u16 (bit_or (hi <<< 8) lo))

-- Every byte and every two lines, by evaluation.
abbrev bit_at : ℕ → ℕ → ℕ
bit_at value line = value / 2 ^ line % 2

-- The bit of the line, and the bits of all other lines.
abbrev right_bits : ℕ → ℕ → ℕ → Bool
right_bits value line other =
    bit_at (masked value line) other == (if line == other then 1 else bit_at value other)
    && bit_at (unmasked value line) other == (if line == other then 0 else bit_at value other)

all_bits_right :
    every_below
      (λ value. every_below (λ line. every_below (λ other. right_bits value line other) 8) 8)
      256
    ≡ true
unfolding masked unmasked every_below
all_bits_right = refl

-- Masking an interrupt line of a controller sets its bit in the mask register and unmasking
-- clears it, and neither changes the bit of another line.
pub masked_lem :
    (value line other : ℕ)
    → value < 256
    → line < 8
    → other < 8
    → (bit_at (masked value line) other ≡ (if line == other then 1 else bit_at value other))
      × (bit_at (unmasked value line) other ≡ (if line == other then 0 else bit_at value other))
masked_lem value line other hv hl ho =
    let every_line =
      every_below-at (λ v. every_below (λ l. every_below (λ o. right_bits v l o) 8) 8) 256 value hv
        all_bits_right in
    let every_bit =
      every_below-at (λ l. every_below (λ o. right_bits value l o) 8) 8 line hl every_line in
    let all = every_below-at (λ o. right_bits value line o) 8 other ho every_bit in
    let both =
      &&-parts
        {a = bit_at (masked value line) other == (if line == other then 1 else bit_at value other)}
        all in
    (
      (==_iff (bit_at (masked value line) other)
            (if line == other then 1 else bit_at value other)).0
          both.0,
      (==_iff (bit_at (unmasked value line) other)
            (if line == other then 0 else bit_at value other)).0
          both.1,
    )

-- What a read-modify-write of a mask register leaves.
abbrev pub after_mask : ℕ → ℕ → Ports → Ports
after_mask irq v p = record p {
  reads = p.reads + 1;
  trace = out_byte (imr_port irq) v ∷ in_byte (imr_port irq) ∷ p.trace;
}

port_fits : (irq : ℕ) → u16 (imr_port irq) ≡ imr_port irq
port_fits irq = ground arith

line_fits : (irq : ℕ) → irq < 16 → line_of irq < 8
line_fits irq h = ground arith

-- Each of the 16 interrupts can be masked and unmasked: the mask register of its controller is read
-- and written back with the bit of its line set, or cleared, and all other bits as they were.
pub pic_mask_lem :
    (irq : ℕ) (p : Ports)
    → irq < 16
    → (v : ℕ) × (w : ℕ) × (pic_mask irq p ≡ done (tt, after_mask irq v p))
      × (pic_umask irq p ≡ done (tt, after_mask irq w p))
      × ((other : ℕ)
          → other < 8
          → bit_at v other
            ≡ (if line_of irq == other then 1 else bit_at (u8 (p.device p.reads)) other))
      × ((other : ℕ)
          → other < 8
          → bit_at w other
            ≡ (if line_of irq == other then 0 else bit_at (u8 (p.device p.reads)) other))
unfolding pic_mask pic_umask
pic_mask_lem irq p h =
    let old = u8 (p.device p.reads) in
    let line = line_of irq in
    let v : u8 (masked old line) ≡ masked old line = omega arith in
    let w : u8 (unmasked old line) ≡ unmasked old line = omega arith in
    (
      masked old line,
      unmasked old line,
      rw (port_fits irq, v),
      rw (port_fits irq, w),
      (λ other ho. (masked_lem old line other (omega arith) (line_fits irq h) ho).0),
      (λ other ho. (masked_lem old line other (omega arith) (line_fits irq h) ho).1),
    )
