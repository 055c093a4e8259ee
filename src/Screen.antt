-- ===== src/Screen.antt =====
-- screen/screen_basic.c: the text screen. Video memory is the 32 KiB at 0xb8000; an access to
-- another address is a fault.

pub mod Text
pub mod Scroll
pub mod Write
mod Tests
use vireo_kernel.Prelude.{
  ℕ, zero, suc, ◌+◌, ◌-◌, ◌*◌, ◌/◌, ◌%◌, ◌^◌, Bool, ◌||◌, ◌&&◌, if◌then◌else◌, ltb, leb, ◌==◌, u8,
  u16, ◌>>>◌, ◌<<<◌, bit_and, bit_or, Run, done, stop, fault, ◌>>=◌, load, List, some,
}
use vireo_kernel.Hardware.Io.{Io, Ports, inb, outb}
use vireo_kernel.Hardware.Io
use vireo_kernel.Util.{strlen}
use vireo_kernel.Util.Digits.{intstr, hexstr}

abbrev pub screen_basic_width : ℕ
screen_basic_width = 80

abbrev pub screen_basic_height : ℕ
screen_basic_height = 25

abbrev pub screen_basic_depth : ℕ
screen_basic_depth = 2

abbrev pub screen_basic_cursor_enabled : ℕ
screen_basic_cursor_enabled = 1

abbrev pub cursor_move_fail : ℕ
cursor_move_fail = 16

abbrev pub video_size : ℕ
video_size = 0x8000

-- SCREENDATA, the number of digits of `%x`, the pool of util/util.c and the hardware.
pub record Screen : Type 0 where
  pub cursor_y : ℕ
  pub cursor_x : ℕ
  pub screen_flags : ℕ
  pub color : ℕ
  pub hexdigits : ℕ
  pub pool : List ℕ
  pub vidmem : ℕ → ℕ
  pub ports : Ports

abbrev pub on_ports : {A : Type 0} → Io A → Screen → Run (A × Screen)
on_ports m s = m s.ports >>= λ r. done (r.0, record s { ports = r.1 })

abbrev pub poke_video : (ℕ → ℕ) → ℕ → ℕ → ℕ → ℕ
poke_video video i v j = if i == j then v else video j

-- `vidmem[i]`
abbrev pub peek : (ℕ → ℕ) → ℕ → Run ℕ
peek video i = if ltb i video_size then done (video i) else fault

-- `vidmem[i] = v`
abbrev pub put : (ℕ → ℕ) → ℕ → ℕ → Run (ℕ → ℕ)
put video i v = if ltb i video_size then done (poke_video video i v) else fault

unfoldable pub set_cursor_registers : ℕ → Io (Unit {0})
set_cursor_registers position = Io.◌>>◌ (outb 0x3d4 0x0e) (
    Io.◌>>◌ (outb 0x3d5 (u8 (bit_and (position >>> 8) 0xff)))
      (Io.◌>>◌ (outb 0x3d4 0x0f) (outb 0x3d5 (u8 (bit_and position 0xff)))))

unfoldable pub screen_basic_get_cursor_position : Io ℕ
screen_basic_get_cursor_position = Io.◌>>◌ (outb 0x3d4 0x0f) (
    Io.◌>>=◌ (inb 0x3d5) λ low.
      Io.◌>>◌ (outb 0x3d4 0x0e)
        (Io.◌>>=◌ (inb 0x3d5) λ high. Io.pure (u16 (bit_or low (high <<< 8)))))

-- The bounds are put on `x` and `y` after the position is computed, so they have no effect.
unfoldable pub screen_basic_move_cursor : ℕ → ℕ → Io ℕ
unfolding set_cursor_registers screen_basic_get_cursor_position
screen_basic_move_cursor x y =
    let position = u16 (y * screen_basic_width + x) in
    Io.◌>>◌ (set_cursor_registers position) (
      Io.◌>>=◌ screen_basic_get_cursor_position
        λ verify_pos. Io.pure (if position == verify_pos then 0 else cursor_move_fail))

unfoldable pub screen_basic_enable_cursor : ℕ → ℕ → Io (Unit {0})
screen_basic_enable_cursor cursor_start cursor_end = Io.◌>>◌ (outb 0x3d4 0x0a) (
    Io.◌>>=◌ (inb 0x3d5) λ a.
      Io.◌>>◌ (outb 0x3d5 (u8 (bit_or (bit_and a 0xc0) (bit_and cursor_start 0x0f)))) (
        Io.◌>>◌ (outb 0x3d4 0x0b) (
          Io.◌>>=◌ (inb 0x3d5)
            λ b. outb 0x3d5 (u8 (bit_or (bit_and b 0xe0) (bit_and cursor_end 0x0f))))))

unfoldable pub screen_basic_disable_cursor : Io (Unit {0})
screen_basic_disable_cursor = Io.◌>>◌ (outb 0x3d4 0x0a) (outb 0x3d5 0x20)

-- The loop of `screen_basic_clear_line` at byte `i`.
unfoldable pub clear_from : ℕ → ℕ → ℕ → (ℕ → ℕ) → Run (ℕ → ℕ)
clear_from color zero i video = done video
clear_from color (suc left) i video = do
  video' ← put video (i / 2 * 2 + 1) color
  video'' ← put video' (i / 2 * 2) 0
  clear_from color left (i + 1) video''

-- The index is 16 bits wide, which the 255 rows that `to` can name do not exceed.
unfoldable pub screen_basic_clear_line : ℕ → ℕ → ℕ → (ℕ → ℕ) → Run (ℕ → ℕ)
screen_basic_clear_line color from to video =
    let row = screen_basic_width * screen_basic_depth in
    clear_from color (row * to - row * from) (row * from) video

-- The copying loop of `screen_basic_scroll` at byte `i`.
unfoldable pub copy_up : ℕ → ℕ → ℕ → (ℕ → ℕ) → Run (ℕ → ℕ)
copy_up distance zero i video = done video
copy_up distance (suc left) i video = do
  v ← peek video (i + distance)
  video' ← put video i v
  copy_up distance left (i + 1) video'

unfoldable pub scroll_video : ℕ → ℕ → (ℕ → ℕ) → Run (ℕ → ℕ)
scroll_video color line video = do
  video₁ ← screen_basic_clear_line color 0 (u8 (line + 255)) video
  video₂ ←
      copy_up (screen_basic_width * screen_basic_depth * line)
        (screen_basic_width * (screen_basic_height - 1) * screen_basic_depth) 0 video₁
  screen_basic_clear_line color (u8 (screen_basic_height - 1 + 256 - line))
      (screen_basic_height - 1) video₂

unfoldable pub screen_basic_scroll : ℕ → Screen → Run Screen
screen_basic_scroll line s = do
  video ← scroll_video s.color line s.vidmem
  let s₁ : Screen =
      if ltb s.cursor_y line
      then record s { vidmem = video; cursor_y = 0; cursor_x = 0 }
      else record s { vidmem = video; cursor_y = u16 (s.cursor_y - line) }
  r ← on_ports (screen_basic_move_cursor s₁.cursor_x s₁.cursor_y) s₁
  done r.1

unfoldable pub screen_basic_linecheck : Screen → Run Screen
screen_basic_linecheck s =
    if leb (screen_basic_height - 1) s.cursor_y then screen_basic_scroll 1 s else done s

-- The cases of the character: backspace, newline, tab and all others.
unfoldable pub place_char : ℕ → Screen → Run Screen
place_char c s =
    let cell = (s.cursor_y * screen_basic_width + s.cursor_x) * screen_basic_depth in
    let left = u16 (s.cursor_x + 0xffff) in
    if c == 8
    then (put s.vidmem ((s.cursor_y * screen_basic_width + left) * screen_basic_depth) 0
        >>= λ video. done (record s { vidmem = video; cursor_x = left }))
    else if c == 10
    then done (record s { cursor_y = u16 (s.cursor_y + 1); cursor_x = 0 })
    else if c == 9
    then done (record s { cursor_x = u16 (s.cursor_x + 4) })
    else (put s.vidmem cell (u8 c) >>= λ video. put video (cell + 1) s.color >>= λ video'.
        done (record s { vidmem = video'; cursor_x = u16 (s.cursor_x + 1) }))

unfoldable pub screen_basic_move_cursor_internal : Screen → Run Screen
screen_basic_move_cursor_internal s =
    on_ports (set_cursor_registers (u16 (s.cursor_y * screen_basic_width + s.cursor_x))) s >>= λ r.
    done r.1

unfoldable pub screen_basic_char_put_on_screen : ℕ → Screen → Run Screen
screen_basic_char_put_on_screen c s = do
  s₁ ← place_char c s
  s₂ ← screen_basic_move_cursor_internal s₁
  screen_basic_linecheck s₂

-- The loop of `print`: `left` characters from index `i` on.
unfoldable pub print_from : List ℕ → ℕ → ℕ → Screen → Run Screen
print_from str zero i s = done s
print_from str (suc left) i s = do
  c ← load str i
  s' ← screen_basic_char_put_on_screen c s
  print_from str left (i + 1) s'

unfoldable pub print : List ℕ → Screen → Run Screen
print str s = do length ← strlen (some str); print_from str length 0 s
