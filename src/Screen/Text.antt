-- ===== src/Screen/Text.antt =====
-- screen/screen_basic.c: formatted output, single cells and the start of the screen.
use vireo_kernel.Prelude.{
  ℕ, zero, suc, ◌+◌, ◌*◌, Bool, not, ◌&&◌, ◌||◌, if◌then◌else◌, ltb, ◌==◌, u8, bit_or, Run, done,
  stop, ◌>>=◌, load, List, some,
}
use vireo_kernel.Util.{strlen}
use vireo_kernel.Util.Digits.{intstr, hexstr}
use vireo_kernel.Screen.{
  Screen, screen_basic_width, screen_basic_height, screen_basic_depth, screen_basic_cursor_enabled,
  on_ports, put, peek, screen_basic_char_put_on_screen, print, screen_basic_clear_line,
  screen_basic_move_cursor, screen_basic_enable_cursor,
}

unfoldable pub screen_basic_set_screen_color : ℕ → Screen → Screen
screen_basic_set_screen_color color s = record s { color = u8 color }

unfoldable pub screen_set_hexdigits : ℕ → Screen → Screen
screen_set_hexdigits value s = record s { hexdigits = u8 value }

-- `print(hexstr(val, hexdigits))`, `print(intstr(val))` and `print((char*) val)`: `text_at` is the
-- memory from an address on.
unfoldable pub print_hex : ℕ → Screen → Run Screen
print_hex val s = hexstr s.pool val s.hexdigits >>= λ pool. print pool (record s { pool = pool })

unfoldable pub print_int : ℕ → Screen → Run Screen
print_int val s = intstr s.pool val >>= λ pool. print pool (record s { pool = pool })

unfoldable pub print_directive : (ℕ → List ℕ) → ℕ → ℕ → Screen → Run Screen
unfolding print_hex print_int
print_directive text_at val directive s =
    if directive == b'x'
    then print_hex val s
    else if directive == b'i'
    then print_int val s
    else if directive == b's'
    then print (text_at val) s
    else screen_basic_char_put_on_screen (u8 val) s

abbrev is_directive : ℕ → Bool
is_directive c = c == b'x' || c == b'i' || c == b's' || c == b'c'

-- The loop of `print_value` at index `i`; `left` bounds the rounds.
unfoldable pub print_value_from : (ℕ → List ℕ) → List ℕ → ℕ → ℕ → ℕ → ℕ → Screen → Run Screen
unfolding print_directive
print_value_from text_at str val length zero i s = if ltb i length then stop else done s
print_value_from text_at str val length (suc left) i s = do
  c ← load str i
  next ← load str (i + 1)
  let go = print_value_from text_at str val length left
  if not (ltb i length)
      then done s
      else if c == b'%' && is_directive next
      then (print_directive text_at val next s >>= λ s'. go (i + 2) s')
      else (screen_basic_char_put_on_screen c s >>= λ s'. go (i + 1) s')

unfoldable pub print_value : (ℕ → List ℕ) → List ℕ → ℕ → Screen → Run Screen
unfolding print_value_from
print_value text_at str val s = do
  length ← strlen (some str)
  print_value_from text_at str val length length 0 s

unfoldable pub screen_basic_clear_screen : Screen → Run Screen
screen_basic_clear_screen s = do
  video ← screen_basic_clear_line s.color 0 screen_basic_height s.vidmem
  let s₁ : Screen = record s { vidmem = video; cursor_x = 0; cursor_y = 0 }
  r ← on_ports (screen_basic_move_cursor 0 0) s₁
  done r.1

unfoldable pub screen_basic_getchar : ℕ → ℕ → Screen → Run ℕ
screen_basic_getchar x y s =
    if ltb screen_basic_width x || ltb screen_basic_height y
    then done 0
    else peek s.vidmem ((y * screen_basic_width + x) * screen_basic_depth)

unfoldable pub screen_basic_putchar : ℕ → ℕ → ℕ → Screen → Run Screen
screen_basic_putchar x y c s =
    let cell = (y * screen_basic_width + x) * screen_basic_depth in
    if ltb screen_basic_width x || ltb screen_basic_height y
    then done s
    else (put s.vidmem cell (u8 c) >>= λ video.
        put video (cell + 1) s.color >>= λ video'. done (record s { vidmem = video' }))

-- The first and last scan line of the cursor are 0 and 15, the default color is 7.
unfoldable pub screen_basic_init : Screen → Run (ℕ × Screen)
unfolding screen_basic_set_screen_color screen_basic_clear_screen
screen_basic_init s = do
  let colored : Screen = screen_basic_set_screen_color 0x07 (record s { screen_flags = 0 })
  cleared ← screen_basic_clear_screen (record colored { cursor_y = 0; cursor_x = 0 })
  enabled ← on_ports (screen_basic_enable_cursor 0 15) cleared
  check ← on_ports (screen_basic_move_cursor enabled.1.cursor_y enabled.1.cursor_y) enabled.1
  let flags = check.1.screen_flags
  done (
    0,
    record check.1 {
      screen_flags = if check.0 == 0 then bit_or flags screen_basic_cursor_enabled else flags;
    },
  )
