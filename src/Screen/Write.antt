-- ===== src/Screen/Write.antt =====
-- screen/screen_basic.c: what printing leaves in video memory and in the cursor.
use vireo_kernel.Prelude.{
  ℕ, zero, suc, ◌+◌, ◌-◌, ◌*◌, ◌/◌, ◌%◌, ◌^◌, ◌≤◌, ◌<◌, ◌≡◌, ◌≢◌, refl, ◌∙◌, arith, if◌then◌else◌,
  ltb, ◌==◌, u8, u16, done, fault, load-eq-done, List, ◌∷◌, length, length-append, get_or,
}
use vireo_kernel.Hardware.Io.{Ports}
use vireo_kernel.Util.Strings.{IsText, terminated, strlen_lem}
use vireo_kernel.Screen.{
  Screen, video_size, poke_video, place_char, screen_basic_move_cursor_internal,
  screen_basic_linecheck, set_cursor_registers, screen_basic_char_put_on_screen, print_from, print,
}

-- A character that is not a backspace, a tab or a newline.
abbrev pub Ordinary : ℕ → Type 0
Ordinary c = (c ≢ 8) × (c ≢ 9) × (c ≢ 10)

abbrev pub cell_of : Screen → ℕ
cell_of s = s.cursor_y * 80 + s.cursor_x

abbrev after_char : ℕ → Screen → Screen
after_char c s = record s {
  vidmem = poke_video (poke_video s.vidmem (cell_of s * 2) (u8 c)) (cell_of s * 2 + 1) s.color;
  cursor_x = u16 (s.cursor_x + 1);
}

place_char-Ordinary :
    (c : ℕ) (s : Screen)
    → Ordinary c
    → cell_of s * 2 + 1 < video_size
    → place_char c s ≡ done (after_char c s)
unfolding place_char
place_char-Ordinary c s (h8, h9, h10) h = ground arith

move_cursor-done :
    (s : Screen)
    → (p : Ports) × (screen_basic_move_cursor_internal s ≡ done (record s { ports = p }))
unfolding screen_basic_move_cursor_internal set_cursor_registers
move_cursor-done s = (_, refl)

linecheck-done : (s : Screen) → s.cursor_y < 24 → screen_basic_linecheck s ≡ done s
unfolding screen_basic_linecheck
linecheck-done s h = ground arith

put_on_screen-Ordinary :
    (c : ℕ) (s : Screen)
    → Ordinary c
    → cell_of s * 2 + 1 < video_size
    → s.cursor_y < 24
    → (p : Ports) × (screen_basic_char_put_on_screen c s
        ≡ done (record (after_char c s) { ports = p }))
unfolding screen_basic_char_put_on_screen
put_on_screen-Ordinary c s o h row =
    let (p, moved) = move_cursor-done (after_char c s) in
    (
      p,
      rw (
        place_char-Ordinary c s o h,
        moved,
        linecheck-done (record (after_char c s) { ports = p }) row,
      ),
    )

-- Video memory with `n` characters of the string, from index `i` on, at the cells from `base` on.
abbrev pub written : ℕ → ℕ → ℕ → List ℕ → ℕ → (ℕ → ℕ) → ℕ → ℕ
written base n i str color video j =
    if ltb j (2 * base)
    then video j
    else if ltb j (2 * (base + n))
    then (if j % 2 == 0 then u8 (get_or str (i + (j / 2 - base)) 0) else color)
    else video j

written-suc :
    (base n i : ℕ) (str : List ℕ) (color : ℕ) (video : ℕ → ℕ) (j : ℕ)
    → written
        (base + 1)
        n
        (i + 1)
        str
        color
        (poke_video (poke_video video (base * 2) (u8 (get_or str i 0))) (base * 2 + 1) color)
        j
      ≡ written base (suc n) i str color video j
written-suc base n i str color video j =
    let cell : (k : ℕ)
        → j / 2 ≡ base + 1 + k
        → get_or str (i + 1 + (j / 2 - (base + 1))) 0 ≡ get_or str (i + (j / 2 - base)) 0 =
      λ k e.
        (let same : i + 1 + (j / 2 - (base + 1)) ≡ i + (j / 2 - base) = omega arith in rw same) in
    let first : j / 2 ≡ base → get_or str (i + (j / 2 - base)) 0 ≡ get_or str i 0 =
      λ e. (let same : i + (j / 2 - base) ≡ i = omega arith in rw same) in
    ground (arith, cell (j / 2 - (base + 1)), first)

print_from_lem :
    (str : List ℕ) (left i : ℕ) (s : Screen)
    → i + left ≤ length str
    → ((k : ℕ) → k < i + left → Ordinary (get_or str k 0))
    → s.cursor_y < 24
    → s.cursor_x + left < 2 ^ 16
    → (cell_of s + left) * 2 ≤ video_size
    → (s' : Screen) × (print_from str left i s ≡ done s')
      × (s'.cursor_y ≡ s.cursor_y)
      × (s'.cursor_x ≡ s.cursor_x + left)
      × ((j : ℕ) → s'.vidmem j ≡ written (cell_of s) left i str s.color s.vidmem j)
unfolding print_from
print_from_lem str zero i s len ord row col room = (s, refl, refl, omega arith, λ j. ground arith)
print_from_lem str (suc left) i s len ord row col room =
    let c = get_or str i 0 in
    let (p, here) = put_on_screen-Ordinary c s (ord i (omega arith)) (omega arith) row in
    let s₁ = record (after_char c s) { ports = p } in
    let (s', run, y, x, same) =
      print_from_lem str left (i + 1) s₁ (omega arith) (λ k h. ord k (omega arith)) row
        (omega arith) (omega arith) in
    (
      s',
      rw (load-eq-done str i 0 (omega arith), here) run,
      y,
      omega arith,
      λ j.
          same j
          ∙ (let sum : s.cursor_y * 80 + u16 (s.cursor_x + 1) ≡ cell_of s + 1 = omega arith in
              rw sum (written-suc (cell_of s) left i str s.color s.vidmem j)),
    )

-- Printing a text of ordinary characters above row 24, with room for it in video memory and in the
-- 16 bits of the column, writes its characters and the color to consecutive cells from the cursor
-- on, changes no other byte of video memory, moves the column on by the length and stays in its
-- row, also past the width of the screen.
pub print_lem :
    (text rest : List ℕ) (s : Screen)
    → IsText text
    → ((k : ℕ) → k < length text → Ordinary (get_or (terminated text rest) k 0))
    → s.cursor_y < 24
    → s.cursor_x + length text < 2 ^ 16
    → (cell_of s + length text) * 2 ≤ video_size
    → (s' : Screen) × (print (terminated text rest) s ≡ done s')
      × (s'.cursor_y ≡ s.cursor_y)
      × (s'.cursor_x ≡ s.cursor_x + length text)
      × ((j : ℕ)
          → s'.vidmem j
            ≡ written (cell_of s) (length text) 0 (terminated text rest) s.color s.vidmem j)
unfolding print
print_lem text rest s is_text ord row col room = rw (strlen_lem text rest is_text) (
    print_from_lem (terminated text rest) (length text) 0 s
      (rw (length-append text (0 ∷ rest)) (omega arith)) (λ k h. ord k (omega arith)) row col room)

-- A backspace at column 0, on any row, is written 131070 bytes or more behind the start of video
-- memory.
pub backspace_faults : (s : Screen) → s.cursor_x ≡ 0 → screen_basic_char_put_on_screen 8 s ≡ fault
unfolding screen_basic_char_put_on_screen place_char
backspace_faults s h = ground arith
