-- ===== src/Conway.antt =====
-- misc/conway.c: the game of life on the text screen.
pub mod Neighbours
pub mod Tests
use vireo_kernel.Prelude.{
  ℕ, zero, suc, ◌+◌, ◌-◌, ◌%◌, Bool, not, ◌&&◌, ◌||◌, if◌then◌else◌, ltb, leb, ◌==◌, u8, Run, done,
  ◌>>=◌, rounds,
}
use vireo_kernel.Screen.{Screen, screen_basic_width, screen_basic_height}
use vireo_kernel.Screen.Text.{screen_basic_getchar, screen_basic_putchar, screen_basic_clear_screen}

-- `if(screen_basic_getchar(x, y) == 'X') ++live_cells;`
unfoldable pub count_cell : ℕ → ℕ → Screen → ℕ → Run ℕ
count_cell x y s live_cells = do
  c ← screen_basic_getchar x y s
  done (if c == b'X' then u8 (live_cells + 1) else live_cells)

-- The loop over `left` places of row `y` from `xa` on.
unfoldable pub count_row : ℕ → ℕ → ℕ → Screen → ℕ → Run ℕ
count_row zero xa y s live_cells = done live_cells
count_row (suc left) xa y s live_cells = do
  n ← count_cell xa y s live_cells
  count_row left (xa + 1) y s n

-- The places from `x - 1`, or 0, to `x + isxScreenWidth`.
unfoldable pub count_around : ℕ → ℕ → Screen → ℕ → Run ℕ
count_around x y s live_cells =
    let is_inside = if x + 1 == screen_basic_width then 0 else 1 in
    count_row (x + is_inside + 1 - (x - 1)) (x - 1) y s live_cells

unfoldable pub conway_check_neighbours : ℕ → ℕ → Screen → Run ℕ
conway_check_neighbours x y s = do
  above ← if ltb 0 y then count_around x (y - 1) s 0 else done 0
  left ← if ltb 0 x then count_cell (x - 1) y s above else done above
  right ← if leb (x + 1) screen_basic_width then count_cell (x + 1) y s left else done left
  if ltb y screen_basic_height then count_around x (y + 1) s right else done right

unfoldable pub conway_should_i_be_alive : ℕ → ℕ → Screen → Run Screen
conway_should_i_be_alive x y s = do
  n ← conway_check_neighbours x y s
  if n == 3 then screen_basic_putchar x y b'X' s else done s

-- One cell in the loop of `conways_game_of_life`.
unfoldable pub conway_cell : ℕ → ℕ → Screen → Run Screen
conway_cell y x s = do
  c ← screen_basic_getchar x y s
  let die = conway_check_neighbours x y s >>= λ n.
      if ltb n 2 || ltb 3 n then screen_basic_putchar x y b' ' s else done s
  if not (c == b'X') then conway_should_i_be_alive x y s else die

-- One round of the endless loop, in place.
unfoldable pub conway_generation : Screen → Run Screen
conway_generation s = rounds 25 0 (λ y t. rounds 80 0 (λ x u. conway_cell y x u) t) s

unfoldable pub conway_fill_screen : Screen → Run Screen
conway_fill_screen s =
    rounds 25 0
      (λ y t.
        rounds 80 0
          (λ x u.
            if y == 0
              || not (x % 2 == 0)
              || not (y % 3 == 0)
              || not (x % 5 == 0) && not (y % 7 == 0)
            then screen_basic_putchar x y b'X' u
            else done u)
          t)
      s

-- The game up to its `n`-th generation; the source never ends it, and sleeps before each.
unfoldable pub generations : ℕ → Screen → Run Screen
generations zero s = done s
generations (suc n) s = do t ← conway_generation s; generations n t

unfoldable pub conways_game_of_life : ℕ → Screen → Run Screen
conways_game_of_life n s = do
  cleared ← screen_basic_clear_screen s
  filled ← conway_fill_screen cleared
  generations n filled
