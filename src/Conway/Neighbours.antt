-- ===== src/Conway/Neighbours.antt =====
-- misc/conway.c: what conway_check_neighbours counts.
use vireo_kernel.Prelude.{
  ℕ, ◌+◌, ◌-◌, ◌*◌, ◌≤◌, ◌<◌, ◌≡◌, refl, arith, ap, ◌∙◌, if◌then◌else◌, ltb, leb, ◌==◌, ◌||◌, true,
  false, u8, done,
}
use vireo_kernel.Screen.{Screen}
use vireo_kernel.Screen.Text.{screen_basic_getchar}
use vireo_kernel.Conway.{count_cell, count_row, count_around, conway_check_neighbours}

-- 1 for a live cell of video memory, 0 for another.
abbrev pub alive : Screen → ℕ → ℕ → ℕ
alive s x y = if s.vidmem ((y * 80 + x) * 2) == b'X' then 1 else 0

alive_bound : (s : Screen) (x y : ℕ) → alive s x y ≤ 1
alive_bound s x y = ground arith

count_cell_lem :
    (s : Screen) (x y n : ℕ)
    → x ≤ 80
    → y ≤ 25
    → n < 255
    → count_cell x y s n ≡ done (n + alive s x y)
unfolding count_cell screen_basic_getchar
count_cell_lem s x y n hx hy small =
    let on_screen : (ltb 80 x || ltb 25 y) ≡ false = ground arith in
    let in_memory : ltb ((y * 80 + x) * 2) 0x8000 ≡ true = ground arith in
    let count : (if s.vidmem ((y * 80 + x) * 2) == b'X' then u8 (n + 1) else n) ≡ n + alive s x y =
      ground arith in
    rw (on_screen, in_memory) (ap done count)

row_three :
    (s : Screen) (xa y n : ℕ)
    → xa + 2 ≤ 80
    → y ≤ 25
    → n < 250
    → count_row 3 xa y s n ≡ done (n + alive s xa y + alive s (xa + 1) y + alive s (xa + 2) y)
unfolding count_row
row_three s xa y n hx hy small =
    let a = alive_bound s xa y in
    let b = alive_bound s (xa + 1) y in
    let z : xa + 1 + 1 ≡ xa + 2 = omega arith in
    rw (
      count_cell_lem s xa y n (omega arith) hy (omega arith),
      count_cell_lem s (xa + 1) y (n + alive s xa y) (omega arith) hy (omega (arith, a)),
      z,
      count_cell_lem s (xa + 2) y (n + alive s xa y + alive s (xa + 1) y) (omega arith) hy
          (omega (arith, a, b)),
    )

around_inside :
    (s : Screen) (x y n : ℕ)
    → 0 < x
    → x + 1 < 80
    → y ≤ 25
    → n < 250
    → count_around x y s n ≡ done (n + alive s (x - 1) y + alive s x y + alive s (x + 1) y)
unfolding count_around
around_inside s x y n pos inside hy small =
    let not_last : (x + 1 == 80) ≡ false = ground arith in
    let three : x + 1 + 1 - (x - 1) ≡ 3 = omega arith in
    let b : x - 1 + 1 ≡ x = omega arith in
    let c : x - 1 + 2 ≡ x + 1 = omega arith in
    rw (not_last, three) (row_three s (x - 1) y n (omega arith) hy small ∙ rw (b, c) refl)

-- The number of live cells around a place of the grid.
abbrev pub neighbours : Screen → ℕ → ℕ → ℕ
neighbours s x y =
    (alive s (x - 1) (y - 1) + alive s x (y - 1) + alive s (x + 1) (y - 1))
    + alive s (x - 1) y
    + alive s (x + 1) y
    + (alive s (x - 1) (y + 1) + alive s x (y + 1) + alive s (x + 1) (y + 1))

-- Away from the left and right edge and the first row conway_check_neighbours counts the live cells
-- among the eight around a cell; in the last row those of the row behind the screen count too.
pub conway_check_neighbours_lem :
    (s : Screen) (x y : ℕ)
    → 0 < x
    → x < 79
    → 0 < y
    → y < 25
    → conway_check_neighbours x y s ≡ done (neighbours s x y)
unfolding conway_check_neighbours
conway_check_neighbours_lem s x y left right top bottom =
    let up : ltb 0 y ≡ true = ground arith in
    let west : ltb 0 x ≡ true = ground arith in
    let east : leb (x + 1) 80 ≡ true = ground arith in
    let down : ltb y 25 ≡ true = ground arith in
    let a1 = alive_bound s (x - 1) (y - 1) in
    let a2 = alive_bound s x (y - 1) in
    let a3 = alive_bound s (x + 1) (y - 1) in
    let a4 = alive_bound s (x - 1) y in
    let a5 = alive_bound s (x + 1) y in
    let n1 = 0 + alive s (x - 1) (y - 1) + alive s x (y - 1) + alive s (x + 1) (y - 1) in
    let n2 = n1 + alive s (x - 1) y in
    let n3 = n2 + alive s (x + 1) y in
    rw
      (
        up,
        around_inside s x (y - 1) 0 left (omega arith) (omega arith) (omega arith),
        west,
        count_cell_lem s (x - 1) y n1 (omega arith) (omega arith) (omega (arith, a1, a2, a3)),
        east,
        count_cell_lem s (x + 1) y n2 (omega arith) (omega arith) (omega (arith, a1, a2, a3, a4)),
        down,
        around_inside s x (y + 1) n3 left (omega arith) (omega arith)
            (omega (arith, a1, a2, a3, a4, a5)),
      )
      (ap done (omega arith))
