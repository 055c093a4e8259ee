-- ===== src/Conway/Tests.antt =====
-- The neighbours of a cell at a concrete screen.
use vireo_kernel.Prelude.{◌≡◌, arith, [], ◌==◌, ◌||◌, if◌then◌else◌, done}
use vireo_kernel.Screen.{Screen}
use vireo_kernel.Conway.{conway_check_neighbours}
use vireo_kernel.Conway.Neighbours.{conway_check_neighbours_lem}

-- Live cells at (1, 1) and (3, 2).
abbrev two_cells : Screen
two_cells = record {
  cursor_y = 0;
  cursor_x = 0;
  screen_flags = 0;
  color = 7;
  hexdigits = 0;
  pool = [];
  vidmem = λ j. if j == 162 || j == 326 then b'X' else 0;
  ports = record { device = λ _. 0; reads = 0; trace = [] };
}

conway_check_neighbours_lem_example : conway_check_neighbours 2 1 two_cells ≡ done 2
conway_check_neighbours_lem_example =
    conway_check_neighbours_lem two_cells 2 1 (omega arith) (omega arith) (omega arith)
      (omega arith)
