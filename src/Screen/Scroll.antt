-- ===== src/Screen/Scroll.antt =====
-- screen/screen_basic.c: what clearing and scrolling leave in video memory.
use vireo_kernel.Prelude.{
  ℕ, zero, suc, ◌+◌, ◌-◌, ◌*◌, ◌/◌, ◌%◌, ◌≤◌, ◌<◌, ◌≡◌, refl, sym, ◌∙◌, arith, if◌then◌else◌, ltb,
  ◌==◌, Run, done,
}
use vireo_kernel.Screen.{
  video_size, poke_video, clear_from, screen_basic_clear_line, copy_up, scroll_video,
}

-- A loop ends in a video memory that agrees with a description of it.
abbrev pub Leaves : Run (ℕ → ℕ) → (ℕ → ℕ) → Type 0
Leaves run video = (v : ℕ → ℕ) × (run ≡ done v) × ((j : ℕ) → v j ≡ video j)

Leaves-eq : {r r' : Run (ℕ → ℕ)} {video : ℕ → ℕ} → r ≡ r' → Leaves r video → Leaves r' video
Leaves-eq e (v, run, same) = (v, sym e ∙ run, same)

-- Cleared cells: no character, and the color.
abbrev pub cleared : ℕ → ℕ → ℕ → (ℕ → ℕ) → ℕ → ℕ
cleared color cell n video j =
    if ltb j (2 * cell)
    then video j
    else if ltb j (2 * (cell + n))
    then (if j % 2 == 0 then 0 else color)
    else video j

clear_from-step :
    (color left i : ℕ) (video : ℕ → ℕ)
    → i / 2 * 2 + 1 < video_size
    → clear_from color (suc left) i video
      ≡ clear_from color left
          (i + 1)
          (poke_video (poke_video video (i / 2 * 2 + 1) color) (i / 2 * 2) 0)
unfolding clear_from
clear_from-step color left i video h = ground arith

-- Two rounds clear one cell, twice.
abbrev clear_cell : ℕ → ℕ → (ℕ → ℕ) → ℕ → ℕ
clear_cell color cell video = poke_video (poke_video video (2 * cell + 1) color) (2 * cell) 0

clear_from-cell :
    (color left cell : ℕ) (video : ℕ → ℕ)
    → 2 * cell + 1 < video_size
    → clear_from color (suc (suc left)) (2 * cell) video
      ≡ clear_from color left (2 * cell + 2) (clear_cell color cell (clear_cell color cell video))
clear_from-cell color left cell video h =
    let here : 2 * cell / 2 * 2 ≡ 2 * cell = omega arith in
    let next : (2 * cell + 1) / 2 * 2 ≡ 2 * cell = omega arith in
    let once : clear_from color (suc (suc left)) (2 * cell) video
        ≡ clear_from color (suc left) (2 * cell + 1) (clear_cell color cell video) =
      rw here at (clear_from-step color (suc left) (2 * cell) video (omega arith)) in
    let twice : clear_from color (suc left) (2 * cell + 1) (clear_cell color cell video)
        ≡ clear_from color left (2 * cell + 1 + 1)
            (clear_cell color cell (clear_cell color cell video)) =
      rw next at
        (clear_from-step color left (2 * cell + 1) (clear_cell color cell video) (omega arith)) in
    once ∙ twice ∙ (let sum : 2 * cell + 1 + 1 ≡ 2 * cell + 2 = omega arith in rw sum)

pub clear_from-Leaves :
    (color n cell : ℕ) (video : ℕ → ℕ)
    → 2 * (cell + n) ≤ video_size
    → Leaves (clear_from color (2 * n) (2 * cell) video) (cleared color cell n video)
unfolding clear_from
clear_from-Leaves color zero cell video h = (video, refl, λ j. ground arith)
clear_from-Leaves color (suc n) cell video h =
    let w = clear_cell color cell (clear_cell color cell video) in
    let (v, run, same) = clear_from-Leaves color n (cell + 1) w (omega arith) in
    let count : 2 * suc n ≡ suc (suc (2 * n)) = omega arith in
    let place : 2 * (cell + 1) ≡ 2 * cell + 2 = omega arith in
    (
      v,
      rw (count, clear_from-cell color (2 * n) cell video (omega arith), ← place) run,
      λ j. ground (arith, same j),
    )

copy_up-step :
    (distance left i : ℕ) (video : ℕ → ℕ)
    → i + distance < video_size
    → copy_up distance (suc left) i video
      ≡ copy_up distance left (i + 1) (poke_video video i (video (i + distance)))
unfolding copy_up
copy_up-step distance left i video h = ground arith

abbrev pub copied : ℕ → ℕ → ℕ → (ℕ → ℕ) → ℕ → ℕ
copied distance i n video j =
    if ltb j i then video j else if ltb j (i + n) then video (j + distance) else video j

pub copy_up-Leaves :
    (distance n i : ℕ) (video : ℕ → ℕ)
    → 0 < distance
    → i + n + distance ≤ video_size
    → Leaves (copy_up distance n i video) (copied distance i n video)
unfolding copy_up
copy_up-Leaves distance zero i video pos h = (video, refl, λ j. ground arith)
copy_up-Leaves distance (suc n) i video pos h =
    let w = poke_video video i (video (i + distance)) in
    let (v, run, same) = copy_up-Leaves distance n (i + 1) w pos (omega arith) in
    (v, copy_up-step distance n i video (omega arith) ∙ run, λ j. ground (arith, same j))

pub clear_line-Leaves :
    (color from to : ℕ) (video : ℕ → ℕ)
    → from ≤ to
    → to ≤ 100
    → Leaves
        (screen_basic_clear_line color from to video)
        (cleared color (80 * from) (80 * (to - from)) video)
unfolding screen_basic_clear_line
clear_line-Leaves color from to video le h =
    let count : 80 * 2 * to - 80 * 2 * from ≡ 2 * (80 * (to - from)) = omega arith in
    let start : 80 * 2 * from ≡ 2 * (80 * from) = omega arith in
    Leaves-eq (rw (count, start))
      (clear_from-Leaves color (80 * (to - from)) (80 * from) video (omega arith))

nothing_cleared : (color : ℕ) (video : ℕ → ℕ) (j : ℕ) → cleared color 0 0 video j ≡ video j
nothing_cleared color video j = ground arith

moved_row :
    (color : ℕ) (v : ℕ → ℕ) (j : ℕ)
    → j < 3680
    → cleared color 1840 80 (copied 160 0 3840 v) j ≡ v (j + 160)
moved_row color v j h = ground arith

blank_row :
    (color : ℕ) (v : ℕ → ℕ) (j : ℕ)
    → 3680 ≤ j
    → j < 3840
    → cleared color 1840 80 v j ≡ (if j % 2 == 0 then 0 else color)
blank_row color v j h h' = ground arith

last_row :
    (color : ℕ) (v : ℕ → ℕ) (j : ℕ) → 3840 ≤ j → cleared color 1840 80 (copied 160 0 3840 v) j ≡ v j
last_row color v j h = ground arith

cleared_same :
    (color cell n : ℕ) (v w : ℕ → ℕ) (j : ℕ)
    → v j ≡ w j
    → cleared color cell n v j ≡ cleared color cell n w j
cleared_same color cell n v w j e = rw e

-- Scrolling by one row moves the rows 1 to 23 up by one, clears row 23 and leaves row 24.
pub scroll_video_lem :
    (color : ℕ) (video : ℕ → ℕ)
    → (v : ℕ → ℕ) × (scroll_video color 1 video ≡ done v)
      × ((j : ℕ) → j < 3680 → v j ≡ video (j + 160))
      × ((j : ℕ) → 3680 ≤ j → j < 3840 → v j ≡ (if j % 2 == 0 then 0 else color))
      × ((j : ℕ) → 3840 ≤ j → v j ≡ video j)
unfolding scroll_video
scroll_video_lem color video =
    let (v₁, run₁, same₁) = clear_line-Leaves color 0 0 video (omega arith) (omega arith) in
    let (v₂, run₂, same₂) = copy_up-Leaves 160 3840 0 v₁ (omega arith) (omega arith) in
    let (v₃, run₃, same₃) = clear_line-Leaves color 23 24 v₂ (omega arith) (omega arith) in
    let old : (j : ℕ) → v₁ j ≡ video j = λ j. same₁ j ∙ nothing_cleared color video j in
    (
      v₃,
      rw (run₁, run₂, run₃),
      (λ j h.
          same₃ j
          ∙ cleared_same color 1840 80 v₂ (copied 160 0 3840 v₁) j (same₂ j)
          ∙ moved_row color v₁ j h
          ∙ old (j + 160)),
      (λ j h h'. same₃ j ∙ blank_row color v₂ j h h'),
      (λ j h.
          same₃ j
          ∙ cleared_same color 1840 80 v₂ (copied 160 0 3840 v₁) j (same₂ j)
          ∙ last_row color v₁ j h
          ∙ old j),
    )
