-- ===== src/Sdk/Svg/Raster.antt =====
-- The rectangles of `buildSVG` of packages/nouns-sdk/src/image/svg-builder.ts against an area of pixels
-- that is filled line by line, by the number of each pixel.
use native.Mathlib.Nat.{
  div-add-mod', add-mul-div_right, div-eq_of_lt, mod-lt, mod-eq_of_lt, add-mul-mod_self_right,
}
use unouns_monorepo.Base.{
  ℕ, suc, ◌+◌, ◌-◌, ◌*◌, ◌/◌, ◌%◌, ◌≤◌, ◌<◌, ◌≡◌, refl, ap, ◌∙◌, arith, List, [], ◌∷◌, ◌==◌,
  if◌then◌else◌, Bool-cases, inl, inr,
}
use unouns_monorepo.Sdk.Svg.{draw_rects, move_pen}
use unouns_monorepo.Sdk.Svg.Draw.{Cell, cells, place, draw_rects-place}
use unouns_monorepo.Sdk.Image.Runs.{expand}

-- The pixels from the number `k` on of an area that begins at `left` and `top` and has lines of a width:
-- the number says the line and the place on it. Index 0 is not drawn.
abbrev pub raster : ℕ → ℕ → ℕ → ℕ → List ℕ → List Cell
raster left width top k [] = []
raster left width top k (i ∷ indexes) =
    let rest = raster left width top (suc k) indexes in
    if i == 0
    then rest
    else record { x = left + k % width; y = top + k / width; color_index = i } ∷ rest

-- the quotient and the remainder of a number that is written out
divided : (q r w : ℕ) → r < w → ((r + q * w) / w ≡ q) × ((r + q * w) % w ≡ r)
divided q r w h =
    let positive : 0 < w = omega arith in
    (
      add-mul-div_right r q positive ∙ ap (λ d. d + q) (div-eq_of_lt h) ∙ omega arith,
      add-mul-mod_self_right r q w ∙ mod-eq_of_lt h,
    )

written_out : (m q r w : ℕ) → r < w → m ≡ r + q * w → (m / w ≡ q) × (m % w ≡ r)
written_out m q r w h e =
    let (quotient, remainder) = divided q r w h in
    (ap (λ n. n / w) e ∙ quotient, ap (λ n. n % w) e ∙ remainder)

next_on_line : (k w : ℕ) → suc (k % w) < w → (suc k / w ≡ k / w) × (suc k % w ≡ suc (k % w))
next_on_line k w h = written_out (suc k) (k / w) (suc (k % w)) w h (omega (arith, div-add-mod' k w))

next_line : (k w : ℕ) → 0 < w → suc (k % w) ≡ w → (suc k / w ≡ suc (k / w)) × (suc k % w ≡ 0)
next_line k w positive h =
    let all : suc (k / w) * w ≡ k / w * w + w = grind arith in
    written_out (suc k) (suc (k / w)) 0 w positive (omega (arith, div-add-mod' k w, h, all))

-- the pen is at the pixel of the number
abbrev IsAt : ℕ → ℕ → ℕ → ℕ → ℕ × ℕ → Type 0
IsAt left width top k pen = (pen.0 ≡ left + k % width) × (pen.1 ≡ top + k / width)

move_pen-IsAt :
    (left right top k x y : ℕ)
    → left < right
    → IsAt left (right - left) top k (x, y)
    → IsAt left (right - left) top (suc k) (move_pen left right 1 (x, y))
move_pen-IsAt left right top k x y wide (across, down) =
    let w = right - left in
    let small : k % w < w = mod-lt k (omega arith) in
    elim (Bool-cases (x + 1 == right)) [
      | inl last ↦
          let (quotient, remainder) = next_line k w (omega arith) (ground (arith, small, last)) in
          ground (arith, last, quotient, remainder)
      | inr within ↦
          let (quotient, remainder) = next_on_line k w (ground (arith, small, within)) in
          ground (arith, within, quotient, remainder)
    ]

place-raster :
    (left right top k x y : ℕ) (indexes : List ℕ)
    → left < right
    → IsAt left (right - left) top k (x, y)
    → place left right (x, y) indexes ≡ raster left (right - left) top k indexes
place-raster left right top k x y [] wide at = refl
place-raster left right top k x y (i ∷ indexes) wide at =
    let later =
      place-raster left right top (suc k) (move_pen left right 1 (x, y)).0
        (move_pen left right 1 (x, y)).1 indexes wide
        (move_pen-IsAt left right top k x y wide at) in
    ground (arith, later)

-- The rectangles that are drawn for runs, from a pen at the place `x` of a line that is not empty, cover
-- exactly the pixels of the expanded runs, which follow one another from that place on line by line
-- between the bounds, and none for index 0.
pub draw_rects-raster :
    (left right x y : ℕ) (draws : List (ℕ × ℕ))
    → left ≤ x
    → x < right
    → cells (draw_rects left right draws (x, y))
      ≡ raster left (right - left) y (x - left) (expand draws)
draw_rects-raster left right x y draws before inside =
    draw_rects-place left right x y draws (omega arith) inside
    ∙ place-raster left right y (x - left) x y (expand draws) (omega arith) (
        let (quotient, remainder) =
          written_out (x - left) 0 (x - left) (right - left) (omega arith) (omega arith) in
        (omega (arith, remainder), omega (arith, quotient)))
