-- ===== src/Sdk/Image/Bounds.antt =====
-- The bounds that `calcBounds` finds: inside the image, and around everything that is drawn.
use unouns_monorepo.Base.{ℕ, zero, suc, ◌+◌, ◌-◌, ◌≤◌, ◌<◌, ◌≡◌, ◌≢◌, arith, Bool, false}
use unouns_monorepo.Sdk.Image.{
  RgbaColor, Image, is_transparent_row, is_transparent_column, is_transparent_column_from,
  is_transparent_row_from, find_bottom, find_first, find_right, calc_bounds,
}

-- a pixel with some alpha is seen in its column
column_seen :
    (at : ℕ → ℕ → RgbaColor) (x y row n : ℕ)
    → row ≤ y
    → y < row + n
    → RgbaColor.a (at x y) ≢ 0
    → is_transparent_column_from at x row n ≡ false
unfolding is_transparent_column_from
column_seen at x y row zero low high seen = ground arith
column_seen at x y row (suc n) low high seen = ground (arith, column_seen at x y (suc row) n)

row_seen :
    (at : ℕ → ℕ → RgbaColor) (x y column n : ℕ)
    → column ≤ x
    → x < column + n
    → RgbaColor.a (at x y) ≢ 0
    → is_transparent_row_from at y column n ≡ false
unfolding is_transparent_row_from
row_seen at x y column zero low high seen = ground arith
row_seen at x y column (suc n) low high seen = ground (arith, row_seen at x y (suc column) n)

find_bottom_le : (clear : ℕ → Bool) (n : ℕ) → find_bottom clear n ≤ n
unfolding find_bottom
find_bottom_le clear zero = omega arith
find_bottom_le clear (suc n) = ground (arith, find_bottom_le clear n)

find_bottom_above : (clear : ℕ → Bool) (n y : ℕ) → y ≤ n → clear y ≡ false → y ≤ find_bottom clear n
unfolding find_bottom
find_bottom_above clear zero y h seen = h
find_bottom_above clear (suc n) y h seen = ground (arith, find_bottom_above clear n y)

find_first_le : (clear : ℕ → Bool) (n i : ℕ) → find_first clear n i ≤ i + n
unfolding find_first
find_first_le clear zero i = omega arith
find_first_le clear (suc n) i = ground (arith, find_first_le clear n (suc i))

find_first_below :
    (clear : ℕ → Bool) (n i y : ℕ) → i ≤ y → clear y ≡ false → find_first clear n i ≤ y
unfolding find_first
find_first_below clear zero i y h seen = h
find_first_below clear (suc n) i y h seen = ground (arith, find_first_below clear n (suc i) y)

find_right_le : (clear : ℕ → Bool) (n : ℕ) → find_right clear n ≤ n
unfolding find_right
find_right_le clear zero = omega arith
find_right_le clear (suc n) = ground (arith, find_right_le clear n)

find_right_above : (clear : ℕ → Bool) (n x : ℕ) → x < n → clear x ≡ false → x < find_right clear n
unfolding find_right
find_right_above clear zero x h seen = ground arith
find_right_above clear (suc n) x h seen = ground (arith, find_right_above clear n x)

-- The bounds of an image with a row lie inside the image and are in order.
pub calc_bounds-IsInside :
    (i : Image)
    → 0 < i.height
    → let b = calc_bounds i in
      (b.top ≤ b.bottom) × (b.bottom < i.height) × (b.left ≤ b.right) × (b.right ≤ i.width)
unfolding calc_bounds
calc_bounds-IsInside i h =
    let bottom = find_bottom (is_transparent_row i) (i.height - 1) in
    let right = find_right (is_transparent_column i) i.width in
    let low = find_bottom_le (is_transparent_row i) (i.height - 1) in
    let first = find_first_le (is_transparent_row i) bottom 0 in
    let column = find_first_le (is_transparent_column i) (right - 1) 0 in
    (omega arith, omega arith, omega arith, find_right_le (is_transparent_column i) i.width)

-- Every pixel of the image with some alpha lies inside the bounds.
pub calc_bounds_cover :
    (i : Image) (x y : ℕ)
    → x < i.width
    → y < i.height
    → RgbaColor.a (i.get_rgba_at x y) ≢ 0
    → let b = calc_bounds i in (b.top ≤ y) × (y ≤ b.bottom) × (b.left ≤ x) × (x < b.right)
unfolding calc_bounds
calc_bounds_cover i x y h k seen =
    let row = row_seen i.get_rgba_at x y 0 i.width (omega arith) (omega arith) seen in
    let column = column_seen i.get_rgba_at x y 0 i.height (omega arith) (omega arith) seen in
    (
      find_first_below (is_transparent_row i) _ 0 y (omega arith) row,
      find_bottom_above (is_transparent_row i) (i.height - 1) y (omega arith) row,
      find_first_below (is_transparent_column i) _ 0 x (omega arith) column,
      find_right_above (is_transparent_column i) i.width x h column,
    )
