-- ===== src/Sdk/Image.antt =====
-- packages/nouns-sdk/src/image/image.ts. The pixels are a function of the column and the row, as in
-- the source. `tuples` keeps what the class pushes to its public field.
pub mod Bounds
pub mod Palette
pub mod Runs
use unouns_monorepo.Base.{
  ℕ, zero, suc, ◌+◌, ◌-◌, Bool, true, false, Option, none, some, List, [], ◌∷◌, ◌++◌, ◌||◌, not,
  ◌==◌, if◌then◌else◌, length,
}
use unouns_monorepo.Base.Text.{Text, same_text}
use unouns_monorepo.Sdk.Hex.{to_padded_hex, rgb_to_hex}

pub record RgbaColor : Type 0 where
  pub r : ℕ
  pub g : ℕ
  pub b : ℕ
  pub a : ℕ

pub record ImageBounds : Type 0 where
  pub top : ℕ
  pub bottom : ℕ
  pub left : ℕ
  pub right : ℕ

-- the colours that have an index, in the order in which they were set
abbrev pub Colors : Type 0
Colors = List (Text × ℕ)

pub record Image : Type 0 where
  pub width : ℕ
  pub height : ℕ
  pub bounds : ImageBounds
  pub get_rgba_at : ℕ → ℕ → RgbaColor
  pub tuples : List (ℕ × ℕ)

-- the rows `row` to `row + n - 1` of a column have alpha 0
unfoldable pub is_transparent_column_from : (ℕ → ℕ → RgbaColor) → ℕ → ℕ → ℕ → Bool
is_transparent_column_from at column row zero = true
is_transparent_column_from at column row (suc n) =
    let rest = is_transparent_column_from at column (suc row) n in
    if RgbaColor.a (at column row) == 0 then rest else false

abbrev pub is_transparent_column : Image → ℕ → Bool
is_transparent_column i column = is_transparent_column_from i.get_rgba_at column 0 i.height

-- the columns `column` to `column + n - 1` of a row have alpha 0
unfoldable pub is_transparent_row_from : (ℕ → ℕ → RgbaColor) → ℕ → ℕ → ℕ → Bool
is_transparent_row_from at row column zero = true
is_transparent_row_from at row column (suc n) =
    let rest = is_transparent_row_from at row (suc column) n in
    if RgbaColor.a (at column row) == 0 then rest else false

abbrev pub is_transparent_row : Image → ℕ → Bool
is_transparent_row i row = is_transparent_row_from i.get_rgba_at row 0 i.width

-- `while (bottom > 0 && clear(bottom)) bottom--`
unfoldable pub find_bottom : (ℕ → Bool) → ℕ → ℕ
find_bottom clear zero = zero
find_bottom clear (suc n) = let rest = find_bottom clear n in if clear (suc n) then rest else suc n

-- `while (i < limit && clear(i)) i++`, with `limit - i` rounds left
unfoldable pub find_first : (ℕ → Bool) → ℕ → ℕ → ℕ
find_first clear zero i = i
find_first clear (suc n) i = let rest = find_first clear n (suc i) in if clear i then rest else i

-- `right + 1` after `while (right >= 0 && clear(right)) right--`; the argument is `right + 1` too,
-- since `right` ends at -1 where every column is clear
unfoldable pub find_right : (ℕ → Bool) → ℕ → ℕ
find_right clear zero = zero
find_right clear (suc r) = let rest = find_right clear r in if clear r then rest else suc r

-- An image has a row: `height - 1` is -1 in the source where it has none.
unfoldable pub calc_bounds : Image → ImageBounds
unfolding is_transparent_row_from is_transparent_column_from find_bottom find_first find_right
calc_bounds i =
    let bottom = find_bottom (is_transparent_row i) (i.height - 1) in
    let right = find_right (is_transparent_column i) i.width in
    record {
      top = find_first (is_transparent_row i) bottom 0;
      bottom = bottom;
      left = find_first (is_transparent_column i) (right - 1) 0;
      right = right;
    }

unfoldable pub color_index : Colors → Text → Option ℕ
unfolding same_text
color_index [] hex = none
color_index ((key, index) ∷ rest) hex =
    let later = color_index rest hex in if same_text key hex then some index else later

-- insert the colour if it is not there
unfoldable pub add_color : Colors → Text → Colors
unfolding color_index
add_color colors hex = elim (color_index colors hex) [
  | none ↦ colors ++ (hex, length colors) ∷ []
  | some _ ↦ colors
]

abbrev pub or_none : Option ℕ → ℕ
or_none none = 0
or_none (some n) = n

abbrev pub hex_of : RgbaColor → Text
hex_of c = rgb_to_hex c.r c.g c.b

-- the index that is pushed for a pixel; the colour is in the map by then
abbrev pub pixel_index : Colors → RgbaColor → ℕ
pixel_index colors c = if c.a == 0 then 0 else or_none (color_index colors (hex_of c))

-- one row, from column `x` on, `n` pixels
unfoldable pub index_row : (ℕ → ℕ → RgbaColor) → ℕ → ℕ → ℕ → Colors → List ℕ → Colors × List ℕ
unfolding add_color color_index rgb_to_hex
index_row at y x zero colors indexes = (colors, indexes)
index_row at y x (suc n) colors indexes =
    let known = add_color colors (hex_of (at x y)) in
    index_row at y (suc x) n known (indexes ++ pixel_index known (at x y) ∷ [])

-- the rows from `y` on, `n` rows
unfoldable pub index_rows :
    (ℕ → ℕ → RgbaColor) → ImageBounds → ℕ → ℕ → Colors → List ℕ → Colors × List ℕ
unfolding index_row
index_rows at b y zero colors indexes = (colors, indexes)
index_rows at b y (suc n) colors indexes =
    let (known, pushed) = index_row at y b.left (b.right - b.left) colors indexes in
    index_rows at b (suc y) n known pushed

-- what `encode` builds: the text, and the runs it pushes to `tuples`
pub record Encoding : Type 0 where
  pub encoding : Text
  pub tuples : List (ℕ × ℕ)

unfoldable pub run_text : ℕ → ℕ → Text
unfolding to_padded_hex
run_text count value = to_padded_hex count ++ to_padded_hex value

unfoldable pub encode_from : Encoding → ℕ → ℕ → List ℕ → Encoding
unfolding run_text
encode_from e previous count [] = record e { encoding = e.encoding ++ run_text count previous }
encode_from e previous count (d ∷ rest) = elim (not (d == previous) || count == 255) [
  | true ↦
      encode_from
        (record {
          encoding = e.encoding ++ run_text count previous;
          tuples = e.tuples ++ (count, previous) ∷ [];
        })
        d 1 rest
  | false ↦ encode_from e previous (suc count) rest
]

-- `data[0]` is undefined where the data is empty
unfoldable pub encode : List (ℕ × ℕ) → List ℕ → Encoding
unfolding encode_from
encode tuples [] = record { encoding = []; tuples = tuples }
encode tuples (d ∷ rest) = encode_from (record { encoding = []; tuples = tuples }) d 1 rest

abbrev pub metadata : ImageBounds → Text
metadata b =
    to_padded_hex 0
    ++ (to_padded_hex b.top
        ++ (to_padded_hex b.right ++ (to_padded_hex b.bottom ++ to_padded_hex b.left)))

-- the pixels inside the bounds as indexes, with the colours that are known afterwards
unfoldable pub indexes_of : Image → ImageBounds → Colors → Colors × List ℕ
unfolding index_rows
indexes_of i b colors = index_rows i.get_rgba_at b b.top (suc b.bottom - b.top) colors []

-- the image with its new `tuples`, the map of colours, and the text
unfoldable pub to_rle : Image → Colors → Image × (Colors × Text)
unfolding calc_bounds indexes_of encode
to_rle i colors =
    let b = calc_bounds i in
    let (known, indexes) = indexes_of i b colors in
    let e = encode i.tuples indexes in
    (record i { bounds = b; tuples = e.tuples }, (known, b'0' ∷ b'x' ∷ metadata b ++ e.encoding))
