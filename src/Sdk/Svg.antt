-- ===== src/Sdk/Svg.antt =====
-- packages/nouns-sdk/src/image/svg-builder.ts. A number that is NaN is `none`. A text is taken to be
-- hexadecimal after its `0x`, which `replace(/^0x/, '')` removes.
pub mod Draw
pub mod Raster
pub mod RoundTrip
use unouns_monorepo.Base.{
  ℕ, zero, suc, ◌+◌, ◌-◌, ◌*◌, Bool, true, false, Option, none, some, List, [], ◌∷◌, ◌++◌, ◌&&◌,
  ◌==◌, ◌>>=◌, ltb, leb, if◌then◌else◌, take, drop, get_elem?, codes, map,
}
use unouns_monorepo.Base.Text.{Text, join}
use unouns_monorepo.Sdk.Hex.{parse_hex, to_string}

pub record DecodedBounds : Type 0 where
  pub top : Option ℕ
  pub right : Option ℕ
  pub bottom : Option ℕ
  pub left : Option ℕ

pub record DecodedImage : Type 0 where
  pub palette_index : Option ℕ
  pub bounds : DecodedBounds
  pub rects : List (Option ℕ × Option ℕ)

unfoldable pub strip_0x : Text → Text
strip_0x [] = []
strip_0x (x ∷ []) = x ∷ []
strip_0x (x ∷ y ∷ s) = if x == b'0' && y == b'x' then s else x ∷ y ∷ s

-- the matches of `.{1,4}`
unfoldable pub fours : Text → List Text
fours [] = []
fours (a ∷ []) = (a ∷ []) ∷ []
fours (a ∷ b ∷ []) = (a ∷ b ∷ []) ∷ []
fours (a ∷ b ∷ c ∷ []) = (a ∷ b ∷ c ∷ []) ∷ []
fours (a ∷ b ∷ c ∷ d ∷ s) = (a ∷ b ∷ c ∷ d ∷ []) ∷ fours s

-- `parseInt(s.substring(from, from + 2), 16)`
abbrev pub hex_field : Text → ℕ → Option ℕ
hex_field s from = parse_hex (take 2 (drop from s))

unfoldable pub decode_image : Text → DecodedImage
unfolding strip_0x fours parse_hex
decode_image image =
    let text = strip_0x image in
    record {
      palette_index = hex_field text 0;
      bounds = record {
        top = hex_field text 2;
        right = hex_field text 4;
        bottom = hex_field text 6;
        left = hex_field text 8;
      };
      rects = map (λ rect. (hex_field rect 0, hex_field rect 2)) (fours (drop 10 text));
    }

-- What is left of the line is negative in the source where `current_x` is past the bound; the loop
-- that asks stops at 0 as well.
abbrev pub rect_length : ℕ → ℕ → ℕ → ℕ
rect_length current_x draw_length right_bound =
    let remaining = right_bound - current_x in
    if leb draw_length remaining then draw_length else remaining

-- a `<rect>` that is pushed, before it is written out
pub record SvgRect : Type 0 where
  pub width : ℕ
  pub x : ℕ
  pub y : ℕ
  pub color_index : ℕ

abbrev pub Pen : Type 0
Pen = ℕ × ℕ

-- where the pen is after `length` pixels of its line
abbrev pub move_pen : ℕ → ℕ → ℕ → Pen → Pen
move_pen left right length (x, y) = if x + length == right then (left, suc y) else (x + length, y)

-- The `while` loop for one draw: the rectangles that it pushes and the pen after it. A round draws a
-- pixel at least, so that `draw_length` rounds are enough.
unfoldable pub draw_loop : ℕ → ℕ → ℕ → ℕ → ℕ → Pen → List SvgRect × Pen
draw_loop left right color zero draw_length pen = ([], pen)
draw_loop left right color (suc fuel) draw_length (x, y) =
    let length = rect_length x draw_length right in
    let (rects, after) =
      draw_loop left right color fuel (draw_length - length) (move_pen left right length (x, y)) in
    if ltb 0 length
    then (
      (if color == 0
          then rects
          else record { width = length; x = x; y = y; color_index = color } ∷ rects),
      after,
    )
    else ([], (x, y))

-- `rects.forEach`
unfoldable pub draw_rects : ℕ → ℕ → List (ℕ × ℕ) → Pen → List SvgRect
unfolding draw_loop
draw_rects left right [] pen = []
draw_rects left right ((draw_length, color) ∷ draws) pen =
    let (rects, after) = draw_loop left right color draw_length draw_length pen in
    rects ++ draw_rects left right draws after

unfoldable pub all_numbers : List (Option ℕ × Option ℕ) → Option (List (ℕ × ℕ))
all_numbers [] = some []
all_numbers ((some a, some b) ∷ rest) = do later ← all_numbers rest; some ((a, b) ∷ later)
all_numbers ((some a, none) ∷ rest) = none
all_numbers ((none, b) ∷ rest) = none

-- The rectangles that are pushed for decoded data; `none` where a number that is drawn from is NaN.
unfoldable pub draw_decoded : DecodedImage → Option (List SvgRect)
unfolding draw_rects all_numbers
draw_decoded image = do
  left ← image.bounds.left
  top ← image.bounds.top
  right ← image.bounds.right
  draws ← all_numbers image.rects
  some (draw_rects left right draws (left, top))

unfoldable pub part_rects : Text → Option (List SvgRect)
unfolding decode_image draw_decoded
part_rects part = draw_decoded (decode_image part)

-- `${paletteColors[i]}`, where an index past the end gives the word
abbrev pub color_text : List Text → ℕ → Text
color_text palette i = elim (get_elem? palette i) [ none ↦ codes "undefined" | some hex ↦ hex ]

unfoldable pub rect_text : List Text → SvgRect → Text
unfolding to_string
rect_text palette rect =
    codes "<rect width=\""
    ++ (to_string 10 (rect.width * 10)
        ++ (codes "\" height=\"10\" x=\""
            ++ (to_string 10 (rect.x * 10)
                ++ (codes "\" y=\""
                    ++ (to_string 10 (rect.y * 10)
                        ++ (codes "\" fill=\"#"
                            ++ (color_text palette rect.color_index ++ codes "\" />")))))))

unfoldable pub parts_text : List Text → List Text → Option Text
unfolding part_rects rect_text
parts_text palette [] = some []
parts_text palette (part ∷ parts) = do
  rects ← part_rects part
  rest ← parts_text palette parts
  some (join (map (rect_text palette) rects) ++ rest)

-- an empty `bgColor` is falsy
abbrev pub background : Option Text → Text
background none = codes "none"
background (some []) = codes "none"
background (some (c ∷ hex)) = b'#' ∷ c ∷ hex

unfoldable pub build_svg : List Text → List Text → Option Text → Option Text
unfolding parts_text
build_svg parts palette bg_color = do
  rects ← parts_text palette parts
  some (
      codes
        "<svg width=\"320\" height=\"320\" viewBox=\"0 0 320 320\" xmlns=\"http://www.w3.org/2000/svg\" shape-rendering=\"crispEdges\"><rect width=\"100%\" height=\"100%\" fill=\""
      ++ (background bg_color ++ (codes "\" />" ++ (rects ++ codes "</svg>"))))
