-- ===== src/Sdk/Tests.antt =====
-- A small picture through `toRLE`, `decodeImage` and `buildSVG`.
use unouns_monorepo.Base.{
  ◌-◌, ℕ, zero, suc, ◌||◌, ◌≤◌, ◌<◌, ◌≡◌, ◌≢◌, refl, arith, Bool, true, false, ◌&&◌, Option, none,
  some, List, [], ◌∷◌, ◌++◌, ◌==◌, if◌then◌else◌, length, codes, map,
}
use unouns_monorepo.Base.Text.{Text}
use unouns_monorepo.Sdk.Image.{RgbaColor, Image, Colors, calc_bounds, indexes_of, to_rle}
use unouns_monorepo.Sdk.Image.Bounds.{calc_bounds_cover}
use unouns_monorepo.Sdk.Image.Palette.{Stand}
use unouns_monorepo.Sdk.Image.Palette.Scan.{pixels_of}
use unouns_monorepo.Sdk.Svg.{SvgRect, draw_rects, part_rects, build_svg}
use unouns_monorepo.Sdk.Svg.Draw.{cells}
use unouns_monorepo.Sdk.Svg.Raster.{raster, draw_rects-raster}
use unouns_monorepo.Sdk.Svg.RoundTrip.{to_rle-drawn}
use unouns_monorepo.Sdk.Encoder.{PngCollectionEncoder, new_encoder, encode_image}

-- four by three pixels, with two red ones in the second row
abbrev pixel : ℕ → ℕ → RgbaColor
pixel x y =
    if y == 1 && (x == 1 || x == 2)
    then record { r = 255; g = 0; b = 0; a = 255 }
    else record { r = 0; g = 0; b = 0; a = 0 }

abbrev picture : Image
picture = record {
  width = 4;
  height = 3;
  bounds = record { top = 0; bottom = 0; left = 0; right = 0 };
  get_rgba_at = pixel;
  tuples = [];
}

-- the palette before any image
abbrev palette : Colors
palette = ([], 0) ∷ []

calc_bounds_test : calc_bounds picture ≡ record { top = 1; bottom = 1; left = 1; right = 3 }
unfolding calc_bounds
calc_bounds_test = refl

to_rle_test : (to_rle picture palette).1.1 ≡ codes "0x00010301010201"
unfolding to_rle
to_rle_test = refl

build_svg_test :
    build_svg (codes "0x00010301010201" ∷ []) (codes "" ∷ codes "ff0000" ∷ []) none
    ≡ some (
        codes
          "<svg width=\"320\" height=\"320\" viewBox=\"0 0 320 320\" xmlns=\"http://www.w3.org/2000/svg\" shape-rendering=\"crispEdges\"><rect width=\"100%\" height=\"100%\" fill=\"none\" /><rect width=\"20\" height=\"10\" x=\"10\" y=\"10\" fill=\"#ff0000\" /></svg>")
unfolding build_svg unouns_monorepo.Base.Text.join
build_svg_test = refl

few : length (indexes_of picture (calc_bounds picture) palette).0 ≤ 256
unfolding calc_bounds indexes_of
few = omega arith

calc_bounds_cover_example :
    let b = calc_bounds picture in (b.top ≤ 1) × (1 ≤ b.bottom) × (b.left ≤ 2) × (2 < b.right)
calc_bounds_cover_example =
    calc_bounds_cover picture 2 1 (omega arith) (omega arith) (λ e. omega arith)

draw_rects-raster_example :
    cells (draw_rects 1 3 ((3, 2) ∷ (1, 0) ∷ []) (2, 5)) ≡ raster 1 2 5 1 (2 ∷ 2 ∷ 2 ∷ 0 ∷ [])
draw_rects-raster_example =
    draw_rects-raster 1 3 2 5 ((3, 2) ∷ (1, 0) ∷ []) (omega arith) (omega arith)

to_rle-drawn_example :
    let b = calc_bounds picture in
    (rects : List SvgRect) × (indexes : List ℕ) × (part_rects (to_rle picture palette).1.1
      ≡ some rects)
    × (cells rects ≡ raster b.left (b.right - b.left) b.top 0 indexes)
    × Stand (to_rle picture palette).1.0 indexes (pixels_of picture b)
to_rle-drawn_example =
    to_rle-drawn picture palette (refl, tt) (omega arith) (omega arith) (omega arith) few 2 1
      (omega arith) (omega arith) (λ e. omega arith)

-- a collection with one image in a folder and one outside
abbrev collection : PngCollectionEncoder
collection = record {
  colors = ([], 0) ∷ [];
  images = ("red", codes "0x00") ∷ ("blue", codes "0x01") ∷ [];
  folders = ("heads", "blue" ∷ []) ∷ [];
}

encode_image_test :
    (encode_image "red" picture (some "heads") (new_encoder none)).0.images
    ≡ ("red", codes "0x00010301010201") ∷ []
unfolding encode_image new_encoder
encode_image_test = refl
