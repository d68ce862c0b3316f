-- ===== src/Sdk/Svg/RoundTrip.antt =====
-- What `toRLE` writes, `decodeImage` reads and `buildSVG` draws.
use unouns_monorepo.Base.{
  ℕ, zero, suc, ◌-◌, ◌/◌, ◌%◌, ◌≤◌, ◌<◌, ◌≡◌, ◌≢◌, refl, ap, ◌∙◌, arith, Option, some, List, [],
  ◌∷◌, ◌++◌, ◌>>=◌, length, All, map, inl, inr,
}
use unouns_monorepo.Base.Text.{Text}
use unouns_monorepo.Sdk.Hex.{digit, to_padded_hex, parse_hex, to_padded_hex-byte, parse_hex-two}
use unouns_monorepo.Sdk.Image.{
  RgbaColor, ImageBounds, Image, Colors, hex_of, run_text, metadata, calc_bounds, indexes_of,
  to_rle,
}
use unouns_monorepo.Sdk.Image.Bounds.{calc_bounds-IsInside, calc_bounds_cover}
use unouns_monorepo.Sdk.Image.Palette.{Numbered, color_at, StandsFor, Stand}
use unouns_monorepo.Sdk.Image.Palette.Scan.{pixels_of, indexes_of-Stand}
use unouns_monorepo.Sdk.Image.Runs.{
  FitsBytes, all_runs, expand, runs_text, encode-runs, expand-all_runs, all_runs-FitsBytes,
}
use unouns_monorepo.Sdk.Svg.{
  DecodedImage, SvgRect, hex_field, fours, decode_image, draw_rects, draw_decoded, all_numbers,
  part_rects,
}
use unouns_monorepo.Sdk.Svg.Draw.{cells}
use unouns_monorepo.Sdk.Svg.Raster.{raster, draw_rects-raster}

-- the two digits of a byte
abbrev byte : ℕ → Text
byte c = digit (c / 16) ∷ digit (c % 16) ∷ []

parse_hex-byte : (c : ℕ) → c < 256 → parse_hex (byte c) ≡ some c
parse_hex-byte c h =
    parse_hex-two (c / 16) (c % 16) (omega arith) (omega arith) ∙ ap some (omega arith)

run_text-byte :
    (count value : ℕ) → count < 256 → value < 256 → run_text count value ≡ byte count ++ byte value
unfolding run_text
run_text-byte count value h k =
    ap (λ t. t ++ to_padded_hex value) (to_padded_hex-byte count h)
    ∙ ap (λ t. byte count ++ t) (to_padded_hex-byte value k)

-- the numbers of a run, as they are read
abbrev pub both : ℕ × ℕ → Option ℕ × Option ℕ
both (count, value) = (some count, some value)

abbrev read_rect : Text → Option ℕ × Option ℕ
read_rect rect = (hex_field rect 0, hex_field rect 2)

fours-runs_text :
    (rs : List (ℕ × ℕ)) → All FitsBytes rs → map read_rect (fours (runs_text rs)) ≡ map both rs
unfolding fours
fours-runs_text [] h = refl
fours-runs_text ((count, value) ∷ rs) h =
    let (_, short, small) = h.0 in
    ap (λ t. map read_rect (fours (t ++ runs_text rs))) (run_text-byte count value short small)
    ∙ ap (λ t. (t, parse_hex (byte value)) ∷ map read_rect (fours (runs_text rs)))
        (parse_hex-byte count short)
    ∙ ap (λ t. (some count, t) ∷ map read_rect (fours (runs_text rs))) (parse_hex-byte value small)
    ∙ ap (λ t. both (count, value) ∷ t) (fours-runs_text rs h.1)

all_numbers-both : (rs : List (ℕ × ℕ)) → all_numbers (map both rs) ≡ some rs
unfolding all_numbers
all_numbers-both [] = refl
all_numbers-both ((count, value) ∷ rs) =
    ap (λ o. o >>= λ later. some ((count, value) ∷ later)) (all_numbers-both rs)

-- bounds that are bytes
abbrev ByteBounds : ImageBounds → Type 0
ByteBounds b = (b.top < 256) × (b.bottom < 256) × (b.left < 256) × (b.right < 256)

metadata-byte :
    (b : ImageBounds)
    → ByteBounds b
    → metadata b ≡ byte 0 ++ (byte b.top ++ (byte b.right ++ (byte b.bottom ++ byte b.left)))
metadata-byte b (top, bottom, left, right) =
    rw
      (
        to_padded_hex-byte 0 (omega arith),
        to_padded_hex-byte b.top top,
        to_padded_hex-byte b.right right,
        to_padded_hex-byte b.bottom bottom,
        to_padded_hex-byte b.left left,
      )
      refl

abbrev pub assembled :
    Option ℕ → Option ℕ → Option ℕ → Option ℕ → Option ℕ → List (Option ℕ × Option ℕ) → DecodedImage
assembled palette_index top right bottom left rects = record {
  palette_index = palette_index;
  bounds = record { top = top; right = right; bottom = bottom; left = left };
  rects = rects;
}

abbrev pub decoded : ImageBounds → List (Option ℕ × Option ℕ) → DecodedImage
decoded b rects = assembled (some 0) (some b.top) (some b.right) (some b.bottom) (some b.left) rects

-- The text of bounds that are bytes and of runs that fit bytes is decoded to those numbers.
decode_image-encoded :
    (b : ImageBounds) (rs : List (ℕ × ℕ))
    → ByteBounds b
    → All FitsBytes rs
    → decode_image (b'0' ∷ b'x' ∷ metadata b ++ runs_text rs) ≡ decoded b (map both rs)
unfolding decode_image
decode_image-encoded b rs bytes h =
    let (top, bottom, left, right) = bytes in
    ap (λ t. decode_image (b'0' ∷ b'x' ∷ t ++ runs_text rs)) (metadata-byte b bytes) ∙ (λ i.
      assembled (parse_hex-byte 0 (omega arith) i) (parse_hex-byte b.top top i)
        (parse_hex-byte b.right right i) (parse_hex-byte b.bottom bottom i)
        (parse_hex-byte b.left left i) (fours-runs_text rs h i))

-- What is drawn from decoded numbers.
part_rects-decoded :
    (text : Text) (b : ImageBounds) (rs : List (ℕ × ℕ))
    → decode_image text ≡ decoded b (map both rs)
    → part_rects text ≡ some (draw_rects b.left b.right rs (b.left, b.top))
unfolding part_rects draw_decoded
part_rects-decoded text b rs h =
    ap draw_decoded h
    ∙ ap (λ o. o >>= λ draws. some (draw_rects b.left b.right draws (b.left, b.top)))
        (all_numbers-both rs)

place_lt : (known : Colors) (n : ℕ) (hex : Text) → color_at known n ≡ some hex → n < length known
unfolding color_at
place_lt [] n hex h = ground arith
place_lt ((key, _) ∷ known) zero hex h = omega arith
place_lt ((key, _) ∷ known) (suc n) hex h = omega (arith, place_lt known n hex h)

StandsFor-lt :
    (known : Colors) (i : ℕ) (c : RgbaColor) → length known ≤ 256 → StandsFor known i c → i < 256
StandsFor-lt known i c few (inl (clear, zeroth)) = omega arith
StandsFor-lt known i c few (inr (seen, place)) = omega (arith, place_lt known i (hex_of c) place)

Stand-All :
    (known : Colors) (is : List ℕ) (cs : List RgbaColor)
    → length known ≤ 256
    → Stand known is cs
    → All (λ i. i < 256) is
Stand-All known [] [] few h = tt
Stand-All known (i ∷ is) (c ∷ cs) few h =
    (StandsFor-lt known i c few h.0, Stand-All known is cs few h.1)
Stand-All known [] (c ∷ cs) few h = elim h [ ]
Stand-All known (i ∷ is) [] few h = elim h [ ]

module _ (i : Image) (colors : Colors) (numbered : Numbered 0 colors) (rows : 0 < i.height)
    (high : i.height ≤ 256) (wide : i.width < 256)
    (few : length (indexes_of i (calc_bounds i) colors).0 ≤ 256) where
  inside_bytes : ByteBounds (calc_bounds i)
  inside_bytes =
      let (order, below, ahead, within) = calc_bounds-IsInside i rows in
      (omega arith, omega arith, omega arith, omega arith)

  index_runs-FitsBytes : All FitsBytes (all_runs (indexes_of i (calc_bounds i) colors).1)
  index_runs-FitsBytes =
      let (_, _, stand) = indexes_of-Stand i (calc_bounds i) colors numbered in
      all_runs-FitsBytes _ (Stand-All _ _ _ few stand)

  -- For an image of 1 to 256 rows and fewer than 256 columns, from a map of colours in the order of
  -- their numbers that does not grow past 256 colours, the text of `toRLE` is decoded to palette 0,
  -- the bounds that `calcBounds` found and runs that expand to the indexes of the pixels.
  to_rle-decoded :
      (rs : List (ℕ × ℕ)) × (decode_image (to_rle i colors).1.1
        ≡ decoded (calc_bounds i) (map both rs))
      × (expand rs ≡ (indexes_of i (calc_bounds i) colors).1)
  unfolding to_rle
  to_rle-decoded =
      let indexes = (indexes_of i (calc_bounds i) colors).1 in
      (
        all_runs indexes,
        ap (λ t. decode_image (b'0' ∷ b'x' ∷ metadata (calc_bounds i) ++ t))
              (encode-runs i.tuples indexes)
            ∙ decode_image-encoded (calc_bounds i) _ inside_bytes index_runs-FitsBytes,
        expand-all_runs indexes,
      )

  -- For an image of 1 to 256 rows and fewer than 256 columns with a pixel that has some alpha, from a
  -- map of colours in the order of their numbers that does not grow past 256 colours: drawing the text
  -- of `toRLE` gives rectangles that cover exactly the pixels whose index is not 0, where the indexes fill
  -- the area inside the bounds line by line from its left top corner on; the index of a pixel stands for it in the palette that `toRLE` leaves: 0 where it has no
  -- alpha, else its colour's place.
  pub to_rle-drawn :
      (x y : ℕ)
      → x < i.width
      → y < i.height
      → RgbaColor.a (i.get_rgba_at x y) ≢ 0
      → let b = calc_bounds i in
        (rects : List SvgRect) × (indexes : List ℕ) × (part_rects (to_rle i colors).1.1
          ≡ some rects)
        × (cells rects ≡ raster b.left (b.right - b.left) b.top 0 indexes)
        × Stand (to_rle i colors).1.0 indexes (pixels_of i b)
  unfolding to_rle
  to_rle-drawn x y column row seen =
      let b = calc_bounds i in
      let (rs, read, same) = to_rle-decoded in
      let (_, _, left, right) = calc_bounds_cover i x y column row seen in
      let (_, _, stand) = indexes_of-Stand i b colors numbered in
      let first : b.left - b.left ≡ 0 = omega arith in
      (
        draw_rects b.left b.right rs (b.left, b.top),
        (indexes_of i b colors).1,
        part_rects-decoded _ b rs read,
        draw_rects-raster b.left b.right b.left b.top rs (omega arith) (omega arith)
            ∙ ap (λ k. raster b.left (b.right - b.left) b.top k (expand rs)) first
            ∙ ap (raster b.left (b.right - b.left) b.top 0) same,
        stand,
      )
