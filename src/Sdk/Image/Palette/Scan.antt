-- ===== src/Sdk/Image/Palette/Scan.antt =====
-- The indexes that the loops of `toRLE` push for the pixels inside the bounds.
use unouns_monorepo.Base.{
  ℕ, zero, suc, ◌-◌, ◌≡◌, sym, subst, arith, some, List, [], ◌∷◌, ◌++◌, append_assoc, append-nil,
  ◌==◌, Bool-cases, inl, inr,
}
use unouns_monorepo.Sdk.Image.{
  RgbaColor, ImageBounds, Image, Colors, color_index, add_color, hex_of, pixel_index, index_row,
  index_rows, indexes_of,
}
use unouns_monorepo.Sdk.Image.Palette.{
  Numbered, color_at, Extends, StandsFor, Stand, color_at-Extends, Extends-refl, Extends-trans,
  add_color-IsAdded,
}

StandsFor-Extends :
    (colors known : Colors) (i : ℕ) (c : RgbaColor)
    → Extends colors known
    → StandsFor colors i c
    → StandsFor known i c
StandsFor-Extends colors known i c more (inl clear) = inl clear
StandsFor-Extends colors known i c more (inr (seen, place)) =
    inr (seen, color_at-Extends colors known i (hex_of c) more place)

Stand-Extends :
    (colors known : Colors) (is : List ℕ) (cs : List RgbaColor)
    → Extends colors known
    → Stand colors is cs
    → Stand known is cs
Stand-Extends colors known [] [] more h = tt
Stand-Extends colors known (i ∷ is) (c ∷ cs) more h =
    (StandsFor-Extends colors known i c more h.0, Stand-Extends colors known is cs more h.1)
Stand-Extends colors known [] (c ∷ cs) more h = h
Stand-Extends colors known (i ∷ is) [] more h = h

Stand-append :
    (known : Colors) (is : List ℕ) (cs : List RgbaColor) (i : ℕ) (c : RgbaColor)
    → Stand known is cs
    → StandsFor known i c
    → Stand known (is ++ i ∷ []) (cs ++ c ∷ [])
Stand-append known [] [] i c h k = (k, tt)
Stand-append known (j ∷ is) (d ∷ cs) i c h k = (h.0, Stand-append known is cs i c h.1 k)
Stand-append known [] (d ∷ cs) i c h k = elim h [ ]
Stand-append known (j ∷ is) [] i c h k = elim h [ ]

pixel_index-StandsFor :
    (known : Colors) (c : RgbaColor) (i : ℕ)
    → color_index known (hex_of c) ≡ some i
    → color_at known i ≡ some (hex_of c)
    → StandsFor known (pixel_index known c) c
pixel_index-StandsFor known c i found place = elim (Bool-cases (c.a == 0)) [
  | inl clear ↦ inl (ground arith, ground (arith, clear))
  | inr seen ↦ inr (ground arith, ground (arith, seen, found, place))
]

-- the pixels of a row, and of the rows, in the order of the loops
abbrev pub row_pixels : (ℕ → ℕ → RgbaColor) → ℕ → ℕ → ℕ → List RgbaColor
row_pixels at y x zero = []
row_pixels at y x (suc n) = at x y ∷ row_pixels at y (suc x) n

abbrev pub rows_pixels : (ℕ → ℕ → RgbaColor) → ImageBounds → ℕ → ℕ → List RgbaColor
rows_pixels at b y zero = []
rows_pixels at b y (suc n) = row_pixels at y b.left (b.right - b.left) ++ rows_pixels at b (suc y) n

-- What a loop over pixels gives from `colors` and the indexes of the pixels before it.
record IsScanned (colors known : Colors) (indexes : List ℕ) (pixels : List RgbaColor) : Type 0 where
  numbered : Numbered 0 known
  extends : Extends colors known
  stand : Stand known indexes pixels

index_row-IsScanned :
    (at : ℕ → ℕ → RgbaColor) (y x n : ℕ) (colors : Colors) (indexes : List ℕ)
    (pixels : List RgbaColor)
    → Numbered 0 colors
    → Stand colors indexes pixels
    → let (known, pushed) = index_row at y x n colors indexes in
      IsScanned colors known pushed (pixels ++ row_pixels at y x n)
unfolding index_row
index_row-IsScanned at y x zero colors indexes pixels h k = record {
  numbered = h;
  extends = Extends-refl colors;
  stand = subst (Stand colors indexes) (sym (append-nil pixels)) k;
}
index_row-IsScanned at y x (suc n) colors indexes pixels h k =
    let c = at x y in
    let known = add_color colors (hex_of c) in
    let added = add_color-IsAdded colors (hex_of c) h in
    let one = pixel_index-StandsFor known c added.index added.found added.place in
    let before = Stand-Extends colors known indexes pixels added.extends k in
    let rest =
      index_row-IsScanned at y (suc x) n known (indexes ++ pixel_index known c ∷ [])
        (pixels ++ c ∷ []) added.numbered (Stand-append known indexes pixels _ c before one) in
    record {
      numbered = rest.numbered;
      extends = Extends-trans colors known _ added.extends rest.extends;
      stand =
          subst (Stand _ _) (append_assoc pixels (c ∷ []) (row_pixels at y (suc x) n)) rest.stand;
    }

index_rows-IsScanned :
    (at : ℕ → ℕ → RgbaColor) (b : ImageBounds) (y n : ℕ) (colors : Colors) (indexes : List ℕ)
    (pixels : List RgbaColor)
    → Numbered 0 colors
    → Stand colors indexes pixels
    → let (known, pushed) = index_rows at b y n colors indexes in
      IsScanned colors known pushed (pixels ++ rows_pixels at b y n)
unfolding index_rows
index_rows-IsScanned at b y zero colors indexes pixels h k = record {
  numbered = h;
  extends = Extends-refl colors;
  stand = subst (Stand colors indexes) (sym (append-nil pixels)) k;
}
index_rows-IsScanned at b y (suc n) colors indexes pixels h k =
    let row = index_row-IsScanned at y b.left (b.right - b.left) colors indexes pixels h k in
    let rest = index_rows-IsScanned at b (suc y) n _ _ _ row.numbered row.stand in
    record {
      numbered = rest.numbered;
      extends = Extends-trans colors _ _ row.extends rest.extends;
      stand =
          subst (Stand _ _)
            (append_assoc pixels (row_pixels at y b.left (b.right - b.left))
              (rows_pixels at b (suc y) n))
            rest.stand;
    }

-- the pixels inside the bounds of an image, row by row
abbrev pub pixels_of : Image → ImageBounds → List RgbaColor
pixels_of i b = rows_pixels i.get_rgba_at b b.top (suc b.bottom - b.top)

-- From a map in which every colour has the number of its place, reading the pixels inside the bounds
-- gives such a map again, with the colours that were there in front, and an index for each pixel in
-- order: 0 where it has no alpha, and the place of its colour in the new palette where
-- it has some.
pub indexes_of-Stand :
    (i : Image) (b : ImageBounds) (colors : Colors)
    → Numbered 0 colors
    → let (known, indexes) = indexes_of i b colors in
      Numbered 0 known × Extends colors known × Stand known indexes (pixels_of i b)
unfolding indexes_of
indexes_of-Stand i b colors h =
    let scanned =
      index_rows-IsScanned i.get_rgba_at b b.top (suc b.bottom - b.top) colors [] [] h tt in
    (scanned.numbered, scanned.extends, scanned.stand)
