-- ===== src/Sdk/Image/Palette.antt =====
-- The map of colours of packages/nouns-sdk/src/image/image.ts: a colour's index is its place in the
-- palette, and the indexes of the pixels stand for their colours.
pub mod Scan
use unouns_monorepo.Base.{
  ℕ, zero, suc, ◌+◌, ◌-◌, ◌≤◌, ◌≡◌, ◌≢◌, ◌⊎◌, refl, sym, subst, ap, ◌∙◌, arith, Option, none, some,
  List, [], ◌∷◌, ◌++◌, append_assoc, append-nil, ◌==◌, length, Option-cases, Bool-cases, inl, inr,
}
use unouns_monorepo.Base.Text.{Text, same_text, same_text_refl, same_text→≡}
use unouns_monorepo.Sdk.Image.{
  RgbaColor, ImageBounds, Image, Colors, color_index, add_color, hex_of, pixel_index, index_row,
  index_rows, indexes_of,
}

-- The colours are numbered from `n` on, in their order.
abbrev pub Numbered : ℕ → Colors → Type 0
Numbered n [] = Unit
Numbered n ((key, index) ∷ rest) = (index ≡ n) × Numbered (suc n) rest

-- the colour at a place of the palette `[...colors.keys()]`
unfoldable pub color_at : Colors → ℕ → Option Text
color_at [] n = none
color_at ((key, _) ∷ rest) zero = some key
color_at ((key, _) ∷ rest) (suc n) = color_at rest n

-- `known` has the colours of `colors` in front of others.
abbrev pub Extends : Colors → Colors → Type 0
Extends colors known = (more : Colors) × (known ≡ colors ++ more)

-- An index stands for a pixel: 0 for a pixel without alpha, the place of its colour for another.
abbrev pub StandsFor : Colors → ℕ → RgbaColor → Type 0
StandsFor known index c =
    ((c.a ≡ 0) × (index ≡ 0)) ⊎ ((c.a ≢ 0) × (color_at known index ≡ some (hex_of c)))

abbrev pub Stand : Colors → List ℕ → List RgbaColor → Type 0
Stand known [] [] = Unit
Stand known (i ∷ is) (c ∷ cs) = StandsFor known i c × Stand known is cs
Stand known [] (c ∷ cs) = ⊥
Stand known (i ∷ is) [] = ⊥

Numbered-append :
    (n : ℕ) (colors : Colors) (hex : Text)
    → Numbered n colors
    → Numbered n (colors ++ (hex, n + length colors) ∷ [])
Numbered-append n [] hex h = (omega arith, tt)
Numbered-append n ((key, index) ∷ rest) hex h = (
  h.0,
  subst (λ m. Numbered (suc n) (rest ++ (hex, m) ∷ [])) (omega arith)
      (Numbered-append (suc n) rest hex h.1),
)

color_index-append :
    (colors : Colors) (hex : Text) (n : ℕ)
    → color_index colors hex ≡ none
    → color_index (colors ++ (hex, n) ∷ []) hex ≡ some n
unfolding color_index
color_index-append [] hex n h = ground (arith, same_text_refl hex)
color_index-append ((key, index) ∷ rest) hex n h = ground (arith, color_index-append rest hex n)

pub color_index_at :
    (n : ℕ) (colors : Colors) (hex : Text) (i : ℕ)
    → Numbered n colors
    → color_index colors hex ≡ some i
    → (n ≤ i) × (color_at colors (i - n) ≡ some hex)
unfolding color_index color_at
color_index_at n [] hex i h found = ground arith
color_index_at n ((key, index) ∷ rest) hex i h found = elim (Bool-cases (same_text key hex)) [
  | inl same ↦
      let at_n : index ≡ i = ground (arith, same) in
      let first : 0 ≡ i - n = omega (arith, h.0) in
      (
        omega (arith, h.0),
        subst (λ m. color_at ((key, index) ∷ rest) m ≡ some hex) first
            (ap some (same_text→≡ key hex same)),
      )
  | inr other ↦
      let later = color_index_at (suc n) rest hex i h.1 (ground (arith, other)) in
      let place : suc (i - suc n) ≡ i - n = omega (arith, later.0) in
      (
        omega (arith, later.0),
        subst (λ m. color_at ((key, index) ∷ rest) m ≡ some hex) place later.1,
      )
]

color_at-append :
    (colors more : Colors) (n : ℕ) (hex : Text)
    → color_at colors n ≡ some hex
    → color_at (colors ++ more) n ≡ some hex
unfolding color_at
color_at-append [] more n hex h = ground arith
color_at-append ((key, index) ∷ rest) more zero hex h = h
color_at-append ((key, index) ∷ rest) more (suc n) hex h = color_at-append rest more n hex h

pub color_at-Extends :
    (colors known : Colors) (n : ℕ) (hex : Text)
    → Extends colors known
    → color_at colors n ≡ some hex
    → color_at known n ≡ some hex
color_at-Extends colors known n hex (more, same) h =
    ap (λ t. color_at t n) same ∙ color_at-append colors more n hex h

pub Extends-refl : (colors : Colors) → Extends colors colors
Extends-refl colors = ([], sym (append-nil colors))

pub Extends-trans : (a b c : Colors) → Extends a b → Extends b c → Extends a c
Extends-trans a b c (m, h) (n, k) = (m ++ n, k ∙ ap (λ t. t ++ n) h ∙ append_assoc a m n)

-- What adding a colour gives: the numbers and the places of the others are kept, and the colour has
-- a place.
pub record IsAdded (colors : Colors) (hex : Text) (known : Colors) : Type 0 where
  pub numbered : Numbered 0 known
  pub extends : Extends colors known
  pub index : ℕ
  pub found : color_index known hex ≡ some index
  pub place : color_at known index ≡ some hex

pub color_index_place :
    (colors : Colors) (hex : Text) (i : ℕ)
    → Numbered 0 colors
    → color_index colors hex ≡ some i
    → color_at colors i ≡ some hex
color_index_place colors hex i h found =
    let same : i - 0 ≡ i = omega arith in
    subst (λ m. color_at colors m ≡ some hex) same (color_index_at 0 colors hex i h found).1

add_color-new :
    (colors : Colors) (hex : Text)
    → color_index colors hex ≡ none
    → add_color colors hex ≡ colors ++ (hex, length colors) ∷ []
unfolding add_color
add_color-new colors hex h = ground (arith, h)

add_color-old :
    (colors : Colors) (hex : Text) (i : ℕ)
    → color_index colors hex ≡ some i
    → add_color colors hex ≡ colors
unfolding add_color
add_color-old colors hex i h = ground (arith, h)

appended-IsAdded :
    (colors : Colors) (hex : Text)
    → Numbered 0 colors
    → color_index colors hex ≡ none
    → IsAdded colors hex (colors ++ (hex, length colors) ∷ [])
appended-IsAdded colors hex h new =
    let none_before : 0 + length colors ≡ length colors = omega arith in
    let known =
      subst (λ m. Numbered 0 (colors ++ (hex, m) ∷ [])) none_before
        (Numbered-append 0 colors hex h) in
    let found = color_index-append colors hex (length colors) new in
    record {
      numbered = known;
      extends = ((hex, length colors) ∷ [], refl);
      index = length colors;
      found = found;
      place = color_index_place _ hex (length colors) known found;
    }

pub add_color-IsAdded :
    (colors : Colors) (hex : Text) → Numbered 0 colors → IsAdded colors hex (add_color colors hex)
add_color-IsAdded colors hex h = elim (Option-cases (color_index colors hex)) [
  | inl new ↦
      subst (IsAdded colors hex) (sym (add_color-new colors hex new))
        (appended-IsAdded colors hex h new)
  | inr (i, old) ↦ subst (IsAdded colors hex) (sym (add_color-old colors hex i old)) (record {
    numbered = h;
    extends = Extends-refl colors;
    index = i;
    found = old;
    place = color_index_place colors hex i h old;
  })
]
