-- ===== src/Sdk/Svg/Draw.antt =====
-- The rectangles of `buildSVG` against a reference that places one pixel at a time.
use unouns_monorepo.Base.{
  ℕ, zero, suc, ◌+◌, ◌-◌, ◌≤◌, ◌<◌, ◌≡◌, refl, sym, subst, ap, ◌∙◌, arith, List, [], ◌∷◌, ◌++◌,
  append_assoc, ◌==◌, ltb, leb, if◌then◌else◌, replicate, Bool-cases, inl, inr, ◌⊎◌,
}
use unouns_monorepo.Sdk.Svg.{SvgRect, Pen, rect_length, move_pen, draw_loop, draw_rects}
use unouns_monorepo.Sdk.Image.Runs.{expand}

-- a pixel of the picture with its colour index
pub record Cell : Type 0 where
  pub x : ℕ
  pub y : ℕ
  pub color_index : ℕ

abbrev line_cells : ℕ → ℕ → ℕ → ℕ → List Cell
line_cells x y color zero = []
line_cells x y color (suc n) =
    (record { x = x; y = y; color_index = color }) ∷ line_cells (suc x) y color n

-- the pixels that a rectangle covers, in units of ten
abbrev pub cells : List SvgRect → List Cell
cells [] = []
cells (rect ∷ rects) = line_cells rect.x rect.y rect.color_index rect.width ++ cells rects

-- One pixel after the other from the pen on; 0 is not drawn.
abbrev pub place : ℕ → ℕ → Pen → List ℕ → List Cell
place left right pen [] = []
place left right (x, y) (i ∷ indexes) =
    let rest = place left right (move_pen left right 1 (x, y)) indexes in
    if i == 0 then rest else (record { x = x; y = y; color_index = i }) ∷ rest

cells-append : (a b : List SvgRect) → cells (a ++ b) ≡ cells a ++ cells b
cells-append [] b = refl
cells-append (rect ∷ a) b =
    ap (λ t. line_cells rect.x rect.y rect.color_index rect.width ++ t) (cells-append a b)
    ∙ sym (append_assoc (line_cells rect.x rect.y rect.color_index rect.width) (cells a) (cells b))

-- one colour on one line
abbrev shown : ℕ → ℕ → ℕ → ℕ → List Cell
shown x y color n = if color == 0 then [] else line_cells x y color n

move_pen-one : (left right x y : ℕ) → suc x < right → move_pen left right 1 (x, y) ≡ (suc x, y)
move_pen-one left right x y h = ground arith

move_pen-suc :
    (left right x y n : ℕ) → move_pen left right (suc n) (x, y) ≡ move_pen left right n (suc x, y)
move_pen-suc left right x y n = ground arith

shown-suc :
    (x y color n : ℕ) (rest : List Cell)
    → (if color == 0
        then shown (suc x) y color n ++ rest
        else record { x = x; y = y; color_index = color } ∷ (shown (suc x) y color n ++ rest))
      ≡ shown x y color (suc n) ++ rest
shown-suc x y color n rest = elim (Bool-cases (color == 0)) [
  | inl clear ↦ ground (arith, clear)
  | inr seen ↦ ground (arith, seen)
]

place_line :
    (left right x y color n : ℕ) (rest : List ℕ)
    → x + suc n ≤ right
    → place left right (x, y) (replicate (suc n) color ++ rest)
      ≡ shown x y color (suc n) ++ place left right (move_pen left right (suc n) (x, y)) rest
place_line left right x y color zero rest h = ground arith
place_line left right x y color (suc n) rest h =
    let indexes = replicate (suc n) color ++ rest in
    let on : List Cell → List Cell =
      λ t. if color == 0 then t else record { x = x; y = y; color_index = color } ∷ t in
    let after : Pen = move_pen left right (suc (suc n)) (x, y) in
    ap on (
      ap (λ p. place left right p indexes) (move_pen-one left right x y (omega arith))
      ∙ place_line left right (suc x) y color n rest (omega arith)
      ∙ ap (λ p. shown (suc x) y color (suc n) ++ place left right p rest)
          (sym (move_pen-suc left right x y (suc n))))
    ∙ shown-suc x y color (suc n) (place left right after rest)

-- a rectangle of one colour in front of others, where the colour is drawn
abbrev push : ℕ → SvgRect → List SvgRect → List SvgRect
push color rect rects = if color == 0 then rects else rect ∷ rects

cells-push :
    (color n x y : ℕ) (rects : List SvgRect)
    → cells (push color (record { width = n; x = x; y = y; color_index = color }) rects)
      ≡ shown x y color n ++ cells rects
cells-push color n x y rects = elim (Bool-cases (color == 0)) [
  | inl clear ↦ ground (arith, clear)
  | inr seen ↦ ground (arith, seen)
]

-- one round of the loop, once its length is known
draw_loop-round :
    (left right color fuel n x y k : ℕ)
    → rect_length x n right ≡ suc k
    → let (rects, after) =
        draw_loop left right color fuel (n - suc k) (move_pen left right (suc k) (x, y)) in
      draw_loop left right color (suc fuel) n (x, y)
      ≡ (push color (record { width = suc k; x = x; y = y; color_index = color }) rects, after)
unfolding draw_loop
draw_loop-round left right color fuel n x y k h =
    ap
      (λ length.
        let (rects, after) =
          draw_loop left right color fuel (n - length) (move_pen left right length (x, y)) in
        if ltb 0 length
        then (
          push color (record { width = length; x = x; y = y; color_index = color }) rects,
          after,
        )
        else ([], (x, y)))
      h
    ∙ ground arith

rect_length-cases :
    (x n right : ℕ)
    → x < right
    → (n ≡ 0) ⊎ ((k : ℕ) × (rect_length x n right ≡ suc k) × (x + suc k ≤ right) × (suc k ≤ n))
rect_length-cases x zero right h = inl refl
rect_length-cases x (suc m) right h = elim (Bool-cases (leb (suc m) (right - x))) [
  | inl fits ↦ inr (m, ground (arith, fits), ground (arith, fits), omega arith)
  | inr long ↦ inr (right - x - 1, ground (arith, long), ground (arith, long), ground (arith, long))
]

move_pen-IsInside :
    (left right n x y : ℕ) → left < right → x + n ≤ right → (move_pen left right n (x, y)).0 < right
move_pen-IsInside left right n x y wide h = ground arith

replicate-split :
    (n k color : ℕ) (rest : List ℕ)
    → k ≤ n
    → replicate n color ++ rest ≡ replicate k color ++ (replicate (n - k) color ++ rest)
replicate-split n zero color rest h = ap (λ m. replicate m color ++ rest) (omega arith)
replicate-split zero (suc k) color rest h = ground arith
replicate-split (suc n) (suc k) color rest h =
    ap (λ t. color ∷ t)
      (replicate-split n k color rest (omega arith)
        ∙ ap (λ m. replicate k color ++ (replicate m color ++ rest)) (omega arith))

draw_loop-done :
    (left right color fuel n x y : ℕ)
    → n ≡ 0
    → draw_loop left right color (suc fuel) n (x, y) ≡ ([], (x, y))
unfolding draw_loop
draw_loop-done left right color fuel n x y h = ground arith

-- The rectangles and the pen that a draw of `n` pixels gives are those of placing its pixels one at a
-- time.
abbrev IsDrawn : ℕ → ℕ → ℕ → ℕ → List ℕ → Pen → List SvgRect × Pen → Type 0
IsDrawn left right color n rest pen (rects, after) =
    (place left right pen (replicate n color ++ rest) ≡ cells rects ++ place left right after rest)
    × (after.0 < right)

nothing-IsDrawn :
    (left right color n x y : ℕ) (rest : List ℕ)
    → n ≡ 0
    → x < right
    → IsDrawn left right color n rest (x, y) ([], (x, y))
nothing-IsDrawn left right color n x y rest h inside =
    (ap (λ m. place left right (x, y) (replicate m color ++ rest)) h, inside)

push-IsDrawn :
    (left right color n x y k : ℕ) (rest : List ℕ) (rects : List SvgRect) (after : Pen)
    → x + suc k ≤ right
    → suc k ≤ n
    → IsDrawn left right color (n - suc k) rest (move_pen left right (suc k) (x, y)) (rects, after)
    → IsDrawn left right color n rest
        (x, y)
        (push color (record { width = suc k; x = x; y = y; color_index = color }) rects, after)
push-IsDrawn left right color n x y k rest rects after fits short later = (
  ap (place left right (x, y)) (replicate-split n (suc k) color rest short)
      ∙ place_line left right x y color k (replicate (n - suc k) color ++ rest) fits
      ∙ ap (λ t. shown x y color (suc k) ++ t) later.0
      ∙ sym (append_assoc (shown x y color (suc k)) (cells rects) (place left right after rest))
      ∙ ap (λ t. t ++ place left right after rest) (sym (cells-push color (suc k) x y rects)),
  later.1,
)

draw_loop-IsDrawn :
    (left right color fuel n x y : ℕ) (rest : List ℕ)
    → left < right
    → x < right
    → n ≤ fuel
    → IsDrawn left right color n rest (x, y) (draw_loop left right color fuel n (x, y))
unfolding draw_loop
draw_loop-IsDrawn left right color zero n x y rest wide inside enough =
    nothing-IsDrawn left right color n x y rest (omega arith) inside
draw_loop-IsDrawn left right color (suc fuel) n x y rest wide inside enough =
    elim (rect_length-cases x n right inside) [
      | inl none ↦
          subst (IsDrawn left right color n rest (x, y))
            (sym (draw_loop-done left right color fuel n x y none))
            (nothing-IsDrawn left right color n x y rest none inside)
      | inr (k, length, fits, short) ↦
          let pen = move_pen left right (suc k) (x, y) in
          let later =
            draw_loop-IsDrawn left right color fuel (n - suc k) pen.0 pen.1 rest wide
              (move_pen-IsInside left right (suc k) x y wide fits) (omega arith) in
          subst (IsDrawn left right color n rest (x, y))
            (sym (draw_loop-round left right color fuel n x y k length))
            (push-IsDrawn left right color n x y k rest _ _ fits short later)
    ]

-- The rectangles that are drawn for runs, from a pen inside a line that is not empty, cover exactly
-- the pixels that the expanded runs place one at a time, and none for index 0.
pub draw_rects-place :
    (left right x y : ℕ) (draws : List (ℕ × ℕ))
    → left < right
    → x < right
    → cells (draw_rects left right draws (x, y)) ≡ place left right (x, y) (expand draws)
unfolding draw_rects
draw_rects-place left right x y [] wide inside = refl
draw_rects-place left right x y ((n, color) ∷ draws) wide inside =
    let drawn =
      draw_loop-IsDrawn left right color n n x y (expand draws) wide inside (omega arith) in
    let (rects, after) = draw_loop left right color n n (x, y) in
    cells-append rects (draw_rects left right draws after)
    ∙ ap (λ t. cells rects ++ t) (draw_rects-place left right after.0 after.1 draws wide drawn.1)
    ∙ sym drawn.0
