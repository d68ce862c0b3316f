-- ===== src/Webapp/Logs/Ranges.antt =====
-- The ranges of blocks that the updater asks for.
use unouns_monorepo.Base.{
  ℕ, zero, suc, ◌+◌, ◌-◌, ◌%◌, ◌==◌, ltb, le→leb, ap, ◌∙◌, ◌≤◌, ◌<◌, ◌≡◌, sym, ◌⊎◌, inl, inr, refl,
  arith, Bool, true, false, List, [], ◌∷◌, leb, min, if◌then◌else◌, count_by, ◌&&◌,
}
use unouns_monorepo.Webapp.Logs.{Range, ranges_from, ranges}

-- the range has the block
abbrev pub has_block : ℕ → Range → Bool
has_block b r = leb r.from_block b && leb b r.to_block

-- How often the blocks from `from` on are asked for.
abbrev pub visits : ℕ → List Range → ℕ
visits b rs = count_by (has_block b) rs

visits-before : (block fuel from b : ℕ) → b < from → visits b (ranges_from block fuel from) ≡ 0
unfolding ranges_from
visits-before block zero from b h = refl
visits-before block (suc fuel) from b h =
    ground (arith, visits-before block fuel (from + 1000000) b)

visits-after : (block fuel from b : ℕ) → block < b → visits b (ranges_from block fuel from) ≡ 0
unfolding ranges_from
visits-after block zero from b h = refl
visits-after block (suc fuel) from b h =
    ground (arith, visits-after block fuel (from + 1000000) b h)

-- one visit, and a second one where a later range begins at the block
abbrev pub twice_at : ℕ → ℕ → ℕ
twice_at from b = if ltb from b && (b - from) % 1000000 == 0 then 2 else 1

abbrev count_one : Bool → ℕ → ℕ
count_one t n = if t then suc n else n

ranges_from-round :
    (block fuel from b : ℕ)
    → from ≤ block
    → visits b (ranges_from block (suc fuel) from)
      ≡ count_one
          (leb from b && leb b (min (from + 1000000) block))
          (visits b (ranges_from block fuel (from + 1000000)))
unfolding ranges_from
ranges_from-round block fuel from b h =
    ap
      (λ t. visits b (
        if t
        then record { from_block = from; to_block = min (from + 1000000) block }
          ∷ ranges_from block fuel (from + 1000000)
        else []))
      (le→leb from block h)

three_ways : (a b : ℕ) → (a < b) ⊎ ((a ≡ b) ⊎ (b < a))
three_ways a b = ground arith

first_has :
    (from block b : ℕ)
    → from ≤ b
    → b ≤ block
    → b ≤ from + 1000000
    → (leb from b && leb b (min (from + 1000000) block)) ≡ true
first_has from block b h k l = ground arith

first_has_not :
    (from block b : ℕ)
    → from + 1000000 < b
    → (leb from b && leb b (min (from + 1000000) block)) ≡ false
first_has_not from block b h = ground arith

twice_near : (from b : ℕ) → from ≤ b → b < from + 1000000 → 1 ≡ twice_at from b
twice_near from b h k = ground arith

twice_end : (from b : ℕ) → b ≡ from + 1000000 → suc (twice_at (from + 1000000) b) ≡ twice_at from b
twice_end from b h = ground arith

twice_far : (from b : ℕ) → from + 1000000 < b → twice_at (from + 1000000) b ≡ twice_at from b
twice_far from b h = ground arith

visits-inside :
    (block fuel from b : ℕ)
    → suc block ≤ from + fuel
    → from ≤ b
    → b ≤ block
    → visits b (ranges_from block fuel from) ≡ twice_at from b
visits-inside block zero from b enough low high = ground arith
visits-inside block (suc fuel) from b enough low high =
    let step = ranges_from-round block fuel from b (omega arith) in
    elim (three_ways b (from + 1000000)) [
      | inl near ↦
          step
          ∙ ap (λ t. count_one t (visits b (ranges_from block fuel (from + 1000000))))
              (first_has from block b low high (omega arith))
          ∙ ap suc (visits-before block fuel (from + 1000000) b near)
          ∙ twice_near from b low near
      | inr (inl end) ↦
          step
          ∙ ap (λ t. count_one t (visits b (ranges_from block fuel (from + 1000000))))
              (first_has from block b low high (omega arith))
          ∙ ap suc (visits-inside block fuel (from + 1000000) b (omega arith) (omega arith) high)
          ∙ twice_end from b end
      | inr (inr far) ↦
          step
          ∙ ap (λ t. count_one t (visits b (ranges_from block fuel (from + 1000000))))
              (first_has_not from block b far)
          ∙ visits-inside block fuel (from + 1000000) b (omega arith) (omega arith) high
          ∙ twice_far from b far
    ]

-- how often a block is asked for between the first block and the current one
abbrev pub expected_visits : ℕ → ℕ → ℕ → ℕ
expected_visits from block b = if leb from b && leb b block then twice_at from b else 0

outside_or_inside :
    (from block b : ℕ)
    → (((from ≤ b) × (b ≤ block)) × ((leb from b && leb b block) ≡ true))
      ⊎ (((b < from) ⊎ (block < b)) × ((leb from b && leb b block) ≡ false))
outside_or_inside from block b = ground arith

-- Every block from the first one to the current one is in one of the ranges, and in two of them
-- exactly where a later range begins at it, since the bounds of a range are both included; no other
-- block is in any.
pub visits-ranges : (from block b : ℕ) → visits b (ranges from block) ≡ expected_visits from block b
unfolding ranges
visits-ranges from block b = elim (outside_or_inside from block b) [
  | inl ((low, high), inside) ↦
      visits-inside block (suc block - from) from b (omega arith) low high
      ∙ ap (λ t. if t then twice_at from b else 0) (sym inside)
  | inr (inl before, outside) ↦
      visits-before block (suc block - from) from b before
      ∙ ap (λ t. if t then twice_at from b else 0) (sym outside)
  | inr (inr after, outside) ↦
      visits-after block (suc block - from) from b after
      ∙ ap (λ t. if t then twice_at from b else 0) (sym outside)
]
