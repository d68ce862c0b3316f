-- ===== src/Webapp/Display/Moves.antt =====
-- The moves of the reader between auctions.
use unouns_monorepo.Base.{
  ℕ, zero, suc, ◌≤◌, ◌<◌, ◌≡◌, ◌⊎◌, inl, inr, refl, ap, ◌∙◌, arith, List, [], ◌∷◌,
}
use unouns_monorepo.Webapp.Display.{
  set_prev_on_display_auction_unoun_id, set_next_on_display_auction_unoun_id, Move, prev, next,
  moves, showing,
}

prev-suc :
    (last id : ℕ) → set_prev_on_display_auction_unoun_id (showing last (suc id)) ≡ showing last id
unfolding set_prev_on_display_auction_unoun_id
prev-suc last id = refl

prev-zero : (last : ℕ) → set_prev_on_display_auction_unoun_id (showing last 0) ≡ showing last 0
unfolding set_prev_on_display_auction_unoun_id
prev-zero last = refl

next-lt :
    (last id : ℕ)
    → id < last
    → set_next_on_display_auction_unoun_id (showing last id) ≡ showing last (suc id)
unfolding set_next_on_display_auction_unoun_id
next-lt last id h = ground arith

next-last :
    (last : ℕ) → set_next_on_display_auction_unoun_id (showing last last) ≡ showing last last
unfolding set_next_on_display_auction_unoun_id
next-last last = ground arith

le-cases : (a b : ℕ) → a ≤ b → (a < b) ⊎ (a ≡ b)
le-cases a b h = ground arith

next-cases :
    (last id : ℕ)
    → id ≤ last
    → (shown : ℕ) × (shown ≤ last)
      × (set_next_on_display_auction_unoun_id (showing last id) ≡ showing last shown)
next-cases last id h = elim (le-cases id last h) [
  | inl before ↦ (suc id, before, next-lt last id before)
  | inr at_last ↦ (
    last,
    omega arith,
    ap (λ n. set_next_on_display_auction_unoun_id (showing last n)) at_last ∙ next-last last,
  )
]

-- Where an auction up to the last one is on display, moves show auctions up to the last one only.
moves-IsInRange :
    (ms : List Move) (last id : ℕ)
    → id ≤ last
    → (shown : ℕ) × (shown ≤ last) × (moves ms (showing last id) ≡ showing last shown)
moves-IsInRange [] last id h = (id, h, refl)
moves-IsInRange (prev ∷ ms) last zero h =
    let (final, below, rest) = moves-IsInRange ms last 0 h in
    (final, below, ap (moves ms) (prev-zero last) ∙ rest)
moves-IsInRange (prev ∷ ms) last (suc id) h =
    let (final, below, rest) = moves-IsInRange ms last id (omega arith) in
    (final, below, ap (moves ms) (prev-suc last id) ∙ rest)
moves-IsInRange (next ∷ ms) last id h =
    let (shown, low, step) = next-cases last id h in
    let (final, below, rest) = moves-IsInRange ms last shown low in
    (final, below, ap (moves ms) step ∙ rest)
