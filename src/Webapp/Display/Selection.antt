-- ===== src/Webapp/Display/Selection.antt =====
-- What `useOnDisplayAuction` shows.
use unouns_monorepo.Base.{
  ℕ, ◌≡◌, refl, sym, ap, ◌∙◌, arith, Bool, true, false, Option, none, some, List, [], ◌∷◌, ◌==◌,
  if◌then◌else◌,
}
use unouns_monorepo.Webapp.Auctions.{Auction, AuctionState}
use unouns_monorepo.Webapp.Display.{
  OnDisplayAuctionState, is_nounder_noun, is_unouncil_unoun, empty_nounder_auction, find_auction,
  generate_empty_auction, deserialize_auction, deserialize_found, select_auction,
  use_on_display_auction,
}

find_auction-id :
    (id : ℕ) (past : List AuctionState) (a : Auction)
    → find_auction id past ≡ some a
    → a.unoun_id ≡ id
unfolding find_auction
find_auction-id id [] a h = ground arith
find_auction-id id (s ∷ past) a h = ground (arith, find_auction-id id past a)

generate_empty_auction-id :
    (id : ℕ) (past : List AuctionState) → (generate_empty_auction id past).unoun_id ≡ id
unfolding generate_empty_auction empty_nounder_auction
generate_empty_auction-id id past = ground arith

-- what is shown, if anything is, is the auction of the id, and is not settled
abbrev Shows : ℕ → Option Auction → Type 0
Shows id o = (a : Auction) → o ≡ some a → (a.unoun_id ≡ id) × (a.settled ≡ false)

deserialize_auction-Shows :
    (id : ℕ) (a : Auction) → a.unoun_id ≡ id → Shows id (some (deserialize_auction a))
unfolding deserialize_auction
deserialize_auction-Shows id a h b same = ground (arith, h, same)

deserialize_found-Shows :
    (id : ℕ) (o : Option Auction)
    → ((a : Auction) → o ≡ some a → a.unoun_id ≡ id)
    → Shows id (deserialize_found o)
deserialize_found-Shows id none h a same = ground arith
deserialize_found-Shows id (some b) h a same = deserialize_auction-Shows id b (h b refl) a same

either-Shows :
    (id : ℕ) (t : Bool) (x y : Option Auction)
    → (t ≡ true → Shows id x)
    → Shows id y
    → Shows id (if t then x else y)
either-Shows id true x y h k = h refl
either-Shows id false x y h k = k

select_auction-Shows :
    (id : ℕ) (current : Auction) (past : List AuctionState)
    → Shows id (select_auction id current past)
unfolding select_auction
select_auction-Shows id current past =
    let empty =
      deserialize_auction-Shows id (generate_empty_auction id past)
        (generate_empty_auction-id id past) in
    either-Shows id (id == current.unoun_id) _ _
      (λ same. deserialize_auction-Shows id current (ground (arith, same)))
      (either-Shows id (is_nounder_noun id) _ _ (λ _. empty)
        (either-Shows id (is_unouncil_unoun id) _ _ (λ _. empty)
          (deserialize_found-Shows id (find_auction id past) (find_auction-id id past))))

shown_of-Shows :
    (id : ℕ) (o : Option Auction) (past : List AuctionState)
    → Shows id (elim o [ none ↦ none | some current ↦ select_auction id current past ])
shown_of-Shows id none past a h = ground arith
shown_of-Shows id (some current) past a h = select_auction-Shows id current past a h

-- The auction that is shown has the id that is on display and is never marked as settled, whichever
-- of the sources it comes from.
use_on_display_auction-id :
    (display : OnDisplayAuctionState) (state : AuctionState) (past : List AuctionState) (id : ℕ)
    (a : Auction)
    → display.on_display_auction_unoun_id ≡ some id
    → use_on_display_auction display state past ≡ some a
    → (a.unoun_id ≡ id) × (a.settled ≡ false)
unfolding use_on_display_auction
use_on_display_auction-id display state past id a shown h =
    let pick : Option ℕ → Option Auction = λ o. elim o [
      | none ↦ none
      | some i ↦ elim state.active_auction [
        | none ↦ none
        | some current ↦ select_auction i current past
      ]
    ] in
    shown_of-Shows id state.active_auction past a (ap pick (sym shown) ∙ h)
