-- ===== src/Webapp/Bid/Spinner.antt =====
-- The spinner on the button of packages/nouns-webapp/src/components/Bid/index.tsx, by what comes
-- first: the end of the transaction, or the auction with the bid of it.
use unouns_monorepo.Base.{
  Bool, true, false, Option, some, String, List, [], ◌∷◌, ◌++◌, map, str_eq, ◌>>=◌, ◌≡◌, refl, ap,
  ◌∙◌, arith,
}
use unouns_monorepo.Base.Int.{ℤ, pos}
use unouns_monorepo.Webapp.Alerts.{
  TransactionState, status_of, not_started, mining, success, alert, words,
}
use unouns_monorepo.Webapp.Auctions.{Auction}
use unouns_monorepo.Webapp.Bid.{
  EtherTexts, BidState, set_bid_button_content, set_place_bid_state, current_bid,
}
use unouns_monorepo.Webapp.Bid.Effects.{
  BidChange, BidPage, place_bid_changed, auction_changed, auction_ended_changed, bid_placed,
  auction_effect, place_bid_effect, settle_auction_effect, bid_step, run_bid,
}

-- a page of which an auction runs
abbrev pub running : Auction → BidState → BidPage
running auction s = record { auction = auction; auction_ended = false; bid = s }

abbrev last_auction : Auction → List Auction → Auction
last_auction auction [] = auction
last_auction auction (a ∷ auctions) = last_auction a auctions

module _ (ether : EtherTexts) (account : String) where
  auction_effect-success :
      (auction : Auction) (s : BidState) (bid : ℤ)
      → s.place_bid_state.status ≡ success
      → current_bid ether s.input_value ≡ some bid
      → auction_effect ether (some account) auction s ≡ some s
  unfolding auction_effect
  auction_effect-success auction s bid h k = ground arith

  -- later auctions change nothing but the auction
  run_bid-auctions :
      (auctions : List Auction) (changes : List BidChange) (auction : Auction) (s : BidState)
      (bid : ℤ)
      → s.place_bid_state.status ≡ success
      → current_bid ether s.input_value ≡ some bid
      → run_bid ether (some account) (map auction_changed auctions ++ changes) (running auction s)
        ≡ run_bid ether (some account) changes (running (last_auction auction auctions) s)
  unfolding run_bid bid_step
  run_bid-auctions [] changes auction s bid h k = refl
  run_bid-auctions (a ∷ auctions) changes auction s bid h k =
      ap
        (λ o.
          o
          >>= (λ t. some (running a t))
          >>= run_bid ether (some account) (map auction_changed auctions ++ changes))
        (auction_effect-success a s bid h k)
      ∙ run_bid-auctions auctions changes a s bid h k

  -- the state with a spinner for a transaction
  abbrev started : TransactionState → BidState → BidState
  started state s = set_bid_button_content true "" (set_place_bid_state (status_of state) s)

  -- the transaction of a bid is mined and succeeds
  abbrev pub succeeding : List BidChange → List BidChange
  succeeding changes =
      place_bid_changed (status_of mining) ∷ place_bid_changed (status_of success) ∷ changes

  run_bid-succeeding :
      (changes : List BidChange) (auction : Auction) (s : BidState) (bid : ℤ)
      → str_eq auction.bidder account ≡ false
      → current_bid ether s.input_value ≡ some bid
      → run_bid ether (some account) (succeeding changes) (running auction s)
        ≡ run_bid ether (some account) changes (running auction (started success s))
  unfolding run_bid bid_step auction_effect place_bid_effect
  run_bid-succeeding changes auction s bid h k = ground arith

  -- the button of the page that a run leads to, where it leads to one
  abbrev pub has_spinner : Option BidPage → Option Bool
  has_spinner o = do p ← o; some p.bid.loading

  spinner-auctions :
      (auctions : List Auction) (changes : List BidChange) (auction : Auction) (s : BidState)
      (bid : ℤ)
      → str_eq auction.bidder account ≡ false
      → current_bid ether s.input_value ≡ some bid
      → run_bid ether
          (some account)
          (succeeding (map auction_changed auctions ++ changes))
          (running auction s)
        ≡ run_bid ether
            (some account)
            changes
            (running (last_auction auction auctions) (started success s))
  spinner-auctions auctions changes auction s bid h k =
      run_bid-succeeding (map auction_changed auctions ++ changes) auction s bid h k
      ∙ run_bid-auctions auctions changes auction (started success s) bid refl k

  -- An auction runs whose last bid is another user's, the amount in the field can be read, and no
  -- settlement has been sent. Where the transaction of a bid is mined and succeeds before the store has
  -- the auction with that bid, the button keeps its spinner, whatever auctions follow, as long as the
  -- component does not hear that the auction has ended; then it loses the spinner.
  pub run_bid-spinner :
      (auctions : List Auction) (auction : Auction) (s : BidState) (bid : ℤ)
      → str_eq auction.bidder account ≡ false
      → current_bid ether s.input_value ≡ some bid
      → s.settle_auction_state.status ≡ not_started
      → (has_spinner (
            run_bid ether
              (some account)
              (succeeding (map auction_changed auctions ++ []))
              (running auction s))
          ≡ some true)
        × (has_spinner (
              run_bid ether
                (some account)
                (succeeding (map auction_changed auctions ++ (auction_ended_changed true ∷ [])))
                (running auction s))
            ≡ some false)
  unfolding run_bid bid_step settle_auction_effect place_bid_effect
  run_bid-spinner auctions auction s bid h k unsettled = (
    ap has_spinner (spinner-auctions auctions [] auction s bid h k),
    ap has_spinner (spinner-auctions auctions (auction_ended_changed true ∷ []) auction s bid h k)
        ∙ ground (arith, unsettled),
  )

  -- The store has the auction with the amount in the field, as the user's bid, first: the button loses
  -- its spinner, the dialogue tells of the success and the field is empty.
  run_bid-placed :
      (auction next : Auction) (s : BidState)
      → str_eq auction.bidder account ≡ false
      → str_eq next.bidder account ≡ true
      → current_bid ether s.input_value ≡ some (pos next.amount)
      → (t : BidState) × ((run_bid ether
              (some account)
              (place_bid_changed (status_of mining) ∷ auction_changed next ∷ [])
              (running auction s)
            ≡ some (running next t))
          × ((t.loading ≡ false)
              × ((t.input_value ≡ [])
                  × (t.alert_modal
                      ≡ some (alert "Success" (words "Bid was placed successfully!"))))))
  unfolding run_bid bid_step auction_effect place_bid_effect bid_placed
  run_bid-placed auction next s h k l =
      (bid_placed (started mining s), (ground arith, (refl, (refl, refl))))
