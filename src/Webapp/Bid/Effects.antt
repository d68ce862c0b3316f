-- ===== src/Webapp/Bid/Effects.antt =====
-- The effects of packages/nouns-webapp/src/components/Bid/index.tsx: how the button, the field and
-- the dialogue follow the transactions of the user and the auction in the store.
use unouns_monorepo.Base.{
  Bool, true, false, ◌&&◌, Option, none, some, String, List, [], ◌∷◌, str_eq, ◌>>=◌, if◌then◌else◌,
}
use unouns_monorepo.Base.Int.{pos, eq_ℤ}
use unouns_monorepo.Webapp.Alerts.{
  TransactionState, TransactionStatus, not_started, pending_signature, mining, success, fail,
  exception, alert, words, message_or,
}
use unouns_monorepo.Webapp.Auctions.{Auction}
use unouns_monorepo.Webapp.Bid.{
  EtherTexts, BidState, clear_bid_input, set_modal, set_bid_button_content, set_place_bid_state,
  set_settle_auction_state, current_bid,
}

abbrev pub is_mining : TransactionState → Bool
is_mining mining = true
is_mining _ = false

-- The bid of the auction is the one that the user's transaction places.
unfoldable pub bid_placed : BidState → BidState
bid_placed s = clear_bid_input (
    set_bid_button_content false "Place bid" (
      set_modal (alert "Success" (words "Bid was placed successfully!")) (
        set_place_bid_state
          (record { status = success; error_message = s.place_bid_state.error_message }) s)))

-- `none` where the amount in the field cannot be read
unfoldable pub auction_effect : EtherTexts → Option String → Auction → BidState → Option BidState
auction_effect ether none auction s = some s
auction_effect ether (some account) auction s = do
  bid ← current_bid ether s.input_value
  some (
      if is_mining s.place_bid_state.status
        && (str_eq auction.bidder account && eq_ℤ bid (pos auction.amount))
      then bid_placed s
      else s)

unfoldable pub place_bid_effect : Bool → BidState → BidState
place_bid_effect true s = s
place_bid_effect false s = elim s.place_bid_state.status [
  | not_started ↦ set_bid_button_content false "Place bid" s
  | pending_signature ↦ s
  | mining ↦ set_bid_button_content true "" s
  | success ↦ s
  | fail ↦ set_bid_button_content false "Bid" (
      set_modal
        (alert "Transaction Failed"
          (message_or s.place_bid_state.error_message "Please try again."))
        s)
  | exception ↦
      set_bid_button_content false "Bid" (
        set_modal (alert "Error" (message_or s.place_bid_state.error_message "Please try again."))
          s)
]

unfoldable pub settle_auction_effect : Bool → BidState → BidState
settle_auction_effect false s = s
settle_auction_effect true s = elim s.settle_auction_state.status [
  | not_started ↦ set_bid_button_content false "Settle Auction" s
  | pending_signature ↦ s
  | mining ↦ set_bid_button_content true "" s
  | success ↦
      set_bid_button_content false "Settle Auction"
        (set_modal (alert "Success" (words "Settled auction successfully!")) s)
  | fail ↦ set_bid_button_content false "Settle Auction" (
      set_modal
        (alert "Transaction Failed"
          (message_or s.settle_auction_state.error_message "Please try again."))
        s)
  | exception ↦ set_bid_button_content false "Settle Auction" (
      set_modal
        (alert "Error" (message_or s.settle_auction_state.error_message "Please try again.")) s)
]

-- what the component hears of: a new state of a transaction, a new auction in the store, or that the
-- auction has ended or another one runs
pub data BidChange : Type 0 where
  place_bid_changed : TransactionStatus → BidChange
  settle_auction_changed : TransactionStatus → BidChange
  auction_changed : Auction → BidChange
  auction_ended_changed : Bool → BidChange

-- the properties that the component was given last, and its state
pub record BidPage : Type 0 where
  pub auction : Auction
  pub auction_ended : Bool
  pub bid : BidState

-- React runs the effects whose dependencies have changed, in their order.
unfoldable pub bid_step : EtherTexts → Option String → BidChange → BidPage → Option BidPage
unfolding auction_effect place_bid_effect settle_auction_effect
bid_step ether account (place_bid_changed status) p = do
  t ← auction_effect ether account p.auction (set_place_bid_state status p.bid)
  some (record p { bid = place_bid_effect p.auction_ended t })
bid_step ether account (settle_auction_changed status) p = some (record p {
  bid = settle_auction_effect p.auction_ended (set_settle_auction_state status p.bid);
})
bid_step ether account (auction_changed auction) p = do
  t ← auction_effect ether account auction p.bid
  some (record p { auction = auction; bid = t })
bid_step ether account (auction_ended_changed ended) p = some (record p {
  auction_ended = ended;
  bid = settle_auction_effect ended (place_bid_effect ended p.bid);
})

unfoldable pub run_bid : EtherTexts → Option String → List BidChange → BidPage → Option BidPage
unfolding bid_step
run_bid ether account [] p = some p
run_bid ether account (change ∷ changes) p = do
  q ← bid_step ether account change p
  run_bid ether account changes q

-- `isDisabled` of the button
unfoldable pub is_disabled : Option String → BidState → Bool
is_disabled none s = true
is_disabled (some account) s =
    if is_mining s.place_bid_state.status then true else is_mining s.settle_auction_state.status
