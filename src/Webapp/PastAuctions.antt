-- ===== src/Webapp/PastAuctions.antt =====
-- packages/nouns-webapp/src/state/slices/pastAuctions.ts, useAuctionBids of wrappers/onDisplayAuction.ts
-- and useNounCanVoteTimestamp of wrappers/nounsAuction.ts. A number of the subgraph is the natural
-- number that its text holds.
pub mod Timestamp
use unouns_monorepo.Base.{
  ℕ, ◌+◌, Bool, true, false, Option, none, some, String, List, [], ◌∷◌, map, find, ◌==◌, ◌>>=◌,
  if◌then◌else◌,
}
use unouns_monorepo.Webapp.Auctions.{Auction, AuctionState, BidEvent}
use unouns_monorepo.Webapp.Display.{is_nounder_noun, is_auction}

-- what the subgraph says of a bid and of an auction; an auction without a bid has no bidder
pub record SubgraphBid : Type 0 where
  pub id : String
  pub bidder : String
  pub amount : ℕ
  pub block_timestamp : ℕ

pub record SubgraphAuction : Type 0 where
  pub id : ℕ
  pub amount : ℕ
  pub bidder : Option String
  pub start_time : ℕ
  pub end_time : ℕ
  pub bids : List SubgraphBid

unfoldable pub past_bid : ℕ → SubgraphBid → BidEvent
past_bid unoun_id bid = record {
  unoun_id = unoun_id;
  sender = bid.bidder;
  value = bid.amount;
  extended = false;
  transaction_hash = bid.id;
  timestamp = bid.block_timestamp;
}

unfoldable pub past_auction : SubgraphAuction → AuctionState
unfolding past_bid
past_auction auction = record {
  active_auction = some (record {
    amount = auction.amount;
    bidder = elim auction.bidder [ none ↦ "" | some b ↦ b ];
    start_time = auction.start_time;
    end_time = auction.end_time;
    unoun_id = auction.id;
    settled = false;
  });
  bids = map (past_bid auction.id) auction.bids;
}

-- `reduxSafePastAuctions`: no list has a length below 0
unfoldable pub redux_safe_past_auctions : List SubgraphAuction → List AuctionState
redux_safe_past_auctions auctions = map past_auction auctions

pub record PastAuctionsState : Type 0 where
  pub past_auctions : List AuctionState

unfoldable pub add_past_auctions : List SubgraphAuction → PastAuctionsState → PastAuctionsState
unfolding redux_safe_past_auctions
add_past_auctions auctions s = record { past_auctions = redux_safe_past_auctions auctions }

-- `deserializeBids` reads each number back; the bids of the auction that runs, or of a past one
unfoldable pub use_auction_bids :
    ℕ → Option ℕ → List BidEvent → List AuctionState → Option (List BidEvent)
use_auction_bids id last_id last_bids past =
    let of_past = elim (find (is_auction id) past) as (λ x. Option (List BidEvent)) [
      | none ↦ none
      | some s ↦ some s.bids
    ] in
    elim last_id [ none ↦ of_past | some last ↦ if last == id then some last_bids else of_past ]

-- the Noun whose auction comes after the one of `unoun_id`
unfoldable pub next_unoun_id_for_query : ℕ → ℕ
next_unoun_id_for_query unoun_id =
    if is_nounder_noun (unoun_id + 1) then unoun_id + 1 + 1 else unoun_id + 1

-- 0 while the auctions are loaded
abbrev pub start_time_of : Option AuctionState → ℕ
start_time_of none = 0
start_time_of (some s) = elim s.active_auction [ none ↦ 0 | some a ↦ a.start_time ]

unfoldable pub use_noun_can_vote_timestamp : ℕ → List AuctionState → ℕ
unfolding next_unoun_id_for_query
use_noun_can_vote_timestamp unoun_id past =
    start_time_of (find (is_auction (next_unoun_id_for_query unoun_id)) past)
