-- ===== src/Subgraph/Auctions.antt =====
-- packages/nouns-subgraph/src/nouns-auction-house.ts. An event carries the parameters, the
-- transaction and the block that its handler reads.
pub mod Replay
mod Tests
use unouns_monorepo.Base.{ℕ, String, true, false, Option, none, some, ◌>>=◌, [], ◌∷◌}
use unouns_monorepo.Base.Table.{load, save}
use unouns_monorepo.Subgraph.Schema.{Auction, Bid, Store, log_error}
use unouns_monorepo.Subgraph.Helpers.{get_or_create_account}

pub record AuctionCreated : Type 0 where
  pub unoun_id : String
  pub start_time : ℕ
  pub end_time : ℕ
  pub tx_hash : String

pub record AuctionBid : Type 0 where
  pub unoun_id : String
  pub sender : String
  pub value : ℕ
  pub tx_hash : String
  pub tx_index : ℕ
  pub block_number : ℕ
  pub block_timestamp : ℕ

pub record AuctionExtended : Type 0 where
  pub unoun_id : String
  pub end_time : ℕ
  pub tx_hash : String

pub record AuctionSettled : Type 0 where
  pub unoun_id : String
  pub tx_hash : String

abbrev pub save_auction : Auction → Store → Store
save_auction a s = record s { auctions = save s.auctions a.id a }

-- `old` is the row that is there: `save` writes the fields that were set into it, and the bidder is not
abbrev pub new_auction : AuctionCreated → String → Option Auction → Auction
new_auction e noun old = record {
  id = e.unoun_id;
  noun = noun;
  amount = 0;
  start_time = e.start_time;
  end_time = e.end_time;
  bidder = old >>= λ a. a.bidder;
  settled = false;
}

unfoldable pub handle_auction_created : AuctionCreated → Store → Store
handle_auction_created e s = elim (load s.nouns e.unoun_id) [
  | none ↦
      log_error "[handleAuctionCreated] Noun #{} not found. Hash: {}" (e.unoun_id ∷ e.tx_hash ∷ [])
        s
  | some noun ↦ save_auction (new_auction e noun.id (load s.auctions e.unoun_id)) s
]

abbrev bid_of : AuctionBid → String → Auction → Bid
bid_of e bidder auction = record {
  noun = auction.noun;
  amount = auction.amount;
  bidder = some bidder;
  block_number = e.block_number;
  tx_index = e.tx_index;
  auction = auction.id;
  block_timestamp = e.block_timestamp;
}

-- the bidder's account is made before the auction is looked up
unfoldable pub handle_auction_bid : AuctionBid → Store → Store
handle_auction_bid e s =
    let (bidder, s₁) = get_or_create_account e.sender s in
    elim (load s₁.auctions e.unoun_id) [
      | none ↦
          log_error "[handleAuctionBid] Auction not found for Noun #{}. Hash: {}"
            (e.unoun_id ∷ e.tx_hash ∷ []) s₁
      | some auction ↦
          let auction' = record auction { amount = e.value; bidder = some bidder.id } in
          let s₂ = save_auction auction' s₁ in
          record s₂ { bids = save s₂.bids e.tx_hash (bid_of e bidder.id auction') }
    ]

unfoldable pub handle_auction_extended : AuctionExtended → Store → Store
handle_auction_extended e s = elim (load s.auctions e.unoun_id) [
  | none ↦
      log_error "[handleAuctionExtended] Auction not found for Noun #{}. Hash: {}"
        (e.unoun_id ∷ e.tx_hash ∷ []) s
  | some auction ↦ save_auction (record auction { end_time = e.end_time }) s
]

unfoldable pub handle_auction_settled : AuctionSettled → Store → Store
handle_auction_settled e s = elim (load s.auctions e.unoun_id) [
  | none ↦
      log_error "[handleAuctionSettled] Auction not found for Noun #{}. Hash: {}"
        (e.unoun_id ∷ e.tx_hash ∷ []) s
  | some auction ↦ save_auction (record auction { settled = true }) s
]
