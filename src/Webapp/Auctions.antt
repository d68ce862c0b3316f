-- ===== src/Webapp/Auctions.antt =====
-- packages/nouns-webapp/src/state/slices/auction.ts: the auction that is running and its bids. A
-- `BigNumber` is the natural number that it holds, so that `BigNumber.from(x).toJSON()` keeps it.
pub mod Top
use unouns_monorepo.Base.{
  ℕ, String, Bool, true, false, Option, none, some, List, [], ◌∷◌, ◌==◌, ltb, str_eq, if◌then◌else◌,
}

pub record Auction : Type 0 where
  pub amount : ℕ
  pub bidder : String
  pub start_time : ℕ
  pub end_time : ℕ
  pub unoun_id : ℕ
  pub settled : Bool

pub record BidEvent : Type 0 where
  pub unoun_id : ℕ
  pub sender : String
  pub value : ℕ
  pub extended : Bool
  pub transaction_hash : String
  pub timestamp : ℕ

pub record AuctionCreateEvent : Type 0 where
  pub unoun_id : ℕ
  pub start_time : ℕ
  pub end_time : ℕ
  pub settled : Bool

pub record AuctionSettledEvent : Type 0 where
  pub unoun_id : ℕ
  pub winner : String
  pub amount : ℕ

pub record AuctionExtendedEvent : Type 0 where
  pub unoun_id : ℕ
  pub end_time : ℕ

pub record AuctionState : Type 0 where
  pub active_auction : Option Auction
  pub bids : List BidEvent

abbrev pub initial_state : AuctionState
initial_state = record { active_auction = none; bids = [] }

unfoldable pub redux_safe_new_auction : AuctionCreateEvent → Auction
redux_safe_new_auction e = record {
  amount = 0;
  bidder = "";
  start_time = e.start_time;
  end_time = e.end_time;
  unoun_id = e.unoun_id;
  settled = false;
}

-- `redux_safe_auction` and `redux_safe_bid` copy every field.
abbrev pub redux_safe_auction : Auction → Auction
redux_safe_auction a = record {
  amount = a.amount;
  bidder = a.bidder;
  start_time = a.start_time;
  end_time = a.end_time;
  unoun_id = a.unoun_id;
  settled = a.settled;
}

abbrev pub redux_safe_bid : BidEvent → BidEvent
redux_safe_bid b = record {
  unoun_id = b.unoun_id;
  sender = b.sender;
  value = b.value;
  extended = b.extended;
  transaction_hash = b.transaction_hash;
  timestamp = b.timestamp;
}

-- the body of the `reduce`: of two equal bids the later one in the list
abbrev pub larger_bid : BidEvent → BidEvent → BidEvent
larger_bid prev current = if ltb current.value prev.value then prev else current

-- `bids.reduce`, from the first bid on
unfoldable pub max_bid : BidEvent → List BidEvent → BidEvent
max_bid b [] = b
max_bid b (c ∷ bids) = max_bid (larger_bid b c) bids

unfoldable pub contains_bid : List BidEvent → String → Bool
contains_bid [] hash = false
contains_bid (b ∷ bids) hash =
    let rest = contains_bid bids hash in if str_eq b.transaction_hash hash then true else rest

unfoldable pub set_active_auction : AuctionCreateEvent → AuctionState → AuctionState
unfolding redux_safe_new_auction
set_active_auction e s = record { active_auction = some (redux_safe_new_auction e); bids = [] }

unfoldable pub set_full_auction : Auction → AuctionState → AuctionState
set_full_auction a s = record s { active_auction = some (redux_safe_auction a) }

-- the auction with the amount and the bidder of a bid
abbrev pub with_top : BidEvent → Auction → Auction
with_top top a = record a { amount = top.value; bidder = top.sender }

unfoldable pub append_bid : BidEvent → AuctionState → AuctionState
unfolding max_bid contains_bid
append_bid e s = elim s.active_auction [
  | none ↦ s
  | some a ↦
      if Auction.unoun_id a == e.unoun_id
      then if contains_bid s.bids e.transaction_hash then s else record {
        active_auction = some (with_top (max_bid (redux_safe_bid e) s.bids) a);
        bids = redux_safe_bid e ∷ s.bids;
      }
      else s
]

unfoldable pub set_auction_settled : AuctionSettledEvent → AuctionState → AuctionState
set_auction_settled e s = elim s.active_auction [
  | none ↦ s
  | some a ↦
      if Auction.unoun_id a == e.unoun_id
      then record s {
        active_auction = some (record a { settled = true; bidder = e.winner; amount = e.amount });
      }
      else s
]

unfoldable pub set_auction_extended : AuctionExtendedEvent → AuctionState → AuctionState
set_auction_extended e s = elim s.active_auction [
  | none ↦ s
  | some a ↦
      if Auction.unoun_id a == e.unoun_id
      then record s { active_auction = some (record a { end_time = e.end_time }) }
      else s
]

pub data Action : Type 0 where
  active_auction_set : AuctionCreateEvent → Action
  full_auction_set : Auction → Action
  bid_appended : BidEvent → Action
  auction_settled_set : AuctionSettledEvent → Action
  auction_extended_set : AuctionExtendedEvent → Action

abbrev pub reduce : Action → AuctionState → AuctionState
reduce (active_auction_set e) s = set_active_auction e s
reduce (full_auction_set a) s = set_full_auction a s
reduce (bid_appended e) s = append_bid e s
reduce (auction_settled_set e) s = set_auction_settled e s
reduce (auction_extended_set e) s = set_auction_extended e s
