-- ===== src/Webapp/Display.antt =====
-- packages/nouns-webapp/src/state/slices/onDisplayAuction.ts, utils/nounderNoun.ts and
-- wrappers/onDisplayAuction.ts: which auction is on display, and the Nouns that are not auctioned.
pub mod Moves
pub mod Selection
use unouns_monorepo.Base.{
  ℕ, zero, suc, ◌+◌, ◌-◌, ◌%◌, ◌≤◌, ◌<◌, ◌≡◌, refl, sym, ap, ◌∙◌, arith, Bool, true, false, ◌&&◌,
  ◌||◌, Option, none, some, List, [], ◌∷◌, ◌==◌, ltb, if◌then◌else◌, find,
}
use unouns_monorepo.Webapp.Auctions.{Auction, AuctionState}

pub record OnDisplayAuctionState : Type 0 where
  pub last_auction_unoun_id : Option ℕ
  pub on_display_auction_unoun_id : Option ℕ

unfoldable pub set_last_auction_unoun_id : ℕ → OnDisplayAuctionState → OnDisplayAuctionState
set_last_auction_unoun_id id s = record s { last_auction_unoun_id = some id }

unfoldable pub set_on_display_auction_unoun_id : ℕ → OnDisplayAuctionState → OnDisplayAuctionState
set_on_display_auction_unoun_id id s = record s { on_display_auction_unoun_id = some id }

-- 0 is falsy too
unfoldable pub set_prev_on_display_auction_unoun_id : OnDisplayAuctionState → OnDisplayAuctionState
set_prev_on_display_auction_unoun_id s = elim s.on_display_auction_unoun_id [
  | none ↦ s
  | some zero ↦ s
  | some (suc id) ↦ record s { on_display_auction_unoun_id = some id }
]

abbrev pub same_id : Option ℕ → ℕ → Bool
same_id none id = false
same_id (some last) id = last == id

unfoldable pub set_next_on_display_auction_unoun_id : OnDisplayAuctionState → OnDisplayAuctionState
set_next_on_display_auction_unoun_id s = elim s.on_display_auction_unoun_id [
  | none ↦ s
  | some id ↦
      if same_id s.last_auction_unoun_id id
      then s
      else record s { on_display_auction_unoun_id = some (suc id) }
]

-- a move of the reader
pub data Move : Type 0 where
  prev next : Move

abbrev pub move : Move → OnDisplayAuctionState → OnDisplayAuctionState
move prev s = set_prev_on_display_auction_unoun_id s
move next s = set_next_on_display_auction_unoun_id s

abbrev pub moves : List Move → OnDisplayAuctionState → OnDisplayAuctionState
moves [] s = s
moves (m ∷ ms) s = moves ms (move m s)

abbrev pub showing : ℕ → ℕ → OnDisplayAuctionState
showing last id = record {
  last_auction_unoun_id = some last;
  on_display_auction_unoun_id = some id;
}

-- packages/nouns-webapp/src/utils/nounderNoun.ts
abbrev pub is_nounder_noun : ℕ → Bool
is_nounder_noun id = id % 10 == 0 || id == 0

abbrev pub is_unouncil_unoun : ℕ → Bool
is_unouncil_unoun id = ltb id 222 && id % 10 == 2

unfoldable pub empty_nounder_auction : ℕ → Auction
empty_nounder_auction id = record {
  amount = 0;
  bidder = "";
  start_time = 0;
  end_time = 0;
  unoun_id = id;
  settled = false;
}

-- A state without an auction throws in `BigNumber.from(undefined)`; past auctions have one.
abbrev pub is_auction : ℕ → AuctionState → Bool
is_auction id s = elim s.active_auction [ none ↦ false | some a ↦ Auction.unoun_id a == id ]

unfoldable pub find_auction : ℕ → List AuctionState → Option Auction
find_auction id auctions = elim (find (is_auction id) auctions) [
  | none ↦ none
  | some s ↦ AuctionState.active_auction s
]

-- `generateEmptyNounderAuction` and `generateEmptyUNouncilAuction` have the same body.
unfoldable pub generate_empty_auction : ℕ → List AuctionState → Auction
unfolding empty_nounder_auction find_auction
generate_empty_auction id past = elim (find_auction (id + 1) past) [
  | none ↦ empty_nounder_auction id
  | some above ↦ record (empty_nounder_auction id) { start_time = Auction.start_time above }
]

-- `settled` is always false after it
unfoldable pub deserialize_auction : Auction → Auction
deserialize_auction a = record {
  amount = a.amount;
  bidder = a.bidder;
  start_time = a.start_time;
  end_time = a.end_time;
  unoun_id = a.unoun_id;
  settled = false;
}

abbrev pub deserialize_found : Option Auction → Option Auction
deserialize_found none = none
deserialize_found (some a) = some (deserialize_auction a)

-- the auction to show for an id, where one is running
unfoldable pub select_auction : ℕ → Auction → List AuctionState → Option Auction
unfolding generate_empty_auction deserialize_auction find_auction
select_auction id current past =
    if id == current.unoun_id
    then some (deserialize_auction current)
    else if is_nounder_noun id
    then some (deserialize_auction (generate_empty_auction id past))
    else if is_unouncil_unoun id
    then some (deserialize_auction (generate_empty_auction id past))
    else deserialize_found (find_auction id past)

-- `useOnDisplayAuction`, on the three slices that it reads
unfoldable pub use_on_display_auction :
    OnDisplayAuctionState → AuctionState → List AuctionState → Option Auction
unfolding select_auction
use_on_display_auction display state past = elim display.on_display_auction_unoun_id [
  | none ↦ none
  | some id ↦ elim state.active_auction [
    | none ↦ none
    | some current ↦ select_auction id current past
  ]
]
