-- ===== src/Webapp/Auctions/Top.antt =====
-- The bids of the running auction: each transaction once, and the amount shown is the highest bid.
use unouns_monorepo.Base.{
  ◌≤◌, ◌≡◌, ◌⊎◌, inl, inr, refl, arith, false, some, List, [], ◌∷◌, All, Option-cases,
}
use unouns_monorepo.Webapp.Auctions.{
  Auction, BidEvent, AuctionState, with_top, larger_bid, max_bid, contains_bid, set_active_auction,
  set_full_auction, append_bid, set_auction_settled, set_auction_extended, Action,
  active_auction_set, full_auction_set, bid_appended, auction_settled_set, auction_extended_set,
  reduce,
}

-- no transaction twice
abbrev pub IsOnce : List BidEvent → Type 0
IsOnce [] = Unit
IsOnce (b ∷ bids) = (contains_bid bids b.transaction_hash ≡ false) × IsOnce bids

-- Every action keeps the transactions of the bids apart, also one that repeats a bid.
reduce-IsOnce : (action : Action) (s : AuctionState) → IsOnce s.bids → IsOnce (reduce action s).bids
unfolding set_active_auction set_full_auction append_bid set_auction_settled set_auction_extended
reduce-IsOnce (active_auction_set e) s h = tt
reduce-IsOnce (full_auction_set a) s h = h
reduce-IsOnce (bid_appended e) s h = elim (Option-cases s.active_auction) [
  | inl idle ↦ ground (arith, idle)
  | inr (a, running) ↦ ground (arith, running)
]
reduce-IsOnce (auction_settled_set e) s h = elim (Option-cases s.active_auction) [
  | inl idle ↦ ground (arith, idle)
  | inr (a, running) ↦ ground (arith, running)
]
reduce-IsOnce (auction_extended_set e) s h = elim (Option-cases s.active_auction) [
  | inl idle ↦ ground (arith, idle)
  | inr (a, running) ↦ ground (arith, running)
]

-- The bid is one of the list.
abbrev pub IsBid : BidEvent → List BidEvent → Type 0
IsBid b [] = ⊥
IsBid b (c ∷ bids) = (b ≡ c) ⊎ IsBid b bids

-- the bid that `reduce` ends with is one of the bids, and none is higher
abbrev Tops : BidEvent → BidEvent → List BidEvent → Type 0
Tops top b bids = IsBid top (b ∷ bids) × (b.value ≤ top.value) × All (λ c. c.value ≤ top.value) bids

larger_bid-Tops :
    (top b c : BidEvent) (bids : List BidEvent)
    → Tops top (larger_bid b c) bids
    → Tops top b (c ∷ bids)
larger_bid-Tops top b c bids (among, first, rest) = ground arith

max_bid-Tops : (b : BidEvent) (bids : List BidEvent) → Tops (max_bid b bids) b bids
unfolding max_bid
max_bid-Tops b [] = (inl refl, omega arith, tt)
max_bid-Tops b (c ∷ bids) = larger_bid-Tops _ b c bids (max_bid-Tops (larger_bid b c) bids)

-- The amount and the bidder of the running auction are those of a highest of its bids.
pub record IsTop (bids : List BidEvent) (a : Auction) : Type 0 where
  pub top : BidEvent
  pub is_bid : IsBid top bids
  pub highest : All (λ c. c.value ≤ top.value) bids
  pub amount : a.amount ≡ top.value
  pub bidder : a.bidder ≡ top.sender

-- A bid on the running auction from a transaction that is not there is put in front, and the auction
-- then shows the amount and the bidder of a highest of the bids; nothing else of it changes.
pub append_bid-IsTop :
    (e : BidEvent) (s : AuctionState) (a : Auction)
    → s.active_auction ≡ some a
    → a.unoun_id ≡ e.unoun_id
    → contains_bid s.bids e.transaction_hash ≡ false
    → let t = append_bid e s in
      (b : Auction) × (t.active_auction ≡ some b)
      × (t.bids ≡ e ∷ s.bids)
      × IsTop (e ∷ s.bids) b
      × (b.unoun_id ≡ a.unoun_id)
      × (b.start_time ≡ a.start_time)
      × (b.end_time ≡ a.end_time)
      × (b.settled ≡ a.settled)
unfolding append_bid
append_bid-IsTop e s a running same new =
    let top = max_bid e s.bids in
    let (among, first, rest) = max_bid-Tops e s.bids in
    (
      with_top top a,
      ground (arith, running, same, new),
      ground (arith, running, same, new),
      record { top = top; is_bid = among; highest = (first, rest); amount = refl; bidder = refl },
      refl,
      refl,
      refl,
      refl,
    )
