-- ===== src/Webapp/Bid/Minimum.antt =====
-- The least bid that the page asks for and the one that the contract takes:
-- packages/nouns-contracts/contracts/NounsAuctionHouse.sol.
use unouns_monorepo.Base.{
  ℕ, ◌+◌, ◌*◌, ◌/◌, ◌≤◌, ◌≡◌, Bool, true, false, Option, none, some, [], ◌==◌, leb, if◌then◌else◌,
  arith,
}
use unouns_monorepo.Base.Int.{ℤ, pos, negsuc}
use unouns_monorepo.Webapp.Auctions.{Auction}
use unouns_monorepo.Webapp.Bid.{
  EtherTexts, BidState, min_bid_eth, first_bid_text, current_bid, refuse_bid, send_bid,
  place_bid_handler,
}

-- the contract's guard on the amount of a new bid
abbrev pub outbids : ℕ → ℕ → ℕ → Bool
outbids percentage amount value = leb (amount + amount * percentage / 100) value

-- the least amount that passes it
abbrev pub least_outbid : ℕ → ℕ → ℕ
least_outbid percentage amount = amount + amount * percentage / 100

-- an amount of ether outbids
abbrev pub Outbids : ℕ → ℕ → ℤ → Type 0
Outbids percentage amount (pos v) = outbids percentage amount v ≡ true
Outbids percentage amount (negsuc v) = false ≡ true

-- an amount of wei, rounded up to four digits of ether
abbrev pub four_digits : ℕ → ℕ
four_digits wei = (wei + 99999999999999) / 100000000000000 * 100000000000000

-- `parseEther` reads no number in an empty text, and reads back what `toFixed` prints.
pub record ReadsBack (ether : EtherTexts) : Type 0 where
  pub empty_fails : ether.parse_ether [] ≡ none
  pub first_read : ether.parse_ether first_bid_text ≡ some (pos 22200000000000000)
  pub fixed_read : (wei : ℕ) → ether.parse_ether (ether.to_fixed wei) ≡ some (pos (four_digits wei))

-- the amount that the notice of a bid that is too low asks for
abbrev pub asked_bid : ℕ → ℕ
asked_bid min_bid = if min_bid == 0 then 22200000000000000 else four_digits min_bid

min_bid_eth-read :
    (ether : EtherTexts) (min_bid : ℕ)
    → ReadsBack ether
    → ether.parse_ether (min_bid_eth ether min_bid) ≡ some (pos (asked_bid min_bid))
unfolding min_bid_eth
min_bid_eth-read ether min_bid reads = ground (arith, reads.first_read, reads.fixed_read min_bid)

asked_bid-le : (min_bid : ℕ) → min_bid ≤ asked_bid min_bid
asked_bid-le min_bid = ground arith

place_bid_handler-sent :
    (ether : EtherTexts) (estimate : ℕ → ℤ → Option ℕ) (auction : Auction) (min_bid bid gas : ℕ)
    (s : BidState)
    → ether.parse_ether [] ≡ none
    → ether.parse_ether s.input_value ≡ some (pos bid)
    → min_bid ≤ bid
    → estimate auction.unoun_id (pos bid) ≡ some gas
    → place_bid_handler ether estimate (some auction) min_bid s
      ≡ some (
        s,
        some (record { unoun_id = auction.unoun_id; value = pos bid; gas_limit = gas + 10000 }),
      )
unfolding place_bid_handler current_bid send_bid
place_bid_handler-sent ether estimate auction min_bid bid gas s h k l m = ground arith

-- After the notice that a bid is too low, the field holds the amount that the notice asks for, and the
-- next press sends a bid of that amount, which is not below the least bid, where the estimate of its
-- gas is given and the amounts in ether read back.
pub place_bid_handler-again :
    (ether : EtherTexts) (estimate : ℕ → ℤ → Option ℕ) (auction : Auction) (min_bid gas : ℕ)
    (s : BidState)
    → ReadsBack ether
    → estimate auction.unoun_id (pos (asked_bid min_bid)) ≡ some gas
    → (place_bid_handler ether estimate (some auction) min_bid (refuse_bid ether min_bid s)
        ≡ some (
          refuse_bid ether min_bid s,
          some (record {
            unoun_id = auction.unoun_id;
            value = pos (asked_bid min_bid);
            gas_limit = gas + 10000;
          }),
        ))
      × (min_bid ≤ asked_bid min_bid)
unfolding refuse_bid
place_bid_handler-again ether estimate auction min_bid gas s reads given = (
  place_bid_handler-sent ether estimate auction min_bid (asked_bid min_bid) gas
      (refuse_bid ether min_bid s) reads.empty_fails (min_bid_eth-read ether min_bid reads)
      (asked_bid-le min_bid) given,
  asked_bid-le min_bid,
)
