-- ===== src/Webapp/Bid.antt =====
-- packages/nouns-webapp/src/components/Bid/index.tsx: the field and the button with which a user bids
-- and settles. An amount of ether is its number of wei; `parseEther` and the printing of an amount
-- with four digits are parameters.
pub mod Effects
pub mod Minimum
pub mod Spinner
mod Tests
use unouns_monorepo.Base.{
  ℕ, ◌+◌, ◌*◌, ◌/◌, Bool, true, false, not, ◌&&◌, Option, none, some, String, List, [], ◌∷◌, length,
  leb, ltb, ◌==◌, str_eq, ◌>>=◌, if◌then◌else◌,
}
use unouns_monorepo.Base.Int.{ℤ, pos, ltb_ℤ, eq_ℤ}
use unouns_monorepo.Base.Text.{Text, split}
use unouns_monorepo.Webapp.Alerts.{
  AlertModal, least_bid, TransactionState, TransactionStatus, not_started, pending_signature,
  mining, success, fail, exception, alert, message_or,
}
use unouns_monorepo.Webapp.Auctions.{Auction}

-- the least whole number that is not below `current_bid * (percentage / 100 + 1)`
unfoldable pub compute_minimum_next_bid : ℕ → Option ℕ → ℕ
compute_minimum_next_bid current_bid none = 0
compute_minimum_next_bid current_bid (some percentage) =
    (current_bid * (percentage + 100) + 99) / 100

-- `utils.parseEther`, which throws on what is not a number, and
-- `new BigNumber(formatEther(wei)).toFixed(4, ROUND_CEIL)`
pub record EtherTexts : Type 0 where
  pub parse_ether : Text → Option ℤ
  pub to_fixed : ℕ → Text

-- '0.0222'
abbrev pub first_bid_text : Text
first_bid_text = 48 ∷ 46 ∷ 48 ∷ 50 ∷ 50 ∷ 50 ∷ []

unfoldable pub min_bid_eth : EtherTexts → ℕ → Text
min_bid_eth ether min_bid = if min_bid == 0 then first_bid_text else ether.to_fixed min_bid

-- `input_value` is what stands in the field, `bid_input` what the component wants there.
pub record BidState : Type 0 where
  pub bid_input : Text
  pub input_value : Text
  pub loading : Bool
  pub content : String
  pub alert_modal : Option AlertModal
  pub place_bid_state : TransactionStatus
  pub settle_auction_state : TransactionStatus

abbrev pub set_bid_input : Text → BidState → BidState
set_bid_input input s = record s { bid_input = input; input_value = input }

abbrev pub clear_bid_input : BidState → BidState
clear_bid_input s = record s { input_value = [] }

abbrev pub set_modal : AlertModal → BidState → BidState
set_modal modal s = record s { alert_modal = some modal }

abbrev pub set_bid_button_content : Bool → String → BidState → BidState
set_bid_button_content loading content s = record s { loading = loading; content = content }

abbrev pub set_place_bid_state : TransactionStatus → BidState → BidState
set_place_bid_state status s = record s { place_bid_state = status }

abbrev pub set_settle_auction_state : TransactionStatus → BidState → BidState
set_settle_auction_state status s = record s { settle_auction_state = status }

-- what stands in the field, or 0.0222 ether when it is empty
unfoldable pub current_bid : EtherTexts → Text → Option ℤ
current_bid ether [] = some (pos 22200000000000000)
current_bid ether (c ∷ input) = ether.parse_ether (c ∷ input)

-- `input.includes('.') && input.split('.')[1].length > 4`
unfoldable pub has_too_many_digits : Text → Bool
has_too_many_digits input = elim (split 46 input) [
  | [] ↦ false
  | _ ∷ [] ↦ false
  | _ ∷ digits ∷ _ ↦ ltb 4 (length digits)
]

unfoldable pub bid_input_handler : Text → BidState → BidState
bid_input_handler input s = if has_too_many_digits input then s else set_bid_input input s

-- the call of `createBid` of the contract
pub record CreateBid : Type 0 where
  pub unoun_id : ℕ
  pub value : ℤ
  pub gas_limit : ℕ

unfoldable pub refuse_bid : EtherTexts → ℕ → BidState → BidState
refuse_bid ether min_bid s =
    set_bid_input (min_bid_eth ether min_bid)
      (set_modal (alert "Insufficient bid amount 🤏" (least_bid (min_bid_eth ether min_bid))) s)

-- `none` where an amount cannot be read or the estimate of the gas is refused
unfoldable pub send_bid :
    EtherTexts → (ℕ → ℤ → Option ℕ) → Auction → BidState → Option (BidState × Option CreateBid)
send_bid ether estimate auction s = do
  value ← ether.parse_ether s.input_value
  gas_limit ← estimate auction.unoun_id value
  some (
    s,
    some (record { unoun_id = auction.unoun_id; value = value; gas_limit = gas_limit + 10000 }),
  )

unfoldable pub place_bid_handler :
    EtherTexts
    → (ℕ → ℤ → Option ℕ)
    → Option Auction
    → ℕ
    → BidState
    → Option (BidState × Option CreateBid)
place_bid_handler ether estimate none min_bid s = some (s, none)
place_bid_handler ether estimate (some auction) min_bid s =
    if length s.input_value == 0 then some (s, none) else (do
      bid ← current_bid ether s.input_value
      if ltb_ℤ bid (pos min_bid)
          then some (refuse_bid ether min_bid s, none)
          else send_bid ether estimate auction s)
