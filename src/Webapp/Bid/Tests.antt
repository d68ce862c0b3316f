-- ===== src/Webapp/Bid/Tests.antt =====
-- Examples of the bid field: an auction at 1 ether with a percentage of 2, and texts that say the
-- amount in ten thousandths of an ether.
use unouns_monorepo.Base.{
  ℕ, ◌+◌, ◌*◌, ◌/◌, ◌≤◌, ◌≡◌, true, false, Option, none, some, String, List, [], ◌∷◌, ◌==◌,
  if◌then◌else◌, refl, arith,
}
use unouns_monorepo.Base.Int.{ℤ, pos}
use unouns_monorepo.Base.Text.{Text}
use unouns_monorepo.Webapp.Alerts.{status_of, not_started}
use unouns_monorepo.Webapp.Auctions.{Auction}
use unouns_monorepo.Webapp.Bid.{
  EtherTexts, BidState, CreateBid, compute_minimum_next_bid, has_too_many_digits, bid_input_handler,
  place_bid_handler, current_bid, refuse_bid, send_bid, min_bid_eth,
}
use unouns_monorepo.Webapp.Bid.Effects.{auction_changed, auction_ended_changed, run_bid}
use unouns_monorepo.Webapp.Bid.Minimum.{ReadsBack, place_bid_handler-again}
use unouns_monorepo.Webapp.Bid.Spinner.{running, succeeding, has_spinner, run_bid-spinner}

-- the reading of the texts that `print` gives
abbrev reading : Text → Option ℤ
reading [] = none
reading (n ∷ []) = some (pos (n * 100000000000000))
reading (_ ∷ _ ∷ _) = some (pos 22200000000000000)

abbrev print : ℕ → Text
print wei = (wei + 99999999999999) / 100000000000000 ∷ []

abbrev ether : EtherTexts
ether = record { parse_ether = reading; to_fixed = print }

abbrev auction : Auction
auction = record {
  amount = 1000000000000000000;
  bidder = "0xb";
  start_time = 0;
  end_time = 100;
  unoun_id = 7;
  settled = false;
}

abbrev with_bid : Auction
with_bid = record {
  amount = 1020000000000000000;
  bidder = "0xa";
  start_time = 0;
  end_time = 100;
  unoun_id = 7;
  settled = false;
}

abbrev holding : Text → BidState
holding input = record {
  bid_input = input;
  input_value = input;
  loading = false;
  content = "Place bid";
  alert_modal = none;
  place_bid_state = status_of not_started;
  settle_auction_state = status_of not_started;
}

abbrev estimate : ℕ → ℤ → Option ℕ
estimate id value = some 70000

abbrev call : CreateBid
call = record { unoun_id = 7; value = pos 1020000000000000000; gas_limit = 80000 }

least : compute_minimum_next_bid 1000000000000000000 (some 2) ≡ 1020000000000000000
unfolding compute_minimum_next_bid
least = refl

-- "1.2345" is taken, "1.23456" is not
taken : has_too_many_digits (49 ∷ 46 ∷ 50 ∷ 51 ∷ 52 ∷ 53 ∷ []) ≡ false
unfolding has_too_many_digits unouns_monorepo.Base.Text.split unouns_monorepo.Base.Text.onto_first
taken = refl

not_taken : bid_input_handler (49 ∷ 46 ∷ 50 ∷ 51 ∷ 52 ∷ 53 ∷ 54 ∷ []) (holding []) ≡ holding []
unfolding bid_input_handler has_too_many_digits unouns_monorepo.Base.Text.split
    unouns_monorepo.Base.Text.onto_first
not_taken = refl

refused :
    place_bid_handler ether estimate
      (some auction)
      (compute_minimum_next_bid auction.amount (some 2))
      (holding (10100 ∷ []))
    ≡ some (refuse_bid ether 1020000000000000000 (holding (10100 ∷ [])), none)
unfolding place_bid_handler compute_minimum_next_bid current_bid refuse_bid min_bid_eth
refused = refl

-- Below the amount that the field shows for a first bid, a bid is sent all the same.
first_bid :
    place_bid_handler ether estimate
      (some auction)
      (compute_minimum_next_bid 0 (some 2))
      (holding (1 ∷ []))
    ≡ some (
      holding (1 ∷ []),
      some (record { unoun_id = 7; value = pos 100000000000000; gas_limit = 80000 }),
    )
unfolding place_bid_handler compute_minimum_next_bid current_bid send_bid
first_bid = refl

reads_back : ReadsBack ether
reads_back = record { empty_fails = refl; first_read = refl; fixed_read = λ wei. refl }

place_bid_handler-again_example :
    (place_bid_handler ether estimate
        (some auction)
        1020000000000000000
        (refuse_bid ether 1020000000000000000 (holding (10100 ∷ [])))
      ≡ some (refuse_bid ether 1020000000000000000 (holding (10100 ∷ [])), some call))
    × (1020000000000000000 ≤ 1020000000000000000)
place_bid_handler-again_example =
    place_bid_handler-again ether estimate auction 1020000000000000000 70000 (holding (10100 ∷ []))
      reads_back refl

run_bid-spinner_example :
    (has_spinner ether "0xa" (
        run_bid ether
          (some "0xa")
          (succeeding ether "0xa" (auction_changed with_bid ∷ []))
          (running auction (holding (10200 ∷ []))))
      ≡ some true)
    × (has_spinner ether "0xa" (
          run_bid ether
            (some "0xa")
            (succeeding ether "0xa" (auction_changed with_bid ∷ auction_ended_changed true ∷ []))
            (running auction (holding (10200 ∷ []))))
        ≡ some false)
unfolding current_bid
run_bid-spinner_example =
    run_bid-spinner ether "0xa" (with_bid ∷ []) auction (holding (10200 ∷ []))
      (pos 1020000000000000000) refl refl refl
