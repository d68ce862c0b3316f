-- ===== src/Webapp/Tests.antt =====
-- Runs of the web application's state and rules.
use unouns_monorepo.Base.{ℕ, ◌≡◌, refl, String, true, false, none, some, List, [], ◌∷◌}
use unouns_monorepo.Base.Int.{pos}
use unouns_monorepo.Subgraph.Schema.{active}
use unouns_monorepo.Webapp.Auctions.{Auction, BidEvent, AuctionState, contains_bid, append_bid}
use unouns_monorepo.Webapp.Auctions.Top.{IsTop, append_bid-IsTop}
use unouns_monorepo.Webapp.Logs.{FetchState, LogsState, Range, ranges, logs_failed, logs_fetched}
use unouns_monorepo.Webapp.Logs.Ranges.{visits, expected_visits, visits-ranges}
use unouns_monorepo.Webapp.Proposals.{PartialProposal}
use unouns_monorepo.Webapp.Functions.{NormalizedNoun}

abbrev running : Auction
running = record {
  amount = 0;
  bidder = "";
  start_time = 10;
  end_time = 20;
  unoun_id = 7;
  settled = false;
}

abbrev bid : String → String → ℕ → BidEvent
bid hash sender value = record {
  unoun_id = 7;
  sender = sender;
  value = value;
  extended = false;
  transaction_hash = hash;
  timestamp = 11;
}

abbrev state : AuctionState
state = record { active_auction = some running; bids = bid "h1" "alice" 5 ∷ [] }

lower_bid : append_bid (bid "h2" "bob" 3) state ≡ record {
  active_auction = some (record running { amount = 5; bidder = "alice" });
  bids = bid "h2" "bob" 3 ∷ bid "h1" "alice" 5 ∷ [];
}
unfolding append_bid
lower_bid = refl

append_bid-IsTop_example :
    let t = append_bid (bid "h2" "bob" 9) state in
    (b : Auction) × (t.active_auction ≡ some b)
    × (t.bids ≡ bid "h2" "bob" 9 ∷ bid "h1" "alice" 5 ∷ [])
    × IsTop (bid "h2" "bob" 9 ∷ bid "h1" "alice" 5 ∷ []) b
    × (b.unoun_id ≡ 7)
    × (b.start_time ≡ 10)
    × (b.end_time ≡ 20)
    × (b.settled ≡ false)
unfolding contains_bid
append_bid-IsTop_example = append_bid-IsTop (bid "h2" "bob" 9) state running refl refl refl

abbrev past : List AuctionState
past =
    record { active_auction = some (record running { unoun_id = 5; settled = true }); bids = [] }
    ∷ []

abbrev shown_auction : Auction
shown_auction = record {
  amount = 0;
  bidder = "";
  start_time = 10;
  end_time = 20;
  unoun_id = 5;
  settled = false;
}

visits-ranges_example : visits 1000000 (ranges 0 1500000) ≡ expected_visits 0 1500000 1000000
visits-ranges_example = visits-ranges 0 1500000 1000000

abbrev entry : FetchState
entry = record {
  listeners = pos 1;
  fetching_block_number = some 8;
  results = some (record { block_number = 8; outcome = unouns_monorepo.Webapp.Logs.error });
}

abbrev voting : PartialProposal
voting = record {
  id = "1";
  title = none;
  status = active;
  start_block = 5;
  end_block = 9;
  for_votes = 4;
  against_votes = 2;
  abstain_votes = 0;
  quorum_votes = 5;
  execution_eta = none;
}

abbrev noun : NormalizedNoun
noun = record {
  id = 1;
  owner = 17;
  delegated_to = some 18;
  votes = record { proposal_id = 4; support_detailed = 1 } ∷ [];
  seed = record { background = 0; body = 1; accessory = 2; head = 3; glasses = 4 };
}
