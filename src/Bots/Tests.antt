-- ===== src/Bots/Tests.antt =====
-- Runs of the jobs of the bots.
use unouns_monorepo.Base.{
  ℕ, zero, suc, ◌+◌, ◌*◌, ◌≤◌, ◌<◌, ◌≡◌, ◌≢◌, ◌↔◌, inl, inr, refl, arith, Bool, true, false, Option,
  none, some, List, [], ◌∷◌, ◌==◌, if◌then◌else◌, codes, All, length,
}
use unouns_monorepo.Base.Text.{Text}
use unouns_monorepo.Subgraph.Schema.{Status, active, queued}
use unouns_monorepo.Bots.Types.{
  for, Vote, Proposal, AuctionBids, World, Services, Handler, auction_lifecycle_handlers,
}
use unouns_monorepo.Bots.Messages.{build_counter_name, extract_proposal_title, short_address}
use unouns_monorepo.Bots.Proposals.{extract_new_votes}
use unouns_monorepo.Bots.Ticks.{increment_counter, process_auction_tick, process_governance_tick}
use unouns_monorepo.Bots.Ticks.Auction.{process_auction_tick-twice}
use unouns_monorepo.Bots.Ticks.Governance.Quiet.{SaysNothing, process_governance_tick-twice}

abbrev services : Services
services = record {
  lookup_address = λ address. none;
  has_picture = λ id. true;
  format_ether = λ amount. codes "1.0";
  tweet_id = λ n. codes "t";
}

abbrev handlers : List Handler
handlers = auction_lifecycle_handlers (record { twitter_enabled = true; discord_enabled = true })

abbrev vote : Text → ℕ → Vote
vote id n = record {
  id = id;
  voter = codes "0x12345678";
  votes = n;
  support_detailed = for;
  reason = none;
}

abbrev proposal : Status → List Vote → Proposal
proposal status votes = record {
  id = 3;
  proposer = codes "0x12345678";
  description = codes "# Fund it\nbody";
  status = status;
  quorum_votes = 10;
  proposal_threshold = 1;
  start_block = 5;
  end_block = 9;
  execution_eta = 1000;
  votes = votes;
}

abbrev cached : Proposal
cached = proposal active (vote (codes "a") 1 ∷ [])

abbrev world : World
world = record {
  cache = record {
    auction = some 4;
    bid = some (codes "b1");
    reply_tweet_id = none;
    auction_ending_soon = none;
    proposals = λ id. if id == 3 then some cached else none;
    expiry_warning_sent = λ id. false;
  };
  tweets = [];
  messages = [];
  counters = [];
}

abbrev last : AuctionBids
last = record {
  id = 5;
  end_time = 2000;
  bids = record { id = codes "b2"; amount = 7; bidder = codes "0x12345678" } ∷ [];
}

-- a new auction, a new bid, and an end that is near: three tweets, the later two as replies
three_tweets : length (process_auction_tick services handlers 1000 last world).tweets ≡ 3
unfolding process_auction_tick unouns_monorepo.Base.Int.◌-ℤ◌
three_tweets = refl

extract_proposal_title_test : extract_proposal_title cached ≡ codes "Fund it"
unfolding extract_proposal_title
extract_proposal_title_test = refl

short_address_test : short_address (codes "0x12345678") ≡ codes "0x12...5678"
unfolding short_address
short_address_test = refl

abbrev after : Proposal
after = proposal queued (vote (codes "a") 1 ∷ vote (codes "b") 2 ∷ vote (codes "c") 0 ∷ [])

extract_new_votes_test : extract_new_votes cached after ≡ vote (codes "b") 2 ∷ []
unfolding extract_new_votes
extract_new_votes_test = refl

process_auction_tick-twice_example :
    let t = process_auction_tick services handlers 1000 last world in
    process_auction_tick services handlers 1000 last t
    ≡ increment_counter (build_counter_name (codes "auction_process_last_auction")) t
process_auction_tick-twice_example = process_auction_tick-twice services handlers 1000 last world

process_governance_tick-twice_example :
    let t = process_governance_tick services handlers 1100000 (after ∷ []) world in
    SaysNothing t (process_governance_tick services handlers 1100000 (after ∷ []) t)
process_governance_tick-twice_example =
    process_governance_tick-twice services handlers 1100000 (after ∷ []) world ((cached, refl), tt)
      (tt, tt)
