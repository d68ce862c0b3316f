-- ===== src/Webapp/Activity/Tests.antt =====
-- Examples of the activity of a Noun, and of the time from which it can vote.
use unouns_monorepo.Base.{ℕ, ◌≡◌, Option, none, String, List, [], ◌∷◌, ◌++◌, length, arith}
use mathlib.Core.List.{Perm}
use unouns_monorepo.Webapp.Auctions.{AuctionState}
use unouns_monorepo.Webapp.Proposals.{is_executed}
use unouns_monorepo.Webapp.PastAuctions.{past_auction}
use unouns_monorepo.Webapp.Activity.{
  NounProfileEvent, Proposal, transfer, delegation, transfer_event, delegation_event,
  noun_win_event, use_noun_activity, fetched,
}
use unouns_monorepo.Webapp.Activity.Order.{IsNewestFirst, use_noun_activity-IsNewestFirst}

abbrev moved : ℕ → String → String → NounProfileEvent
moved block from to = record {
  block_number = block;
  event_type = transfer;
  payload = transfer_event from to [];
}

abbrev delegated : ℕ → NounProfileEvent
delegated block = record {
  block_number = block;
  event_type = delegation;
  payload = delegation_event "a" "b" [];
}

abbrev transfers : List NounProfileEvent
transfers = moved 1 "0x0" "house" ∷ moved 9 "house" "alice" ∷ moved 20 "alice" "bob" ∷ []

abbrev delegations : List NounProfileEvent
delegations = delegated 1 ∷ delegated 9 ∷ delegated 20 ∷ []

use_noun_activity-IsNewestFirst_example :
    (kept cut : List NounProfileEvent) × (use_noun_activity 7
        (fetched [])
        (fetched transfers)
        (fetched delegations)
      ≡ fetched (kept ++ noun_win_event 7 transfers))
    × IsNewestFirst (kept ++ cut)
    × Perm (kept ++ cut) (transfers ++ delegations)
    × (length cut ≡ 4)
use_noun_activity-IsNewestFirst_example =
    use_noun_activity-IsNewestFirst 7 [] transfers delegations (omega arith)

abbrev past : List AuctionState
past =
    past_auction
      (record { id = 3; amount = 5; bidder = none; start_time = 100; end_time = 200; bids = [] })
    ∷ []

abbrev proposal : Option String → Proposal
proposal id = record {
  id = id;
  title = "Title";
  status = is_executed;
  for_count = 1;
  against_count = 0;
  abstain_count = 0;
  end_block = 50;
}
