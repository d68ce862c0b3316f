-- ===== src/Bots/Ticks.antt =====
-- packages/nouns-bots/src/index.ts: the two jobs, and what they seed the cache with. The answers of the
-- subgraph and the time are arguments. The proposals of a tick have different ids, so that working on
-- them one after the other comes to what the source does at once.
pub mod Auction
pub mod Governance
use unouns_monorepo.Base.{
  ℕ, ◌*◌, Bool, true, false, not, ◌&&◌, Option, none, some, List, [], ◌∷◌, ◌++◌, ltb, if◌then◌else◌,
  codes,
}
use unouns_monorepo.Base.Int.{ℤ, pos, ◌-ℤ◌, ltb_ℤ}
use unouns_monorepo.Base.Text.{Text, same_text}
use unouns_monorepo.Subgraph.Schema.{wrap_i32}
use unouns_monorepo.Base.Table.{set_at}
use unouns_monorepo.Bots.Types.{
  Vote, Proposal, Bid, AuctionBids, Cache, World, Services, Handler, get_auction_cache,
  get_auction_ending_soon_cache, get_bid_cache,
}
use unouns_monorepo.Bots.Messages.{status_name, build_counter_name}
use unouns_monorepo.Bots.Handlers.{
  Notice, new_auction, new_bid, auction_ending_soon, new_proposal, updated_proposal_status,
  proposal_at_risk_of_expiry, governance_vote, notify,
}
use unouns_monorepo.Bots.Proposals.{extract_new_votes, is_at_risk_of_expiry}

unfoldable pub increment_counter : Text → World → World
increment_counter name w = record w { counters = w.counters ++ name ∷ [] }

abbrev pub update_auction_cache : ℕ → World → World
update_auction_cache id w = let c = w.cache in record w { cache = record c { auction = some id } }

abbrev pub update_bid_cache : Text → World → World
update_bid_cache id w = let c = w.cache in record w { cache = record c { bid = some id } }

abbrev pub update_auction_ending_soon_cache : ℕ → World → World
update_auction_ending_soon_cache id w =
    let c = w.cache in record w { cache = record c { auction_ending_soon = some id } }

abbrev pub update_proposal_cache : Proposal → World → World
update_proposal_cache p w =
    let c = w.cache in
    record w { cache = record c { proposals = set_at p.id (some p) c.proposals } }

abbrev pub set_proposal_expiry_warning_sent : ℕ → World → World
set_proposal_expiry_warning_sent id w =
    let c = w.cache in
    record w { cache = record c { expiry_warning_sent = set_at id true c.expiry_warning_sent } }

abbrev pub setup_auction : AuctionBids → World → World
setup_auction last w = update_auction_cache last.id w

-- a new auction is discovered
unfoldable pub discover_auction : Services → List Handler → ℕ → World → World
unfolding increment_counter notify build_counter_name
discover_auction services handlers id w =
    increment_counter (build_counter_name (codes "auction_cache_updates")) (
      notify services handlers (new_auction id) (
        update_auction_cache id
          (increment_counter (build_counter_name (codes "auctions_discovered")) w)))

-- a new bid is discovered
unfoldable pub discover_bid : Services → List Handler → Text → AuctionBids → World → World
unfolding notify same_text
discover_bid services handlers cached_bid_id last w = elim last.bids [
  | [] ↦ w
  | bid ∷ bids ↦
      if same_text cached_bid_id (Bid.id bid)
      then w
      else notify services handlers (new_bid last.id bid) (update_bid_cache (Bid.id bid) w)
]

-- `~~(now)` is a 32-bit number
abbrev pub ends_soon : ℕ → ℕ → Bool
ends_soon now end_time = ltb_ℤ (pos end_time -ℤ wrap_i32 (pos now)) (pos (20 * 60))

unfoldable pub announce_ending : Services → List Handler → ℕ → ℕ → AuctionBids → World → World
unfolding notify wrap_i32
announce_ending services handlers now cached_ending_soon last w =
    if ends_soon now last.end_time && ltb cached_ending_soon last.id
    then notify services handlers (auction_ending_soon last.id)
        (update_auction_ending_soon_cache last.id w)
    else w

-- The cache is read before anything is done.
unfoldable pub process_auction_tick : Services → List Handler → ℕ → AuctionBids → World → World
unfolding discover_auction discover_bid announce_ending
process_auction_tick services handlers now last w =
    let cached_auction_id = get_auction_cache w.cache in
    let cached_bid_id = get_bid_cache w.cache in
    let cached_ending_soon = get_auction_ending_soon_cache w.cache in
    let discovered =
      if ltb cached_auction_id last.id then discover_auction services handlers last.id w else w in
    let counted =
      increment_counter (build_counter_name (codes "auction_process_last_auction")) discovered in
    announce_ending services handlers now cached_ending_soon last
      (discover_bid services handlers cached_bid_id last counted)

unfoldable pub setup_governance : List Proposal → World → World
setup_governance [] w = w
setup_governance (p ∷ proposals) w = setup_governance proposals (update_proposal_cache p w)

unfoldable pub announce_votes : Services → List Handler → Proposal → List Vote → World → World
unfolding notify
announce_votes services handlers p [] w = w
announce_votes services handlers p (v ∷ votes) w =
    announce_votes services handlers p votes (notify services handlers (governance_vote p v) w)

unfoldable pub announce_status : Services → List Handler → Proposal → Proposal → World → World
unfolding notify same_text
announce_status services handlers cached p w =
    if same_text (status_name cached.status) (status_name p.status)
    then w
    else notify services handlers (updated_proposal_status p) w

unfoldable pub warn_of_expiry : Services → List Handler → ℕ → Proposal → World → World
unfolding notify is_at_risk_of_expiry
warn_of_expiry services handlers now p w =
    if is_at_risk_of_expiry now p && not (w.cache.expiry_warning_sent p.id)
    then set_proposal_expiry_warning_sent p.id
        (notify services handlers (proposal_at_risk_of_expiry p) w)
    else w

-- the work on one proposal of a tick
unfoldable pub process_proposal : Services → List Handler → ℕ → Proposal → World → World
unfolding announce_votes announce_status warn_of_expiry extract_new_votes
process_proposal services handlers now p w =
    let told : World = elim (w.cache.proposals p.id) [
      | none ↦ notify services handlers (new_proposal p) w
      | some cached ↦ warn_of_expiry services handlers now p (
          announce_votes services handlers p (extract_new_votes cached p)
            (announce_status services handlers cached p w))
    ] in
    update_proposal_cache p told

unfoldable pub process_governance_tick : Services → List Handler → ℕ → List Proposal → World → World
unfolding process_proposal
process_governance_tick services handlers now [] w = w
process_governance_tick services handlers now (p ∷ proposals) w =
    process_governance_tick services handlers now proposals
      (process_proposal services handlers now p w)
