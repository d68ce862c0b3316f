-- ===== src/Webapp.antt =====
-- packages/nouns-webapp/src: the state of the web application and the rules it computes with.
pub mod Auctions
pub mod Display
pub mod Logs
pub mod Proposals
pub mod Details
pub mod Titles
pub mod CreateProposal
pub mod ActionModal
pub mod ExploreGrid
pub mod Threshold
pub mod FunctionCall
pub mod Explore
pub mod Shuffle
pub mod Alerts
pub mod Bids
pub mod Bid
pub mod VoteModal
pub mod VotePage
pub mod PastAuctions
pub mod Activity
pub mod Functions
mod Tests
