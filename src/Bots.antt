-- ===== src/Bots.antt =====
-- packages/nouns-bots/src: the bots that announce auctions and proposals.
pub mod Types
pub mod Messages
pub mod Handlers
pub mod Proposals
pub mod Ticks
mod Tests
