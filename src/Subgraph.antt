-- ===== src/Subgraph.antt =====
-- packages/nouns-subgraph: the indexer that turns contract events into entities.
pub mod Schema
pub mod Helpers
pub mod Auctions
pub mod Quorum
pub mod Dao
pub mod Token
pub mod Transfers
mod Tests
