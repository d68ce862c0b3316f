-- ===== src/Tasks.antt =====
-- packages/nouns-contracts/tasks: the deployment of the contracts.
pub mod Chain
pub mod ChainId
pub mod Arguments
pub mod Deployment
pub mod Contracts
pub mod ShortTimes
mod Tests
