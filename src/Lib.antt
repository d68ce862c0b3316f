-- ===== src/Lib.antt =====
-- UNouns monorepo: the TypeScript code of packages/.
--
-- The program and its parts. Contracts on Ethereum auction one Noun after the other and let their
-- holders govern a DAO. The subgraph (packages/nouns-subgraph) turns the events of the contracts
-- into entities; the bots (packages/nouns-bots) and the web application (packages/nouns-webapp) ask
-- the subgraph, announce what is new, and show auctions and proposals. The SDK (packages/nouns-sdk)
-- encodes the parts of a Noun's picture into the text that the contracts store, and draws pictures
-- from such texts. The tasks (packages/nouns-contracts/tasks) deploy the contracts, and the API
-- (packages/nouns-api) serves the metadata of a Noun.
--
-- - Subgraph: packages/nouns-subgraph/src. Subgraph.Schema has the entities and the store, a record
--   of tables; an operation of the mappings takes the store and gives the new one. Subgraph.Helpers
--   has utils/helpers.ts (getOrCreateAccount is get_or_create_account, and so on),
--   Subgraph.Auctions nouns-auction-house.ts, Subgraph.Dao nouns-dao.ts, Subgraph.Quorum
--   utils/dynamicQuorum.ts, and Subgraph.Token and Subgraph.Transfers nouns-erc-721.ts. Entities
--   that a handler holds are values: a save writes a row, and two loads of one row do not see each
--   other's changes, as in The Graph's store.
-- - Sdk: packages/nouns-sdk/src/image. Sdk.Hex has utils.ts, Sdk.Image image.ts, Sdk.Svg
--   svg-builder.ts, Sdk.Encoder png-collection-encoder.ts. Texts are lists of code units.
--   Sdk.Svg.Raster is no code of the SDK: it says where the pixels of a picture stand by division.
-- - Bots: packages/nouns-bots/src. Bots.Types has the data, the cache and what has been sent,
--   Bots.Messages the texts of utils.ts, Bots.Handlers handlers/, Bots.Proposals
--   utils/proposals.ts, Bots.Ticks the two jobs of index.ts.
-- - Webapp: packages/nouns-webapp. Webapp.Auctions, Webapp.Display, Webapp.PastAuctions,
--   Webapp.Logs and Webapp.Alerts have the slices auction.ts, onDisplayAuction.ts, pastAuctions.ts,
--   logs.ts and application.ts of src/state with what reads them, Webapp.Logs.Keys
--   src/utils/logParsing.ts, Webapp.Activity src/wrappers/nounActivity.ts; Webapp.Proposals,
--   Webapp.Details and Webapp.Titles have getProposalState, formatProposalTransactionDetails and
--   extractTitle of src/wrappers/nounsDao.ts, whose regular expressions are functions on texts,
--   Webapp.Shuffle and Webapp.Bids three files of src/utils, Webapp.Functions the web functions of
--   functions/. Of the components, Webapp.Bid has src/components/Bid, Webapp.VoteModal
--   src/components/VoteModal, Webapp.VotePage src/pages/Vote, Webapp.CreateProposal
--   src/pages/CreateProposal, Webapp.ActionModal src/components/ProposalActionsModal and
--   Webapp.FunctionCall its steps for the call of a function. Each of these is a record of what the
--   component keeps, with one operation for each handler and effect, and what happens to it is a
--   list of such operations or, for the steps of Webapp.ActionModal and Webapp.FunctionCall, a data
--   type of the states that are reached. Webapp.Bid.Minimum has the guard of the contract's
--   createBid beside that of the page. Webapp.Explore has src/pages/Explore, Webapp.ExploreGrid the
--   list of Nouns of src/components/ExploreGrid, and Webapp.Threshold
--   src/components/DynamicQuorumInfoModal.
-- - Assets: packages/nouns-assets/src. Assets.Seeds has getPseudorandomPart and
--   getNounSeedFromBlockHash of utils.ts, with the texts of BigNumber as an argument and the hash
--   as its number.
-- - Tasks: packages/nouns-contracts/tasks. Tasks.ChainId and Tasks.Chain have the chain as its
--   nonces and what stands at its addresses, Tasks.Arguments the table of contracts and the default
--   arguments, Tasks.Deployment the loop over the table with its prompts and checks of addresses,
--   Tasks.Contracts the table and the task of deploy.ts, and Tasks.ShortTimes those of
--   deploy-short-times.ts and deploy-short-times-daov1.ts.
-- - Api: packages/nouns-api/src. Api has getTokenMetadata of utils.ts with its cache, and the route
--   of api.ts that answers with it.
-- - Base: numbers, lists, texts, signed integers and tables that the parts share.
--
-- Loops. A loop over a list is a recursion on it. The loops of calcBounds go down to or up to a
-- bound and are recursions on the distance to it. The drawing loop of buildSVG has the length of
-- the draw as its fuel, since a round draws at least one pixel; the ranges of the log updater have
-- one round per block, since a round moves on; toString has one round more than the number, since a
-- division by a base of at least 2 makes it smaller; the shuffle has the length of its input; the
-- ranges of the grid have one round more than there are Nouns. The theorems about these functions
-- are about their whole result, so that the fuel is shown to be enough.
--
-- Numbers. A BigInt or BigNumber that is never subtracted from is a natural number, another one an
-- integer; i32 wraps around at 2 ^ 32, and so does the double bitwise negation of a time. A
-- JavaScript number that is NaN is `none`. Webapp.Threshold rounds as JavaScript does, with the
-- doubles of Base.Double, where a number is rounded down afterwards; its crossover, and the place
-- on the graph that follows from it, are exact.
--
-- Parameters. The operations of the chain and the answers at the prompts of the tasks, with the
-- documented address of a new contract as a named hypothesis; the services of the API, with JSON
-- that reads back as one; parseEther, formatEther, isAddress, JSON.parse and the ABI coders of the
-- web application; the answers of noun.pics about ranges of Nouns, with their documented order as a
-- named hypothesis. The values of fields that the generated entity classes have before they are
-- set, the division of big numbers and their conversion to i32, the services of the bots (ENS,
-- Twitter, the picture of a Noun, the formatting of ether) and the index that Math.sin leads to are
-- arguments.
--
-- Not modelled: the Solidity contracts, the markup of the user interface and the components other
-- than those named above, GraphQL and HTTP with the server of the API and its connections, the
-- tasks that configure, verify and fill the contracts, and the image data of packages/nouns-assets.
-- Work that the source does at once (Promise.all) is done one after the other; the parts of it
-- share no state.
pub mod Base
pub mod Subgraph
pub mod Sdk
pub mod Bots
pub mod Webapp
pub mod Assets
pub mod Tasks
pub mod Api
