-- ===== src/Subgraph/Schema.antt =====
-- The entities of packages/nouns-subgraph/schema.graphql, as the mappings of
-- packages/nouns-subgraph/src read and write them, and the store that holds them.
--
-- An id, an address and a transaction hash is the text that the mapping makes of it (`toString`,
-- `toHexString`, `toHex`): the handlers use those values in no other way. A `BigInt` that no handler
-- subtracts from is a natural number, any other a `ℤ`; `Int` is a 32-bit integer.
use unouns_monorepo.Base.{
  ℕ, ◌+◌, ◌-◌, ◌%◌, ◌^◌, String, Bool, Option, none, List, [], ◌∷◌, ltb, if◌then◌else◌, ◌≡◌,
}
use unouns_monorepo.Base.Int.{ℤ, pos, pos_part, neg_part, sub_ℕ}
use unouns_monorepo.Base.Table.{Table}
use unouns_monorepo.Base.Text.{Text}

-- packages/nouns-subgraph/src/utils/constants.ts
abbrev pub zero_address : String
zero_address = "0x0000000000000000000000000000000000000000"

-- the 32-bit signed value that the sum or the difference of two `i32` is wrapped to
unfoldable pub wrap_i32 : ℤ → ℤ
wrap_i32 a =
    let m = (pos_part a + (2 ^ 32 - neg_part a % 2 ^ 32)) % 2 ^ 32 in
    if ltb m (2 ^ 31) then pos m else sub_ℕ m (2 ^ 32)

pub data Status : Type 0 where
  pending active cancelled vetoed queued executed : Status

pub record DelegationEvent : Type 0 where
  pub noun : String
  pub previous_delegate : String
  pub new_delegate : String
  pub block_number : ℕ
  pub block_timestamp : ℕ

pub record TransferEvent : Type 0 where
  pub noun : String
  pub previous_holder : String
  pub new_holder : String
  pub block_number : ℕ
  pub block_timestamp : ℕ

pub record Seed : Type 0 where
  pub id : String
  pub background : ℕ
  pub body : ℕ
  pub accessory : ℕ
  pub head : ℕ
  pub glasses : ℕ

pub record Noun : Type 0 where
  pub id : String
  pub seed : Option String
  pub owner : String

pub record Bid : Type 0 where
  pub noun : String
  pub amount : ℕ
  pub bidder : Option String
  pub block_number : ℕ
  pub tx_index : ℕ
  pub auction : String
  pub block_timestamp : ℕ

pub record Auction : Type 0 where
  pub id : String
  pub noun : String
  pub amount : ℕ
  pub start_time : ℕ
  pub end_time : ℕ
  pub bidder : Option String
  pub settled : Bool

pub record Account : Type 0 where
  pub id : String
  pub delegate : Option String
  pub token_balance_raw : ℤ
  pub token_balance : ℤ
  pub total_tokens_held_raw : ℤ
  pub total_tokens_held : ℤ
  pub nouns : List String

pub record Delegate : Type 0 where
  pub id : String
  pub delegated_votes_raw : ℕ
  pub delegated_votes : ℕ
  pub token_holders_represented_amount : ℤ
  pub nouns_represented : List String

pub record Proposal : Type 0 where
  pub id : String
  pub proposer : String
  pub targets : List String
  pub values : List ℕ
  pub signatures : List String
  pub calldatas : List String
  pub created_timestamp : ℕ
  pub created_block : ℕ
  pub created_transaction_hash : String
  pub start_block : ℕ
  pub end_block : ℕ
  pub proposal_threshold : ℕ
  pub quorum_votes : ℤ
  pub for_votes : ℕ
  pub against_votes : ℕ
  pub abstain_votes : ℕ
  pub title : Text
  pub description : Text
  pub status : Status
  pub execution_eta : Option ℕ
  pub total_supply : ℤ
  pub min_quorum_votes_bps : ℕ
  pub max_quorum_votes_bps : ℕ
  pub quorum_coefficient : ℕ

pub record Vote : Type 0 where
  pub id : String
  pub support : Bool
  pub support_detailed : ℕ
  pub votes_raw : ℕ
  pub votes : ℕ
  pub reason : Option String
  pub voter : String
  pub nouns : List String
  pub proposal : String
  pub block_number : ℕ

pub record Governance : Type 0 where
  pub proposals : ℤ
  pub current_token_holders : ℤ
  pub current_delegates : ℤ
  pub total_token_holders : ℤ
  pub total_delegates : ℤ
  pub delegated_votes_raw : ℤ
  pub delegated_votes : ℤ
  pub proposals_queued : ℤ

pub record DynamicQuorumParams : Type 0 where
  pub min_quorum_votes_bps : ℕ
  pub max_quorum_votes_bps : ℕ
  pub quorum_coefficient : ℕ
  pub dynamic_quorum_start_block : Option ℕ

-- a call of `log.error`: the format and its arguments, those that are numbers apart
pub record LogEntry : Type 0 where
  pub format : String
  pub args : List String
  pub values : List ℤ

-- Governance and DynamicQuorumParams have one row each, 'GOVERNANCE' and 'LATEST'.
pub record Store : Type 0 where
  pub accounts : Table Account
  pub delegates : Table Delegate
  pub proposals : Table Proposal
  pub votes : Table Vote
  pub nouns : Table Noun
  pub seeds : Table Seed
  pub auctions : Table Auction
  pub bids : Table Bid
  pub delegation_events : Table DelegationEvent
  pub transfer_events : Table TransferEvent
  pub governance : Option Governance
  pub quorum_params : Option DynamicQuorumParams
  pub log : List LogEntry

abbrev pub empty : Store
empty = record {
  accounts = [];
  delegates = [];
  proposals = [];
  votes = [];
  nouns = [];
  seeds = [];
  auctions = [];
  bids = [];
  delegation_events = [];
  transfer_events = [];
  governance = none;
  quorum_params = none;
  log = [];
}

abbrev pub log_error : String → List String → Store → Store
log_error format args s = record s {
  log = record { format = format; args = args; values = [] } ∷ s.log;
}

-- The rows that the entity classes of `graph codegen` start with (generated code, not in the
-- repository), with what the handlers rely on: a new entity has the id that it is made with.
pub record Codegen : Type 0 where
  pub new_proposal : String → Proposal
  pub new_vote : String → Vote
  pub new_proposal_id : (id : String) → (new_proposal id).id ≡ id
  pub new_vote_id : (id : String) → (new_vote id).id ≡ id
