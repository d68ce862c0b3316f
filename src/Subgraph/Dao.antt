-- ===== src/Subgraph/Dao.antt =====
-- packages/nouns-subgraph/src/nouns-dao.ts.
pub mod Tally
pub mod Counts
use unouns_monorepo.Base.{
  ℕ, zero, suc, ◌+◌, String, Char, Bool, true, false, Option, none, some, List, [], ◌∷◌, ◌++◌, ◌≡◌,
  refl, not, ltb, leb, ◌==◌, str_eq, codes, if◌then◌else◌,
}
use unouns_monorepo.Base.Int.{ℤ, pos, ◌+ℤ◌, ◌-ℤ◌}
use unouns_monorepo.Base.Table.{load}
use unouns_monorepo.Base.Text.{
  Text, split, split_limit, join, replace_pair, trim, trim_start, trim_end,
}
use Prim.Native.String
use unouns_monorepo.Subgraph.Schema.{
  Status, pending, active, cancelled, vetoed, queued, executed, Delegate, Proposal, Vote,
  Governance, DynamicQuorumParams, Store, Codegen, log_error,
}
use unouns_monorepo.Subgraph.Helpers.{
  get_or_create_delegate_with_null_option, get_or_create_delegate, get_or_create_vote,
  get_or_create_proposal, get_governance_entity, get_or_create_dynamic_quorum_params, save_proposal,
  save_vote, save_governance, save_params,
}
use unouns_monorepo.Subgraph.Quorum.{BigIntOps, dynamic_quorum_votes}

-- `shift()` drops what stands before the first `#`, if there is one
abbrev after_hash : List Text → List Text
after_hash [] = []
after_hash (p ∷ []) = p ∷ []
after_hash (p ∷ q ∷ rest) = q ∷ rest

-- `title == '' ? 'Untitled' : title`
abbrev or_untitled : Text → Text
or_untitled [] = codes "Untitled"
or_untitled (c ∷ title) = c ∷ title

unfoldable pub extract_title : Text → Text
unfolding split join replace_pair trim_start trim_end
extract_title description =
    let line =
      trim (join (split_limit b'\n' 1 (join (after_hash (split_limit b'#' 3 description))))) in
    or_untitled (replace_pair b'_' b'_' [] (replace_pair b'*' b'*' [] line))

pub record ProposalCreated : Type 0 where
  pub id : String
  pub proposer : String
  pub targets : List String
  pub values : List ℕ
  pub signatures : List String
  pub calldatas : List String
  pub start_block : ℕ
  pub end_block : ℕ
  pub proposal_threshold : ℕ
  pub quorum_votes : ℕ
  pub description : Text
  pub block_number : ℕ
  pub block_timestamp : ℕ
  pub tx_hash : String

pub record VoteCast : Type 0 where
  pub proposal_id : String
  pub voter : String
  pub support : ℕ
  pub votes : ℕ
  pub reason : String
  pub block_number : ℕ
  pub tx_hash : String

-- a delegate that is not known yet is an error in the log, and nothing else
abbrev log_unknown_delegate : String → String → String → Store → Store
log_unknown_delegate format id tx_hash s =
    let (found, s') = get_or_create_delegate_with_null_option id false true s in
    elim found [ none ↦ log_error format (id ∷ tx_hash ∷ []) s' | some _ ↦ s' ]

abbrev vote_id : VoteCast → String
vote_id e = String.◌++◌ e.voter (String.◌++◌ "-" e.proposal_id)

-- the `if`/`else if` chain over `support`
abbrev pub tally : VoteCast → Proposal → Proposal
tally e p =
    if e.support == 0
    then record p { against_votes = p.against_votes + e.votes }
    else if e.support == 1
    then record p { for_votes = p.for_votes + e.votes }
    else if e.support == 2
    then record p { abstain_votes = p.abstain_votes + e.votes }
    else p

-- `usingDynamicQuorum`
abbrev pub using_dynamic_quorum : DynamicQuorumParams → Proposal → Bool
using_dynamic_quorum params p = elim params.dynamic_quorum_start_block [
  | none ↦ false
  | some block ↦ ltb block p.created_block
]

abbrev activate : Status → Status
activate pending = active
activate status = status

abbrev cast_vote : VoteCast → Delegate → Proposal → Vote → Vote
cast_vote e voter proposal vote = record vote {
  proposal = proposal.id;
  voter = voter.id;
  votes_raw = e.votes;
  votes = e.votes;
  support = e.support == 1;
  support_detailed = e.support;
  nouns = voter.nouns_represented;
  block_number = e.block_number;
  reason = if str_eq e.reason "" then vote.reason else some e.reason;
}

-- the fields that `handleProposalCreatedWithRequirements` sets, from the delegate on
abbrev pub fill_proposal : ProposalCreated → String → ℤ → DynamicQuorumParams → Proposal → Proposal
fill_proposal e proposer total_supply params proposal =
    let description = replace_pair 92 b'n' (b'\n' ∷ []) e.description in
    record proposal {
      proposer = proposer;
      targets = e.targets;
      values = e.values;
      signatures = e.signatures;
      calldatas = e.calldatas;
      created_timestamp = e.block_timestamp;
      created_block = e.block_number;
      created_transaction_hash = e.tx_hash;
      start_block = e.start_block;
      end_block = e.end_block;
      proposal_threshold = e.proposal_threshold;
      quorum_votes = pos e.quorum_votes;
      for_votes = 0;
      against_votes = 0;
      abstain_votes = 0;
      description = description;
      title = extract_title description;
      status = if leb e.start_block e.block_number then active else pending;
      total_supply = total_supply;
      min_quorum_votes_bps = params.min_quorum_votes_bps;
      max_quorum_votes_bps = params.max_quorum_votes_bps;
      quorum_coefficient = params.quorum_coefficient;
    }

module _ (codegen : Codegen) where
  unfoldable pub handle_proposal_created : ProposalCreated → Store → Store
  handle_proposal_created e s₀ =
      let (proposal, s₁) = get_or_create_proposal codegen e.id s₀ in
      let s₂ =
        log_unknown_delegate "Delegate {} not found on ProposalCreated. tx_hash: {}" e.proposer
          e.tx_hash s₁ in
      let (proposer, s₃) = get_or_create_delegate e.proposer s₂ in
      let governance = get_governance_entity s₃ in
      let (params, s₄) = get_or_create_dynamic_quorum_params none s₃ in
      save_proposal (fill_proposal e proposer.id governance.total_token_holders params proposal) s₄

  unfoldable pub handle_proposal_canceled : String → Store → Store
  handle_proposal_canceled id s =
      let (proposal, s') = get_or_create_proposal codegen id s in
      save_proposal (record proposal { status = cancelled }) s'

  unfoldable pub handle_proposal_vetoed : String → Store → Store
  handle_proposal_vetoed id s =
      let (proposal, s') = get_or_create_proposal codegen id s in
      save_proposal (record proposal { status = vetoed }) s'

  -- `governance` is read before `getOrCreateProposal` may write the row
  unfoldable pub handle_proposal_queued : String → ℕ → Store → Store
  handle_proposal_queued id eta s =
      let governance = get_governance_entity s in
      let (proposal, s') = get_or_create_proposal codegen id s in
      save_governance
        (record governance { proposals_queued = governance.proposals_queued +ℤ pos 1 })
        (save_proposal (record proposal { status = queued; execution_eta = some eta }) s')

  unfoldable pub handle_proposal_executed : String → Store → Store
  handle_proposal_executed id s =
      let governance = get_governance_entity s in
      let (proposal, s') = get_or_create_proposal codegen id s in
      save_governance
        (record governance { proposals_queued = governance.proposals_queued -ℤ pos 1 })
        (save_proposal (record proposal { status = executed; execution_eta = none }) s')

  -- from `voteId` to `vote.save()`
  unfoldable pub record_vote : VoteCast → Proposal → Store → Store
  record_vote e proposal s₁ =
      let vote = get_or_create_vote codegen (vote_id e) s₁ in
      let s₂ =
        log_unknown_delegate "Delegate {} not found on VoteCast. tx_hash: {}" e.voter e.tx_hash
          s₁ in
      let (voter, s₃) = get_or_create_delegate e.voter s₂ in
      save_vote (cast_vote e voter proposal vote) s₃

  module _ (ops : BigIntOps) where
    abbrev pub requorum : DynamicQuorumParams → Proposal → Proposal
    requorum params p =
        if using_dynamic_quorum params p
        then record p {
          quorum_votes =
              dynamic_quorum_votes ops (pos p.against_votes) p.total_supply p.min_quorum_votes_bps
                p.max_quorum_votes_bps p.quorum_coefficient;
        }
        else p

    -- from the tally to the status
    unfoldable pub count_vote : DynamicQuorumParams → VoteCast → Proposal → Proposal
    count_vote params e proposal =
        let proposal' = requorum params (tally e proposal) in
        record proposal' { status = activate proposal'.status }

    unfoldable pub handle_vote_cast : VoteCast → Store → Store
    handle_vote_cast e s₀ =
        let (proposal, s₁) = get_or_create_proposal codegen e.proposal_id s₀ in
        let s₄ = record_vote e proposal s₁ in
        let (params, s₅) = get_or_create_dynamic_quorum_params none s₄ in
        save_proposal (count_vote params e proposal) s₅

unfoldable pub handle_min_quorum_votes_bps_set : ℕ → ℕ → Store → Store
handle_min_quorum_votes_bps_set bps block s =
    let (params, s') = get_or_create_dynamic_quorum_params (some block) s in
    save_params (record params { min_quorum_votes_bps = bps }) s'

unfoldable pub handle_max_quorum_votes_bps_set : ℕ → ℕ → Store → Store
handle_max_quorum_votes_bps_set bps block s =
    let (params, s') = get_or_create_dynamic_quorum_params (some block) s in
    save_params (record params { max_quorum_votes_bps = bps }) s'

unfoldable pub handle_quorum_coefficient_set : ℕ → ℕ → Store → Store
handle_quorum_coefficient_set coefficient block s =
    let (params, s') = get_or_create_dynamic_quorum_params (some block) s in
    save_params (record params { quorum_coefficient = coefficient }) s'
