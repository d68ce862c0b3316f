-- ===== src/Webapp/VotePage.antt =====
-- packages/nouns-webapp/src/pages/Vote/index.tsx and src/utils/getNounsVotes.ts: what the page of a
-- proposal offers, its transactions, and the UNouns behind the votes. Times are in milliseconds.
pub mod Actions
pub mod Pending
pub mod Votes
mod Tests
use unouns_monorepo.Base.{
  ℕ, ◌+◌, ◌-◌, ◌*◌, Bool, true, false, ◌&&◌, ◌||◌, Option, none, some, String, List, [], ◌∷◌, ◌++◌,
  ◌==◌, ltb, leb, map, filter_by, str_eq, if◌then◌else◌,
}
use unouns_monorepo.Base.Int.{ℤ, pos, ◌-ℤ◌, ◌*ℤ◌, ◌+ℤ◌, ltb_ℤ}
use unouns_monorepo.Base.Table.{Table, load, save}
use unouns_monorepo.Webapp.Alerts.{
  AlertModal, Message, TransactionState, TransactionStatus, not_started, pending_signature, mining,
  success, fail, exception, alert, words, message_or,
}
use unouns_monorepo.Webapp.Proposals.{
  ProposalState, is_pending, is_active, is_succeeded, is_queued, PartialProposal,
  get_proposal_state,
}

-- the proposal of `useProposal`, as far as the page's choices look at it
pub record Proposal : Type 0 where
  pub id : String
  pub proposer : Option String
  pub status : ProposalState
  pub start_block : ℕ
  pub end_block : ℕ
  pub for_count : ℕ
  pub against_count : ℕ
  pub abstain_count : ℕ
  pub eta : Option ℕ

-- `parseSubgraphProposal`; the time of the block is in seconds and 0 when it is not known
unfoldable pub parse_subgraph_proposal :
    Option ℕ → Option ℕ → Option String → PartialProposal → Proposal
parse_subgraph_proposal block timestamp proposer p = record {
  id = p.id;
  proposer = proposer;
  status = get_proposal_state block (some (elim timestamp [ none ↦ 0 | some t ↦ t ])) p;
  start_block = p.start_block;
  end_block = p.end_block;
  for_count = p.for_votes;
  against_count = p.against_votes;
  abstain_count = p.abstain_votes;
  eta = elim p.execution_eta [ none ↦ none | some eta ↦ some (eta * 1000) ];
}

unfoldable pub total_votes : Proposal → ℕ
total_votes p = p.for_count + p.against_count + p.abstain_count

-- a percentage is its numerator and denominator, 0 where nobody has voted
abbrev pub percentage : ℕ → Proposal → ℕ × ℕ
percentage count p = if total_votes p == 0 then (0, 1) else (count * 100, total_votes p)

unfoldable pub for_percentage : Proposal → ℕ × ℕ
for_percentage p = percentage p.for_count p

unfoldable pub against_percentage : Proposal → ℕ × ℕ
against_percentage p = percentage p.against_count p

unfoldable pub abstain_percentage : Proposal → ℕ × ℕ
abstain_percentage p = percentage p.abstain_count p

abbrev pub has_succeeded : Proposal → Bool
has_succeeded p = elim p.status [ is_succeeded ↦ true | _ ↦ false ]

abbrev pub has_been_queued : Proposal → Bool
has_been_queued p = elim p.status [ is_queued ↦ true | _ ↦ false ]

unfoldable pub is_in_non_final_state : Proposal → Bool
is_in_non_final_state p = elim p.status [
  | is_pending ↦ true
  | is_active ↦ true
  | is_succeeded ↦ true
  | is_queued ↦ true
  | _ ↦ false
]

-- `a === b` for texts that may be undefined; `toLowerCase` is a parameter
abbrev pub same_option : Option String → Option String → Bool
same_option none none = true
same_option none (some b) = false
same_option (some a) none = false
same_option (some a) (some b) = str_eq a b

abbrev pub lower : (String → String) → Option String → Option String
lower to_lower_case none = none
lower to_lower_case (some a) = some (to_lower_case a)

unfoldable pub is_cancellable : (String → String) → Option String → Proposal → Bool
unfolding is_in_non_final_state
is_cancellable to_lower_case account p =
    is_in_non_final_state p
    && same_option (lower to_lower_case p.proposer) (lower to_lower_case account)

-- `Number.MAX_SAFE_INTEGER`, which no time reaches, stands for no time at all
unfoldable pub is_awaiting_state_change : ℕ → Proposal → Bool
is_awaiting_state_change now p =
    if has_succeeded p
    then true
    else if has_been_queued p
    then elim p.eta [ none ↦ false | some eta ↦ leb eta now ]
    else false

-- the calls of the contract that the buttons make
pub data Move : Type 0 where
  queue_proposal execute_proposal cancel_proposal : String → Move

-- the button that moves the proposal on, where it is there
unfoldable pub move_state_action : ℕ → Proposal → Option Move
unfolding is_awaiting_state_change
move_state_action now p =
    if is_awaiting_state_change now p
    then some (if has_succeeded p then queue_proposal p.id else execute_proposal p.id)
    else none

unfoldable pub destructive_state_action : (String → String) → Option String → Proposal → Option Move
unfolding is_cancellable
destructive_state_action to_lower_case account p =
    if is_cancellable to_lower_case account p then some (cancel_proposal p.id) else none

-- the time of a block, from the time and the number of the current one, at 12 seconds for each
unfoldable pub date_of : ℕ → ℕ → ℕ → ℤ
date_of timestamp current_block block =
    pos timestamp +ℤ pos 12000 *ℤ (pos block -ℤ pos current_block)

pub data TimeCopy : Type 0 where
  ends ended starts : TimeCopy

-- what is said of the time, and the time; `now` is read after `timestamp`
unfoldable pub start_or_end_time_copy : ℤ → ℤ → ℤ → TimeCopy
start_or_end_time_copy start_date end_date now =
    if ltb_ℤ start_date now && ltb_ℤ now end_date
    then ends
    else if ltb_ℤ end_date now
    then ended
    else starts

unfoldable pub start_or_end_time_time : ℤ → ℤ → ℤ → ℤ
start_or_end_time_time start_date end_date now =
    if ltb_ℤ start_date now then end_date else start_date
