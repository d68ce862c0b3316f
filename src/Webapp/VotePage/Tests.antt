-- ===== src/Webapp/VotePage/Tests.antt =====
-- Examples of the page of a proposal: votes of two delegates, a proposal that succeeds, and the end of
-- a transaction.
use unouns_monorepo.Base.{ℕ, ◌≡◌, ◌↔◌, false, none, some, String, List, [], ◌∷◌, refl}
use unouns_monorepo.Base.Int.{pos, ◌+ℤ◌, ◌*ℤ◌, ◌-ℤ◌}
use unouns_monorepo.Base.Table.{load, save}
use unouns_monorepo.Subgraph.Schema.{active, queued}
use unouns_monorepo.Webapp.Alerts.{TransactionStatus, status_of, mining, success}
use unouns_monorepo.Webapp.Proposals.{PartialProposal, IsSucceeded, get_proposal_state}
use unouns_monorepo.Webapp.VotePage.{
  Proposal, queue_proposal, execute_proposal, cancel_proposal, parse_subgraph_proposal,
  move_state_action, destructive_state_action, is_cancellable, is_in_non_final_state,
  is_awaiting_state_change, for_percentage, total_votes, date_of, start_or_end_time_copy, starts,
}
use unouns_monorepo.Webapp.VotePage.Actions.{IsDue, move_state_action_iff}
use unouns_monorepo.Webapp.VotePage.Pending.{PageState, Transaction, queueing, cancelling}
use unouns_monorepo.Webapp.VotePage.Votes.{
  ProposalVote, delegate_to_unoun_ids, get_noun_votes, vote_data,
}

abbrev proposal : PartialProposal
proposal = record {
  id = "7";
  title = none;
  status = active;
  start_block = 100;
  end_block = 200;
  for_votes = 6;
  against_votes = 3;
  abstain_votes = 1;
  quorum_votes = 5;
  execution_eta = none;
}

abbrev queued_proposal : PartialProposal
queued_proposal = record {
  id = "7";
  title = none;
  status = queued;
  start_block = 100;
  end_block = 200;
  for_votes = 6;
  against_votes = 3;
  abstain_votes = 1;
  quorum_votes = 5;
  execution_eta = some 5000;
}

abbrev shown : PartialProposal → Proposal
shown = parse_subgraph_proposal (some 201) (some 6000) (some "0xA")

offered : move_state_action 6000000 (shown proposal) ≡ some (queue_proposal "7")
unfolding move_state_action is_awaiting_state_change parse_subgraph_proposal get_proposal_state
offered = refl

due : move_state_action 6000000 (shown queued_proposal) ≡ some (execute_proposal "7")
unfolding move_state_action is_awaiting_state_change parse_subgraph_proposal get_proposal_state
due = refl

-- six of ten votes
sixty : for_percentage (shown proposal) ≡ (600, 10)
unfolding for_percentage total_votes parse_subgraph_proposal
sixty = refl

cancellable :
    destructive_state_action (λ a. "0xa") (some "0xa") (shown proposal) ≡ some (cancel_proposal "7")
unfolding destructive_state_action is_cancellable is_in_non_final_state parse_subgraph_proposal
    get_proposal_state
cancellable = refl

-- ten blocks ahead are two minutes
ahead : date_of 1000000 90 100 ≡ pos 1120000
unfolding date_of ◌+ℤ◌ ◌*ℤ◌ ◌-ℤ◌
ahead = refl

-- At the very millisecond of the end, the page says that the vote starts.
at_the_end : start_or_end_time_copy (pos 10) (pos 20) (pos 20) ≡ starts
unfolding start_or_end_time_copy
at_the_end = refl

abbrev idle : PageState
idle = record {
  is_queue_pending = false;
  is_execute_pending = false;
  is_cancel_pending = false;
  alert_modal = none;
}

abbrev changes : List (Transaction × TransactionStatus)
changes =
    (queueing, status_of mining)
    ∷ (cancelling, status_of mining)
    ∷ (queueing, status_of success)
    ∷ []

abbrev vote_of : String → ℕ → ProposalVote
vote_of voter support = record { voter = voter; support_detailed = support }

abbrev votes : List ProposalVote
votes = vote_of "a" 1 ∷ vote_of "b" 0 ∷ vote_of "c" 1 ∷ []

listed :
    get_noun_votes
      (vote_data
          (delegate_to_unoun_ids
            (record { id = "a"; nouns_represented = "1" ∷ "2" ∷ [] }
              ∷ record { id = "b"; nouns_represented = "3" ∷ [] }
              ∷ [])
            [])
          (vote_of "a" 1)
        ∷ [])
      1
    ≡ "1" ∷ "2" ∷ []
unfolding get_noun_votes vote_data delegate_to_unoun_ids load save
listed = refl

move_state_action_iff_example :
    ((move_state_action 6000000 (shown proposal) ≡ some (queue_proposal "7"))
      ↔ IsSucceeded 200 6000 proposal)
    × ((move_state_action 6000000 (shown proposal) ≡ some (execute_proposal "7"))
        ↔ IsDue 6000 6000000 proposal)
move_state_action_iff_example = move_state_action_iff 200 6000 6000000 (some "0xA") proposal
