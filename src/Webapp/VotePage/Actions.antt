-- ===== src/Webapp/VotePage/Actions.antt =====
-- What the page of a proposal offers, from what the subgraph says of it.
use unouns_monorepo.Base.{ℕ, suc, ◌+◌, ◌*◌, ◌≤◌, ◌<◌, ◌≡◌, ◌↔◌, Option, some, String, arith}
use unouns_monorepo.Subgraph.Schema.{queued}
use unouns_monorepo.Webapp.Proposals.{
  PartialProposal, IsSucceeded, grace_period, get_proposal_state,
}
use unouns_monorepo.Webapp.VotePage.{
  queue_proposal, execute_proposal, parse_subgraph_proposal, move_state_action,
  is_awaiting_state_change,
}

-- the execution time has come and is not fourteen days ago
abbrev pub IsDue : ℕ → ℕ → PartialProposal → Type 0
IsDue time now p =
    (p.status ≡ queued)
    × ((eta : ℕ) × ((p.execution_eta ≡ some eta)
          × ((eta * 1000 ≤ now) × (time < eta + grace_period))))

-- After the first block the page offers to queue a proposal exactly where it has succeeded, and to
-- execute it exactly where it is queued, its execution time has come by the clock of the user, and
-- fourteen days have not passed since by the time of the block.
pub move_state_action_iff :
    (block time now : ℕ) (proposer : Option String) (p : PartialProposal)
    → ((move_state_action now (parse_subgraph_proposal (some (suc block)) (some time) proposer p)
          ≡ some (queue_proposal p.id))
        ↔ IsSucceeded block time p)
      × ((move_state_action now (parse_subgraph_proposal (some (suc block)) (some time) proposer p)
            ≡ some (execute_proposal p.id))
          ↔ IsDue time now p)
unfolding move_state_action is_awaiting_state_change parse_subgraph_proposal get_proposal_state
move_state_action_iff block time now proposer p = (ground arith, ground arith)
