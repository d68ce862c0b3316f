-- ===== src/Subgraph/Tests.antt =====
-- Runs of the handlers, and the theorems at concrete stores.
use unouns_monorepo.Base.{
  ℕ, ◌*◌, ◌/◌, ◌<◌, ◌^◌, String, false, none, some, [], ◌∷◌, ◌≡◌, refl, arith, eq_iff, codes,
}
use unouns_monorepo.Base.Int.{pos, ◌≤ℤ◌, ◌+ℤ◌, ◌-ℤ◌, ◌*ℤ◌, ◌/ℤ◌}
use unouns_monorepo.Base.Table.{load, save}
use unouns_monorepo.Subgraph.Schema.{Proposal, Vote, Store, Codegen, pending, empty, wrap_i32}
use unouns_monorepo.Subgraph.Helpers.{
  get_or_create_account, get_or_create_delegate, get_or_create_proposal, get_or_create_vote,
  get_or_create_dynamic_quorum_params,
}
use unouns_monorepo.Subgraph.Quorum.{BigIntOps, min_ℤ, dynamic_quorum_votes}
use unouns_monorepo.Subgraph.Quorum.Bounds.{dynamic_quorum_votes_bounds, dynamic_quorum_votes_mono}
use unouns_monorepo.Subgraph.Dao.{
  VoteCast, extract_title, record_vote, count_vote, handle_vote_cast,
}
use unouns_monorepo.Subgraph.Dao.Tally.{Tallied, cast_all, cast_all-Tallied}
use unouns_monorepo.Subgraph.Dao.Counts
use unouns_monorepo.Subgraph.Dao.Counts.{IsCounted, IsKnown, proposal_counter, handle-IsCounted}

program : Unit {0}
unfolding load save wrap_i32 ◌+ℤ◌ ◌-ℤ◌ ◌*ℤ◌ ◌/ℤ◌ min_ℤ dynamic_quorum_votes extract_title
    get_or_create_account get_or_create_delegate get_or_create_proposal get_or_create_vote
    get_or_create_dynamic_quorum_params handle_vote_cast record_vote count_vote
program = tt

abbrev blank_proposal : String → Proposal
blank_proposal id = record {
  id = id;
  proposer = "";
  targets = [];
  values = [];
  signatures = [];
  calldatas = [];
  created_timestamp = 0;
  created_block = 0;
  created_transaction_hash = "";
  start_block = 0;
  end_block = 0;
  proposal_threshold = 0;
  quorum_votes = pos 0;
  for_votes = 0;
  against_votes = 0;
  abstain_votes = 0;
  title = [];
  description = [];
  status = pending;
  execution_eta = none;
  total_supply = pos 0;
  min_quorum_votes_bps = 0;
  max_quorum_votes_bps = 0;
  quorum_coefficient = 0;
}

abbrev blank_vote : String → Vote
blank_vote id = record {
  id = id;
  support = false;
  support_detailed = 0;
  votes_raw = 0;
  votes = 0;
  reason = none;
  voter = "";
  nouns = [];
  proposal = "";
  block_number = 0;
}

abbrev codegen : Codegen
codegen = record {
  new_proposal = blank_proposal;
  new_vote = blank_vote;
  new_proposal_id = λ id. refl;
  new_vote_id = λ id. refl;
}

wrap_i32_fits : (n : ℕ) → n < 2 ^ 31 → wrap_i32 (pos n) ≡ pos n
unfolding wrap_i32
wrap_i32_fits n h = ground arith

abbrev ops : BigIntOps
ops = record {
  div = λ a b. a /ℤ b;
  div_truncates = λ a n h. refl;
  to_i32 = wrap_i32;
  to_i32_fits = wrap_i32_fits;
}

title_of_hash : extract_title (codes "# A **bold** title\n\nText # more") ≡ codes "A bold title"
unfolding program
title_of_hash = refl

no_title : extract_title (codes " \nText") ≡ codes "Untitled"
unfolding program
no_title = refl

-- 10% to 60%, coefficient 1: 40 of 1000 votes against
quorum_of_40 : dynamic_quorum_votes ops (pos 40) (pos 1000) 1000 6000 1000000 ≡ pos 140
unfolding program
quorum_of_40 = refl

dynamic_quorum_votes_bounds_example :
    let quorum = dynamic_quorum_votes ops (pos 40) (pos 1000) 1000 6000 1000000 in
    (pos (1000 * 1000 / 10000) ≤ℤ quorum) × (quorum ≤ℤ pos (1000 * 6000 / 10000))
dynamic_quorum_votes_bounds_example =
    dynamic_quorum_votes_bounds ops 40 1000 1000 6000 1000000 (omega arith) (omega arith)
      (omega arith)

dynamic_quorum_votes_mono_example :
    dynamic_quorum_votes ops (pos 40) (pos 1000) 1000 6000 1000000
    ≤ℤ dynamic_quorum_votes ops (pos 90) (pos 1000) 1000 6000 1000000
dynamic_quorum_votes_mono_example =
    dynamic_quorum_votes_mono ops 40 90 1000 1000 6000 1000000 (omega arith) (omega arith)
      (omega arith)

-- a store with one proposal
abbrev proposal : Proposal
proposal = record (blank_proposal "7") { created_block = 9; total_supply = pos 100 }

abbrev voting : Store
voting = save_counted empty
  where
    save_counted : Store → Store
    save_counted s = record s {
      proposals = ("7", proposal) ∷ [];
      governance = some (record {
        proposals = pos 1;
        current_token_holders = pos 0;
        current_delegates = pos 0;
        total_token_holders = pos 0;
        total_delegates = pos 0;
        delegated_votes_raw = pos 0;
        delegated_votes = pos 0;
        proposals_queued = pos 0;
      });
    }

voting-keyed : (k : String) (p : Proposal) → load voting.proposals k ≡ some p → p.id ≡ k
unfolding load
voting-keyed k p row = ground (arith, eq_iff "7" k)

abbrev vote : ℕ → ℕ → VoteCast
vote support votes = record {
  proposal_id = "7";
  voter = "0xd";
  support = support;
  votes = votes;
  reason = "";
  block_number = 10;
  tx_hash = "0xt";
}

cast_all-Tallied_example :
    (q : Proposal) × (load
        (cast_all codegen ops (vote 1 5 ∷ vote 0 2 ∷ vote 1 1 ∷ []) voting).proposals
        "7"
      ≡ some q)
    × Tallied proposal q 2 6 0
unfolding load
cast_all-Tallied_example =
    cast_all-Tallied codegen ops "7" (vote 1 5 ∷ vote 0 2 ∷ vote 1 1 ∷ []) voting proposal
      voting-keyed refl

handle-IsCounted_example :
    IsCounted (Counts.handle codegen ops (Counts.vote_cast (vote 1 5)) voting)
handle-IsCounted_example =
    handle-IsCounted codegen ops (Counts.vote_cast (vote 1 5)) voting voting-keyed tt refl
