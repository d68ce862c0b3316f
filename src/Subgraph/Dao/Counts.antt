-- ===== src/Subgraph/Dao/Counts.antt =====
-- The counters of the governance row against the rows themselves.
use unouns_monorepo.Base.{
  ℕ, ◌+◌, String, false, true, Option, none, some, ◌≡◌, ◌≢◌, refl, sym, ap, ◌∙◌, arith, length,
  Option-cases, inl, inr,
}
use unouns_monorepo.Base.Int.{ℤ, pos, ◌+ℤ◌, pos-+ℤ}
use unouns_monorepo.Base.Table.{Table, load, save, is_new, length-save, KeyedBy}
use unouns_monorepo.Subgraph.Schema.{
  Proposal, Status, cancelled, vetoed, queued, executed, Store, Codegen,
}
use unouns_monorepo.Subgraph.Helpers.{
  save_proposal, or_zero, get_governance_entity, get_or_create_delegate, get_or_create_proposal,
  get_or_create_dynamic_quorum_params,
}
use unouns_monorepo.Subgraph.Helpers.Frames.{
  null_option-SameProposals, delegate-SameProposals, params-proposals,
  proposals-get_or_create_proposal, get_or_create_proposal-some, get_or_create_proposal-none,
  get_or_create_proposal-id,
}
use unouns_monorepo.Subgraph.Quorum.{BigIntOps}
use unouns_monorepo.Subgraph.Dao.{
  ProposalCreated, VoteCast, fill_proposal, log_unknown_delegate, record_vote, count_vote,
  handle_proposal_created, handle_proposal_canceled, handle_proposal_vetoed, handle_proposal_queued,
  handle_proposal_executed, handle_vote_cast, handle_min_quorum_votes_bps_set,
  handle_max_quorum_votes_bps_set, handle_quorum_coefficient_set,
}
use unouns_monorepo.Subgraph.Dao.Tally.{record_vote-SameProposals, id-count_vote}

pub data Event : Type 0 where
  proposal_created : ProposalCreated → Event
  proposal_canceled : String → Event
  proposal_vetoed : String → Event
  proposal_queued : String → ℕ → Event
  proposal_executed : String → Event
  vote_cast : VoteCast → Event
  min_bps_set : ℕ → ℕ → Event
  max_bps_set : ℕ → ℕ → Event
  coefficient_set : ℕ → ℕ → Event

abbrev pub proposal_counter : Store → ℤ
proposal_counter s = (get_governance_entity s).proposals

-- The governance row counts the rows of proposals.
abbrev pub IsCounted : Store → Type 0
IsCounted s = proposal_counter s ≡ pos (length s.proposals)

-- what a handler needs that writes back the governance row which it read first
abbrev pub IsKnown : Store → Event → Type 0
IsKnown s (proposal_queued id eta) = load s.proposals id ≢ none
IsKnown s (proposal_executed id) = load s.proposals id ≢ none
IsKnown s _ = Unit

log-SameProposals :
    (id tx_hash : String) (s : Store)
    → let t =
        log_unknown_delegate "Delegate {} not found on ProposalCreated. tx_hash: {}" id tx_hash s in
      (t.proposals ≡ s.proposals) × (proposal_counter t ≡ proposal_counter s)
log-SameProposals id tx_hash s = ground (arith, null_option-SameProposals id false true s)

length-save_known :
    (t : Table Proposal) (id : String) (p q : Proposal)
    → q.id ≡ id
    → load t id ≡ some p
    → length (save t q.id q) ≡ length t
length-save_known t id p q own row = length-save t q.id q ∙ rw (own, row) (omega arith)

module _ (codegen : Codegen) (ops : BigIntOps) where
  unfoldable pub handle : Event → Store → Store
  handle (proposal_created e) = handle_proposal_created codegen e
  handle (proposal_canceled id) = handle_proposal_canceled codegen id
  handle (proposal_vetoed id) = handle_proposal_vetoed codegen id
  handle (proposal_queued id eta) = handle_proposal_queued codegen id eta
  handle (proposal_executed id) = handle_proposal_executed codegen id
  handle (vote_cast e) = handle_vote_cast codegen ops e
  handle (min_bps_set bps block) = handle_min_quorum_votes_bps_set bps block
  handle (max_bps_set bps block) = handle_max_quorum_votes_bps_set bps block
  handle (coefficient_set coefficient block) = handle_quorum_coefficient_set coefficient block

  counter-get_or_create_proposal :
      (id : String) (s : Store)
      → proposal_counter (get_or_create_proposal codegen id s).1
        ≡ proposal_counter s +ℤ pos (is_new (load s.proposals id))
  unfolding get_or_create_proposal ◌+ℤ◌
  counter-get_or_create_proposal id s = ground arith

  -- the last step: the proposal of `id` is saved where the count is as `getOrCreateProposal` left it
  IsCounted-after :
      (id : String) (p : Proposal) (s t : Store)
      → p.id ≡ id
      → t.proposals ≡ s.proposals
      → proposal_counter t ≡ proposal_counter s +ℤ pos (is_new (load s.proposals id))
      → IsCounted s
      → IsCounted (save_proposal p t)
  IsCounted-after id p s t own rows counter counted =
      counter
      ∙ ap (λ n. n +ℤ pos (is_new (load s.proposals id))) counted
      ∙ pos-+ℤ _ _
      ∙ ap pos (
          sym (
            ap (λ r. length (save r p.id p)) rows
            ∙ length-save s.proposals p.id p
            ∙ ap (λ k. length s.proposals + is_new (load s.proposals k)) own))

  module _ (s : Store) (keyed : KeyedBy (λ p. p.id) s.proposals) (counted : IsCounted s) where
    own_id : (id : String) → (get_or_create_proposal codegen id s).0.id ≡ id
    own_id id = get_or_create_proposal-id codegen id s (keyed id)

    -- the short handlers: one field of the proposal changes
    status-IsCounted :
        (id : String) (status : Status)
        → let (p, s₁) = get_or_create_proposal codegen id s in
          IsCounted (save_proposal (record p { status = status }) s₁)
    status-IsCounted id status =
        let (p, s₁) = get_or_create_proposal codegen id s in
        IsCounted-after id (record p { status = status }) s s₁ (own_id id)
          (proposals-get_or_create_proposal codegen id s).0 (counter-get_or_create_proposal id s)
          counted

    created-IsCounted : (e : ProposalCreated) → IsCounted (handle_proposal_created codegen e s)
    unfolding handle_proposal_created
    created-IsCounted e =
        let (p, s₁) = get_or_create_proposal codegen e.id s in
        let s₂ =
          log_unknown_delegate "Delegate {} not found on ProposalCreated. tx_hash: {}" e.proposer
            e.tx_hash s₁ in
        let s₃ = (get_or_create_delegate e.proposer s₂).1 in
        let s₄ = (get_or_create_dynamic_quorum_params none s₃).1 in
        let (rows₁, counter₁) = log-SameProposals e.proposer e.tx_hash s₁ in
        let same₂ = delegate-SameProposals e.proposer s₂ in
        let (rows₃, _, gov₃) = params-proposals none s₃ in
        let (proposer, _) = get_or_create_delegate e.proposer s₂ in
        let (params, _) = get_or_create_dynamic_quorum_params none s₃ in
        let supply = (get_governance_entity s₃).total_token_holders in
        IsCounted-after e.id (fill_proposal e proposer.id supply params p) s s₄ (own_id e.id)
          (rows₃ ∙ same₂.rows ∙ rows₁ ∙ (proposals-get_or_create_proposal codegen e.id s).0)
          (ap (λ g. (or_zero g).proposals) gov₃
            ∙ same₂.counter
            ∙ counter₁
            ∙ counter-get_or_create_proposal e.id s)
          counted

    vote_cast-IsCounted : (e : VoteCast) → IsCounted (handle_vote_cast codegen ops e s)
    unfolding handle_vote_cast
    vote_cast-IsCounted e =
        let (p, s₁) = get_or_create_proposal codegen e.proposal_id s in
        let s₄ = record_vote codegen e p s₁ in
        let (params, s₅) = get_or_create_dynamic_quorum_params none s₄ in
        let (rows₁, _, counter₁) = record_vote-SameProposals codegen ops e p s₁ in
        let (rows₄, _, gov₄) = params-proposals none s₄ in
        IsCounted-after e.proposal_id (count_vote codegen ops params e p) s s₅
          (id-count_vote codegen ops params e p ∙ own_id e.proposal_id)
          (rows₄ ∙ rows₁ ∙ (proposals-get_or_create_proposal codegen e.proposal_id s).0)
          (ap (λ g. (or_zero g).proposals) gov₄
            ∙ counter₁
            ∙ counter-get_or_create_proposal e.proposal_id s)
          counted

    queued-IsCounted :
        (id : String) (eta : ℕ)
        → load s.proposals id ≢ none
        → IsCounted (handle_proposal_queued codegen id eta s)
    unfolding handle_proposal_queued
    queued-IsCounted id eta known = elim (Option-cases (load s.proposals id)) [
      | inl absent ↦ absurd (known absent)
      | inr (p, row) ↦ rw (get_or_create_proposal-some codegen id s row) (
          counted
          ∙ ap pos (
              sym (
                length-save_known s.proposals id p
                  (record p { status = queued; execution_eta = some eta }) (keyed id p row) row)))
    ]

    executed-IsCounted :
        (id : String)
        → load s.proposals id ≢ none
        → IsCounted (handle_proposal_executed codegen id s)
    unfolding handle_proposal_executed
    executed-IsCounted id known = elim (Option-cases (load s.proposals id)) [
      | inl absent ↦ absurd (known absent)
      | inr (p, row) ↦ rw (get_or_create_proposal-some codegen id s row) (
          counted
          ∙ ap pos (
              sym (
                length-save_known s.proposals id p
                  (record p { status = executed; execution_eta = none }) (keyed id p row) row)))
    ]

    params-IsCounted :
        (block : Option ℕ) → IsCounted (get_or_create_dynamic_quorum_params block s).1
    params-IsCounted block =
        let (rows, _, governance) = params-proposals block s in
        ap (λ g. (or_zero g).proposals) governance ∙ counted ∙ ap (λ r. pos (length r)) (sym rows)

  -- Every handler of the governance contract keeps the count of proposals exact: the `proposals`
  -- field of the governance row is the number of rows of proposals, from a store where it is and
  -- whose proposals stand under their own ids. `handleProposalQueued` and `handleProposalExecuted`
  -- do so for a proposal that is known.
  pub handle-IsCounted :
      (e : Event) (s : Store)
      → KeyedBy (λ p. p.id) s.proposals
      → IsKnown s e
      → IsCounted s
      → IsCounted (handle e s)
  unfolding handle handle_proposal_canceled handle_proposal_vetoed handle_min_quorum_votes_bps_set
      handle_max_quorum_votes_bps_set handle_quorum_coefficient_set
  handle-IsCounted (proposal_created e) s keyed known counted = created-IsCounted s keyed counted e
  handle-IsCounted (proposal_canceled id) s keyed known counted =
      status-IsCounted s keyed counted id cancelled
  handle-IsCounted (proposal_vetoed id) s keyed known counted =
      status-IsCounted s keyed counted id vetoed
  handle-IsCounted (proposal_queued id eta) s keyed known counted =
      queued-IsCounted s keyed counted id eta known
  handle-IsCounted (proposal_executed id) s keyed known counted =
      executed-IsCounted s keyed counted id known
  handle-IsCounted (vote_cast e) s keyed known counted = vote_cast-IsCounted s keyed counted e
  handle-IsCounted (min_bps_set bps block) s keyed known counted =
      params-IsCounted s keyed counted (some block)
  handle-IsCounted (max_bps_set bps block) s keyed known counted =
      params-IsCounted s keyed counted (some block)
  handle-IsCounted (coefficient_set coefficient block) s keyed known counted =
      params-IsCounted s keyed counted (some block)

  -- A ProposalQueued event for a proposal that is not known adds a row, and the count does not grow:
  -- the write of `getOrCreateProposal` is lost under the governance row that was read before it.
  queued_unknown_lost :
      (id : String) (eta : ℕ) (s : Store)
      → load s.proposals id ≡ none
      → let t = handle_proposal_queued codegen id eta s in
        (proposal_counter t ≡ proposal_counter s) × (length t.proposals ≡ length s.proposals + 1)
  unfolding handle_proposal_queued
  queued_unknown_lost id eta s absent =
      rw (get_or_create_proposal-none codegen id s absent)
        (refl, length-save _ _ _ ∙ rw (codegen.new_proposal_id id, absent))
