-- ===== src/Subgraph/Dao/Tally.antt =====
-- The votes that a proposal has gathered, over any sequence of VoteCast events.
use unouns_monorepo.Base.{
  ℕ, ◌+◌, String, false, true, none, some, List, [], ◌∷◌, ◌≡◌, ap, ◌∙◌, arith, eq_iff, str_eq, ◌==◌,
  if◌then◌else◌,
}
use unouns_monorepo.Base.Table.{load, save, load-save, KeyedBy, KeyedBy-save}
use unouns_monorepo.Subgraph.Schema.{Proposal, DynamicQuorumParams, Store, Codegen}
use unouns_monorepo.Subgraph.Helpers.{
  get_or_create_proposal, get_or_create_dynamic_quorum_params, get_governance_entity,
}
use unouns_monorepo.Subgraph.Helpers.Frames.{
  null_option-SameProposals, delegate-SameProposals, params-proposals,
  proposals-get_or_create_proposal, get_or_create_proposal-some, get_or_create_proposal-id,
}
use unouns_monorepo.Subgraph.Quorum.{BigIntOps}
use unouns_monorepo.Subgraph.Dao.{
  VoteCast, log_unknown_delegate, record_vote, count_vote, handle_vote_cast,
}

-- what the three counters have at least in common with the specification
pub record Tallied (p q : Proposal) (against for abstain : ℕ) : Type 0 where
  pub against_votes : q.against_votes ≡ p.against_votes + against
  pub for_votes : q.for_votes ≡ p.for_votes + for
  pub abstain_votes : q.abstain_votes ≡ p.abstain_votes + abstain

-- the votes cast on a proposal with one kind of support
abbrev pub votes_with : String → ℕ → List VoteCast → ℕ
votes_with id support [] = 0
votes_with id support (e ∷ es) =
    let rest = votes_with id support es in
    if str_eq e.proposal_id id
    then (if e.support == support then e.votes + rest else rest)
    else rest

module _ (codegen : Codegen) (ops : BigIntOps) where
  unfoldable pub cast_all : List VoteCast → Store → Store
  cast_all [] s = s
  cast_all (e ∷ es) s = cast_all es (handle_vote_cast codegen ops e s)

  pub id-count_vote :
      (params : DynamicQuorumParams) (e : VoteCast) (p : Proposal)
      → (count_vote codegen ops params e p).id ≡ p.id
  unfolding count_vote
  id-count_vote params e p = ground arith

  count_vote-Tallied :
      (params : DynamicQuorumParams) (e : VoteCast) (p : Proposal)
      → Tallied p
          (count_vote codegen ops params e p)
          (if e.support == 0 then e.votes else 0)
          (if e.support == 1 then e.votes else 0)
          (if e.support == 2 then e.votes else 0)
  unfolding count_vote
  count_vote-Tallied params e p = ground arith

  pub record_vote-SameProposals :
      (e : VoteCast) (p : Proposal) (s : Store)
      → let t = record_vote codegen e p s in
        (t.proposals ≡ s.proposals)
        × (t.quorum_params ≡ s.quorum_params)
        × ((get_governance_entity t).proposals ≡ (get_governance_entity s).proposals)
  unfolding record_vote
  record_vote-SameProposals e p s =
      let s₂ =
        log_unknown_delegate "Delegate {} not found on VoteCast. tx_hash: {}" e.voter e.tx_hash s in
      ground
        (arith, null_option-SameProposals e.voter false true s, delegate-SameProposals e.voter s₂)

  -- the parameters that the handler reads
  params_of : VoteCast → Store → DynamicQuorumParams
  params_of e s =
      let (p, s₁) = get_or_create_proposal codegen e.proposal_id s in
      (get_or_create_dynamic_quorum_params none (record_vote codegen e p s₁)).0

  -- the handler writes one row of proposals
  proposals-handle_vote_cast :
      (e : VoteCast) (s : Store)
      → let p = (get_or_create_proposal codegen e.proposal_id s).0 in
        let p' = count_vote codegen ops (params_of e s) e p in
        (handle_vote_cast codegen ops e s).proposals ≡ save s.proposals p'.id p'
  unfolding handle_vote_cast params_of
  proposals-handle_vote_cast e s =
      let (p, s₁) = get_or_create_proposal codegen e.proposal_id s in
      let s₄ = record_vote codegen e p s₁ in
      let p' = count_vote codegen ops (params_of e s) e p in
      ap (λ t. save t p'.id p')
        ((params-proposals none s₄).0
          ∙ (record_vote-SameProposals e p s₁).0
          ∙ (proposals-get_or_create_proposal codegen e.proposal_id s).0)

  handle_vote_cast-KeyedBy :
      (e : VoteCast) (s : Store)
      → KeyedBy (λ p. p.id) s.proposals
      → KeyedBy (λ p. p.id) (handle_vote_cast codegen ops e s).proposals
  handle_vote_cast-KeyedBy e s keyed =
      rw (proposals-handle_vote_cast e s) (KeyedBy-save (λ p. p.id) s.proposals _ keyed)

  -- one vote: the row of a proposal that is there
  load-handle_vote_cast :
      (id : String) (e : VoteCast) (s : Store) (p : Proposal)
      → KeyedBy (λ p. p.id) s.proposals
      → load s.proposals id ≡ some p
      → load (handle_vote_cast codegen ops e s).proposals id
        ≡ some (if str_eq e.proposal_id id then count_vote codegen ops (params_of e s) e p else p)
  load-handle_vote_cast id e s p keyed row =
      let q = (get_or_create_proposal codegen e.proposal_id s).0 in
      let q' = count_vote codegen ops (params_of e s) e q in
      ground (
        arith,
        proposals-handle_vote_cast e s,
        load-save s.proposals q'.id id q',
        id-count_vote (params_of e s) e q,
        get_or_create_proposal-id codegen e.proposal_id s (keyed e.proposal_id),
        get_or_create_proposal-some codegen e.proposal_id s {p = p},
        eq_iff e.proposal_id id,
        eq_iff q'.id id,
      )

  -- From a store whose proposals stand under their own ids, and for a proposal that is there: after
  -- any VoteCast events it is still there, and its against, for and abstain counts have grown by
  -- exactly the votes that those events cast on it with support 0, 1 and 2. Votes with another
  -- support value, and votes on other proposals, are not counted.
  pub cast_all-Tallied :
      (id : String) (es : List VoteCast) (s : Store) (p : Proposal)
      → KeyedBy (λ p. p.id) s.proposals
      → load s.proposals id ≡ some p
      → (q : Proposal) × (load (cast_all es s).proposals id ≡ some q)
        × Tallied p q (votes_with id 0 es) (votes_with id 1 es) (votes_with id 2 es)
  unfolding cast_all
  cast_all-Tallied id [] s p keyed row = (
    p,
    row,
    record { against_votes = omega arith; for_votes = omega arith; abstain_votes = omega arith },
  )
  cast_all-Tallied id (e ∷ es) s p keyed row =
      let p' = if str_eq e.proposal_id id then count_vote codegen ops (params_of e s) e p else p in
      let (q, row', rest) =
        cast_all-Tallied id es (handle_vote_cast codegen ops e s) p'
          (handle_vote_cast-KeyedBy e s keyed) (load-handle_vote_cast id e s p keyed row) in
      (q, row', ground (arith, count_vote-Tallied (params_of e s) e p))
