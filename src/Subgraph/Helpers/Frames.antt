-- ===== src/Subgraph/Helpers/Frames.antt =====
-- What the helpers leave alone, and what they return.
use unouns_monorepo.Base.{ℕ, String, Bool, Option, none, some, ◌≡◌, arith, Option-cases, inl, inr}
use unouns_monorepo.Base.Table.{load}
use unouns_monorepo.Base.Int.{pos, ◌+ℤ◌}
use unouns_monorepo.Subgraph.Schema.{Account, Delegate, Proposal, Store, Codegen}
use unouns_monorepo.Subgraph.Helpers.{
  get_or_create_account, get_governance_entity, get_or_create_delegate_with_null_option,
  get_or_create_delegate, get_or_create_proposal, get_or_create_dynamic_quorum_params,
  save_governance,
}

-- the tables of proposals and votes, the quorum parameters and the count of proposals
pub record SameProposals (s t : Store) : Type 0 where
  pub rows : t.proposals ≡ s.proposals
  pub votes : t.votes ≡ s.votes
  pub params : t.quorum_params ≡ s.quorum_params
  pub counter : (get_governance_entity t).proposals ≡ (get_governance_entity s).proposals

pub null_option-SameProposals :
    (id : String) (create save_new : Bool) (s : Store)
    → SameProposals s (get_or_create_delegate_with_null_option id create save_new s).1
unfolding get_or_create_delegate_with_null_option
null_option-SameProposals id create save_new s = ground arith

pub delegate-SameProposals :
    (id : String) (s : Store) → SameProposals s (get_or_create_delegate id s).1
unfolding get_or_create_delegate
delegate-SameProposals id s = ground arith

pub params-proposals :
    (block : Option ℕ) (s : Store)
    → let t = (get_or_create_dynamic_quorum_params block s).1 in
      (t.proposals ≡ s.proposals) × (t.votes ≡ s.votes) × (t.governance ≡ s.governance)
unfolding get_or_create_dynamic_quorum_params
params-proposals block s = ground arith

module _ (codegen : Codegen) (id : String) (s : Store) where
  pub proposals-get_or_create_proposal :
      let t = (get_or_create_proposal codegen id s).1 in
      (t.proposals ≡ s.proposals) × (t.votes ≡ s.votes) × (t.quorum_params ≡ s.quorum_params)
  unfolding get_or_create_proposal
  proposals-get_or_create_proposal = ground arith

  pub get_or_create_proposal-some :
      {p : Proposal} → load s.proposals id ≡ some p → get_or_create_proposal codegen id s ≡ (p, s)
  unfolding get_or_create_proposal
  get_or_create_proposal-some row = rw (row, get_or_create_proposal)

  pub get_or_create_proposal-id :
      ((p : Proposal) → load s.proposals id ≡ some p → p.id ≡ id)
      → (get_or_create_proposal codegen id s).0.id ≡ id
  unfolding get_or_create_proposal
  get_or_create_proposal-id keyed = elim (Option-cases (load s.proposals id)) [
    | inl absent ↦ rw (absent, get_or_create_proposal) (codegen.new_proposal_id id)
    | inr (p, row) ↦ rw (row, get_or_create_proposal) (keyed p row)
  ]

  -- an unknown proposal is counted, and no row is added
  pub get_or_create_proposal-none :
      load s.proposals id ≡ none
      → let g = get_governance_entity s in
        get_or_create_proposal codegen id s ≡ (
          codegen.new_proposal id,
          save_governance (record g { proposals = g.proposals +ℤ pos 1 }) s,
        )
  unfolding get_or_create_proposal
  get_or_create_proposal-none absent = rw (absent, get_or_create_proposal)

-- a row that is there is returned, and nothing is written
pub get_or_create_account-some :
    (id : String) (s : Store) {a : Account}
    → load s.accounts id ≡ some a
    → get_or_create_account id s ≡ (a, s)
unfolding get_or_create_account
get_or_create_account-some id s row = rw (row, get_or_create_account)

pub get_or_create_delegate-some :
    (id : String) (s : Store) {d : Delegate}
    → load s.delegates id ≡ some d
    → get_or_create_delegate id s ≡ (d, s)
unfolding get_or_create_delegate
get_or_create_delegate-some id s row =
    rw (row, get_or_create_delegate_with_null_option, get_or_create_delegate)

pub delegate-tables :
    (id : String) (s : Store)
    → let t = (get_or_create_delegate id s).1 in (t.accounts ≡ s.accounts) × (t.nouns ≡ s.nouns)
unfolding get_or_create_delegate
delegate-tables id s = ground arith
