-- ===== src/Webapp/Proposals.antt =====
-- `getProposalState` of packages/nouns-webapp/src/wrappers/nounsDao.ts: the state that a proposal is
-- shown in. A number of a proposal is the natural number that its text holds.
use unouns_monorepo.Base.{
  ℕ, String, zero, suc, ◌+◌, ◌*◌, ◌≤◌, ◌<◌, ◌≡◌, ◌⊎◌, ◌↔◌, arith, Bool, ◌||◌, Option, none, some,
  ltb, leb, if◌then◌else◌,
}
use unouns_monorepo.Subgraph.Schema.{Status, pending, active, cancelled, vetoed, queued, executed}

pub data ProposalState : Type 0 where
  undetermined is_pending is_active is_cancelled is_defeated is_succeeded is_queued is_expired
        is_executed is_vetoed :
      ProposalState

-- what the subgraph says of a proposal
pub record PartialProposal : Type 0 where
  pub id : String
  pub title : Option String
  pub status : Status
  pub start_block : ℕ
  pub end_block : ℕ
  pub for_votes : ℕ
  pub against_votes : ℕ
  pub abstain_votes : ℕ
  pub quorum_votes : ℕ
  pub execution_eta : Option ℕ

abbrev pub grace_period : ℕ
grace_period = 14 * 60 * 60 * 24

abbrev pub failed : PartialProposal → Bool
failed p = leb p.for_votes p.against_votes || ltb p.for_votes p.quorum_votes

abbrev pub pending_state : ℕ → PartialProposal → ProposalState
pending_state block p = if leb block p.start_block then is_pending else is_active

-- an execution time is a text that is not empty, so that none of them is falsy
abbrev pub active_state : ℕ → PartialProposal → ProposalState
active_state block p =
    if ltb p.end_block block
    then if failed p then is_defeated else elim p.execution_eta as (λ x. ProposalState) [
      | none ↦ is_succeeded
      | some eta ↦ is_active
    ]
    else is_active

abbrev pub queued_state : ℕ → PartialProposal → ProposalState
queued_state now p = elim p.execution_eta as (λ x. ProposalState) [
  | none ↦ undetermined
  | some eta ↦ if leb (eta + grace_period) now then is_expired else is_queued
]

-- block 0 is falsy
abbrev pub with_block : Option ℕ → (ℕ → ProposalState) → ProposalState
with_block none f = undetermined
with_block (some zero) f = undetermined
with_block (some (suc n)) f = f (suc n)

-- The time is in whole seconds, the caller passes `new Date(timestamp * 1000)`; `none` is no date.
unfoldable pub get_proposal_state : Option ℕ → Option ℕ → PartialProposal → ProposalState
get_proposal_state block now p = elim p.status as (λ x. ProposalState) [
  | pending ↦ with_block block (λ b. pending_state b p)
  | active ↦ with_block block (λ b. active_state b p)
  | cancelled ↦ is_cancelled
  | vetoed ↦ is_vetoed
  | queued ↦ elim now as (λ x. ProposalState) [ none ↦ undetermined | some t ↦ queued_state t p ]
  | executed ↦ is_executed
]

module _ (block now : ℕ) (p : PartialProposal) where
  -- the state that is shown at a block after the first one and at a time
  abbrev pub shown : ProposalState
  shown = get_proposal_state (some (suc block)) (some now) p

  -- what is shown as defeated
  abbrev pub IsDefeated : Type 0
  IsDefeated =
      (p.status ≡ active)
      × (p.end_block < suc block)
      × ((p.for_votes ≤ p.against_votes) ⊎ (p.for_votes < p.quorum_votes))

  -- what is shown as succeeded
  abbrev pub IsSucceeded : Type 0
  IsSucceeded =
      (p.status ≡ active)
      × (p.end_block < suc block)
      × (p.against_votes < p.for_votes)
      × (p.quorum_votes ≤ p.for_votes)
      × (p.execution_eta ≡ none)

  -- what is shown as expired
  abbrev pub IsExpired : Type 0
  IsExpired =
      (p.status ≡ queued) × ((eta : ℕ) × (p.execution_eta ≡ some eta) × (eta + grace_period ≤ now))

  defeated : (shown ≡ is_defeated) ↔ IsDefeated
  unfolding get_proposal_state
  defeated = ground arith

  succeeded : (shown ≡ is_succeeded) ↔ IsSucceeded
  unfolding get_proposal_state
  succeeded = ground arith

  expired : (shown ≡ is_expired) ↔ IsExpired
  unfolding get_proposal_state
  expired = ground arith

  -- A proposal is shown as defeated exactly where it is active, its end block has passed, and it has no
  -- more votes for it than against it or fewer than its quorum; as succeeded exactly where it is active,
  -- its end block has passed, it has more votes for it than against it and at least its quorum, and it
  -- has no execution time; and as expired exactly where it is queued and fourteen days have passed since
  -- its execution time.
  get_proposal_state_iff :
      ((shown ≡ is_defeated) ↔ IsDefeated)
      × ((shown ≡ is_succeeded) ↔ IsSucceeded)
      × ((shown ≡ is_expired) ↔ IsExpired)
  get_proposal_state_iff = (defeated, succeeded, expired)
