-- ===== src/Subgraph/Helpers.antt =====
-- packages/nouns-subgraph/src/utils/helpers.ts. A helper returns the entity beside the store that
-- its saves leave. An entity in hand is a copy of its row: it reaches the store by `save` only.
pub mod Frames
use unouns_monorepo.Base.{
  ℕ, String, Bool, true, false, Option, none, some, [], ◌&&◌, str_eq, if◌then◌else◌,
}
use unouns_monorepo.Base.Int.{pos, ◌+ℤ◌}
use unouns_monorepo.Base.Table.{load, save}
use unouns_monorepo.Subgraph.Schema.{
  Account, Delegate, Proposal, Vote, Governance, DynamicQuorumParams, Store, Codegen, zero_address,
}

abbrev pub fresh_account : String → Account
fresh_account id = record {
  id = id;
  delegate = none;
  token_balance_raw = pos 0;
  token_balance = pos 0;
  total_tokens_held_raw = pos 0;
  total_tokens_held = pos 0;
  nouns = [];
}

abbrev pub save_account : Account → Store → Store
save_account a s = record s { accounts = save s.accounts a.id a }

abbrev pub save_delegate : Delegate → Store → Store
save_delegate d s = record s { delegates = save s.delegates d.id d }

abbrev pub save_proposal : Proposal → Store → Store
save_proposal p s = record s { proposals = save s.proposals p.id p }

abbrev pub save_vote : Vote → Store → Store
save_vote v s = record s { votes = save s.votes v.id v }

abbrev pub save_governance : Governance → Store → Store
save_governance g s = record s { governance = some g }

-- called with the defaults `createIfNotFound = true`, `save = true` everywhere
unfoldable pub get_or_create_account : String → Store → Account × Store
get_or_create_account id s = elim (load s.accounts id) [
  | some token_holder ↦ (token_holder, s)
  | none ↦ (fresh_account id, save_account (fresh_account id) s)
]

abbrev pub zero_governance : Governance
zero_governance = record {
  proposals = pos 0;
  current_token_holders = pos 0;
  current_delegates = pos 0;
  total_token_holders = pos 0;
  total_delegates = pos 0;
  delegated_votes_raw = pos 0;
  delegated_votes = pos 0;
  proposals_queued = pos 0;
}

-- not saved when it is made
abbrev pub or_zero : Option Governance → Governance
or_zero none = zero_governance
or_zero (some governance) = governance

abbrev pub get_governance_entity : Store → Governance
get_governance_entity s = or_zero s.governance

abbrev pub fresh_delegate : String → Delegate
fresh_delegate id = record {
  id = id;
  delegated_votes_raw = 0;
  delegated_votes = 0;
  token_holders_represented_amount = pos 0;
  nouns_represented = [];
}

-- a new delegate is counted, unless it stands for the zero address
abbrev pub count_delegate : String → Store → Store
count_delegate id s =
    if str_eq id zero_address
    then s
    else (let governance = get_governance_entity s in
        save_governance
          (record governance { total_delegates = governance.total_delegates +ℤ pos 1 }) s)

unfoldable pub get_or_create_delegate_with_null_option :
    String → Bool → Bool → Store → Option Delegate × Store
get_or_create_delegate_with_null_option id create_if_not_found save_new s =
    elim (load s.delegates id) [
      | some delegate ↦ (some delegate, s)
      | none ↦
          if create_if_not_found
          then (
            some (fresh_delegate id),
            if save_new
                then save_delegate (fresh_delegate id) (count_delegate id s)
                else count_delegate id s,
          )
          else (none, s)
    ]

-- `getOrCreateDelegateWithNullOption(id, true, true) as Delegate`: the cast never meets null, which
-- the fallback stands for
unfoldable pub get_or_create_delegate : String → Store → Delegate × Store
unfolding get_or_create_delegate_with_null_option
get_or_create_delegate id s =
    let (found, s') = get_or_create_delegate_with_null_option id true true s in
    (elim found [ some delegate ↦ delegate | none ↦ fresh_delegate id ], s')

module _ (codegen : Codegen) where
  -- `save` is false at every call
  unfoldable pub get_or_create_vote : String → Store → Vote
  get_or_create_vote id s = elim (load s.votes id) [ some vote ↦ vote | none ↦ codegen.new_vote id ]

  -- `save` is false at every call: the proposal is counted, and its row is left to the caller
  unfoldable pub get_or_create_proposal : String → Store → Proposal × Store
  get_or_create_proposal id s = elim (load s.proposals id) [
    | some proposal ↦ (proposal, s)
    | none ↦
        let governance = get_governance_entity s in
        (
          codegen.new_proposal id,
          save_governance (record governance { proposals = governance.proposals +ℤ pos 1 }) s,
        )
  ]

abbrev fresh_params : Option ℕ → DynamicQuorumParams
fresh_params block = record {
  min_quorum_votes_bps = 0;
  max_quorum_votes_bps = 0;
  quorum_coefficient = 0;
  dynamic_quorum_start_block = block;
}

abbrev pub save_params : DynamicQuorumParams → Store → Store
save_params p s = record s { quorum_params = some p }

-- the second `if`: the start block is set once, by the first call that knows a block
start_block_once : Option ℕ → Option ℕ → DynamicQuorumParams → Store → DynamicQuorumParams × Store
start_block_once none (some block) params s =
    let params' = record params { dynamic_quorum_start_block = some block } in
    (params', save_params params' s)
start_block_once _ _ params s = (params, s)

unfoldable pub get_or_create_dynamic_quorum_params : Option ℕ → Store → DynamicQuorumParams × Store
unfolding start_block_once
get_or_create_dynamic_quorum_params block s = elim s.quorum_params [
  | some params ↦ start_block_once params.dynamic_quorum_start_block block params s
  | none ↦ start_block_once block block (fresh_params block) (save_params (fresh_params block) s)
]
