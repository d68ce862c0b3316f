-- ===== src/Subgraph/Transfers.antt =====
-- `handleTransfer` of packages/nouns-subgraph/src/nouns-erc-721.ts.
pub mod Moves
pub mod Holdings
mod Tests
use unouns_monorepo.Base.{
  ℕ, String, Bool, true, false, Option, none, some, List, [], ◌∷◌, ◌++◌, ◌&&◌, not, ltb, ◌==◌,
  str_eq, filter_by, if◌then◌else◌,
}
use unouns_monorepo.Base.Int.{ℤ, pos, sub_ℕ, ◌+ℤ◌, ◌-ℤ◌, eq_ℤ, ltb_ℤ}
use unouns_monorepo.Base.Table.{load, save}
use Prim.Native.String
use unouns_monorepo.Subgraph.Schema.{
  zero_address, wrap_i32, DelegationEvent, TransferEvent, Seed, Noun, Account, Delegate, Governance,
  Store, log_error,
}
use unouns_monorepo.Subgraph.Helpers.{
  get_governance_entity, get_or_create_account, get_or_create_delegate, save_account, save_delegate,
  save_governance,
}
use unouns_monorepo.Subgraph.Token.{event_id}

pub record Transfer : Type 0 where
  pub from : String
  pub to : String
  pub token_id : String
  pub block_number : ℕ
  pub block_timestamp : ℕ
  pub tx_hash : String

abbrev without : String → List String → List String
without noun = filter_by (λ n. not (str_eq n noun))

-- the Nouns that the old holder's delegate represents lose the transferred one
abbrev undelegate : String → Option String → Store → Store
undelegate noun none s = s
undelegate noun (some id) s =
    let (delegate, s') = get_or_create_delegate id s in
    save_delegate (record delegate { nouns_represented = without noun delegate.nouns_represented })
      s'

abbrev is_positive : ℤ → Bool
is_positive = ltb_ℤ (pos 0)

abbrev log_negative : String → ℤ → Store → Store
log_negative id balance s = record s {
  log =
      record {
        format = "Negative balance on holder {} with balance {}";
        args = id ∷ [];
        values = balance ∷ [];
      }
      ∷ s.log;
}

-- `governance.save()` stores the copy that `handleTransfer` read at its start; the copy goes on
abbrev bump_holders : ℤ → Governance → Store → Governance × Store
bump_holders n governance s =
    let governance' = record governance { current_token_holders = n } in
    (governance', save_governance governance' s)

-- the `else` branch of `// fromHolder`: the holder and the governance row go on, changed
abbrev leave : Transfer → Account → Governance → Store → Account × Governance × Store
leave e holder governance s =
    let previous = holder.token_balance_raw in
    let balance = previous -ℤ pos 1 in
    let holder₁ = record holder {
      token_balance_raw = balance;
      token_balance = balance;
      nouns = without e.token_id holder.nouns;
    } in
    let s₁ = undelegate e.token_id holder.delegate s in
    let s₂ = if ltb_ℤ balance (pos 0) then log_negative holder.id balance s₁ else s₁ in
    if eq_ℤ balance (pos 0) && is_positive previous
    then (let (governance', s₃) =
          bump_holders (governance.current_token_holders -ℤ pos 1) governance s₂ in
        let holder₂ = record holder₁ { delegate = none } in
        (holder₂, governance', save_account holder₂ s₃))
    else if is_positive balance && eq_ℤ previous (pos 0)
    then (let (governance', s₃) =
          bump_holders (governance.current_token_holders +ℤ pos 1) governance s₂ in
        (holder₁, governance', save_account holder₁ s₃))
    else (holder₁, governance, save_account holder₁ s₂)

-- `// fromHolder`
abbrev depart : Transfer → Account → Governance → Store → Account × Governance × Store
depart e holder governance s =
    if str_eq e.from zero_address
    then (let governance' = record governance {
      total_token_holders = governance.total_token_holders +ℤ pos 1;
    } in
        (holder, governance', save_governance governance' s))
    else leave e holder governance s

abbrev count_burn : Transfer → Governance → Store → Governance × Store
count_burn e governance s =
    if str_eq e.to zero_address
    then (let governance' = record governance {
      total_token_holders = governance.total_token_holders -ℤ pos 1;
    } in
        (governance', save_governance governance' s))
    else (governance, s)

-- `delegate ? delegate : id`
abbrev pub delegate_or_self : Account → String
delegate_or_self holder = elim holder.delegate [
  | none ↦ holder.id
  | some d ↦ if str_eq d "" then holder.id else d
]

-- from `toHolderDelegate` to the balances of the new holder
abbrev arrive : Transfer → Account → Governance → Store → Account × Store
arrive e holder governance s =
    let (delegate, s₁) = get_or_create_delegate (delegate_or_self holder) s in
    let s₂ =
      save_delegate
        (record delegate { nouns_represented = delegate.nouns_represented ++ e.token_id ∷ [] })
        s₁ in
    let previous = holder.token_balance_raw in
    let balance = previous +ℤ pos 1 in
    let held = holder.total_tokens_held_raw +ℤ pos 1 in
    let holder₁ = record holder {
      token_balance_raw = balance;
      token_balance = balance;
      total_tokens_held_raw = held;
      total_tokens_held = held;
      nouns = holder.nouns ++ e.token_id ∷ [];
    } in
    if eq_ℤ balance (pos 0) && is_positive previous
    then (holder₁, (bump_holders (governance.current_token_holders -ℤ pos 1) governance s₂).1)
    else if is_positive balance && eq_ℤ previous (pos 0)
    then (
      record holder₁ { delegate = some holder.id },
      (bump_holders (governance.current_token_holders +ℤ pos 1) governance s₂).1,
    )
    else (holder₁, s₂)

abbrev own_noun : String → String → Store → Store
own_noun id owner s = elim (load s.nouns id) [
  | none ↦ record s { nouns = save s.nouns id (record { id = id; seed = none; owner = owner }) }
  | some noun ↦ record s { nouns = save s.nouns noun.id (record noun { owner = owner }) }
]

-- the delegation that is logged between the two holders
abbrev log_delegation : Transfer → Account → Account → Store → Store
log_delegation e from_holder to_holder s = record s {
  delegation_events = save s.delegation_events (event_id e.tx_hash e.token_id) (record {
    noun = e.token_id;
    previous_delegate = delegate_or_self from_holder;
    new_delegate = delegate_or_self to_holder;
    block_number = e.block_number;
    block_timestamp = e.block_timestamp;
  });
}

abbrev log_transfer : Transfer → Account → Account → Store → Store
log_transfer e from_holder to_holder s = record s {
  transfer_events = save s.transfer_events (event_id e.tx_hash e.token_id) (record {
    noun = e.token_id;
    previous_holder = from_holder.id;
    new_holder = to_holder.id;
    block_number = e.block_number;
    block_timestamp = e.block_timestamp;
  });
}

-- from `// fromHolder` to the end
unfoldable pub move_noun : Transfer → Account → Account → Governance → Store → Store
move_noun e from_holder to_holder governance s₃ =
    let (from_holder', governance₁, s₄) = depart e from_holder governance s₃ in
    let (governance₂, s₅) = count_burn e governance₁ s₄ in
    let s₆ = log_delegation e from_holder' to_holder s₅ in
    let (to_holder', s₇) = arrive e to_holder governance₂ s₆ in
    save_account to_holder' (own_noun e.token_id to_holder.id s₇)

unfoldable pub handle_transfer : Transfer → Store → Store
handle_transfer e s₀ =
    let (from_holder, s₁) = get_or_create_account e.from s₀ in
    let (to_holder, s₂) = get_or_create_account e.to s₁ in
    let governance = get_governance_entity s₂ in
    move_noun e from_holder to_holder governance (log_transfer e from_holder to_holder s₂)
