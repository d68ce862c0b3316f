-- ===== src/Subgraph/Token.antt =====
-- packages/nouns-subgraph/src/nouns-erc-721.ts: all handlers but the one of transfers.
pub mod Delegation
use unouns_monorepo.Base.{
  ℕ, String, Bool, true, false, Option, none, some, List, [], ◌∷◌, ◌++◌, ◌&&◌, not, ltb, ◌==◌,
  str_eq, filter_by, if◌then◌else◌,
}
use unouns_monorepo.Base.Int.{ℤ, pos, sub_ℕ, ◌+ℤ◌, ◌-ℤ◌, eq_ℤ, ltb_ℤ}
use unouns_monorepo.Base.Table.{load, save}
use Prim.Native.String
use unouns_monorepo.Subgraph.Schema.{
  zero_address, wrap_i32, DelegationEvent, TransferEvent, Seed, Noun, Account, Delegate, Governance,
  Store, log_error,
}
use unouns_monorepo.Subgraph.Helpers.{
  get_governance_entity, get_or_create_account, get_or_create_delegate, save_account, save_delegate,
  save_governance,
}

pub record NounCreated : Type 0 where
  pub token_id : String
  pub background : ℕ
  pub body : ℕ
  pub accessory : ℕ
  pub head : ℕ
  pub glasses : ℕ
  pub tx_hash : String

unfoldable pub handle_noun_created : NounCreated → Store → Store
handle_noun_created e s =
    let seed : Seed = record {
      id = e.token_id;
      background = e.background;
      body = e.body;
      accessory = e.accessory;
      head = e.head;
      glasses = e.glasses;
    } in
    let s₁ = record s { seeds = save s.seeds e.token_id seed } in
    elim (load s₁.nouns e.token_id) [
      | none ↦
          log_error "[handleNounCreated] Noun #{} not found. Hash: {}" (e.token_id ∷ e.tx_hash ∷ [])
            s₁
      | some noun ↦ record s₁ {
        nouns = save s₁.nouns noun.id (record noun { seed = some seed.id });
      }
    ]

pub record DelegateChanged : Type 0 where
  pub delegator : String
  pub from_delegate : String
  pub to_delegate : String
  pub block_number : ℕ
  pub block_timestamp : ℕ
  pub tx_hash : String

-- `accountNouns.includes(n)`
unfoldable pub includes : List String → String → Bool
includes [] n = false
includes (m ∷ ms) n = if str_eq m n then true else includes ms n

abbrev pub event_id : String → String → String
event_id tx_hash noun = String.◌++◌ tx_hash (String.◌++◌ "_" noun)

-- `id ? id : other`: the empty text is falsy
abbrev or_id : String → String → String
or_id id other = if str_eq id "" then other else id

-- the last loop of `handleDelegateChanged`: one DelegationEvent for each Noun
unfoldable pub log_delegations : DelegationEvent → String → List String → Store → Store
log_delegations template tx_hash [] s = s
log_delegations template tx_hash (n ∷ ns) s = log_delegations template tx_hash ns (record s {
  delegation_events = save s.delegation_events (event_id tx_hash n) (record template { noun = n });
})

-- `previousDelegate` and `newDelegate` are two copies, also where they are of one row: the second
-- save wins
unfoldable pub handle_delegate_changed : DelegateChanged → Store → Store
unfolding includes
handle_delegate_changed e s₀ =
    let (token_holder, s₁) = get_or_create_account e.delegator s₀ in
    let (previous_delegate, s₂) = get_or_create_delegate e.from_delegate s₁ in
    let (new_delegate, s₃) = get_or_create_delegate e.to_delegate s₂ in
    let account_nouns = token_holder.nouns in
    let s₄ = save_account (record token_holder { delegate = some new_delegate.id }) s₃ in
    let previous' = record previous_delegate {
      token_holders_represented_amount =
          wrap_i32 (previous_delegate.token_holders_represented_amount -ℤ pos 1);
      nouns_represented =
          filter_by (λ n. not (includes account_nouns n)) previous_delegate.nouns_represented;
    } in
    let new' = record new_delegate {
      token_holders_represented_amount =
          wrap_i32 (new_delegate.token_holders_represented_amount +ℤ pos 1);
      nouns_represented = new_delegate.nouns_represented ++ account_nouns;
    } in
    let s₅ = save_delegate new' (save_delegate previous' s₄) in
    log_delegations
      (record {
        noun = "";
        previous_delegate = or_id previous'.id token_holder.id;
        new_delegate = or_id new'.id token_holder.id;
        block_number = e.block_number;
        block_timestamp = e.block_timestamp;
      })
      e.tx_hash account_nouns s₅

pub record DelegateVotesChanged : Type 0 where
  pub delegate : String
  pub previous_balance : ℕ
  pub new_balance : ℕ

abbrev count_current_delegates : ℕ → ℕ → ℤ → ℤ
count_current_delegates previous new n =
    let n' = if (previous == 0) && ltb 0 new then n +ℤ pos 1 else n in
    if new == 0 then n' -ℤ pos 1 else n'

-- `governance` is read before `getOrCreateDelegate` may write the row
unfoldable pub handle_delegate_votes_changed : DelegateVotesChanged → Store → Store
handle_delegate_votes_changed e s =
    let governance = get_governance_entity s in
    let (delegate, s₁) = get_or_create_delegate e.delegate s in
    let s₂ =
      save_delegate
        (record delegate { delegated_votes_raw = e.new_balance; delegated_votes = e.new_balance })
        s₁ in
    let raw = governance.delegated_votes_raw +ℤ sub_ℕ e.new_balance e.previous_balance in
    save_governance
      (record governance {
        current_delegates =
            count_current_delegates e.previous_balance e.new_balance governance.current_delegates;
        delegated_votes_raw = raw;
        delegated_votes = raw;
      })
      s₂
