-- ===== src/Subgraph/Transfers/Tests.antt =====
-- Runs of the handlers of packages/nouns-subgraph/src/nouns-erc-721.ts, and the theorems at a store.
use unouns_monorepo.Base.{String, none, some, [], ◌∷◌, ◌≡◌, ◌≢◌, refl, arith, eq_iff}
use unouns_monorepo.Base.Int.{pos, ◌+ℤ◌}
use unouns_monorepo.Base.Table.{load}
use unouns_monorepo.Subgraph.Schema.{Account, Delegate, Noun, Store, empty}
use unouns_monorepo.Subgraph.Helpers.{fresh_account, fresh_delegate}
use unouns_monorepo.Subgraph.Token.{DelegateChanged, handle_delegate_changed}
use unouns_monorepo.Subgraph.Transfers.{Transfer, handle_transfer}
use unouns_monorepo.Subgraph.Token.Delegation.{released, delegates-handle_delegate_changed}
use unouns_monorepo.Subgraph.Transfers.Moves.{Moved, handle_transfer-Moved}
use unouns_monorepo.Subgraph.Transfers.Holdings.{
  HoldsNouns, handle_transfer-HoldsNouns, self_transfer_inflates,
}

-- a store with two accounts, their delegates and a Noun
abbrev alice : Account
alice = record (fresh_account "0xa") {
  token_balance_raw = pos 2;
  token_balance = pos 2;
  delegate = some "0xd";
  nouns = "1" ∷ "2" ∷ [];
}

abbrev bob : Account
bob = fresh_account "0xb"

abbrev dora : Delegate
dora = record (fresh_delegate "0xd") { nouns_represented = "1" ∷ "2" ∷ [] }

abbrev noun : Noun
noun = record { id = "2"; seed = none; owner = "0xa" }

abbrev store : Store
store = record empty {
  accounts = ("0xa", alice) ∷ ("0xb", bob) ∷ [];
  delegates = ("0xd", dora) ∷ ("0xe", fresh_delegate "0xe") ∷ [];
  nouns = ("2", noun) ∷ [];
}

abbrev redelegation : String → DelegateChanged
redelegation to = record {
  delegator = "0xa";
  from_delegate = "0xd";
  to_delegate = to;
  block_number = 1;
  block_timestamp = 2;
  tx_hash = "0xt";
}

d_not_e : ◌≢◌ {A = String} "0xd" "0xe"
d_not_e = ground (arith, eq_iff "0xd" "0xe")

delegates-handle_delegate_changed_example :
    let t = handle_delegate_changed (redelegation "0xe") store in
    (load t.accounts "0xa" ≡ some (record alice { delegate = some "0xe" }))
    × (load t.delegates "0xd" ≡ some (released alice.nouns dora))
unfolding load
delegates-handle_delegate_changed_example =
    delegates-handle_delegate_changed (redelegation "0xe") store alice dora (fresh_delegate "0xe")
      refl refl refl refl refl refl d_not_e "0xd"

abbrev transfer : String → Transfer
transfer to = record {
  from = "0xa";
  to = to;
  token_id = "2";
  block_number = 1;
  block_timestamp = 2;
  tx_hash = "0xt";
}

store-keyed : (n : Noun) → load store.nouns "2" ≡ some n → n.id ≡ "2"
unfolding load
store-keyed n row = cc

a_not_b : ◌≢◌ {A = String} "0xa" "0xb"
a_not_b = ground (arith, eq_iff "0xa" "0xb")

handle_transfer-Moved_example :
    Moved (transfer "0xb") alice bob store (handle_transfer (transfer "0xb") store)
unfolding load
handle_transfer-Moved_example =
    handle_transfer-Moved (transfer "0xb") store alice bob refl refl refl store-keyed

handle_transfer-HoldsNouns_example :
    let t = handle_transfer (transfer "0xb") store in
    (a' : Account) × (b' : Account) × (n : Noun) × HoldsNouns a'
    × HoldsNouns b'
    × (a'.nouns ≡ "1" ∷ [])
    × (b'.nouns ≡ "2" ∷ [])
    × (load t.accounts "0xb" ≡ some b')
    × (load t.nouns "2" ≡ some n)
    × (n.owner ≡ "0xb")
unfolding load
handle_transfer-HoldsNouns_example =
    handle_transfer-HoldsNouns (transfer "0xb") store alice bob refl refl refl store-keyed refl refl
      a_not_b refl refl refl "0xb"

self_transfer_inflates_example :
    (b : Account) × (load (handle_transfer (transfer "0xa") store).accounts "0xa" ≡ some b)
    × (b.token_balance_raw ≡ pos 3)
    × (b.nouns ≡ "1" ∷ "2" ∷ "2" ∷ [])
unfolding load ◌+ℤ◌
self_transfer_inflates_example =
    self_transfer_inflates (transfer "0xa") store alice refl refl refl refl store-keyed
