-- ===== src/Subgraph/Transfers/Moves.antt =====
-- What a Transfer event does to the two holders and to the Noun.
use unouns_monorepo.Base.{
  String, false, Option, none, some, [], ◌∷◌, ◌++◌, ◌≡◌, refl, sym, ap, ◌∙◌, arith, str_eq,
  Option-cases, inl, inr,
}
use unouns_monorepo.Base.Int.{pos, ◌+ℤ◌, ◌-ℤ◌}
use unouns_monorepo.Base.Table.{load, save, load-save_self}
use unouns_monorepo.Subgraph.Schema.{Account, Governance, Noun, Store, zero_address}
use unouns_monorepo.Subgraph.Helpers.{get_governance_entity}
use unouns_monorepo.Subgraph.Helpers.Frames.{get_or_create_account-some, delegate-tables}
use unouns_monorepo.Subgraph.Transfers.{
  Transfer, without, undelegate, leave, depart, count_burn, arrive, own_noun, delegate_or_self,
  log_delegation, log_transfer, move_noun, handle_transfer,
}

undelegate-tables :
    (noun : String) (d : Option String) (s : Store)
    → ((undelegate noun d s).accounts ≡ s.accounts) × ((undelegate noun d s).nouns ≡ s.nouns)
undelegate-tables noun none s = (refl, refl)
undelegate-tables noun (some id) s = delegate-tables id s

-- the old holder, as the handler saves it
pub record Left (e : Transfer) (a b : Account) : Type 0 where
  pub id : b.id ≡ a.id
  pub raw : b.token_balance_raw ≡ a.token_balance_raw -ℤ pos 1
  pub balance : b.token_balance ≡ a.token_balance_raw -ℤ pos 1
  pub nouns : b.nouns ≡ without e.token_id a.nouns

leave-Left :
    (e : Transfer) (a : Account) (g : Governance) (s : Store)
    → let (b, _, t) = leave e a g s in
      Left e a b × (t.accounts ≡ save s.accounts b.id b) × (t.nouns ≡ s.nouns)
leave-Left e a g s = ground (arith, undelegate-tables e.token_id a.delegate s)

-- the new holder
pub record Joined (e : Transfer) (a b : Account) : Type 0 where
  pub id : b.id ≡ a.id
  pub raw : b.token_balance_raw ≡ a.token_balance_raw +ℤ pos 1
  pub balance : b.token_balance ≡ a.token_balance_raw +ℤ pos 1
  pub held : b.total_tokens_held_raw ≡ a.total_tokens_held_raw +ℤ pos 1
  pub nouns : b.nouns ≡ a.nouns ++ e.token_id ∷ []

arrive-Joined :
    (e : Transfer) (a : Account) (g : Governance) (s : Store)
    → let (b, t) = arrive e a g s in Joined e a b × (t.accounts ≡ s.accounts) × (t.nouns ≡ s.nouns)
arrive-Joined e a g s = ground (arith, delegate-tables (delegate_or_self a) s)

count_burn-tables :
    (e : Transfer) (g : Governance) (s : Store)
    → let t = (count_burn e g s).1 in (t.accounts ≡ s.accounts) × (t.nouns ≡ s.nouns)
count_burn-tables e g s = ground arith

own_noun-accounts : (id owner : String) (s : Store) → (own_noun id owner s).accounts ≡ s.accounts
own_noun-accounts id owner s = ground arith

-- the Noun's row, whether it was there or not
own_noun-owner :
    (id owner : String) (s t : Store)
    → t.nouns ≡ s.nouns
    → ((n : Noun) → load s.nouns id ≡ some n → n.id ≡ id)
    → (n : Noun) × (load (own_noun id owner t).nouns id ≡ some n) × (n.owner ≡ owner)
own_noun-owner id owner s t same keyed = elim (Option-cases (load t.nouns id)) [
  | inl absent ↦
      let n : Noun = record { id = id; seed = none; owner = owner } in
      (n, rw (absent, own_noun) (load-save_self t.nouns id n), refl)
  | inr (n, row) ↦
      let n' : Noun = record n { owner = owner } in
      let own : n.id ≡ id = keyed n (ap (λ r. load r id) (sym same) ∙ row) in
      (
        n',
        rw (row, own_noun)
            (ap (λ k. load (save t.nouns k n') id) own ∙ load-save_self t.nouns id n'),
        refl,
      )
]

depart-leave :
    (e : Transfer) (a : Account) (g : Governance) (s : Store)
    → str_eq e.from zero_address ≡ false
    → depart e a g s ≡ leave e a g s
depart-leave e a g s no_mint = rw (no_mint, depart)

-- what a transfer between two holders leaves, from the store `s` that holds their rows `a` and `b`
pub record Moved (e : Transfer) (a b : Account) (s t : Store) : Type 0 where
  pub from_holder : Account
  pub to_holder : Account
  pub noun : Noun
  pub left : Left e a from_holder
  pub joined : Joined e b to_holder
  pub accounts :
      t.accounts ≡ save (save s.accounts from_holder.id from_holder) to_holder.id to_holder
  pub noun_row : load t.nouns e.token_id ≡ some noun
  pub owner : noun.owner ≡ b.id

move_noun-Moved :
    (e : Transfer) (a b : Account) (g : Governance) (s : Store)
    → str_eq e.from zero_address ≡ false
    → ((n : Noun) → load s.nouns e.token_id ≡ some n → n.id ≡ e.token_id)
    → Moved e a b s (move_noun e a b g s)
unfolding move_noun
move_noun-Moved e a b g s no_mint keyed = rw (depart-leave e a g s no_mint) (
    let (a', g₁, s₄) = leave e a g s in
    let (left, accounts₄, nouns₄) = leave-Left e a g s in
    let (g₂, s₅) = count_burn e g₁ s₄ in
    let (accounts₅, nouns₅) = count_burn-tables e g₁ s₄ in
    let s₆ = log_delegation e a' b s₅ in
    let (b', s₇) = arrive e b g₂ s₆ in
    let (joined, accounts₇, nouns₇) = arrive-Joined e b g₂ s₆ in
    let (n, row, owner) = own_noun-owner e.token_id b.id s s₇ (nouns₇ ∙ nouns₅ ∙ nouns₄) keyed in
    record {
      from_holder = a';
      to_holder = b';
      noun = n;
      left = left;
      joined = joined;
      accounts =
          ap (λ t. save t b'.id b')
            (own_noun-accounts e.token_id b.id s₇ ∙ accounts₇ ∙ accounts₅ ∙ accounts₄);
      noun_row = row;
      owner = owner;
    })

-- A transfer that is no mint, between holders whose rows are there: the row of the old holder is
-- saved, then that of the new one, each from the row that was read first; and the Noun, whose row
-- stands under its own id if it is there, gets the new holder for its owner.
pub handle_transfer-Moved :
    (e : Transfer) (s : Store) (a b : Account)
    → load s.accounts e.from ≡ some a
    → load s.accounts e.to ≡ some b
    → str_eq e.from zero_address ≡ false
    → ((n : Noun) → load s.nouns e.token_id ≡ some n → n.id ≡ e.token_id)
    → Moved e a b s (handle_transfer e s)
unfolding handle_transfer
handle_transfer-Moved e s a b from_row to_row no_mint keyed =
    rw (get_or_create_account-some e.from s from_row, get_or_create_account-some e.to s to_row)
      (let m =
          move_noun-Moved e a b (get_governance_entity s) (log_transfer e a b s) no_mint keyed in
        record {
          from_holder = m.from_holder;
          to_holder = m.to_holder;
          noun = m.noun;
          left = m.left;
          joined = m.joined;
          accounts = m.accounts;
          noun_row = m.noun_row;
          owner = m.owner;
        })
