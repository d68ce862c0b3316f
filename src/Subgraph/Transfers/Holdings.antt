-- ===== src/Subgraph/Transfers/Holdings.antt =====
-- Balances against the Nouns that an account lists.
use unouns_monorepo.Base.{
  suc, ◌+◌, String, false, some, List, [], ◌∷◌, ◌++◌, ◌≡◌, ◌≢◌, sym, ap, ◌∙◌, arith, str_eq,
  count_by, length, length-append, if◌then◌else◌,
}
use unouns_monorepo.Base.Int.{pos, ◌+ℤ◌, ◌-ℤ◌, pos-+ℤ, pos-pred}
use unouns_monorepo.Base.Table.{load, save, load-save, load-save_self}
use unouns_monorepo.Subgraph.Schema.{Account, Noun, Store, zero_address}
use unouns_monorepo.Subgraph.Transfers.{Transfer, without, handle_transfer}
use unouns_monorepo.Subgraph.Transfers.Moves.{Left, Joined, handle_transfer-Moved}

-- The balance of an account is the number of Nouns that it lists.
abbrev pub HoldsNouns : Account → Type 0
HoldsNouns a = a.token_balance_raw ≡ pos (length a.nouns)

length-without :
    (noun : String) (ns : List String)
    → length (without noun ns) + count_by (λ n. str_eq n noun) ns ≡ length ns
length-without noun [] = omega arith
length-without noun (n ∷ ns) = ground (arith, length-without noun ns)

Left-HoldsNouns :
    (e : Transfer) (a b : Account)
    → Left e a b
    → count_by (λ n. str_eq n e.token_id) a.nouns ≡ 1
    → HoldsNouns a
    → HoldsNouns b
Left-HoldsNouns e a b left once holds =
    let n = length (without e.token_id a.nouns) in
    let size : length a.nouns ≡ suc n = omega (arith, length-without e.token_id a.nouns) in
    left.raw
    ∙ ap (λ z. z -ℤ pos 1) (holds ∙ ap pos size)
    ∙ pos-pred n
    ∙ ap (λ l. pos (length l)) (sym left.nouns)

Joined-HoldsNouns : (e : Transfer) (a b : Account) → Joined e a b → HoldsNouns a → HoldsNouns b
Joined-HoldsNouns e a b joined holds =
    joined.raw
    ∙ ap (λ z. z +ℤ pos 1) holds
    ∙ pos-+ℤ _ 1
    ∙ ap pos (sym (length-append a.nouns (e.token_id ∷ [])))
    ∙ ap (λ l. pos (length l)) (sym joined.nouns)

module _ (e : Transfer) (s : Store) (a b : Account) (from_row : load s.accounts e.from ≡ some a)
    (to_row : load s.accounts e.to ≡ some b) (no_mint : str_eq e.from zero_address ≡ false)
    (keyed : (n : Noun) → load s.nouns e.token_id ≡ some n → n.id ≡ e.token_id)
    (from_id : a.id ≡ e.from) (to_id : b.id ≡ e.to) where
  -- A transfer between two different holders whose rows are there under their own ids, of a Noun
  -- that the old holder lists once: both balances are still the numbers of Nouns listed, the Noun has
  -- gone from the one list to the end of the other, its owner is the new holder, and every other
  -- account is as before.
  pub handle_transfer-HoldsNouns :
      e.from ≢ e.to
      → count_by (λ n. str_eq n e.token_id) a.nouns ≡ 1
      → HoldsNouns a
      → HoldsNouns b
      → (k : String)
      → let t = handle_transfer e s in
        (a' : Account) × (b' : Account) × (n : Noun) × HoldsNouns a'
        × HoldsNouns b'
        × (a'.nouns ≡ without e.token_id a.nouns)
        × (b'.nouns ≡ b.nouns ++ e.token_id ∷ [])
        × (load t.accounts k ≡ (
            if str_eq e.to k
            then some b'
            else if str_eq e.from k
            then some a'
            else load s.accounts k))
        × (load t.nouns e.token_id ≡ some n)
        × (n.owner ≡ e.to)
  handle_transfer-HoldsNouns distinct once holds_a holds_b k =
      let m = handle_transfer-Moved e s a b from_row to_row no_mint keyed in
      let a' = m.from_holder in
      let b' = m.to_holder in
      (
        a',
        b',
        m.noun,
        Left-HoldsNouns e a a' m.left once holds_a,
        Joined-HoldsNouns e b b' m.joined holds_b,
        m.left.nouns,
        m.joined.nouns,
        ground (
          arith,
          m.accounts,
          m.left.id,
          m.joined.id,
          load-save (save s.accounts a'.id a') b'.id k b',
          load-save s.accounts a'.id k a',
        ),
        m.noun_row,
        m.owner ∙ to_id,
      )

-- A transfer of a holder to itself, which leaves everything as it was on the chain, adds one to the
-- balance of its row and lists the Noun once more: the two copies of the row do not see each other,
-- and the one of the new holder is saved last.
pub self_transfer_inflates :
    (e : Transfer) (s : Store) (a : Account)
    → load s.accounts e.from ≡ some a
    → e.to ≡ e.from
    → a.id ≡ e.from
    → str_eq e.from zero_address ≡ false
    → ((n : Noun) → load s.nouns e.token_id ≡ some n → n.id ≡ e.token_id)
    → (b : Account) × (load (handle_transfer e s).accounts e.from ≡ some b)
      × (b.token_balance_raw ≡ a.token_balance_raw +ℤ pos 1)
      × (b.nouns ≡ a.nouns ++ e.token_id ∷ [])
self_transfer_inflates e s a row same own no_mint keyed =
    let m = handle_transfer-Moved e s a a row (ap (load s.accounts) same ∙ row) no_mint keyed in
    let b = m.to_holder in
    (
      b,
      ap (λ t. load t e.from) m.accounts
          ∙ ap (load (save (save s.accounts m.from_holder.id m.from_holder) b.id b))
              (sym (m.joined.id ∙ own))
          ∙ load-save_self (save s.accounts m.from_holder.id m.from_holder) b.id b,
      m.joined.raw,
      m.joined.nouns,
    )
