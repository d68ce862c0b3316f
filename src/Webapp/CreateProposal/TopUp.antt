-- ===== src/Webapp/CreateProposal/TopUp.antt =====
-- The transaction that refills the token buyer, of the form of
-- packages/nouns-webapp/src/pages/CreateProposal/index.tsx.
use unouns_monorepo.Base.{
  ℕ, suc, Bool, true, false, ◌||◌, Option, some, List, [], ◌∷◌, ◌++◌, ◌==◌, if◌then◌else◌, ◌≡◌, ◌⊎◌,
  inl, inr, refl, sym, ap, ◌∙◌, subst, arith,
}
use unouns_monorepo.Base.Text.{Text, same_text, same_text_refl}
use unouns_monorepo.Webapp.CreateProposal.{
  ProposalTransaction, CreateProposal, starts_with_0x, with_0x, prefixed,
  handle_add_proposal_action, is_at, has_top_up, set_top_up, top_up, topped_up, top_up_effect,
}

-- a transaction sends the amount to the token buyer
abbrev pub IsFunded : Text → ℕ → List ProposalTransaction → Type 0
IsFunded token_buyer eth [] = false ≡ true
IsFunded token_buyer eth (t ∷ ts) =
    ((is_at (some token_buyer) t ≡ true) × (t.value ≡ some eth)) ⊎ IsFunded token_buyer eth ts

other-true : (a b : Bool) → (a || b) ≡ true → a ≡ false → b ≡ true
other-true a b h k = ground arith

module _ (token_buyer : Text) (eth : ℕ) where
  if-IsFunded :
      (b : Bool) (ts us : List ProposalTransaction)
      → (b ≡ true → IsFunded token_buyer eth ts)
      → (b ≡ false → IsFunded token_buyer eth us)
      → IsFunded token_buyer eth (if b then ts else us)
  if-IsFunded true ts us h k = h refl
  if-IsFunded false ts us h k = k refl

  set_top_up-IsFunded :
      (ts : List ProposalTransaction)
      → has_top_up (some token_buyer) ts ≡ true
      → IsFunded token_buyer eth (set_top_up (some token_buyer) eth ts)
  unfolding has_top_up set_top_up
  set_top_up-IsFunded [] h = h
  set_top_up-IsFunded (t ∷ ts) h =
      if-IsFunded (is_at (some token_buyer) t) (record t { value = some eth } ∷ ts)
        (t ∷ set_top_up (some token_buyer) eth ts) (λ k. inl (k, refl))
        (λ k. inr (
          set_top_up-IsFunded ts
            (other-true (is_at (some token_buyer) t) (has_top_up (some token_buyer) ts) h k)))

  append-IsFunded :
      (ts : List ProposalTransaction) (t : ProposalTransaction)
      → is_at (some token_buyer) t ≡ true
      → t.value ≡ some eth
      → IsFunded token_buyer eth (ts ++ (t ∷ []))
  append-IsFunded [] t h k = inl (h, k)
  append-IsFunded (u ∷ ts) t h k = inr (append-IsFunded ts t h k)

  top_up-is_at :
      starts_with_0x token_buyer ≡ true
      → is_at (some token_buyer) (prefixed (top_up (some token_buyer) eth)) ≡ true
  unfolding prefixed top_up with_0x
  top_up-is_at h =
      ap (λ b. same_text (if b then token_buyer else b'0' ∷ b'x' ∷ token_buyer) token_buyer) h
      ∙ same_text_refl token_buyer

  top_up-value : (prefixed (top_up (some token_buyer) eth)).value ≡ some eth
  unfolding prefixed top_up
  top_up-value = refl

  if_form-IsFunded :
      (b : Bool) (s t : CreateProposal)
      → (b ≡ true → IsFunded token_buyer eth s.proposal_transactions)
      → (b ≡ false → IsFunded token_buyer eth t.proposal_transactions)
      → IsFunded token_buyer eth (if b then s else t).proposal_transactions
  if_form-IsFunded true s t h k = h refl
  if_form-IsFunded false s t h k = k refl

-- the transactions after the effect, for a need that is new
effect-new :
    (token_buyer : Option Text) (eth : ℕ) (s : CreateProposal)
    → (eth == s.token_buyer_top_up) ≡ false
    → (top_up_effect token_buyer (some eth) s).proposal_transactions
      ≡ (topped_up token_buyer eth s).proposal_transactions
unfolding top_up_effect
effect-new token_buyer eth s h =
    ap
      (λ b.
        (if b then s else record (topped_up token_buyer eth s) {
          token_buyer_top_up = eth;
        }).proposal_transactions)
      h

topped_up-IsFunded :
    (token_buyer : Text) (eth : ℕ) (s : CreateProposal)
    → starts_with_0x token_buyer ≡ true
    → IsFunded token_buyer
        (suc eth)
        (topped_up (some token_buyer) (suc eth) s).proposal_transactions
unfolding topped_up handle_add_proposal_action
topped_up-IsFunded token_buyer eth s h =
    if_form-IsFunded token_buyer (suc eth) (has_top_up (some token_buyer) s.proposal_transactions)
      (record s {
        proposal_transactions = set_top_up (some token_buyer) (suc eth) s.proposal_transactions;
      })
      (handle_add_proposal_action (top_up (some token_buyer) (suc eth)) s)
      (set_top_up-IsFunded token_buyer (suc eth) s.proposal_transactions)
      (λ k.
        append-IsFunded token_buyer (suc eth) s.proposal_transactions
          (prefixed (top_up (some token_buyer) (suc eth))) (top_up-is_at token_buyer (suc eth) h)
          (top_up-value token_buyer (suc eth)))

if_form-same :
    (b : Bool) (s t : CreateProposal)
    → t.proposal_transactions ≡ s.proposal_transactions
    → (if b then s else t).proposal_transactions ≡ s.proposal_transactions
if_form-same true s t h = refl
if_form-same false s t h = h

top_up_effect-zero :
    (token_buyer : Option Text) (s : CreateProposal)
    → (top_up_effect token_buyer (some 0) s).proposal_transactions ≡ s.proposal_transactions
unfolding top_up_effect topped_up
top_up_effect-zero token_buyer s =
    if_form-same (0 == s.token_buyer_top_up) s
      (record (topped_up token_buyer 0 s) { token_buyer_top_up = 0 }) refl

-- Where the need of the token buyer changes and its address begins with 0x, a need above 0 leaves a transaction to it of that amount;
-- a need of 0 leaves the transactions as they are, a transaction to the token buyer among them.
pub top_up_effect-IsFunded :
    (token_buyer : Text) (eth : ℕ) (s : CreateProposal)
    → starts_with_0x token_buyer ≡ true
    → (suc eth == s.token_buyer_top_up) ≡ false
    → IsFunded token_buyer
        (suc eth)
        (top_up_effect (some token_buyer) (some (suc eth)) s).proposal_transactions
      × ((top_up_effect (some token_buyer) (some 0) s).proposal_transactions
          ≡ s.proposal_transactions)
top_up_effect-IsFunded token_buyer eth s h k = (
  subst (IsFunded token_buyer (suc eth)) (sym (effect-new (some token_buyer) (suc eth) s k))
      (topped_up-IsFunded token_buyer eth s h),
  top_up_effect-zero (some token_buyer) s,
)
