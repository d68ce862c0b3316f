-- ===== src/Webapp/CreateProposal/Payment.antt =====
-- The payments of the form of packages/nouns-webapp/src/pages/CreateProposal/index.tsx: the total in
-- USDC, and the transaction that refills the token buyer.
use unouns_monorepo.Base.{
  remove_at, ℕ, zero, suc, ◌+◌, Bool, true, false, Option, none, some, List, [], ◌∷◌, ◌++◌, ◌==◌,
  get_elem?, All, All-append, ◌>>=◌, if◌then◌else◌, ◌≡◌, refl, sym, ap, ◌∙◌, subst, arith,
}
use mathlib.Core.Option.{some-injective}
use unouns_monorepo.Base.Int.{pos, ◌+ℤ◌, ◌-ℤ◌}
use unouns_monorepo.Base.Text.{Text}
use unouns_monorepo.Webapp.Alerts.{TransactionStatus}
use unouns_monorepo.Webapp.CreateProposal.{
  ProposalTransaction, CreateProposal, starts_with_0x, with_0x, usdc_of, prefixed,
  handle_add_proposal_action, handle_remove_proposal_action, is_at, has_top_up, set_top_up, top_up,
  topped_up, top_up_effect, propose_effect, FormAction, add, remove, need, enter_title, enter_body,
  show_form, propose_changed, form_step, run_form,
}

abbrev pub sum_usdc : List ProposalTransaction → ℕ
sum_usdc [] = 0
sum_usdc (t ∷ ts) = usdc_of t + sum_usdc ts

-- what the contract decodes is written with 0x
abbrev pub IsPrefixed : ProposalTransaction → Type 0
IsPrefixed t = (starts_with_0x t.address ≡ true) × (starts_with_0x t.calldata ≡ true)

-- the total is that of the transactions, and each of them is written with 0x
abbrev pub IsConsistent : CreateProposal → Type 0
IsConsistent s =
    (s.total_usdc_payment ≡ pos (sum_usdc s.proposal_transactions))
    × All IsPrefixed s.proposal_transactions

sum_usdc-append :
    (ts : List ProposalTransaction) (t : ProposalTransaction)
    → sum_usdc (ts ++ (t ∷ [])) ≡ sum_usdc ts + usdc_of t
sum_usdc-append [] t = omega arith
sum_usdc-append (u ∷ ts) t = omega (arith, sum_usdc-append ts t)

sum_usdc-remove_at :
    (i : ℕ) (ts : List ProposalTransaction) (t : ProposalTransaction)
    → get_elem? ts i ≡ some t
    → sum_usdc (remove_at i ts) + usdc_of t ≡ sum_usdc ts
sum_usdc-remove_at i [] t h = ground arith
sum_usdc-remove_at zero (u ∷ ts) t h = ground arith
sum_usdc-remove_at (suc i) (u ∷ ts) t h = ground (arith, sum_usdc-remove_at i ts t)

IsPrefixed-remove_at :
    (i : ℕ) (ts : List ProposalTransaction) → All IsPrefixed ts → All IsPrefixed (remove_at i ts)
IsPrefixed-remove_at i [] h = _
IsPrefixed-remove_at zero (t ∷ ts) (first, rest) = rest
IsPrefixed-remove_at (suc i) (t ∷ ts) (first, rest) = (first, IsPrefixed-remove_at i ts rest)

if-prefixed :
    (b : Bool) (u v : Text)
    → starts_with_0x u ≡ b
    → starts_with_0x v ≡ true
    → starts_with_0x (if b then u else v) ≡ true
if-prefixed true u v h k = h
if-prefixed false u v h k = k

if-All :
    (b : Bool) (ts us : List ProposalTransaction)
    → All IsPrefixed ts
    → All IsPrefixed us
    → All IsPrefixed (if b then ts else us)
if-All true ts us h k = h
if-All false ts us h k = k

with_0x-prefixed : (text : Text) → starts_with_0x (with_0x text) ≡ true
unfolding with_0x
with_0x-prefixed text = if-prefixed (starts_with_0x text) text (b'0' ∷ b'x' ∷ text) refl refl

module _ (token_buyer : Option Text) (eth : ℕ) where
  sum_usdc-set_top_up :
      (ts : List ProposalTransaction) → sum_usdc (set_top_up token_buyer eth ts) ≡ sum_usdc ts
  unfolding set_top_up
  sum_usdc-set_top_up [] = refl
  sum_usdc-set_top_up (t ∷ ts) = ground (arith, sum_usdc-set_top_up ts)

  IsPrefixed-set_top_up :
      (ts : List ProposalTransaction)
      → All IsPrefixed ts
      → All IsPrefixed (set_top_up token_buyer eth ts)
  unfolding set_top_up
  IsPrefixed-set_top_up [] h = _
  IsPrefixed-set_top_up (t ∷ ts) (first, rest) =
      if-All (is_at token_buyer t) (record t { value = some eth } ∷ ts)
        (t ∷ set_top_up token_buyer eth ts) (first, rest) (first, IsPrefixed-set_top_up ts rest)

handle_add_proposal_action-IsConsistent :
    (t : ProposalTransaction) (s : CreateProposal)
    → IsConsistent s
    → IsConsistent (handle_add_proposal_action t s)
unfolding handle_add_proposal_action prefixed ◌+ℤ◌
handle_add_proposal_action-IsConsistent t s (total, all) = (
  ground (arith, sum_usdc-append s.proposal_transactions (prefixed t)),
  All-append IsPrefixed s.proposal_transactions (prefixed t ∷ []) all
      ((with_0x-prefixed t.address, with_0x-prefixed t.calldata), _),
)

if-IsConsistent :
    (b : Bool) (s t : CreateProposal)
    → IsConsistent s
    → IsConsistent t
    → IsConsistent (if b then s else t)
if-IsConsistent true s t h k = h
if-IsConsistent false s t h k = k

topped_up-IsConsistent :
    (token_buyer : Option Text) (eth : ℕ) (s : CreateProposal)
    → IsConsistent s
    → IsConsistent (topped_up token_buyer eth s)
unfolding topped_up
topped_up-IsConsistent token_buyer zero s h = h
topped_up-IsConsistent token_buyer (suc eth) s h =
    if-IsConsistent (has_top_up token_buyer s.proposal_transactions)
      (record s {
        proposal_transactions = set_top_up token_buyer (suc eth) s.proposal_transactions;
      })
      (handle_add_proposal_action (top_up token_buyer (suc eth)) s)
      (
        h.0 ∙ ap pos (sym (sum_usdc-set_top_up token_buyer (suc eth) s.proposal_transactions)),
        IsPrefixed-set_top_up token_buyer (suc eth) s.proposal_transactions h.1,
      )
      (handle_add_proposal_action-IsConsistent (top_up token_buyer (suc eth)) s h)

top_up_effect-IsConsistent :
    (token_buyer : Option Text) (eth : Option ℕ) (s : CreateProposal)
    → IsConsistent s
    → IsConsistent (top_up_effect token_buyer eth s)
unfolding top_up_effect
top_up_effect-IsConsistent token_buyer none s h = h
top_up_effect-IsConsistent token_buyer (some eth) s h =
    if-IsConsistent (eth == s.token_buyer_top_up) s
      (record (topped_up token_buyer eth s) { token_buyer_top_up = eth }) h
      (topped_up-IsConsistent token_buyer eth s h)

abbrev removed : ℕ → ProposalTransaction → CreateProposal → CreateProposal
removed i u s = record s {
  proposal_transactions = remove_at i s.proposal_transactions;
  total_usdc_payment = s.total_usdc_payment -ℤ pos (usdc_of u);
}

removed-total :
    (i : ℕ) (u : ProposalTransaction) (s : CreateProposal)
    → get_elem? s.proposal_transactions i ≡ some u
    → s.total_usdc_payment ≡ pos (sum_usdc s.proposal_transactions)
    → (removed i u s).total_usdc_payment ≡ pos (sum_usdc (removed i u s).proposal_transactions)
unfolding ◌-ℤ◌
removed-total i u s h total = ground (arith, sum_usdc-remove_at i s.proposal_transactions u h)

removing-IsConsistent :
    (o : Option ProposalTransaction) (i : ℕ) (s t : CreateProposal)
    → get_elem? s.proposal_transactions i ≡ o
    → (o >>= (λ u. some (removed i u s))) ≡ some t
    → IsConsistent s
    → IsConsistent t
removing-IsConsistent none i s t found h consistent = cc
removing-IsConsistent (some u) i s t found h (total, all) =
    subst IsConsistent (some-injective (removed i u s) t h)
      (removed-total i u s found total, IsPrefixed-remove_at i s.proposal_transactions all)

handle_remove_proposal_action-IsConsistent :
    (i : ℕ) (s t : CreateProposal)
    → handle_remove_proposal_action i s ≡ some t
    → IsConsistent s
    → IsConsistent t
unfolding handle_remove_proposal_action
handle_remove_proposal_action-IsConsistent i s t h consistent =
    removing-IsConsistent (get_elem? s.proposal_transactions i) i s t refl h consistent

propose_effect-keeps :
    (state : TransactionStatus) (s : CreateProposal)
    → ((propose_effect state s).total_usdc_payment ≡ s.total_usdc_payment)
      × ((propose_effect state s).proposal_transactions ≡ s.proposal_transactions)
unfolding propose_effect
propose_effect-keeps state s = ground arith

propose_effect-IsConsistent :
    (state : TransactionStatus) (s : CreateProposal)
    → IsConsistent s
    → IsConsistent (propose_effect state s)
propose_effect-IsConsistent state s h =
    let (total, same) = propose_effect-keeps state s in
    (total ∙ h.0 ∙ ap (λ ts. pos (sum_usdc ts)) (sym same), subst (All IsPrefixed) (sym same) h.1)

form_step-IsConsistent :
    (token_buyer : Option Text) (action : FormAction) (s t : CreateProposal)
    → form_step token_buyer action s ≡ some t
    → IsConsistent s
    → IsConsistent t
unfolding form_step
form_step-IsConsistent token_buyer (add u) s t h k =
    subst IsConsistent (some-injective (handle_add_proposal_action u s) t h)
      (handle_add_proposal_action-IsConsistent u s k)
form_step-IsConsistent token_buyer (remove index) s t h k =
    handle_remove_proposal_action-IsConsistent index s t h k
form_step-IsConsistent token_buyer (need eth) s t h k =
    subst IsConsistent (some-injective (top_up_effect token_buyer eth s) t h)
      (top_up_effect-IsConsistent token_buyer eth s k)
form_step-IsConsistent token_buyer (enter_title title) s t h k =
    subst IsConsistent (some-injective (record s { title_value = title }) t h) k
form_step-IsConsistent token_buyer (enter_body body) s t h k =
    subst IsConsistent (some-injective (record s { body_value = body }) t h) k
form_step-IsConsistent token_buyer (show_form show) s t h k =
    subst IsConsistent (some-injective (record s { show_transaction_form_modal = show }) t h) k
form_step-IsConsistent token_buyer (propose_changed state) s t h k =
    subst IsConsistent (some-injective (propose_effect state s) t h)
      (propose_effect-IsConsistent state s k)

bound :
    (o : Option CreateProposal) (f : CreateProposal → Option CreateProposal) (t : CreateProposal)
    → (o >>= f) ≡ some t
    → (u : CreateProposal) × ((o ≡ some u) × (f u ≡ some t))
bound none f t h = cc
bound (some u) f t h = (u, (refl, h))

-- Whatever the user adds, removes and enters, and whatever the token buyer needs, a form that was
-- consistent stays so: its total payment is the sum of the payments of its transactions, and every
-- address and calldata begins with 0x.
pub run_form-IsConsistent :
    (token_buyer : Option Text) (actions : List FormAction) (s t : CreateProposal)
    → run_form token_buyer actions s ≡ some t
    → IsConsistent s
    → IsConsistent t
unfolding run_form
run_form-IsConsistent token_buyer [] s t h k = subst IsConsistent (some-injective s t h) k
run_form-IsConsistent token_buyer (action ∷ actions) s t h k =
    let (u, (first, rest)) =
      bound (form_step token_buyer action s) (run_form token_buyer actions) t h in
    run_form-IsConsistent token_buyer actions u t rest
      (form_step-IsConsistent token_buyer action s u first k)
