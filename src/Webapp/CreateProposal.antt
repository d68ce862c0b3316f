-- ===== src/Webapp/CreateProposal.antt =====
-- packages/nouns-webapp/src/pages/CreateProposal/index.tsx: the form that collects the transactions of
-- a proposal and proposes them. A text that holds a number is the number.
pub mod Payment
pub mod TopUp
mod Tests
use unouns_monorepo.Base.{
  remove_at, ℕ, zero, suc, ◌+◌, Bool, true, false, not, ◌&&◌, ◌||◌, Option, none, some, String,
  List, [], ◌∷◌, ◌++◌, ◌==◌, ltb, codes, length, map, get_elem?, ◌>>=◌, if◌then◌else◌,
}
use unouns_monorepo.Base.Int.{ℤ, pos, ◌+ℤ◌, ◌-ℤ◌}
use unouns_monorepo.Base.Text.{Text, same_text}
use unouns_monorepo.Webapp.Alerts.{
  AlertModal, TransactionState, TransactionStatus, not_started, pending_signature, mining, success,
  fail, exception, alert, words, message_or,
}

pub record ProposalTransaction : Type 0 where
  pub address : Text
  pub value : Option ℕ
  pub signature : Text
  pub calldata : Text
  pub usdc_value : Option ℕ

pub record CreateProposal : Type 0 where
  pub proposal_transactions : List ProposalTransaction
  pub title_value : Text
  pub body_value : Text
  pub total_usdc_payment : ℤ
  pub token_buyer_top_up : ℕ
  pub show_transaction_form_modal : Bool
  pub is_propose_pending : Bool
  pub alert_modal : Option AlertModal

unfoldable pub empty_form : CreateProposal
empty_form = record {
  proposal_transactions = [];
  title_value = [];
  body_value = [];
  total_usdc_payment = pos 0;
  token_buyer_top_up = 0;
  show_transaction_form_modal = false;
  is_propose_pending = false;
  alert_modal = none;
}

-- `text.startsWith('0x')`
abbrev pub starts_with_0x : Text → Bool
starts_with_0x (c ∷ d ∷ s) = c == b'0' && d == b'x'
starts_with_0x _ = false

unfoldable pub with_0x : Text → Text
with_0x text = if starts_with_0x text then text else b'0' ∷ b'x' ∷ text

abbrev pub usdc_of : ProposalTransaction → ℕ
usdc_of t = elim t.usdc_value [ none ↦ 0 | some usdc ↦ usdc ]

unfoldable pub prefixed : ProposalTransaction → ProposalTransaction
unfolding with_0x
prefixed t = record t { address = with_0x t.address; calldata = with_0x t.calldata }

unfoldable pub handle_add_proposal_action : ProposalTransaction → CreateProposal → CreateProposal
unfolding prefixed
handle_add_proposal_action t s = record s {
  proposal_transactions = s.proposal_transactions ++ (prefixed t ∷ []);
  total_usdc_payment = s.total_usdc_payment +ℤ pos (usdc_of t);
  show_transaction_form_modal = false;
}

-- `none` where there is no transaction at the index
unfoldable pub handle_remove_proposal_action : ℕ → CreateProposal → Option CreateProposal
handle_remove_proposal_action index s = do
  t ← get_elem? s.proposal_transactions index
  some (record s {
    proposal_transactions = remove_at index s.proposal_transactions;
    total_usdc_payment = s.total_usdc_payment -ℤ pos (usdc_of t);
  })

-- an address is never undefined
abbrev pub is_at : Option Text → ProposalTransaction → Bool
is_at none t = false
is_at (some token_buyer) t = same_text t.address token_buyer

unfoldable pub has_top_up : Option Text → List ProposalTransaction → Bool
has_top_up token_buyer [] = false
has_top_up token_buyer (t ∷ ts) = is_at token_buyer t || has_top_up token_buyer ts

-- the first transaction to the token buyer gets the value
unfoldable pub set_top_up : Option Text → ℕ → List ProposalTransaction → List ProposalTransaction
set_top_up token_buyer eth [] = []
set_top_up token_buyer eth (t ∷ ts) =
    let rest = set_top_up token_buyer eth ts in
    if is_at token_buyer t then record t { value = some eth } ∷ ts else t ∷ rest

-- '0x'
abbrev pub no_calldata : Text
no_calldata = b'0' ∷ b'x' ∷ []

unfoldable pub top_up : Option Text → ℕ → ProposalTransaction
top_up token_buyer eth = record {
  address = elim token_buyer [ none ↦ [] | some address ↦ address ];
  value = some eth;
  signature = [];
  calldata = no_calldata;
  usdc_value = none;
}

unfoldable pub topped_up : Option Text → ℕ → CreateProposal → CreateProposal
topped_up token_buyer zero s = s
topped_up token_buyer (suc eth) s =
    if has_top_up token_buyer s.proposal_transactions
    then record s {
      proposal_transactions = set_top_up token_buyer (suc eth) s.proposal_transactions;
    }
    else handle_add_proposal_action (top_up token_buyer (suc eth)) s

-- the effect, by the ether that the token buyer needs for the payment, where that is known
unfoldable pub top_up_effect : Option Text → Option ℕ → CreateProposal → CreateProposal
unfolding topped_up
top_up_effect token_buyer none s = s
top_up_effect token_buyer (some eth) s =
    if eth == s.token_buyer_top_up
    then s
    else record (topped_up token_buyer eth s) { token_buyer_top_up = eth }

unfoldable pub is_form_invalid : CreateProposal → Bool
is_form_invalid s =
    length s.proposal_transactions == 0 || (length s.title_value == 0 || length s.body_value == 0)

unfoldable pub has_enough_vote : Option ℕ → Option ℕ → Bool
has_enough_vote none threshold = false
has_enough_vote (some votes) none = false
has_enough_vote (some votes) (some threshold) = not (votes == 0) && ltb threshold votes

-- `# ${titleValue}\n\n${bodyValue}`
unfoldable pub describe : Text → Text → Text
describe title body = b'#' ∷ b' ' ∷ (title ++ (b'\n' ∷ b'\n' ∷ body))

pub record Propose : Type 0 where
  pub targets : List Text
  pub values : List ℕ
  pub signatures : List Text
  pub calldatas : List Text
  pub description : Text

unfoldable pub proposed : CreateProposal → Propose
proposed s = record {
  targets = map (λ t. t.address) s.proposal_transactions;
  values = map (λ t. elim t.value as (λ x. ℕ) [ none ↦ 0 | some v ↦ v ]) s.proposal_transactions;
  signatures = map (λ t. t.signature) s.proposal_transactions;
  calldatas = map (λ t. t.calldata) s.proposal_transactions;
  description = describe s.title_value s.body_value;
}

unfoldable pub handle_create_proposal : CreateProposal → Option Propose
unfolding proposed
handle_create_proposal s = if length s.proposal_transactions == 0 then none else some (proposed s)

abbrev pub failed_with : String → TransactionStatus → CreateProposal → CreateProposal
failed_with title state s = record s {
  alert_modal = some (alert title (message_or state.error_message "Please try again."));
  is_propose_pending = false;
}

unfoldable pub propose_effect : TransactionStatus → CreateProposal → CreateProposal
propose_effect state s = elim state.status [
  | not_started ↦ record s { is_propose_pending = false }
  | pending_signature ↦ s
  | mining ↦ record s { is_propose_pending = true }
  | success ↦ record s {
    alert_modal = some (alert "Success" (words "Proposal Created!"));
    is_propose_pending = false;
  }
  | fail ↦ failed_with "Transaction Failed" state s
  | exception ↦ failed_with "Error" state s
]

-- what happens to the form
pub data FormAction : Type 0 where
  add : ProposalTransaction → FormAction
  remove : ℕ → FormAction
  need : Option ℕ → FormAction
  enter_title : Text → FormAction
  enter_body : Text → FormAction
  show_form : Bool → FormAction
  propose_changed : TransactionStatus → FormAction

unfoldable pub form_step : Option Text → FormAction → CreateProposal → Option CreateProposal
form_step token_buyer (add t) s = some (handle_add_proposal_action t s)
form_step token_buyer (remove index) s = handle_remove_proposal_action index s
form_step token_buyer (need eth) s = some (top_up_effect token_buyer eth s)
form_step token_buyer (enter_title title) s = some (record s { title_value = title })
form_step token_buyer (enter_body body) s = some (record s { body_value = body })
form_step token_buyer (show_form show) s = some (record s { show_transaction_form_modal = show })
form_step token_buyer (propose_changed state) s = some (propose_effect state s)

unfoldable pub run_form : Option Text → List FormAction → CreateProposal → Option CreateProposal
run_form token_buyer [] s = some s
run_form token_buyer (action ∷ actions) s = do
  t ← form_step token_buyer action s
  run_form token_buyer actions t
