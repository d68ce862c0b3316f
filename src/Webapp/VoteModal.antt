-- ===== src/Webapp/VoteModal.antt =====
-- packages/nouns-webapp/src/components/VoteModal/index.tsx: the dialogue with which a user votes on
-- a proposal, as a state with one operation for each thing that happens to it.
pub mod Calls
mod Tests
use unouns_monorepo.Base.{
  ℕ, Bool, true, false, not, ◌&&◌, ◌||◌, Option, none, some, String, List, [], ◌∷◌, ◌++◌, ◌==◌,
  codes, length, str_eq, ◌>>=◌, if◌then◌else◌,
}
use unouns_monorepo.Base.Text.{Text, trim, same_text}
use unouns_monorepo.Webapp.Alerts.{
  TransactionState, TransactionStatus, not_started, pending_signature, mining, success, fail,
  exception,
}

-- `Vote` of wrappers/nounsDao.ts
pub data Vote : Type 0 where
  against for_it abstain : Vote

pub data VoteCall : Type 0 where
  cast_vote : String → Vote → VoteCall
  cast_vote_with_reason : String → Vote → Text → VoteCall
  cast_refundable_vote : String → Vote → VoteCall
  cast_refundable_vote_with_reason : String → Vote → Text → VoteCall

-- the state of the component, whether it is shown, and the calls that it has made, the last one first
pub record VoteModal : Type 0 where
  pub show : Bool
  pub vote : Option Vote
  pub vote_reason : Text
  pub is_loading : Bool
  pub is_vote_successful : Bool
  pub is_vote_failed : Bool
  pub failure_copy : String
  pub error_message : String
  pub calls : List VoteCall

abbrev pub opened : VoteModal
opened = record {
  show = true;
  vote = none;
  vote_reason = [];
  is_loading = false;
  is_vote_successful = false;
  is_vote_failed = false;
  failure_copy = "";
  error_message = "";
  calls = [];
}

unfoldable pub starts_with : Text → Text → Bool
starts_with [] s = true
starts_with (c ∷ prefix) [] = false
starts_with (c ∷ prefix) (d ∷ s) = (c == d) && starts_with prefix s

-- the text occurs in another one
unfoldable pub occurs : Text → Text → Bool
occurs piece [] = starts_with piece []
occurs piece (c ∷ s) = starts_with piece (c ∷ s) || occurs piece s

unfoldable pub get_vote_error_message : Option String → Option String
unfolding occurs starts_with
get_vote_error_message none = none
get_vote_error_message (some error) =
    if occurs (codes "voter already voted") (codes error)
    then some "User Already Voted"
    else some error

-- `message || 'Please try again.'`
unfoldable pub or_try_again : Option String → String
or_try_again none = "Please try again."
or_try_again (some message) = if str_eq message "" then "Please try again." else message

unfoldable pub vote_failed : String → String → VoteModal → VoteModal
vote_failed copy message m = record m {
  is_loading = false;
  is_vote_failed = true;
  failure_copy = copy;
  error_message = message;
}

abbrev pub set_is_loading : Bool → VoteModal → VoteModal
set_is_loading loading m = record m { is_loading = loading }

abbrev pub vote_succeeded : VoteModal → VoteModal
vote_succeeded m = record m { is_loading = false; is_vote_successful = true }

unfoldable pub handle_vote_state_change : TransactionStatus → VoteModal → VoteModal
handle_vote_state_change state m = elim state.status [
  | not_started ↦ set_is_loading false m
  | pending_signature ↦ m
  | mining ↦ set_is_loading true m
  | success ↦ vote_succeeded m
  | fail ↦ vote_failed "Transaction Failed" (or_try_again state.error_message) m
  | exception ↦ vote_failed "Error" (or_try_again (get_vote_error_message state.error_message)) m
]

-- `library.getCode` is a parameter, which may throw; without a library or an account the signer is
-- no contract.
unfoldable pub signer_is_contract : Option (String → Option String) → Option String → Option Bool
signer_is_contract none account = some false
signer_is_contract (some get_code) none = some false
signer_is_contract (some get_code) (some account) = do
  code ← get_code account
  some (not (str_eq code "0x"))

unfoldable pub vote_call : Bool → String → Vote → Text → VoteCall
vote_call is_contract id vote reason =
    if same_text (trim reason) []
    then if is_contract then cast_vote id vote else cast_refundable_vote id vote
    else if is_contract
    then cast_vote_with_reason id vote reason
    else cast_refundable_vote_with_reason id vote reason

abbrev pub calling : VoteCall → VoteModal → VoteModal
calling call m = record m { is_loading = true; calls = call ∷ m.calls }

-- where it is not known whether the signer is a contract, nothing follows `setIsLoading(true)`
unfoldable pub send_vote : Option Bool → String → Vote → VoteModal → VoteModal
unfolding vote_call
send_vote none id vote m = set_is_loading true m
send_vote (some is_contract) id vote m = calling (vote_call is_contract id vote m.vote_reason) m

-- `''` and no id at all are both falsy
unfoldable pub submit_vote : Option Bool → String → Option Vote → VoteModal → VoteModal
submit_vote signer proposal_id none m = m
submit_vote signer proposal_id (some vote) m =
    if str_eq proposal_id ""
    then m
    else if m.is_loading
    then m
    else send_vote signer proposal_id vote m

abbrev pub submit : Option Bool → String → VoteModal → VoteModal
submit signer proposal_id m = submit_vote signer proposal_id m.vote m

unfoldable pub set_vote : Vote → VoteModal → VoteModal
set_vote vote m = record m { vote = some vote }

unfoldable pub set_vote_reason : Text → VoteModal → VoteModal
set_vote_reason reason m = record m { vote_reason = reason }

-- A dialogue that is not shown forgets a failure.
unfoldable pub set_show : Bool → VoteModal → VoteModal
set_show show m = record m { show = show; is_vote_failed = show && m.is_vote_failed }

unfoldable pub reset_non_success_state_and_hide_modal : VoteModal → VoteModal
reset_non_success_state_and_hide_modal m = record m {
  show = false;
  is_loading = false;
  is_vote_failed = false;
  failure_copy = "";
  error_message = "";
}

-- the buttons and the field for the reason are there
abbrev pub has_buttons : VoteModal → Bool
has_buttons m = m.show && (not m.is_vote_failed && not m.is_vote_successful)

-- what happens to the dialogue: the user chooses, writes, presses the button or closes it, the page
-- shows or hides it, or a transaction has a new state
pub data VoteAction : Type 0 where
  choose : Vote → VoteAction
  write : Text → VoteAction
  press : Option Bool → VoteAction
  dismiss : VoteAction
  show_or_hide : Bool → VoteAction
  transaction : TransactionStatus → VoteAction

unfoldable pub act : String → VoteAction → VoteModal → VoteModal
act proposal_id (choose vote) m = if has_buttons m then set_vote vote m else m
act proposal_id (write reason) m = if has_buttons m then set_vote_reason reason m else m
act proposal_id (press signer) m = if has_buttons m then submit signer proposal_id m else m
act proposal_id dismiss m = reset_non_success_state_and_hide_modal m
act proposal_id (show_or_hide show) m = set_show show m
act proposal_id (transaction state) m = handle_vote_state_change state m

unfoldable pub run_modal : String → List VoteAction → VoteModal → VoteModal
run_modal proposal_id [] m = m
run_modal proposal_id (action ∷ actions) m =
    run_modal proposal_id actions (act proposal_id action m)
