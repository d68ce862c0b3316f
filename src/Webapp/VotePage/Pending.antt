-- ===== src/Webapp/VotePage/Pending.antt =====
-- The transactions of packages/nouns-webapp/src/pages/Vote/index.tsx: which of its buttons wait for
-- one of them, and what the dialogue says of its end.
use unouns_monorepo.Base.{
  Bool, true, false, Option, some, String, List, [], ◌∷◌, ◌≡◌, refl, arith, ◌∙◌, ap, if◌then◌else◌,
}
use unouns_monorepo.Webapp.Alerts.{
  AlertModal, TransactionState, TransactionStatus, not_started, pending_signature, mining, success,
  fail, exception, alert, words, message_or,
}

-- the three transactions of the page
pub data Transaction : Type 0 where
  queueing executing cancelling : Transaction

pub record PageState : Type 0 where
  pub is_queue_pending : Bool
  pub is_execute_pending : Bool
  pub is_cancel_pending : Bool
  pub alert_modal : Option AlertModal

abbrev pub is_pending_of : Transaction → PageState → Bool
is_pending_of queueing s = s.is_queue_pending
is_pending_of executing s = s.is_execute_pending
is_pending_of cancelling s = s.is_cancel_pending

unfoldable pub set_pending : Transaction → Bool → PageState → PageState
set_pending queueing pending s = record s { is_queue_pending = pending }
set_pending executing pending s = record s { is_execute_pending = pending }
set_pending cancelling pending s = record s { is_cancel_pending = pending }

abbrev pub set_modal : AlertModal → PageState → PageState
set_modal modal s = record s { alert_modal = some modal }

abbrev pub success_message : Transaction → String
success_message queueing = "Proposal Queued!"
success_message executing = "Proposal Executed!"
success_message cancelling = "Proposal Canceled!"

-- The page passes no `getErrorMessage`, so that an exception has the same message always.
unfoldable pub on_transaction_state_change : Transaction → TransactionStatus → PageState → PageState
on_transaction_state_change which tx s = elim tx.status [
  | not_started ↦ set_pending which false s
  | pending_signature ↦ s
  | mining ↦ set_pending which true s
  | success ↦
      set_pending which false (set_modal (alert "Success" (words (success_message which))) s)
  | fail ↦
      set_pending which false
        (set_modal (alert "Transaction Failed" (message_or tx.error_message "Please try again.")) s)
  | exception ↦ set_pending which false (set_modal (alert "Error" (words "Please try again.")) s)
]

-- states of the transactions, in the order in which the page hears of them
unfoldable pub run_page : List (Transaction × TransactionStatus) → PageState → PageState
run_page [] s = s
run_page ((which, tx) ∷ changes) s = run_page changes (on_transaction_state_change which tx s)

-- whether the transaction is under way, by its own states alone
abbrev pub under_way : TransactionState → Bool → Bool
under_way mining before = true
under_way pending_signature before = before
under_way _ before = false

abbrev pub is_same : Transaction → Transaction → Bool
is_same queueing queueing = true
is_same executing executing = true
is_same cancelling cancelling = true
is_same _ _ = false

unfoldable pub last_under_way : Transaction → List (Transaction × TransactionStatus) → Bool → Bool
last_under_way which [] before = before
last_under_way which ((other, tx) ∷ changes) before =
    last_under_way which changes
      (if is_same which other then under_way tx.status before else before)

set_pending-is_pending_of :
    (which other : Transaction) (pending : Bool) (s : PageState)
    → is_pending_of which (set_pending other pending s)
      ≡ (if is_same which other then pending else is_pending_of which s)
unfolding set_pending
set_pending-is_pending_of which other pending s = ground arith

change-is_pending_of :
    (which other : Transaction) (tx : TransactionStatus) (s : PageState)
    → is_pending_of which (on_transaction_state_change other tx s) ≡ (
        if is_same which other
        then under_way tx.status (is_pending_of which s)
        else is_pending_of which s)
unfolding on_transaction_state_change set_pending
change-is_pending_of which other tx s = ground arith

-- However the states of the three transactions come after one another, the flag of each is that of its
-- own states alone: it is set where the last of them that the page names is mining, unset where it is
-- another one, and as before where there is none.
run_page-is_pending_of :
    (which : Transaction) (changes : List (Transaction × TransactionStatus)) (s : PageState)
    → is_pending_of which (run_page changes s)
      ≡ last_under_way which changes (is_pending_of which s)
unfolding run_page last_under_way
run_page-is_pending_of which [] s = refl
run_page-is_pending_of which ((other, tx) ∷ changes) s =
    run_page-is_pending_of which changes (on_transaction_state_change other tx s)
    ∙ ap (last_under_way which changes) (change-is_pending_of which other tx s)
