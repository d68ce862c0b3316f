-- ===== src/Webapp/Alerts.antt =====
-- packages/nouns-webapp/src/state/slices/application.ts: the dialogue that tells the user how a
-- transaction went, with the states of a transaction that the pages look at.
use unouns_monorepo.Base.{Bool, true, Option, none, some, String, str_eq, if◌then◌else◌}
use unouns_monorepo.Base.Text.{Text}

-- a text of the page, or the notice that a bid is too low with the least amount, in ether
pub data Message : Type 0 where
  words : String → Message
  least_bid : Text → Message

pub record AlertModal : Type 0 where
  pub show : Bool
  pub title : String
  pub message : Message

pub record ApplicationState : Type 0 where
  pub state_background_color : String
  pub is_cool_background : Bool
  pub alert_modal : AlertModal

abbrev pub grey : String
grey = "#d8dadf"

unfoldable pub set_state_background_color : String → ApplicationState → ApplicationState
set_state_background_color color s = record s {
  state_background_color = color;
  is_cool_background = str_eq color grey;
}

unfoldable pub set_alert_modal : AlertModal → ApplicationState → ApplicationState
set_alert_modal modal s = record s { alert_modal = modal }

-- `TransactionStatus.status`; `pending_signature` stands for every state that no page names
pub data TransactionState : Type 0 where
  not_started : TransactionState
  pending_signature : TransactionState
  mining : TransactionState
  success : TransactionState
  fail : TransactionState
  exception : TransactionState

pub record TransactionStatus : Type 0 where
  pub status : TransactionState
  pub error_message : Option String

abbrev pub alert : String → Message → AlertModal
alert title message = record { show = true; title = title; message = message }

-- `message || otherwise`
unfoldable pub message_or : Option String → String → Message
message_or none otherwise = words otherwise
message_or (some message) otherwise = if str_eq message "" then words otherwise else words message

abbrev pub status_of : TransactionState → TransactionStatus
status_of state = record { status = state; error_message = none }
