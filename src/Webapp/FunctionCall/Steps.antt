-- ===== src/Webapp/FunctionCall/Steps.antt =====
-- What a user and the answers of Etherscan do to the call of a function in
-- packages/nouns-webapp/src/components/ProposalActionsModal/steps.
use unouns_monorepo.Base.{ℕ, Bool, true, false, Option, none, some, ◌≡◌, if◌then◌else◌}
use unouns_monorepo.Base.Text.{Text}
use unouns_monorepo.Webapp.FunctionCall.{
  Abi, AbiCoders, FunctionCall, CallStep, select_function, add_arguments, set_abi, inputs_of,
  set_argument, validate_contract, validate_arguments, on_next, on_prev,
}

-- `abi_found` is the answer for an address, `none` where there is no ABI, and `abi_read` a file that
-- was chosen, `none` where it is no ABI
pub data CallEvent : Type 0 where
  enter_address : Text → CallEvent
  enter_value : Text → CallEvent
  choose_function : Text → CallEvent
  abi_found : Option Abi → CallEvent
  abi_read : Option Abi → CallEvent
  abi_error_timeout : CallEvent
  enter_argument : ℕ → Text → CallEvent
  next : CallEvent
  prev : CallEvent

abbrev pub is_select : CallStep → Bool
is_select select_function = true
is_select _ = false

abbrev pub is_arguments : CallStep → Bool
is_arguments add_arguments = true
is_arguments _ = false

-- the list offers the functions of the ABI alone
abbrev pub set_function : Text → FunctionCall → FunctionCall
set_function function m = elim (inputs_of m.entered_abi function) [
  | none ↦ m
  | some inputs ↦ record m { entered_function = some function }
]

-- an ABI that is good, and what is left of one that is not
abbrev pub accept_abi : Option Bool → Option Abi → FunctionCall → FunctionCall
accept_abi otherwise none m = record m { is_abi_upload_valid = otherwise }
accept_abi otherwise (some abi) m = record (set_abi abi m) { is_abi_upload_valid = some true }

module _ (coders : AbiCoders) where
  abbrev pub in_select : (FunctionCall → FunctionCall) → FunctionCall → FunctionCall
  in_select change m = if is_select m.step then validate_contract coders (change m) else m

  unfoldable pub call_step : CallEvent → FunctionCall → Option FunctionCall
  call_step (enter_address address) m =
      some (in_select (λ m. record m { entered_address = address }) m)
  call_step (enter_value value) m = some (in_select (λ m. record m { entered_value = value }) m)
  call_step (choose_function function) m = some (in_select (set_function function) m)
  call_step (abi_found answer) m = some (in_select (accept_abi none answer) m)
  call_step (abi_read file) m = some (in_select (accept_abi (some false) file) m)
  call_step abi_error_timeout m = some (in_select (λ m. record m { is_abi_upload_valid = none }) m)
  call_step (enter_argument i value) m = some (
      if is_arguments m.step
      then validate_arguments coders
          (record m { entered_args = set_argument i value m.entered_args })
      else m)
  call_step next m = on_next coders m
  call_step prev m = some (on_prev coders m)

  -- what a call that begins with a state comes to, as long as nothing throws
  pub data Reach (begin : FunctionCall) : FunctionCall → Type 0 where
    start : Reach begin begin
    after :
        {m n : FunctionCall}
        → Reach begin m
        → (event : CallEvent) → call_step event m ≡ some n
        → Reach begin n
