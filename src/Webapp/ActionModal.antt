-- ===== src/Webapp/ActionModal.antt =====
-- packages/nouns-webapp/src/components/ProposalActionsModal: the steps with which an action is added to
-- a proposal, and the transfer of funds among them. What the steps of a function call ask for
-- stands in Webapp.FunctionCall.
pub mod Reach
mod Tests
use unouns_monorepo.Base.{
  ℕ, Bool, true, false, ◌&&◌, Option, none, some, List, [], ◌∷◌, codes, length, ◌==◌, ◌>>=◌,
  if◌then◌else◌,
}
use unouns_monorepo.Base.Text.{Text}
use unouns_monorepo.Webapp.CreateProposal.{ProposalTransaction}

pub data ActionStep : Type 0 where
  select_action_type lump_sum_details lump_sum_review : ActionStep
  function_call_select_function function_call_add_arguments function_call_review : ActionStep

pub data ActionType : Type 0 where
  lump_sum function_call : ActionType

pub data Currency : Type 0 where
  eth usdc : Currency

-- `ProposalActionModalState`, with the step, what stands in the fields of the transfer, and whether
-- its button is enabled
pub record ActionModal : Type 0 where
  pub step : ActionStep
  pub action_type : ActionType
  pub address : Text
  pub amount : Option Text
  pub transfer_funds_currency : Option Currency
  pub entered_currency : Currency
  pub entered_amount : Text
  pub entered_address : Text
  pub is_valid_for_next_stage : Bool

unfoldable pub opened : ActionModal
opened = record {
  step = select_action_type;
  action_type = lump_sum;
  address = [];
  amount = none;
  transfer_funds_currency = none;
  entered_currency = eth;
  entered_amount = [];
  entered_address = [];
  is_valid_for_next_stage = false;
}

-- `isAddress`, `parseFloat(amount) > 0`, `parseEther`, which may throw, the amount of USDC in units of
-- 10 ^ -6, `none` for NaN, the calldata for the payer contract, where `_encodeParams` accepts the
-- address, and the address of that contract
pub record TransferCoders : Type 0 where
  pub is_address : Text → Bool
  pub is_positive : Text → Bool
  pub parse_ether : Text → Option ℕ
  pub usdc_units : Text → Option ℕ
  pub encode_params : Text → ℕ → Option Text
  pub payer_contract : Text

-- what the last button of a transfer leads to
pub data Added : Type 0 where
  added : ProposalTransaction → Added
  thrown : Added
  unsupported : Added

-- what the user does; a field is there in its own step alone
pub data UserAction : Type 0 where
  choose_type : ActionType → UserAction
  enter_currency : Currency → UserAction
  enter_amount : Text → UserAction
  enter_address : Text → UserAction
  next : UserAction
  prev : UserAction

abbrev pub is_select : ActionStep → Bool
is_select select_action_type = true
is_select _ = false

abbrev pub is_details : ActionStep → Bool
is_details lump_sum_details = true
is_details _ = false

module _ (coders : TransferCoders) where
  -- the effect of `TransferFundsDetailsStep`
  unfoldable pub validate : ActionModal → ActionModal
  validate m =
      if coders.is_address m.entered_address && coders.is_positive m.entered_amount
      then record m { is_valid_for_next_stage = true }
      else m

  -- The step begins with what the dialogue knows.
  unfoldable pub enter_details : ActionModal → ActionModal
  unfolding validate
  enter_details m = validate (record m {
    step = lump_sum_details;
    entered_currency = elim m.transfer_funds_currency [ none ↦ eth | some c ↦ c ];
    entered_amount = elim m.amount [ none ↦ [] | some a ↦ a ];
    entered_address = m.address;
    is_valid_for_next_stage = false;
  })

  abbrev pub stored : ActionModal → ActionModal
  stored m = record m {
    step = lump_sum_review;
    amount = some m.entered_amount;
    address = m.entered_address;
    transfer_funds_currency = some m.entered_currency;
  }

  -- the next step of the first one is set with the type of the action
  unfoldable pub on_next : ActionModal → ActionModal
  unfolding enter_details
  on_next m = elim m.step [
    | select_action_type ↦ elim m.action_type [
      | lump_sum ↦ enter_details m
      | function_call ↦ record m { step = function_call_select_function }
    ]
    | lump_sum_details ↦ if m.is_valid_for_next_stage then stored m else m
    | lump_sum_review ↦ m
    | function_call_select_function ↦ record m { step = function_call_add_arguments }
    | function_call_add_arguments ↦ record m { step = function_call_review }
    | function_call_review ↦ m
  ]

  -- the first step has a button that closes the dialogue instead
  unfoldable pub on_prev : ActionModal → ActionModal
  unfolding enter_details
  on_prev m = elim m.step [
    | select_action_type ↦ m
    | lump_sum_details ↦ record m { step = select_action_type }
    | lump_sum_review ↦ enter_details m
    | function_call_select_function ↦ record m { step = select_action_type }
    | function_call_add_arguments ↦ record m { step = function_call_select_function }
    | function_call_review ↦ record m { step = function_call_add_arguments }
  ]

  unfoldable pub add_eth : Text → Option ℕ → Added
  add_eth address none = thrown
  add_eth address (some value) = added (record {
    address = address;
    value = some value;
    signature = [];
    calldata = codes "0x";
    usdc_value = none;
  })

  -- `state.amount ? parseEther(state.amount) : '0'`; the empty text is falsy
  abbrev pub amount_of : Option Text → Option ℕ
  amount_of none = some 0
  amount_of (some []) = some 0
  amount_of (some (c ∷ amount)) = coders.parse_ether (c ∷ amount)

  abbrev pub units_of : Option Text → Option ℕ
  units_of none = some 0
  units_of (some amount) = coders.usdc_units amount

  -- NaN is no number that can be encoded
  unfoldable pub add_usdc : Text → Option ℕ → Added
  add_usdc address none = thrown
  add_usdc address (some units) = elim (coders.encode_params address units) [
    | none ↦ thrown
    | some calldata ↦ added (record {
      address = coders.payer_contract;
      value = some 0;
      signature = codes "sendOrRegisterDebt(address,uint256)";
      calldata = calldata;
      usdc_value = some units;
    })
  ]

  -- `handleActionAdd` of `TransferFundsReviewStep`
  unfoldable pub handle_action_add : ActionModal → Added
  unfolding add_eth add_usdc
  handle_action_add m = elim m.transfer_funds_currency [
    | none ↦ unsupported
    | some eth ↦ add_eth m.address (amount_of m.amount)
    | some usdc ↦ add_usdc m.address (units_of m.amount)
  ]

  unfoldable pub user_step : UserAction → ActionModal → ActionModal
  unfolding validate
  user_step (choose_type type) m = if is_select m.step then record m { action_type = type } else m
  user_step (enter_currency c) m =
      if is_details m.step then record m { entered_currency = c } else m
  user_step (enter_amount amount) m =
      if is_details m.step then validate (record m { entered_amount = amount }) else m
  user_step (enter_address address) m =
      if is_details m.step then validate (record m { entered_address = address }) else m
  user_step next m = on_next m
  user_step prev m = on_prev m
