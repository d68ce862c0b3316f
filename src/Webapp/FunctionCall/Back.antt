-- ===== src/Webapp/FunctionCall/Back.antt =====
-- What going back and on again does to the call of a function, in
-- packages/nouns-webapp/src/components/ProposalActionsModal/steps.
use unouns_monorepo.Base.{true, false, none, some, [], ◌≡◌, ap, arith}
use unouns_monorepo.Webapp.FunctionCall.{
  Abi, AbiCoders, FunctionCall, select_function, add_arguments, first_function, or_empty, is_empty,
  enter_select, enter_arguments, validate_arguments, on_next, on_prev,
}

module _ (coders : AbiCoders) where
  -- what the first step begins with, and what it passes on
  again : FunctionCall → Abi → FunctionCall
  again m abi = record m {
    step = select_function;
    entered_address = m.address;
    entered_value = or_empty m.amount;
    entered_function = first_function abi;
    entered_abi = some abi;
    is_abi_upload_valid = none;
    is_contract_valid = true;
  }

  passed_on : FunctionCall → Abi → FunctionCall
  passed_on m abi = record (again m abi) {
    abi = some abi;
    amount = some (or_empty m.amount);
    function = first_function abi;
  }

  on_prev-again :
      (m : FunctionCall) (abi : Abi)
      → m.step ≡ add_arguments
      → m.abi ≡ some abi
      → is_empty m.address ≡ false
      → coders.is_address m.address ≡ true
      → on_prev coders m ≡ again m abi
  unfolding on_prev enter_select again
  on_prev-again m abi s kept given known = ground arith

  enter_arguments_fields :
      (m : FunctionCall)
      → let n = enter_arguments coders m in
        (n.step ≡ add_arguments) × ((n.function ≡ m.function) × (n.entered_args ≡ []))
  unfolding enter_arguments validate_arguments
  enter_arguments_fields m = ground arith

  -- From the arguments of a call with an ABI and the address of a contract, the way back and on again
  -- leads to the first function of the ABI and no argument, whatever function had been chosen.
  pub on_next-on_prev :
      (m : FunctionCall) (abi : Abi)
      → m.step ≡ add_arguments
      → m.abi ≡ some abi
      → is_empty m.address ≡ false
      → coders.is_address m.address ≡ true
      → (n : FunctionCall) × ((on_next coders (on_prev coders m) ≡ some n)
          × ((n.step ≡ add_arguments)
              × ((n.function ≡ first_function abi) × (n.entered_args ≡ []))))
  unfolding on_next again passed_on
  on_next-on_prev m abi s kept given known = (
    enter_arguments coders (passed_on m abi),
    (
      ap (on_next coders) (on_prev-again m abi s kept given known),
      enter_arguments_fields (passed_on m abi),
    ),
  )
