-- ===== src/Webapp/FunctionCall/Offered.antt =====
-- The function of a call that is added, in
-- packages/nouns-webapp/src/components/ProposalActionsModal/steps.
use unouns_monorepo.Base.{
  Bool, true, false, not, ◌&&◌, Option, none, some, List, [], ◌∷◌, ◌≡◌, refl, arith, if◌then◌else◌,
}
use unouns_monorepo.Base.Text.{Text, same_text_refl}
use unouns_monorepo.Webapp.FunctionCall.{
  Abi, AbiCoders, Arguments, FunctionCall, CallAction, CallStep, select_function, add_arguments,
  review, first_function, find_inputs, inputs_of, or_empty, parse_arguments, validate_arguments,
  validate_contract, enter_select, enter_arguments, on_next, on_prev, handle_action_add,
}
use unouns_monorepo.Webapp.FunctionCall.Steps.{
  CallEvent, enter_address, enter_value, choose_function, abi_found, abi_read, abi_error_timeout,
  enter_argument, next, prev, is_select, set_function, accept_abi, in_select, call_step, Reach,
  start, after,
}

abbrev is_none : Option Text → Bool
is_none none = true
is_none (some t) = false

abbrev is_found : Option (List Text) → Bool
is_found none = false
is_found (some inputs) = true

-- a function of an ABI, or none where it has none
abbrev pub is_offered : Option Text → Option Abi → Bool
is_offered function none = false
is_offered none (some abi) = is_none (first_function abi)
is_offered (some function) (some abi) = is_found (find_inputs function abi.functions)

abbrev is_good : Option Bool → Bool
is_good none = false
is_good (some valid) = valid

-- in the first step the function is one of the ABI that was entered, without which it cannot be left;
-- afterwards it is one of the ABI that is kept
abbrev has_offered : Option Abi → FunctionCall → Bool
has_offered none m = not m.is_contract_valid && not (is_good m.is_abi_upload_valid)
has_offered (some abi) m = is_offered m.entered_function (some abi)

abbrev is_sound : FunctionCall → Bool
is_sound m = if is_select m.step then has_offered m.entered_abi m else is_offered m.function m.abi

listed-is_offered :
    (functions : List (Text × List Text))
    → is_offered
        (first_function (record { functions = functions }))
        (some (record { functions = functions }))
      ≡ true
unfolding find_inputs
listed-is_offered [] = refl
listed-is_offered ((name, inputs) ∷ functions) = rw (same_text_refl name) refl

first_function-is_offered : (abi : Abi) → is_offered (first_function abi) (some abi) ≡ true
first_function-is_offered abi = listed-is_offered abi.functions

module _ (coders : AbiCoders) where
  validate_contract-is_sound :
      (m : FunctionCall) → is_sound m ≡ true → is_sound (validate_contract coders m) ≡ true
  unfolding validate_contract
  validate_contract-is_sound m h = ground arith

  entered-is_sound :
      (m : FunctionCall) (o : Option Abi) → m.abi ≡ o → is_sound (enter_select coders m) ≡ true
  unfolding enter_select
  entered-is_sound m none h = ground arith
  entered-is_sound m (some abi) h = ground (arith, first_function-is_offered abi)

  enter_select-is_sound : (m : FunctionCall) → is_sound (enter_select coders m) ≡ true
  enter_select-is_sound m = entered-is_sound m m.abi refl

  enter_arguments-is_sound :
      (m : FunctionCall) → is_sound (enter_arguments coders m) ≡ is_offered m.function m.abi
  unfolding enter_arguments validate_arguments
  enter_arguments-is_sound m = ground arith

  in_select-is_sound :
      (change : FunctionCall → FunctionCall) (m : FunctionCall)
      → (is_select m.step ≡ true → is_sound (change m) ≡ true)
      → is_sound m ≡ true
      → is_sound (in_select coders change m) ≡ true
  in_select-is_sound change m keeps h = ground (arith, validate_contract-is_sound (change m))

  set_function-is_sound :
      (function : Text) (m : FunctionCall) (o : Option (List Text))
      → inputs_of m.entered_abi function ≡ o
      → is_sound m ≡ true
      → is_sound (set_function function m) ≡ true
  set_function-is_sound function m none e h = ground arith
  set_function-is_sound function m (some inputs) e h = ground arith

  accept_abi-is_sound :
      (otherwise : Option Bool) (o : Option Abi) (m : FunctionCall)
      → is_good otherwise ≡ false
      → is_select m.step ≡ true
      → is_sound m ≡ true
      → is_sound (accept_abi otherwise o m) ≡ true
  accept_abi-is_sound otherwise none m e s h = ground arith
  accept_abi-is_sound otherwise (some abi) m e s h = ground (arith, first_function-is_offered abi)

  chosen : FunctionCall → FunctionCall
  chosen m = record m {
    abi = m.entered_abi;
    amount = some m.entered_value;
    address = m.entered_address;
    function = m.entered_function;
  }

  on_next-is_sound :
      (step : CallStep) (o : Option Arguments) (m n : FunctionCall)
      → m.step ≡ step
      → parse_arguments coders (inputs_of m.abi (or_empty m.function)) m.entered_args ≡ o
      → is_sound m ≡ true
      → on_next coders m ≡ some n
      → is_sound n ≡ true
  unfolding on_next chosen
  on_next-is_sound select_function o m n s p h e =
      ground (arith, enter_arguments-is_sound (chosen m))
  on_next-is_sound add_arguments none m n s p h e = ground arith
  on_next-is_sound add_arguments (some args) m n s p h e = ground arith
  on_next-is_sound review o m n s p h e = ground arith

  on_prev-is_sound : (m : FunctionCall) → is_sound m ≡ true → is_sound (on_prev coders m) ≡ true
  unfolding on_prev
  on_prev-is_sound m h = ground (arith, enter_select-is_sound m, enter_arguments-is_sound m)

  kept : (m n : FunctionCall) → some m ≡ some n → is_sound m ≡ true → is_sound n ≡ true
  kept m n e h = ground arith

  call_step-is_sound :
      (event : CallEvent) (m n : FunctionCall)
      → is_sound m ≡ true
      → call_step coders event m ≡ some n
      → is_sound n ≡ true
  unfolding call_step validate_arguments
  call_step-is_sound (enter_address address) m n h e =
      kept _ n e
        (in_select-is_sound (λ m. record m { entered_address = address }) m (λ s. ground arith) h)
  call_step-is_sound (enter_value value) m n h e =
      kept _ n e
        (in_select-is_sound (λ m. record m { entered_value = value }) m (λ s. ground arith) h)
  call_step-is_sound (choose_function function) m n h e = kept _ n e (
      in_select-is_sound (set_function function) m (λ s. set_function-is_sound function m _ refl h)
        h)
  call_step-is_sound (abi_found answer) m n h e = kept _ n e (
      in_select-is_sound (accept_abi none answer) m
        (λ s. accept_abi-is_sound none answer m refl s h) h)
  call_step-is_sound (abi_read file) m n h e = kept _ n e (
      in_select-is_sound (accept_abi (some false) file) m
        (λ s. accept_abi-is_sound (some false) file m refl s h) h)
  call_step-is_sound abi_error_timeout m n h e =
      kept _ n e
        (in_select-is_sound (λ m. record m { is_abi_upload_valid = none }) m (λ s. ground arith) h)
  call_step-is_sound (enter_argument i value) m n h e = ground arith
  call_step-is_sound next m n h e = on_next-is_sound m.step _ m n refl refl h e
  call_step-is_sound prev m n h e = ground (arith, on_prev-is_sound m h)

  Reach-is_sound :
      {begin m : FunctionCall} → is_sound begin ≡ true → Reach coders begin m → is_sound m ≡ true
  Reach-is_sound h start = h
  Reach-is_sound h (after {m} {n} reach event e) =
      call_step-is_sound event m n (Reach-is_sound h reach) e

  -- Whatever the user does from the first step on, and whichever ABIs are found and read: the signature
  -- of a call that is added is a function of the ABI that is kept, or none where that has no function.
  pub handle_action_add-is_offered :
      (begin m : FunctionCall) (action : CallAction)
      → Reach coders (enter_select coders begin) m
      → m.step ≡ review
      → handle_action_add coders m ≡ some action
      → is_offered action.signature m.abi ≡ true
  unfolding handle_action_add
  handle_action_add-is_offered begin m action reach s e =
      let sound = Reach-is_sound (enter_select-is_sound begin) reach in ground arith
