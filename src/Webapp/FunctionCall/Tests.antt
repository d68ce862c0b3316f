-- ===== src/Webapp/FunctionCall/Tests.antt =====
-- Concrete runs of the call of a function in
-- packages/nouns-webapp/src/components/ProposalActionsModal/steps.
use unouns_monorepo.Base.{true, false, Option, none, some, List, [], ◌∷◌, codes, ◌≡◌, refl}
use unouns_monorepo.Base.Text.{Text, same_text}
use unouns_monorepo.Webapp.FunctionCall.{
  Abi, AbiCoders, Arguments, FunctionCall, CallAction, select_function, add_arguments, find_inputs,
  enter_select, enter_arguments, on_next, on_prev, handle_action_add, set_argument, parse_arguments,
  parse_each, validate_contract, validate_arguments, arguments_validator,
}
use unouns_monorepo.Webapp.FunctionCall.Steps.{
  CallEvent, enter_address, abi_found, choose_function, enter_argument, next, call_step, Reach,
  start, after,
}
use unouns_monorepo.Webapp.FunctionCall.Offered.{is_offered, handle_action_add-is_offered}
use unouns_monorepo.Webapp.FunctionCall.Back.{on_next-on_prev}

abbrev encode : Option (List Text) → Arguments → Option Text
encode (some []) args = some (codes "0x")
encode (some (input ∷ inputs)) (some a ∷ args) = some (codes "0x01")
encode _ _ = none

abbrev coders : AbiCoders
coders = record {
  is_address = λ t. same_text t (codes "0xA");
  is_json = λ t. false;
  encode_params = encode;
  parse_ether = λ t. some 5;
}

abbrev token : Abi
token = record {
  functions = (codes "pause()", []) ∷ (codes "mint(uint256)", codes "uint256" ∷ []) ∷ [];
}

abbrev empty_call : FunctionCall
empty_call = record {
  step = select_function;
  address = [];
  amount = none;
  function = none;
  abi = none;
  args = none;
  entered_address = [];
  entered_value = [];
  entered_function = none;
  entered_abi = none;
  is_abi_upload_valid = none;
  is_contract_valid = false;
  entered_args = [];
  are_args_valid = false;
}

abbrev or_same : FunctionCall → Option FunctionCall → FunctionCall
or_same m none = m
or_same m (some n) = n

abbrev run : List CallEvent → FunctionCall → FunctionCall
run [] m = m
run (event ∷ events) m = run events (or_same m (call_step coders event m))

or_same-Reach :
    {begin m : FunctionCall}
    → Reach coders begin m
    → (event : CallEvent) (o : Option FunctionCall) → call_step coders event m ≡ o
    → Reach coders begin (or_same m o)
or_same-Reach reach event none e = reach
or_same-Reach reach event (some n) e = after reach event e

run-Reach :
    {begin : FunctionCall} (events : List CallEvent) (m : FunctionCall)
    → Reach coders begin m
    → Reach coders begin (run events m)
run-Reach [] m reach = reach
run-Reach (event ∷ events) m reach =
    run-Reach events _ (or_same-Reach reach event (call_step coders event m) refl)

abbrev mint_events : List CallEvent
mint_events =
    enter_address (codes "0xA")
    ∷ abi_found (some token)
    ∷ choose_function (codes "mint(uint256)")
    ∷ next
    ∷ enter_argument 0 (codes "7")
    ∷ []

abbrev begun : FunctionCall
begun = enter_select coders empty_call

abbrev mint : FunctionCall
mint = run mint_events begun

minted : (mint.function ≡ some (codes "mint(uint256)")) × (mint.are_args_valid ≡ true)
unfolding call_step enter_select on_next enter_arguments validate_contract validate_arguments
    arguments_validator parse_arguments parse_each find_inputs set_argument same_text
minted = (refl, refl)

abbrev mint_action : CallAction
mint_action = record {
  address = codes "0xA";
  value = 0;
  signature = some (codes "mint(uint256)");
  calldata = some (codes "0x01");
}

handle_action_add-is_offered_example :
    is_offered (some (codes "mint(uint256)")) (run (next ∷ []) mint).abi ≡ true
unfolding call_step enter_select on_next enter_arguments validate_contract validate_arguments
    arguments_validator parse_arguments parse_each find_inputs set_argument same_text
    handle_action_add
handle_action_add-is_offered_example =
    handle_action_add-is_offered coders empty_call (run (next ∷ []) mint) mint_action
      (run-Reach (next ∷ []) mint (run-Reach mint_events begun start)) refl refl

on_next-on_prev_example :
    (n : FunctionCall) × ((on_next coders (on_prev coders mint) ≡ some n)
      × ((n.step ≡ add_arguments)
          × ((n.function ≡ some (codes "pause()")) × (n.entered_args ≡ []))))
unfolding call_step enter_select on_next enter_arguments validate_contract validate_arguments
    arguments_validator parse_arguments parse_each find_inputs set_argument same_text
on_next-on_prev_example = on_next-on_prev coders mint token refl refl refl refl
