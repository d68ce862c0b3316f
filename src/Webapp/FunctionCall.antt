-- ===== src/Webapp/FunctionCall.antt =====
-- packages/nouns-webapp/src/components/ProposalActionsModal/steps: the call of a function as an action of
-- a proposal, from the contract and its ABI to the arguments and the review.
pub mod Steps
pub mod Offered
pub mod Back
mod Tests
use unouns_monorepo.Base.{
  ℕ, Bool, true, false, not, zero, suc, ◌&&◌, ◌||◌, Option, none, some, List, [], ◌∷◌, map, codes,
  ◌>>=◌, if◌then◌else◌,
}
use unouns_monorepo.Base.Text.{Text, same_text}

-- what the code reads of an `Interface`: the functions in order, with the types of their inputs
pub record Abi : Type 0 where
  pub functions : List (Text × List Text)

-- the first function, which the code chooses for a new ABI
abbrev pub first_function : Abi → Option Text
first_function abi = elim abi.functions [ [] ↦ none | (function, inputs) ∷ rest ↦ some function ]

unfoldable pub find_inputs : Text → List (Text × List Text) → Option (List Text)
find_inputs function [] = none
find_inputs function ((name, inputs) ∷ functions) =
    let rest = find_inputs function functions in
    if same_text name function then some inputs else rest

-- an argument as it was entered, or the value of its text as JSON
pub data Argument : Type 0 where
  entered : Text → Argument
  parsed : Text → Argument

-- An entry that was never made is a hole of its array, `none` in the lists.
abbrev pub Arguments : Type 0
Arguments = List (Option Argument)

-- `isAddress`, whether `JSON.parse` accepts a text, `_encodeParams`, which throws where the inputs are
-- not known or the arguments do not fit, and `parseEther`, which may throw
pub record AbiCoders : Type 0 where
  pub is_address : Text → Bool
  pub is_json : Text → Bool
  pub encode_params : Option (List Text) → Arguments → Option Text
  pub parse_ether : Text → Option ℕ

pub data CallStep : Type 0 where
  select_function add_arguments review : CallStep

-- what the dialogue keeps, what stands in the fields of the first step, and in those of the second
pub record FunctionCall : Type 0 where
  pub step : CallStep
  pub address : Text
  pub amount : Option Text
  pub function : Option Text
  pub abi : Option Abi
  pub args : Option Arguments
  pub entered_address : Text
  pub entered_value : Text
  pub entered_function : Option Text
  pub entered_abi : Option Abi
  pub is_abi_upload_valid : Option Bool
  pub is_contract_valid : Bool
  pub entered_args : List (Option Text)
  pub are_args_valid : Bool

pub record CallAction : Type 0 where
  pub address : Text
  pub value : ℕ
  pub signature : Option Text
  pub calldata : Option Text

-- `state.function ?? ''` and the like
abbrev pub or_empty : Option Text → Text
or_empty none = []
or_empty (some t) = t

abbrev pub is_empty : Text → Bool
is_empty [] = true
is_empty (c ∷ t) = false

abbrev pub inputs_of : Option Abi → Text → Option (List Text)
inputs_of none function = none
inputs_of (some abi) function = find_inputs function abi.functions

-- a new ABI, with the effect that chooses its first function
abbrev pub set_abi : Abi → FunctionCall → FunctionCall
set_abi abi m = record m { entered_abi = some abi; entered_function = first_function abi }

abbrev pub set_args_valid : Bool → FunctionCall → FunctionCall
set_args_valid valid m = if valid then record m { are_args_valid = true } else m

-- `values[index] = value` on an array with holes
unfoldable pub set_argument : ℕ → Text → List (Option Text) → List (Option Text)
set_argument zero value [] = some value ∷ []
set_argument zero value (a ∷ args) = some value ∷ args
set_argument (suc i) value [] = none ∷ set_argument i value []
set_argument (suc i) value (a ∷ args) = a ∷ set_argument i value args

module _ (coders : AbiCoders) where
  -- an argument with its type; a tuple is parsed, which may throw
  abbrev pub parse_argument : Text → Text → Option Argument
  parse_argument type a =
      if same_text type (codes "tuple")
      then (if coders.is_json a then some (parsed a) else none)
      else some (entered a)

  -- An argument with no input throws.
  unfoldable pub parse_each : List Text → List (Option Text) → Option Arguments
  parse_each types [] = some []
  parse_each [] (none ∷ args) = do rest ← parse_each [] args; some (none ∷ rest)
  parse_each [] (some a ∷ args) = none
  parse_each (type ∷ types) (none ∷ args) = do rest ← parse_each types args; some (none ∷ rest)
  parse_each (type ∷ types) (some a ∷ args) = do
    first ← parse_argument type a
    rest ← parse_each types args
    some (some first ∷ rest)

  unfoldable pub parse_arguments : Option (List Text) → List (Option Text) → Option Arguments
  unfolding parse_each
  parse_arguments none args = some (map (λ o. o >>= (λ a. some (entered a))) args)
  parse_arguments (some types) args = parse_each types args

  -- whether the arguments can be encoded; a call without a function needs none
  unfoldable pub arguments_validator : FunctionCall → Bool
  unfolding parse_arguments
  arguments_validator m =
      let function = or_empty m.function in
      let inputs = inputs_of m.abi function in
      let encoded = elim m.abi as (λ o. Option Text) [
        | none ↦ none
        | some abi ↦ do
          args ← parse_arguments inputs m.entered_args
          coders.encode_params inputs args
      ] in
      is_empty function || elim encoded [ none ↦ false | some calldata ↦ true ]

  -- the effects of the two steps; what was valid once stays so
  unfoldable pub validate_arguments : FunctionCall → FunctionCall
  unfolding arguments_validator
  validate_arguments m = set_args_valid (arguments_validator m) m

  unfoldable pub validate_contract : FunctionCall → FunctionCall
  validate_contract m = elim m.is_abi_upload_valid [
    | none ↦ m
    | some valid ↦
        if not (is_empty m.entered_address) && coders.is_address m.entered_address && valid
        then record m { is_contract_valid = true }
        else m
  ]

  -- the first step begins with what the dialogue knows
  unfoldable pub enter_select : FunctionCall → FunctionCall
  enter_select m =
      let fresh = record m {
        step = select_function;
        entered_address = m.address;
        entered_value = or_empty m.amount;
        entered_function = some (or_empty m.function);
        entered_abi = none;
        is_abi_upload_valid = none;
        is_contract_valid = false;
      } in
      elim m.abi [
        | none ↦ fresh
        | some abi ↦ record (set_abi abi fresh) {
          is_contract_valid = not (is_empty m.address) && coders.is_address m.address;
        }
      ]

  -- the second step begins with no argument
  unfoldable pub enter_arguments : FunctionCall → FunctionCall
  unfolding validate_arguments
  enter_arguments m =
      validate_arguments
        (record m { step = add_arguments; entered_args = []; are_args_valid = false })

  -- a function without inputs can always be reviewed
  abbrev pub can_review : FunctionCall → Bool
  can_review m = elim (inputs_of m.abi (or_empty m.function)) [
    | none ↦ true
    | some [] ↦ true
    | some (input ∷ inputs) ↦ m.are_args_valid
  ]

  -- The buttons for the next step; `none` where a tuple is not JSON, which throws.
  unfoldable pub on_next : FunctionCall → Option FunctionCall
  unfolding enter_arguments parse_arguments
  on_next m = elim m.step [
    | select_function ↦ some (
        if m.is_contract_valid
        then enter_arguments (record m {
          abi = m.entered_abi;
          amount = some m.entered_value;
          address = m.entered_address;
          function = m.entered_function;
        })
        else m)
    | add_arguments ↦
        if can_review m
        then (do
          args ← parse_arguments (inputs_of m.abi (or_empty m.function)) m.entered_args
          some (record m { step = review; args = some args }))
        else some m
    | review ↦ some m
  ]

  -- the button back; from the first step it leaves the call
  unfoldable pub on_prev : FunctionCall → FunctionCall
  unfolding enter_select enter_arguments
  on_prev m = elim m.step [
    | select_function ↦ m
    | add_arguments ↦ enter_select m
    | review ↦ enter_arguments m
  ]

  -- `state.amount ? parseEther(state.amount) : '0'`
  abbrev pub value_of : Text → Option ℕ
  value_of [] = some 0
  value_of (c ∷ amount) = coders.parse_ether (c ∷ amount)

  -- `handleActionAdd` of `FunctionCallReviewStep`, without the decoded calldata; `none` where it throws
  unfoldable pub handle_action_add : FunctionCall → Option CallAction
  handle_action_add m = do
    value ← value_of (or_empty m.amount)
    calldata ← elim m.abi as (λ o. Option (Option Text)) [
      | none ↦ some none
      | some abi ↦ do
        encoded ←
            coders.encode_params
              (some (elim (inputs_of m.abi (or_empty m.function)) [ none ↦ [] | some i ↦ i ]))
              (elim m.args [ none ↦ [] | some args ↦ args ])
        some (some encoded)
    ]
    some
        (record { address = m.address; value = value; signature = m.function; calldata = calldata })
