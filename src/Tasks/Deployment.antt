-- ===== src/Tasks/Deployment.antt =====
-- packages/nouns-contracts/tasks/deploy.ts: the loop that deploys a table of contracts one after the
-- other. What it prints is left out, and so is the estimate of the gas, which changes nothing.
pub mod Order
pub mod Checks
use unouns_monorepo.Base.{
  ℕ, ◌+◌, ◌*◌, ◌/◌, Bool, true, false, Option, none, some, String, List, [], ◌∷◌, ◌++◌, str_eq,
  if◌then◌else◌,
}
use unouns_monorepo.Base.{codes, map, leb, ◌&&◌}
use unouns_monorepo.Base.Text.{Text, same_text}
use unouns_monorepo.Base.Table.{Table, load, save}
use unouns_monorepo.Tasks.Chain.{
  TaskError, not_deployed, unexpected_address, Outcome, ok, thrown, exited, ◌>>=◌, Value, text,
  Argument, value, address_of, initialize, ContractDeployment, DeployedContract, Chain, Answers,
}

abbrev pub Deployment : Type 0
Deployment = Table DeployedContract

-- `s.toLowerCase()` on an address
unfoldable pub to_lower_case : String → Text
to_lower_case s = map (λ c. if leb b'A' c && leb c b'Z' then c + 32 else c) (codes s)

-- `deployment.X.address`
unfoldable pub address : Deployment → String → Outcome String
address d name = elim (load d name) [ none ↦ thrown (not_deployed name) | some c ↦ ok c.address ]

-- the value of a property of an object
unfoldable pub property : List (String × String) → String → Option String
property [] key = none
property ((k, v) ∷ fields) key = if str_eq k key then some v else property fields key

-- `result.operation`: the prompt gives an object with the property `confirm`
unfoldable pub operation : Bool → Answers → String → Option String
unfolding property
operation auto_deploy answers name =
    if auto_deploy then none else property (("confirm", answers.confirm name) ∷ []) "operation"

unfoldable pub validate : Deployment → String → Option String → Outcome Deployment
unfolding to_lower_case
validate d name none = ok d
validate d name (some expected) = do
  actual ← address d name
  if same_text (to_lower_case expected) (to_lower_case actual)
      then ok d
      else thrown (unexpected_address name expected actual)

module _ (chain : Chain) where
  -- `typeof a === 'function' ? a() : a`
  unfoldable pub resolve : Deployment → Argument → Outcome Value
  resolve d (value v) = ok v
  resolve d (address_of name) = do a ← address d name; ok (text a)
  resolve d (initialize name values) = do
    a ← address d name
    ok (text (chain.encode_initialize (text a ∷ values)))

  unfoldable pub resolve_args : Deployment → List Argument → Outcome (List Value)
  resolve_args d [] = ok []
  resolve_args d (a ∷ args) = do v ← resolve d a; values ← resolve_args d args; ok (v ∷ values)

  -- `contract.libraries()`
  unfoldable pub resolve_libraries : Deployment → List String → Outcome (List (String × String))
  resolve_libraries d [] = ok []
  resolve_libraries d (name ∷ names) = do
    a ← address d name
    libraries ← resolve_libraries d names
    ok ((name, a) ∷ libraries)

  -- The price of the network, or the one that is typed: its default is the network's in gwei, rounded.
  unfoldable pub choose_gas_price : Bool → Answers → String → chain.World → ℕ
  choose_gas_price auto_deploy answers name w =
      if auto_deploy
      then chain.gas_price w
      else answers.gas_price name ((chain.gas_price w + 500000000) / 1000000000) * 1000000000

  -- the deployment that follows the prompts; `factory` is the name of the contract's factory
  unfoldable pub send :
      String
      → String
      → ContractDeployment
      → List Value
      → List (String × String)
      → ℕ
      → Deployment
      → chain.World
      → Outcome (Deployment × chain.World)
  unfolding validate
  send factory name c values libraries gas d w =
      let (contract, w') = chain.deploy_contract factory values libraries gas w in
      let deployed : DeployedContract = record {
        name = factory;
        address = contract;
        constructor_arguments = values;
        libraries = libraries;
      } in
      do d' ← validate (save d name deployed) name c.expected; ok (d', w')

  unfoldable pub deploy_one :
      Bool
      → Answers
      → String
      → String
      → ContractDeployment
      → Deployment
      → chain.World
      → Outcome (Deployment × chain.World)
  unfolding choose_gas_price operation send resolve_libraries resolve_args
  deploy_one auto_deploy answers factory name c d w =
      let gas = choose_gas_price auto_deploy answers name w in
      do
        libraries ← resolve_libraries d c.libraries
        values ← resolve_args d c.args
        elim (operation auto_deploy answers name) [
          | none ↦ send factory name c values libraries gas d w
          | some answer ↦
              if str_eq answer "SKIP"
              then ok (d, w)
              else if str_eq answer "EXIT"
              then exited
              else send factory name c values libraries gas d w
        ]

  -- `factory_of` is the name of the factory of a contract
  unfoldable pub deploy_each :
      (String → String)
      → Bool
      → Answers
      → List (String × ContractDeployment)
      → Deployment
      → chain.World
      → Outcome (Deployment × chain.World)
  unfolding deploy_one
  deploy_each factory_of auto_deploy answers [] d w = ok (d, w)
  deploy_each factory_of auto_deploy answers ((name, c) ∷ contracts) d w = do
    state ← deploy_one auto_deploy answers (factory_of name) name c d w
    deploy_each factory_of auto_deploy answers contracts state.0 state.1
