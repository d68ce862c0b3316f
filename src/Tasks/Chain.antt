-- ===== src/Tasks/Chain.antt =====
-- packages/nouns-contracts/tasks/types/index.ts, the outcome of a task, and what the tasks use of ethers
-- and of the person who answers the prompts.
use unouns_monorepo.Base.{ℕ, suc, ◌≡◌, Bool, Option, String, List}

-- `exited` is a `return` with no value; `thrown` is an exception.
pub data TaskError : Type 0 where
  -- `deployment.X.address` where X has not been deployed
  not_deployed : String → TaskError
  -- the contract, the expected and the actual address
  unexpected_address : String → String → String → TaskError
  -- the option that has no address on the chain
  not_detected : String → TaskError

pub data Outcome (A : Type 0) : Type 0 where
  ok : A → Outcome A
  thrown : TaskError → Outcome A
  exited : Outcome A

infixl 20 ◌>>=◌
abbrev pub ◌>>=◌ : {A B : Type 0} → Outcome A → (A → Outcome B) → Outcome B
ok a >>= f = f a
thrown e >>= f = thrown e
exited >>= f = exited

pub data Value : Type 0 where
  text : String → Value
  number : ℕ → Value
  -- the least and the largest quorum, and the coefficient with six digits
  quorum_params : ℕ → ℕ → ℕ → Value

-- An argument of a constructor: a value, or a function that reads the deployment, which is the address
-- of a contract or the call of `initialize` on one and more values.
pub data Argument : Type 0 where
  value : Value → Argument
  address_of : String → Argument
  initialize : String → List Value → Argument

-- A library is linked under the name of its contract. `expected` is the address that
-- `validateDeployment` compares.
pub record ContractDeployment : Type 0 where
  pub args : List Argument
  pub libraries : List String
  pub wait_for_confirmation : Bool
  pub expected : Option String

pub record DeployedContract : Type 0 where
  pub name : String
  pub address : String
  pub constructor_arguments : List Value
  pub libraries : List (String × String)

-- The deployer's account on a chain. `contract_address` is getContractAddress for the deployer and a
-- nonce; `deploy_contract` sends the transaction of a factory, with its name, arguments, libraries and
-- gas price, and gives the address of the new contract.
pub record Chain : Type 1 where
  pub World : Type 0
  pub transaction_count : World → ℕ
  pub gas_price : World → ℕ
  pub contract_address : ℕ → String
  pub encode_initialize : List Value → String
  pub deploy_contract : String → List Value → List (String × String) → ℕ → World → String × World

-- A contract that an account creates stands at the address of the account and its nonce, and a
-- transaction raises the nonce by one.
pub record CreatesByNonce (chain : Chain) : Type 0 where
  pub creates :
      (name : String) (args : List Value) (libraries : List (String × String)) (gas : ℕ)
      (w : chain.World)
      → (chain.deploy_contract name args libraries gas w).0
        ≡ chain.contract_address (chain.transaction_count w)
  pub counts :
      (name : String) (args : List Value) (libraries : List (String × String)) (gas : ℕ)
      (w : chain.World)
      → chain.transaction_count (chain.deploy_contract name args libraries gas w).1
        ≡ suc (chain.transaction_count w)

-- What is typed at the two prompts for a contract: a gas price in gwei, with a default, and one of
-- DEPLOY, SKIP and EXIT.
pub record Answers : Type 0 where
  pub gas_price : String → ℕ → ℕ
  pub confirm : String → String
