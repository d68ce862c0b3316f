-- ===== src/Tasks/Deployment/Checks.antt =====
-- What a deployment that ends has checked.
use unouns_monorepo.Base.{
  ℕ, Bool, true, false, Option, none, some, String, List, [], ◌∷◌, ◌≡◌, refl, ap, sym, ◌∙◌,
  if◌then◌else◌, str_eq, arith, Bool-cases, not, ◌&&◌, ◌||◌, All, inl, inr,
}
use unouns_monorepo.Base.Text.{same_text, same_text→≡}
use unouns_monorepo.Base.Table.{load, save, load-save, load-save_self}
use unouns_monorepo.Tasks.Chain.{
  unexpected_address, Outcome, ok, thrown, exited, ◌>>=◌, Chain, Answers, ContractDeployment,
  DeployedContract, Value,
}
use unouns_monorepo.Tasks.Deployment.{
  Deployment, address, validate, to_lower_case, operation, resolve_libraries, resolve_args,
  choose_gas_price, send, deploy_one, deploy_each,
}

-- what is typed at the prompt for DEPLOY, SKIP or EXIT is not read
pub operation-none :
    (auto : Bool) (answers : Answers) (name : String) → operation auto answers name ≡ none
unfolding operation
operation-none true answers name = refl
operation-none false answers name = refl

-- a task that ends well ended well in its first step
pub ok-first :
    {A B : Type 0} {end : B} (step : Outcome A) (next : A → Outcome B)
    → step >>= next ≡ ok end
    → (middle : A) × (step ≡ ok middle) × (next middle ≡ ok end)
ok-first exited next done = absurd (cc)
ok-first (thrown reason) next done = absurd (cc)
ok-first (ok middle) next done = (middle, refl, done)

-- an address is the expected one, but for the case of its letters, if one is expected
abbrev pub Agrees : Option String → String → Type 0
Agrees none a = Unit
Agrees (some e) a = to_lower_case e ≡ to_lower_case a

module _ (chain : Chain) (auto : Bool) (answers : Answers) where
  pub deploy_one-eq :
      (factory name : String) (c : ContractDeployment) (d : Deployment) (w : chain.World)
      → deploy_one chain auto answers factory name c d w ≡ (
          resolve_libraries chain d c.libraries >>= λ libraries.
          resolve_args chain d c.args >>= λ values.
          send chain factory name c values libraries
            (choose_gas_price chain auto answers name w)
            d
            w)
  unfolding deploy_one
  deploy_one-eq factory name c d w = rw (operation-none auto answers name)

pub address-ok :
    (d : Deployment) (name : String) (v : DeployedContract)
    → load d name ≡ some v
    → address d name ≡ ok v.address
unfolding address
address-ok d name v row = ground arith

validate-ok :
    (d d' : Deployment) (name : String) (v : DeployedContract) (expected : Option String)
    → load d name ≡ some v
    → validate d name expected ≡ ok d'
    → (d' ≡ d) × Agrees expected v.address
unfolding validate
validate-ok d d' name v none row h = (cc, tt)
validate-ok d d' name v (some e) row h =
    let same = same_text (to_lower_case e) (to_lower_case v.address) in
    let checked : (if same then ok d else thrown (unexpected_address name e v.address)) ≡ ok d' =
      rw (address-ok d name v row) at h in
    elim (Bool-cases same) [
      | inl agrees ↦ (
        ground (arith, checked, agrees),
        same_text→≡ (to_lower_case e) (to_lower_case v.address) agrees,
      )
      | inr differs ↦ absurd (ground (arith, checked, differs))
    ]

-- a table of contracts has one under the name
abbrev pub contains : String → List (String × ContractDeployment) → Bool
contains name [] = false
contains name ((k, c) ∷ contracts) = str_eq k name || contains name contracts

-- no name stands twice
abbrev pub distinct : List (String × ContractDeployment) → Bool
distinct [] = true
distinct ((k, c) ∷ contracts) = not (contains k contracts) && distinct contracts

-- what one contract adds to the deployment
abbrev pub Adds : String → Option String → Deployment → Deployment → Type 0
Adds name expected d d' = (v : DeployedContract) × (d' ≡ save d name v) × Agrees expected v.address

module _ (chain : Chain) (auto : Bool) (answers : Answers) where
  send-Adds :
      (factory name : String) (c : ContractDeployment) (values : List Value)
      (libraries : List (String × String)) (gas : ℕ) (d d' : Deployment) (w w' : chain.World)
      → send chain factory name c values libraries gas d w ≡ ok (d', w')
      → Adds name c.expected d d'
  unfolding send
  send-Adds factory name c values libraries gas d d' w w' h =
      let sent = chain.deploy_contract factory values libraries gas w in
      let v : DeployedContract = record {
        name = factory;
        address = sent.0;
        constructor_arguments = values;
        libraries = libraries;
      } in
      let (d'', valid, rest) =
        ok-first (validate (save d name v) name c.expected) (λ x. ok (x, sent.1)) h in
      let (same, agrees) =
        validate-ok (save d name v) d'' name v c.expected (load-save_self d name v) valid in
      (v, cc (rest, same), agrees)

  pub deploy_one-Adds :
      (factory name : String) (c : ContractDeployment) (d d' : Deployment) (w w' : chain.World)
      → deploy_one chain auto answers factory name c d w ≡ ok (d', w')
      → Adds name c.expected d d'
  deploy_one-Adds factory name c d d' w w' h =
      let gas = choose_gas_price chain auto answers name w in
      let (libraries, _, h1) =
        ok-first (resolve_libraries chain d c.libraries)
          (λ libraries. resolve_args chain d c.args >>= λ values.
            send chain factory name c values libraries gas d w)
          (sym (deploy_one-eq chain auto answers factory name c d w) ∙ h) in
      let (values, _, h2) =
        ok-first (resolve_args chain d c.args)
          (λ values. send chain factory name c values libraries gas d w) h1 in
      send-Adds factory name c values libraries gas d d' w w' h2

  module _ (factory_of : String → String) where
    -- a contract that is not deployed again keeps its row
    deploy_each-keeps :
        (name : String) (contracts : List (String × ContractDeployment)) (d d' : Deployment)
        (w w' : chain.World)
        → contains name contracts ≡ false
        → deploy_each chain factory_of auto answers contracts d w ≡ ok (d', w')
        → load d' name ≡ load d name
    unfolding deploy_each
    deploy_each-keeps name [] d d' w w' fresh h = cc
    deploy_each-keeps name ((k, c) ∷ contracts) d d' w w' fresh h =
        let ((d1, w1), one, rest) =
          ok-first (deploy_one chain auto answers (factory_of k) k c d w)
            (λ state. deploy_each chain factory_of auto answers contracts state.0 state.1) h in
        let (v, added, _) = deploy_one-Adds (factory_of k) k c d d1 w w1 one in
        deploy_each-keeps name contracts d1 d' w1 w' (ground arith) rest
        ∙ ap (λ t. load t name) added
        ∙ load-save d k name v
        ∙ ground arith

    -- every contract of the table stands at the address that is expected of it
    pub deploy_each-Agrees :
        (contracts : List (String × ContractDeployment)) (d d' : Deployment) (w w' : chain.World)
        → distinct contracts ≡ true
        → deploy_each chain factory_of auto answers contracts d w ≡ ok (d', w')
        → All
            (λ e. (v : DeployedContract) × (load d' e.0 ≡ some v) × Agrees e.1.expected v.address)
            contracts
    unfolding deploy_each
    deploy_each-Agrees [] d d' w w' fresh h = tt
    deploy_each-Agrees ((k, c) ∷ contracts) d d' w w' fresh h =
        let ((d1, w1), one, rest) =
          ok-first (deploy_one chain auto answers (factory_of k) k c d w)
            (λ state. deploy_each chain factory_of auto answers contracts state.0 state.1) h in
        let (v, added, agrees) = deploy_one-Adds (factory_of k) k c d d1 w w1 one in
        let stays = deploy_each-keeps k contracts d1 d' w1 w' (ground arith) rest in
        (
          (v, stays ∙ ap (λ t. load t k) added ∙ load-save_self d k v, agrees),
          deploy_each-Agrees contracts d1 d' w1 w' (ground arith) rest,
        )
