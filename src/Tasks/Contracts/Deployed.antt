-- ===== src/Tasks/Contracts/Deployed.antt =====
-- The deployment of the table of packages/nouns-contracts/tasks/deploy.ts: its order, its nonces, and the addresses that the contracts refer to.
use unouns_monorepo.Base.{ℕ, ◌+◌, Bool, true, some, String, [], ◌≡◌, refl, arith, All}
use unouns_monorepo.Base.Table.{load}
use unouns_monorepo.Tasks.Chain.{ok, Chain, CreatesByNonce, Answers, DeployedContract}
use unouns_monorepo.Tasks.Arguments.{Options, Addresses, resolve_addresses}
use unouns_monorepo.Tasks.Deployment.{Deployment, deploy_each, to_lower_case}
use unouns_monorepo.Tasks.Deployment.Order.{
  Expected, addresses, addresses_from, in_order, Holds, deploy_each-ok,
}
use unouns_monorepo.Tasks.Deployment.Checks.{ok-first, deploy_each-Agrees, distinct, Agrees}
use unouns_monorepo.Tasks.Contracts.{
  contracts_from, deploy, auction_house_proxy_nonce_offset, governor_n_delegator_nonce_offset,
}

pub nothing-Holds : Holds [] []
unfolding load
nothing-Holds k = (λ h. absurd (ground arith), λ h. refl)

module _ (chain : Chain) (options : Options) (a : Addresses) where
  contracts_from-in_order : (n : ℕ) → in_order [] (contracts_from chain options a n) ≡ true
  unfolding contracts_from
  contracts_from-in_order n = refl

  contracts_from-distinct : (n : ℕ) → distinct (contracts_from chain options a n) ≡ true
  unfolding contracts_from
  contracts_from-distinct n = refl

  contracts_from-Expected : (n : ℕ) → Expected chain n (contracts_from chain options a n)
  unfolding contracts_from
  contracts_from-Expected n = ground arith

-- the row of a contract that stands at the address of a nonce, but for the case of its letters
abbrev pub StandsAt : Chain → Deployment → String → ℕ → Type 0
StandsAt chain d name nonce =
    (v : DeployedContract) × (load d name ≡ some v)
    × (to_lower_case (chain.contract_address nonce) ≡ to_lower_case v.address)

-- Where the addresses are given or known for the chain, the whole table of `deploy` is deployed, and
-- each contract stands at the address of the next nonce, beginning with the deployer's at the start.
-- That is so whatever is typed at the prompts.
pub deploy-addresses_from :
    (chain : Chain) (laws : CreatesByNonce chain) (auto_deploy : Bool) (answers : Answers)
    (options : Options) (chain_id : ℕ) (a : Addresses) (w : chain.World)
    → resolve_addresses options chain_id ≡ ok a
    → (d : Deployment) × (w' : chain.World) × (deploy chain auto_deploy answers options chain_id w
        ≡ ok (d, w'))
      × (addresses d
          ≡ addresses_from chain
              (chain.transaction_count w)
              (contracts_from chain options a (chain.transaction_count w)))
unfolding deploy
deploy-addresses_from chain laws auto answers options chain_id a w resolved =
    let n = chain.transaction_count w in
    let (d, w', run, at) =
      deploy_each-ok chain laws auto answers (λ name. name) [] (contracts_from chain options a n) []
        w nothing-Holds (contracts_from-in_order chain options a n)
        (contracts_from-Expected chain options a n) in
    (d, w', rw resolved run, at)

-- the two contracts of the table that are checked
contracts_from-StandsAt :
    (chain : Chain) (options : Options) (a : Addresses) (n : ℕ) (d : Deployment)
    → All
        (λ e. (v : DeployedContract) × (load d e.0 ≡ some v) × Agrees e.1.expected v.address)
        (contracts_from chain options a n)
    → StandsAt chain d "NounsAuctionHouseProxy" (n + auction_house_proxy_nonce_offset)
      × StandsAt chain d "NounsDAOProxy" (n + governor_n_delegator_nonce_offset)
unfolding contracts_from
contracts_from-StandsAt chain options a n d all =
    (all.1.1.1.1.1.1.1.1.1.0, all.1.1.1.1.1.1.1.1.1.1.1.1.0)

-- A deployment that ends has the proxies of the auction house and of the DAO at the addresses, but for
-- the case of letters, that follow from the nonce at the start. That is so on any chain, also where
-- other transactions of the deployer come in between.
pub deploy-StandsAt :
    (chain : Chain) (auto_deploy : Bool) (answers : Answers) (options : Options) (chain_id : ℕ)
    (w w' : chain.World) (d : Deployment)
    → deploy chain auto_deploy answers options chain_id w ≡ ok (d, w')
    → StandsAt chain d "NounsAuctionHouseProxy"
        (chain.transaction_count w + auction_house_proxy_nonce_offset)
      × StandsAt chain d "NounsDAOProxy"
          (chain.transaction_count w + governor_n_delegator_nonce_offset)
unfolding deploy
deploy-StandsAt chain auto answers options chain_id w w' d h =
    let n = chain.transaction_count w in
    let (a, _, run) =
      ok-first (resolve_addresses options chain_id)
        (λ a. deploy_each chain (λ name. name) auto answers (contracts_from chain options a n) [] w)
        h in
    contracts_from-StandsAt chain options a n d (
      deploy_each-Agrees chain auto answers (λ name. name) (contracts_from chain options a n) [] d w
        w' (contracts_from-distinct chain options a n) run)
