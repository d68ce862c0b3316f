-- ===== src/Tasks/ShortTimes/Deployed.antt =====
-- The deployments of the tables of packages/nouns-contracts/tasks/deploy-short-times.ts and
-- deploy-short-times-daov1.ts.
use unouns_monorepo.Base.{ℕ, Bool, true, String, [], ◌≡◌, refl, arith}
use unouns_monorepo.Tasks.Chain.{ok, Chain, CreatesByNonce, Answers}
use unouns_monorepo.Tasks.Arguments.{resolve_option, proxy_registry, weth_contracts}
use unouns_monorepo.Tasks.Deployment.{Deployment}
use unouns_monorepo.Tasks.Deployment.Order.{
  Expected, addresses, addresses_from, in_order, deploy_each-ok,
}
use unouns_monorepo.Tasks.Contracts.Deployed.{nothing-Holds}
use unouns_monorepo.Tasks.ShortTimes.{
  ShortTimesOptions, short_times_contracts_from, nounders_or, name_for_factory, deploy_short_times,
  deploy_short_times_daov1, deploy_short_times_with,
}

module _ (chain : Chain) (options : ShortTimesOptions) (nounders weth registry : String) where
  short_times-Expected :
      (logic proxy : String) (n : ℕ)
      → Expected chain n
          (short_times_contracts_from chain logic proxy options nounders weth registry n)
  unfolding short_times_contracts_from
  short_times-Expected logic proxy n = ground arith

deploy_short_times_with-all :
    (chain : Chain) (laws : CreatesByNonce chain) (logic harness proxy : String)
    (auto_deploy : Bool) (answers : Answers) (options : ShortTimesOptions) (chain_id : ℕ)
    (deployer weth : String) (w : chain.World)
    → resolve_option "weth" options.weth weth_contracts chain_id ≡ ok weth
    → let n = chain.transaction_count w in
      let table =
        short_times_contracts_from chain logic proxy options
          (nounders_or options deployer)
          weth
          (proxy_registry chain_id)
          n in
      in_order [] table ≡ true
      → (d : Deployment) × (w' : chain.World) × (deploy_short_times_with logic harness proxy chain
            auto_deploy answers options chain_id deployer w
          ≡ ok (d, w'))
        × (addresses d ≡ addresses_from chain n table)
unfolding deploy_short_times_with
deploy_short_times_with-all chain laws logic harness proxy auto answers options chain_id deployer
      weth w found order =
    let n = chain.transaction_count w in
    let nounders = nounders_or options deployer in
    let registry = proxy_registry chain_id in
    let (d, w', run, at) =
      deploy_each-ok chain laws auto answers (name_for_factory logic harness) []
        (short_times_contracts_from chain logic proxy options nounders weth registry n) [] w
        nothing-Holds order
        (short_times-Expected chain options nounders weth registry logic proxy n) in
    (d, w', rw found run, at)

-- The two tasks with short times deploy their whole tables in the same way, where the address of WETH is
-- given or known for the chain.
pub deploy_short_times-addresses_from :
    (chain : Chain) (laws : CreatesByNonce chain) (auto_deploy : Bool) (answers : Answers)
    (options : ShortTimesOptions) (chain_id : ℕ) (deployer weth : String) (w : chain.World)
    → resolve_option "weth" options.weth weth_contracts chain_id ≡ ok weth
    → ((d : Deployment) × (w' : chain.World) × (deploy_short_times chain auto_deploy answers options
            chain_id deployer w
          ≡ ok (d, w'))
        × (addresses d
            ≡ addresses_from chain (chain.transaction_count w) (
                short_times_contracts_from chain "NounsDAOLogicV2" "NounsDAOProxyV2" options
                  (nounders_or options deployer)
                  weth
                  (proxy_registry chain_id)
                  (chain.transaction_count w))))
      × ((d : Deployment) × (w' : chain.World) × (deploy_short_times_daov1 chain auto_deploy answers
              options chain_id deployer w
            ≡ ok (d, w'))
          × (addresses d
              ≡ addresses_from chain (chain.transaction_count w) (
                  short_times_contracts_from chain "NounsDAOLogicV1" "NounsDAOProxy" options
                    (nounders_or options deployer)
                    weth
                    (proxy_registry chain_id)
                    (chain.transaction_count w))))
unfolding short_times_contracts_from
deploy_short_times-addresses_from chain laws auto answers options chain_id deployer weth w found = (
  deploy_short_times_with-all chain laws "NounsDAOLogicV2" "NounsDAOLogicV2Harness"
      "NounsDAOProxyV2" auto answers options chain_id deployer weth w found refl,
  deploy_short_times_with-all chain laws "NounsDAOLogicV1" "NounsDAOLogicV1Harness" "NounsDAOProxy"
      auto answers options chain_id deployer weth w found refl,
)
