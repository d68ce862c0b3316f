-- ===== src/Tasks/Contracts.antt =====
-- packages/nouns-contracts/tasks/deploy.ts: the table of contracts, and the task.
pub mod Deployed
use unouns_monorepo.Base.{
  ℕ, ◌+◌, Bool, true, false, Option, none, some, String, List, [], ◌∷◌, str_eq, if◌then◌else◌,
}
use unouns_monorepo.Tasks.Chain.{
  Outcome, ok, ◌>>=◌, Value, text, number, quorum_params, Argument, value, address_of, initialize,
  ContractDeployment, Chain, Answers,
}
use unouns_monorepo.Tasks.Arguments.{
  Options, Addresses, resolve_addresses, resolve_option, proxy_registry, weth_contracts,
}
use unouns_monorepo.Tasks.Deployment.{Deployment, deploy_each}

abbrev pub unouns_art_nonce_offset : ℕ
unouns_art_nonce_offset = 4

abbrev pub auction_house_proxy_nonce_offset : ℕ
auction_house_proxy_nonce_offset = 9

abbrev pub governor_n_delegator_nonce_offset : ℕ
governor_n_delegator_nonce_offset = 12

-- `{}`
abbrev pub no_arguments : ContractDeployment
no_arguments = record { args = []; libraries = []; wait_for_confirmation = false; expected = none }

abbrev pub with_arguments : List Argument → ContractDeployment
with_arguments args = record no_arguments { args = args }

-- the contracts of the art, up to the seeder
abbrev pub art_contracts :
    String → List (String × ContractDeployment) → List (String × ContractDeployment)
art_contracts expected_art rest =
    ("NFTDescriptorV2", no_arguments)
    ∷ ("SVGRenderer", no_arguments)
    ∷ (
      "NounsDescriptorV2",
      record no_arguments {
        args = value (text expected_art) ∷ address_of "SVGRenderer" ∷ [];
        libraries = "NFTDescriptorV2" ∷ [];
      },
    )
    ∷ ("Inflator", no_arguments)
    ∷ ("NounsArt", with_arguments (address_of "NounsDescriptorV2" ∷ address_of "Inflator" ∷ []))
    ∷ ("NounsSeeder", no_arguments)
    ∷ rest

-- the logic, the administrator and the proxy of the auction house
abbrev pub auction_contracts :
    String → List Value → List (String × ContractDeployment) → List (String × ContractDeployment)
auction_contracts expected_proxy initial rest =
    ("NounsAuctionHouse", record no_arguments { wait_for_confirmation = true })
    ∷ ("NounsAuctionHouseProxyAdmin", no_arguments)
    ∷ (
      "NounsAuctionHouseProxy",
      record {
        args =
            address_of "NounsAuctionHouse"
            ∷ address_of "NounsAuctionHouseProxyAdmin"
            ∷ initialize "NounsToken" initial
            ∷ [];
        libraries = [];
        wait_for_confirmation = true;
        expected = some expected_proxy;
      },
    )
    ∷ rest

-- the executor, the logic and the proxy of the DAO, with what follows the logic in the proxy's arguments
abbrev pub dao_contracts :
    String → String → String → String → ℕ → List Argument → List (String × ContractDeployment)
dao_contracts logic proxy expected_proxy vetoer timelock_delay parameters =
    (
      "NounsDAOExecutor",
      with_arguments (value (text expected_proxy) ∷ value (number timelock_delay) ∷ []),
    )
    ∷ (logic, record no_arguments { wait_for_confirmation = true })
    ∷ (
      proxy,
      record {
        args =
            address_of "NounsDAOExecutor"
            ∷ address_of "NounsToken"
            ∷ value (text vetoer)
            ∷ address_of "NounsDAOExecutor"
            ∷ address_of logic
            ∷ parameters;
        libraries = [];
        wait_for_confirmation = true;
        expected = some expected_proxy;
      },
    )
    ∷ []

unfoldable pub contracts :
    Options → Addresses → String → String → String → List (String × ContractDeployment)
contracts options a expected_art expected_auction_house expected_dao = art_contracts expected_art (
    (
      "NounsToken",
      with_arguments (
          value (text a.unoundersdao)
          ∷ value (text a.unouncildao)
          ∷ value (text expected_auction_house)
          ∷ address_of "NounsDescriptorV2"
          ∷ address_of "NounsSeeder"
          ∷ value (text a.proxy_registry)
          ∷ []),
    )
    ∷ auction_contracts expected_auction_house
        (text a.weth
          ∷ text a.nounsdao_treasury
          ∷ text a.halloffame
          ∷ number options.auction_time_buffer
          ∷ number options.proceeds_share_end_time
          ∷ text options.auction_reserve_price
          ∷ number options.auction_min_increment_bid_percentage
          ∷ number options.auction_duration
          ∷ [])
        (dao_contracts "NounsDAOLogicV1" "NounsDAOProxy" expected_dao a.unoundersdao
          options.timelock_delay
          (value (number options.voting_period)
            ∷ value (number options.voting_delay)
            ∷ value (number options.proposal_threshold_bps)
            ∷ value (number options.quorum_votes_bps)
            ∷ [])))

-- the table, with the addresses that follow from a nonce
unfoldable pub contracts_from : Chain → Options → Addresses → ℕ → List (String × ContractDeployment)
unfolding contracts
contracts_from chain options a nonce =
    contracts options a (chain.contract_address (nonce + unouns_art_nonce_offset))
      (chain.contract_address (nonce + auction_house_proxy_nonce_offset))
      (chain.contract_address (nonce + governor_n_delegator_nonce_offset))

-- the task `deploy`
unfoldable pub deploy :
    (chain : Chain)
    → Bool
    → Answers
    → Options
    → ℕ
    → (w : chain.World) → Outcome (Deployment × chain.World)
unfolding deploy_each contracts_from resolve_addresses
deploy chain auto_deploy answers options chain_id w = do
  a ← resolve_addresses options chain_id
  deploy_each chain (λ name. name) auto_deploy answers
      (contracts_from chain options a (chain.transaction_count w)) [] w
