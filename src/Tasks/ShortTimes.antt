-- ===== src/Tasks/ShortTimes.antt =====
-- packages/nouns-contracts/tasks/deploy-short-times.ts and deploy-short-times-daov1.ts: the table of
-- contracts, and the two tasks.
pub mod Deployed
use unouns_monorepo.Base.{
  ℕ, ◌+◌, Bool, true, false, Option, none, some, String, List, [], ◌∷◌, str_eq, if◌then◌else◌,
}
use unouns_monorepo.Tasks.Chain.{
  Outcome, ok, ◌>>=◌, Value, text, number, quorum_params, Argument, value, address_of, initialize,
  ContractDeployment, Chain, Answers,
}
use unouns_monorepo.Tasks.Arguments.{
  Options, Addresses, resolve_addresses, resolve_option, proxy_registry, weth_contracts,
}
use unouns_monorepo.Tasks.Deployment.{Deployment, deploy_each}
use unouns_monorepo.Tasks.Contracts.{
  unouns_art_nonce_offset, auction_house_proxy_nonce_offset, governor_n_delegator_nonce_offset,
  with_arguments, art_contracts, auction_contracts, dao_contracts, contracts,
}

-- the options of the two tasks with short times
pub record ShortTimesOptions : Type 0 where
  pub noundersdao : Option String
  pub weth : Option String
  pub auction_time_buffer : ℕ
  pub auction_reserve_price : ℕ
  pub auction_min_increment_bid_percentage : ℕ
  pub auction_duration : ℕ
  pub timelock_delay : ℕ
  pub voting_period : ℕ
  pub voting_delay : ℕ
  pub proposal_threshold_bps : ℕ
  pub quorum : Value

-- `quorum` stands for the last argument of the proxy: `quorumVotesBps`, or the three parameters of the
-- dynamic quorum, with the coefficient in millionths
abbrev pub short_times_options : Value → ShortTimesOptions
short_times_options quorum = record {
  noundersdao = none;
  weth = none;
  auction_time_buffer = 30;
  auction_reserve_price = 1;
  auction_min_increment_bid_percentage = 2;
  auction_duration = 120;
  timelock_delay = 60;
  voting_period = 80;
  voting_delay = 1;
  proposal_threshold_bps = 100;
  quorum = quorum;
}

-- the contracts of a task with short times, with the names of the logic and the proxy of the DAO
unfoldable pub short_times_contracts :
    String
    → String
    → ShortTimesOptions
    → String
    → String
    → String
    → String
    → String
    → String
    → List (String × ContractDeployment)
short_times_contracts logic proxy options nounders weth registry expected_art expected_auction_house
      expected_dao =
    art_contracts expected_art (
      (
        "NounsToken",
        with_arguments (
            value (text nounders)
            ∷ value (text expected_auction_house)
            ∷ address_of "NounsDescriptorV2"
            ∷ address_of "NounsSeeder"
            ∷ value (text registry)
            ∷ []),
      )
      ∷ auction_contracts expected_auction_house
          (text weth
            ∷ number options.auction_time_buffer
            ∷ number options.auction_reserve_price
            ∷ number options.auction_min_increment_bid_percentage
            ∷ number options.auction_duration
            ∷ [])
          (dao_contracts logic proxy expected_dao nounders options.timelock_delay (
            value (number options.voting_period)
            ∷ value (number options.voting_delay)
            ∷ value (number options.proposal_threshold_bps)
            ∷ value options.quorum
            ∷ [])))

-- the table, with the addresses that follow from a nonce
unfoldable pub short_times_contracts_from :
    Chain
    → String
    → String
    → ShortTimesOptions
    → String
    → String
    → String
    → ℕ
    → List (String × ContractDeployment)
unfolding short_times_contracts
short_times_contracts_from chain logic proxy options nounders weth registry nonce =
    short_times_contracts logic proxy options nounders weth registry
      (chain.contract_address (nonce + unouns_art_nonce_offset))
      (chain.contract_address (nonce + auction_house_proxy_nonce_offset))
      (chain.contract_address (nonce + governor_n_delegator_nonce_offset))

-- the deployer stands in for the nounders
unfoldable pub nounders_or : ShortTimesOptions → String → String
nounders_or options deployer = elim options.noundersdao [
  | none ↦ deployer
  | some a ↦ if str_eq a "" then deployer else a
]

-- `nameForFactory`: the executor and the logic have factories for tests
unfoldable pub name_for_factory : String → String → String → String
name_for_factory logic harness name =
    if str_eq name "NounsDAOExecutor"
    then "NounsDAOExecutorTest"
    else if str_eq name logic
    then harness
    else name

unfoldable pub deploy_short_times_with :
    String
    → String
    → String
    → (chain : Chain) → Bool
    → Answers
    → ShortTimesOptions
    → ℕ
    → String
    → (w : chain.World) → Outcome (Deployment × chain.World)
unfolding deploy_each short_times_contracts_from nounders_or resolve_option proxy_registry
    name_for_factory
deploy_short_times_with logic harness proxy chain auto_deploy answers options chain_id deployer w =
    let nonce = chain.transaction_count w in
    do
      weth ← resolve_option "weth" options.weth weth_contracts chain_id
      deploy_each chain (name_for_factory logic harness) auto_deploy answers
          (short_times_contracts_from chain logic proxy options (nounders_or options deployer) weth
            (proxy_registry chain_id) nonce)
          [] w

-- the tasks `deploy-short-times` and `deploy-short-times-daov1`
abbrev pub deploy_short_times :
    (chain : Chain)
    → Bool
    → Answers
    → ShortTimesOptions
    → ℕ
    → String
    → (w : chain.World) → Outcome (Deployment × chain.World)
deploy_short_times =
    deploy_short_times_with "NounsDAOLogicV2" "NounsDAOLogicV2Harness" "NounsDAOProxyV2"

abbrev pub deploy_short_times_daov1 :
    (chain : Chain)
    → Bool
    → Answers
    → ShortTimesOptions
    → ℕ
    → String
    → (w : chain.World) → Outcome (Deployment × chain.World)
deploy_short_times_daov1 =
    deploy_short_times_with "NounsDAOLogicV1" "NounsDAOLogicV1Harness" "NounsDAOProxy"
