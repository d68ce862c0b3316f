-- ===== src/Tasks/Arguments.antt =====
-- packages/nouns-contracts/tasks/deploy.ts: the options of the task, and the addresses that it looks up
-- for those that are not given.
pub mod Detected
use unouns_monorepo.Base.{
  ℕ, ◌*◌, ◌+◌, ◌/◌, Bool, Option, none, some, String, List, [], ◌∷◌, ◌==◌, str_eq, if◌then◌else◌,
}
use unouns_monorepo.Tasks.ChainId
use unouns_monorepo.Tasks.Chain.{TaskError, not_detected, Outcome, ok, thrown, ◌>>=◌}

-- the value of a key of a record with numbers as keys
unfoldable pub at_chain : List (ℕ × String) → ℕ → Option String
at_chain [] chain_id = none
at_chain ((k, a) ∷ registry) chain_id = if k == chain_id then some a else at_chain registry chain_id

abbrev pub proxy_registries : List (ℕ × String)
proxy_registries =
    (ChainId.mainnet, "0xa5409ec958c83c3f309868babaca7c86dcb077c1")
    ∷ (ChainId.rinkeby, "0xf57b2c51ded3a29e6891aba85459d600256cf317")
    ∷ []

abbrev pub weth_contracts : List (ℕ × String)
weth_contracts =
    (ChainId.mainnet, "0xC02aaA39b223FE8D0A0e5C4F27eAD9083C756Cc2")
    ∷ (ChainId.ropsten, "0xc778417e063141139fce010982780140aa0cd5ab")
    ∷ (ChainId.rinkeby, "0xc778417e063141139fce010982780140aa0cd5ab")
    ∷ (ChainId.kovan, "0xd0a1e359811322d97991e03f863a0c30c2cf029c")
    ∷ (ChainId.goerli, "0xB4FBF271143F4FBf7B91A5ded31805e42b2208d6")
    ∷ []

abbrev pub nouns_dao_treasuries : List (ℕ × String)
nouns_dao_treasuries =
    (ChainId.mainnet, "0x0BC3807Ec262cB779b38D65b38158acC3bfedE10")
    ∷ (ChainId.rinkeby, "0x06C0BaC8E6a697eC883372d3e9Db9B200fF93C03")
    ∷ (ChainId.goerli, "0x2f12ABA664E6D2b4DDD264E2a175d29703836AaE")
    ∷ []

abbrev pub unounders_dao_addresses : List (ℕ × String)
unounders_dao_addresses =
    (ChainId.mainnet, "0x4fF1B94b57E32B30b23e49c8aC087389b910646E")
    ∷ (ChainId.goerli, "0xDEF60ef4d2a6fDE245dA5C7FB957b2CbF53F6962")
    ∷ []

abbrev pub unouncil_dao_addresses : List (ℕ × String)
unouncil_dao_addresses =
    (ChainId.mainnet, "0x8653E82f262FCeAF4a479B5501310DD4CfB69e17")
    ∷ (ChainId.goerli, "0xb9E9061e342257074214e73a26c83746ff6c52DB")
    ∷ []

abbrev pub halloffame_addresses : List (ℕ × String)
halloffame_addresses =
    (ChainId.mainnet, "0x93D788F6EE2D47C82BC075EA314D941d836093B6")
    ∷ (ChainId.goerli, "0x2672F15DD5129099cF5C4f66b3e82E7f5589f0c3")
    ∷ []

-- the options of `deploy`; an address is given or not
pub record Options : Type 0 where
  pub weth : Option String
  pub nounsdao_treasury : Option String
  pub halloffame : Option String
  pub unoundersdao : Option String
  pub unouncildao : Option String
  pub auction_time_buffer : ℕ
  pub auction_reserve_price : String
  pub auction_min_increment_bid_percentage : ℕ
  pub auction_duration : ℕ
  pub timelock_delay : ℕ
  pub proceeds_share_end_time : ℕ
  pub voting_period : ℕ
  pub voting_delay : ℕ
  pub proposal_threshold_bps : ℕ
  pub quorum_votes_bps : ℕ

-- `Math.round(4 * 60 * 24 * (60 / 13))` is 26585, and with 3 days it is 19938
abbrev pub default_options : Options
default_options = record {
  weth = none;
  nounsdao_treasury = none;
  halloffame = none;
  unoundersdao = none;
  unouncildao = none;
  auction_time_buffer = 5 * 60;
  auction_reserve_price = "22200000000000000";
  auction_min_increment_bid_percentage = 5;
  auction_duration = 60 * 60 * 24;
  timelock_delay = 60 * 60 * 24 * 2;
  proceeds_share_end_time = 1834790400;
  voting_period = 26585;
  voting_delay = 19938;
  proposal_threshold_bps = 100;
  quorum_votes_bps = 1000;
}

-- the addresses that the deployment goes on with
pub record Addresses : Type 0 where
  pub proxy_registry : String
  pub unoundersdao : String
  pub unouncildao : String
  pub weth : String
  pub nounsdao_treasury : String
  pub halloffame : String

-- `if (!args.x) { … }`: an empty text is as good as none
unfoldable pub resolve_option : String → Option String → List (ℕ × String) → ℕ → Outcome String
unfolding at_chain
resolve_option name given registry chain_id =
    let detected = elim (at_chain registry chain_id) as (λ o. Outcome String) [
      | none ↦ thrown (not_detected name)
      | some a ↦ ok a
    ] in
    elim given [ none ↦ detected | some a ↦ if str_eq a "" then detected else ok a ]

unfoldable pub proxy_registry : ℕ → String
unfolding at_chain
proxy_registry chain_id = elim (at_chain proxy_registries chain_id) [
  | some a ↦ a
  | none ↦ elim (at_chain proxy_registries ChainId.rinkeby) [ some a ↦ a | none ↦ "" ]
]

unfoldable pub resolve_addresses : Options → ℕ → Outcome Addresses
unfolding resolve_option proxy_registry
resolve_addresses options chain_id = do
  unoundersdao ← resolve_option "unoundersdao" options.unoundersdao unounders_dao_addresses chain_id
  unouncildao ← resolve_option "unouncildao" options.unouncildao unouncil_dao_addresses chain_id
  weth ← resolve_option "weth" options.weth weth_contracts chain_id
  nounsdao_treasury ←
      resolve_option "nounsdaoTreasury" options.nounsdao_treasury nouns_dao_treasuries chain_id
  halloffame ← resolve_option "halloffame" options.halloffame halloffame_addresses chain_id
  ok (record {
    proxy_registry = proxy_registry chain_id;
    unoundersdao = unoundersdao;
    unouncildao = unouncildao;
    weth = weth;
    nounsdao_treasury = nounsdao_treasury;
    halloffame = halloffame;
  })
