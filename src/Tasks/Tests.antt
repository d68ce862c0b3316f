-- ===== src/Tasks/Tests.antt =====
-- Examples of the deployment.
use unouns_monorepo.Base.{ℕ, zero, suc, ◌+◌, Bool, true, false, none, String, [], ◌≡◌, refl}
use unouns_monorepo.Base.Text.{same_text}
use unouns_monorepo.Base.Table.{load, save}
use unouns_monorepo.Tasks.ChainId
use unouns_monorepo.Tasks.Chain.{
  Outcome, ok, thrown, unexpected_address, Chain, CreatesByNonce, Answers,
}
use unouns_monorepo.Tasks.Arguments.{
  Addresses, default_options, resolve_addresses, weth_contracts, resolve_option,
}
use unouns_monorepo.Tasks.Deployment.{Deployment, resolve, address}
use unouns_monorepo.Tasks.Deployment.Order.{addresses, addresses_from}
use unouns_monorepo.Tasks.Contracts.{contracts_from, deploy}
use unouns_monorepo.Tasks.Contracts.Deployed.{StandsAt, deploy-addresses_from, deploy-StandsAt}

-- an address for each nonce
abbrev nonce_address : ℕ → String
nonce_address zero = "0x"
nonce_address (suc n) = String.◌∷◌ "A" (nonce_address n)

-- a chain whose state is the deployer's nonce, which grows by one or by another number
abbrev chain_by : ℕ → Chain
chain_by step = record {
  World = ℕ;
  transaction_count = λ n. n;
  gas_price = λ n. 1000000000;
  contract_address = nonce_address;
  encode_initialize = λ values. "0x";
  deploy_contract = λ name args libraries gas n. (nonce_address n, n + step);
}

abbrev chain : Chain
chain = record {
  World = ℕ;
  transaction_count = λ n. n;
  gas_price = λ n. 1000000000;
  contract_address = nonce_address;
  encode_initialize = λ values. "0x";
  deploy_contract = λ name args libraries gas n. (nonce_address n, suc n);
}

chain-CreatesByNonce : CreatesByNonce chain
chain-CreatesByNonce = record {
  creates = λ name args libraries gas w. refl;
  counts = λ name args libraries gas w. refl;
}

-- someone who wants to leave at each contract
abbrev leaving : Answers
leaving = record { gas_price = λ name suggested. suggested; confirm = λ name. "EXIT" }

abbrev mainnet_addresses : Addresses
mainnet_addresses = record {
  proxy_registry = "0xa5409ec958c83c3f309868babaca7c86dcb077c1";
  unoundersdao = "0x4fF1B94b57E32B30b23e49c8aC087389b910646E";
  unouncildao = "0x8653E82f262FCeAF4a479B5501310DD4CfB69e17";
  weth = "0xC02aaA39b223FE8D0A0e5C4F27eAD9083C756Cc2";
  nounsdao_treasury = "0x0BC3807Ec262cB779b38D65b38158acC3bfedE10";
  halloffame = "0x93D788F6EE2D47C82BC075EA314D941d836093B6";
}

mainnet_resolved : resolve_addresses default_options ChainId.mainnet ≡ ok mainnet_addresses
unfolding resolve_addresses
mainnet_resolved = refl

deploy-addresses_from_example :
    (d : Deployment) × (w' : ℕ) × (deploy chain false leaving default_options 1 7 ≡ ok (d, w'))
    × (addresses d
        ≡ addresses_from chain 7 (contracts_from chain default_options mainnet_addresses 7))
deploy-addresses_from_example =
    deploy-addresses_from chain chain-CreatesByNonce false leaving default_options 1
      mainnet_addresses 7 mainnet_resolved

-- another transaction between two contracts is noticed at the auction house
abbrev is_refused : Outcome (Deployment × ℕ) → Bool
is_refused (thrown (unexpected_address name e a)) = true
is_refused o = false

nonce_moved : is_refused (deploy (chain_by 2) true leaving default_options 1 7) ≡ true
unfolding deploy address load save resolve same_text
nonce_moved = refl

abbrev deployment : Outcome (Deployment × ℕ)
deployment = deploy chain true leaving default_options 1 0

abbrev state_of : Outcome (Deployment × ℕ) → Deployment × ℕ
state_of (ok s) = s
state_of o = ([], 0)

deployment_ok : deployment ≡ ok ((state_of deployment).0, (state_of deployment).1)
unfolding deploy address load save resolve same_text
deployment_ok = refl

deploy-StandsAt_example :
    StandsAt chain (state_of deployment).0 "NounsAuctionHouseProxy" 9
    × StandsAt chain (state_of deployment).0 "NounsDAOProxy" 12
deploy-StandsAt_example =
    deploy-StandsAt chain true leaving default_options 1 0 (state_of deployment).1
      (state_of deployment).0 deployment_ok

weth_resolved :
    resolve_option "weth" none weth_contracts 5 ≡ ok "0xB4FBF271143F4FBf7B91A5ded31805e42b2208d6"
unfolding resolve_option
weth_resolved = refl
