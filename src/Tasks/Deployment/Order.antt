-- ===== src/Tasks/Deployment/Order.antt =====
-- A table of contracts that is in order is deployed to its end, each contract at the next nonce.
use unouns_monorepo.Base.{
  ℕ, suc, Bool, true, false, not, ◌&&◌, ◌||◌, Option, none, some, String, List, [], ◌∷◌, ◌++◌, ◌≡◌,
  refl, ap, sym, ◌∙◌, map, append_assoc, append-nil, if◌then◌else◌, str_eq, arith, Bool-cases, inl,
  inr, subst,
}
use mathlib.Core.List.{map-append}
use unouns_monorepo.Base.Text.{same_text_refl}
use unouns_monorepo.Base.Table.{load, save, load-save, load-save_self}
use unouns_monorepo.Tasks.Chain.{
  ok, ◌>>=◌, Chain, CreatesByNonce, Answers, ContractDeployment, DeployedContract, Value, text,
  Argument, value, address_of, initialize,
}
use unouns_monorepo.Tasks.Deployment.{
  Deployment, validate, resolve, resolve_libraries, resolve_args, choose_gas_price, send,
  deploy_one, deploy_each,
}
use unouns_monorepo.Tasks.Deployment.Checks.{address-ok, deploy_one-eq}

abbrev pub member : String → List String → Bool
member k [] = false
member k (j ∷ names) = str_eq j k || member k names

-- the contract that an argument reads has been deployed
abbrev pub can_resolve : List String → Argument → Bool
can_resolve seen (value v) = true
can_resolve seen (address_of name) = member name seen
can_resolve seen (initialize name values) = member name seen

abbrev pub can_resolve_all : List String → List Argument → Bool
can_resolve_all seen [] = true
can_resolve_all seen (a ∷ args) = can_resolve seen a && can_resolve_all seen args

abbrev pub all_members : List String → List String → Bool
all_members seen [] = true
all_members seen (k ∷ names) = member k seen && all_members seen names

-- each contract reads only contracts before it, and stands once
abbrev pub in_order : List String → List (String × ContractDeployment) → Bool
in_order seen [] = true
in_order seen ((name, c) ∷ contracts) =
    not (member name seen)
    && (all_members seen c.libraries
        && (can_resolve_all seen c.args && in_order (name ∷ seen) contracts))

-- the names of a deployment
abbrev pub Holds : List String → Deployment → Type 0
Holds seen d =
    (k : String)
    → (member k seen ≡ true → (v : DeployedContract) × (load d k ≡ some v))
      × (member k seen ≡ false → load d k ≡ none)

-- the contracts of a deployment with their addresses
abbrev pub addresses : Deployment → List (String × String)
addresses = map (λ row. (row.0, row.1.address))

save-new :
    (d : Deployment) (name : String) (v : DeployedContract)
    → load d name ≡ none
    → save d name v ≡ d ++ (name, v) ∷ []
unfolding load save
save-new [] name v h = refl
save-new ((j, w) ∷ d) name v h = ground (arith, save-new d name v)

addresses-save :
    (d : Deployment) (name : String) (v : DeployedContract)
    → load d name ≡ none
    → addresses (save d name v) ≡ addresses d ++ (name, v.address) ∷ []
addresses-save d name v h =
    ap addresses (save-new d name v h)
    ∙ map-append (λ row. (row.0, row.1.address)) d ((name, v) ∷ [])

Holds-save :
    (seen : List String) (d : Deployment) (name : String) (v : DeployedContract)
    → Holds seen d
    → Holds (name ∷ seen) (save d name v)
Holds-save seen d name v holds k = (
  λ h. elim (Bool-cases (str_eq name k)) [
    | inl same ↦ (v, load-save d name k v ∙ ap (λ b. if b then some v else load d k) same)
    | inr other ↦
        let (x, row) = (holds k).0 (ground arith) in
        (x, load-save d name k v ∙ ap (λ b. if b then some v else load d k) other ∙ row)
  ],
  λ h.
      load-save d name k v
      ∙ ap (λ b. if b then some v else load d k) {x = str_eq name k} {y = false} (ground arith)
      ∙ (holds k).1 (ground arith),
)

resolve-ok :
    (chain : Chain) (seen : List String) (d : Deployment) (a : Argument)
    → Holds seen d
    → can_resolve seen a ≡ true
    → (v : Value) × (resolve chain d a ≡ ok v)
unfolding resolve
resolve-ok chain seen d (value v) holds h = (v, refl)
resolve-ok chain seen d (address_of name) holds h =
    let (c, row) = (holds name).0 h in (text c.address, rw (address-ok d name c row))
resolve-ok chain seen d (initialize name values) holds h =
    let (c, row) = (holds name).0 h in
    (text (chain.encode_initialize (text c.address ∷ values)), rw (address-ok d name c row))

resolve_args-ok :
    (chain : Chain) (seen : List String) (d : Deployment) (args : List Argument)
    → Holds seen d
    → can_resolve_all seen args ≡ true
    → (vs : List Value) × (resolve_args chain d args ≡ ok vs)
unfolding resolve_args
resolve_args-ok chain seen d [] holds h = ([], refl)
resolve_args-ok chain seen d (a ∷ args) holds h =
    let (v, first) = resolve-ok chain seen d a holds (ground arith) in
    let (vs, rest) = resolve_args-ok chain seen d args holds (ground arith) in
    (v ∷ vs, rw (first, rest))

resolve_libraries-ok :
    (chain : Chain) (seen : List String) (d : Deployment) (names : List String)
    → Holds seen d
    → all_members seen names ≡ true
    → (ls : List (String × String)) × (resolve_libraries chain d names ≡ ok ls)
unfolding resolve_libraries
resolve_libraries-ok chain seen d [] holds h = ([], refl)
resolve_libraries-ok chain seen d (k ∷ names) holds h =
    let (c, row) = (holds k).0 (ground arith) in
    let (ls, rest) = resolve_libraries-ok chain seen d names holds (ground arith) in
    ((k, c.address) ∷ ls, rw (address-ok d k c row, rest))

-- the address that is expected of a contract, if any, is the one of the nonce
abbrev pub Expects : Chain → ℕ → Option String → Type 0
Expects chain n none = Unit
Expects chain n (some e) = e ≡ chain.contract_address n

-- in a table that is deployed from a nonce on, each contract takes one
abbrev pub Expected : Chain → ℕ → List (String × ContractDeployment) → Type 0
Expected chain n [] = Unit
Expected chain n ((name, c) ∷ contracts) =
    Expects chain n c.expected × Expected chain (suc n) contracts

-- the names of a table, with the addresses of the nonces from `n` on
abbrev pub addresses_from : Chain → ℕ → List (String × ContractDeployment) → List (String × String)
addresses_from chain n [] = []
addresses_from chain n ((name, c) ∷ contracts) =
    (name, chain.contract_address n) ∷ addresses_from chain (suc n) contracts

-- one more contract in front of those that follow it
addresses-step :
    (chain : Chain) (d d' : Deployment) (name : String) (c : ContractDeployment)
    (v : DeployedContract) (contracts : List (String × ContractDeployment)) (n n' : ℕ)
    → load d name ≡ none
    → v.address ≡ chain.contract_address n
    → n' ≡ suc n
    → addresses d' ≡ addresses (save d name v) ++ addresses_from chain n' contracts
    → addresses d' ≡ addresses d ++ addresses_from chain n ((name, c) ∷ contracts)
addresses-step chain d d' name c v contracts n n' new at count all =
    all
    ∙ ap (λ k. addresses (save d name v) ++ addresses_from chain k contracts) count
    ∙ ap (λ t. t ++ addresses_from chain (suc n) contracts)
        (addresses-save d name v new ∙ ap (λ a. addresses d ++ (name, a) ∷ []) at)
    ∙ append_assoc (addresses d) ((name, chain.contract_address n) ∷ [])
        (addresses_from chain (suc n) contracts)

validate-Expects :
    (chain : Chain) (n : ℕ) (d : Deployment) (name : String) (v : DeployedContract)
    (expected : Option String)
    → load d name ≡ some v
    → v.address ≡ chain.contract_address n
    → Expects chain n expected
    → validate d name expected ≡ ok d
unfolding validate
validate-Expects chain n d name v none row at e = refl
validate-Expects chain n d name v (some e) row at same =
    rw (address-ok d name v row, at, same, same_text_refl)

module _ (chain : Chain) (laws : CreatesByNonce chain) (auto : Bool) (answers : Answers) where
  -- the row of one contract, and the nonce after it
  deploy_one-ok :
      (seen : List String) (factory name : String) (c : ContractDeployment) (d : Deployment)
      (w : chain.World)
      → Holds seen d
      → all_members seen c.libraries ≡ true
      → can_resolve_all seen c.args ≡ true
      → Expects chain (chain.transaction_count w) c.expected
      → (v : DeployedContract) × (w' : chain.World) × (deploy_one chain auto answers factory name c
            d w
          ≡ ok (save d name v, w'))
        × (v.address ≡ chain.contract_address (chain.transaction_count w))
        × (chain.transaction_count w' ≡ suc (chain.transaction_count w))
  unfolding send
  deploy_one-ok seen factory name c d w holds linked resolved expected =
      let gas = choose_gas_price chain auto answers name w in
      let (libraries, have) = resolve_libraries-ok chain seen d c.libraries holds linked in
      let (values, given) = resolve_args-ok chain seen d c.args holds resolved in
      let sent = chain.deploy_contract factory values libraries gas w in
      let v : DeployedContract = record {
        name = factory;
        address = sent.0;
        constructor_arguments = values;
        libraries = libraries;
      } in
      let at = laws.creates factory values libraries gas w in
      (
        v,
        sent.1,
        deploy_one-eq chain auto answers factory name c d w
            ∙ ap
                (λ m. m >>= λ ls.
                  resolve_args chain d c.args >>= λ vs. send chain factory name c vs ls gas d w)
                have
            ∙ ap (λ m. m >>= λ vs. send chain factory name c vs libraries gas d w) given
            ∙ ap (λ m. m >>= λ d'. ok (d', sent.1))
                (validate-Expects chain (chain.transaction_count w) (save d name v) name v
                  c.expected (load-save_self d name v) at expected),
        at,
        laws.counts factory values libraries gas w,
      )

  module _ (factory_of : String → String) where
    pub deploy_each-ok :
        (seen : List String) (contracts : List (String × ContractDeployment)) (d : Deployment)
        (w : chain.World)
        → Holds seen d
        → in_order seen contracts ≡ true
        → Expected chain (chain.transaction_count w) contracts
        → (d' : Deployment) × (w' : chain.World) × (deploy_each chain factory_of auto answers
              contracts d w
            ≡ ok (d', w'))
          × (addresses d'
              ≡ addresses d ++ addresses_from chain (chain.transaction_count w) contracts)
    unfolding deploy_each
    deploy_each-ok seen [] d w holds order expected = (d, w, refl, sym (append-nil (addresses d)))
    deploy_each-ok seen ((name, c) ∷ contracts) d w holds order (first, expected) =
        let (v, w1, one, at, count) =
          deploy_one-ok seen (factory_of name) name c d w holds (ground arith) (ground arith)
            first in
        let (d', w', rest, all) =
          deploy_each-ok (name ∷ seen) contracts (save d name v) w1 (Holds-save seen d name v holds)
            (ground arith) (subst (λ n. Expected chain n contracts) (sym count) expected) in
        (
          d',
          w',
          rw one rest,
          addresses-step chain d d' name c v contracts (chain.transaction_count w)
              (chain.transaction_count w1) ((holds name).1 (ground arith)) at count all,
        )
