-- ===== src/Tasks/Arguments/Detected.antt =====
-- The chains on which the options of `deploy` may be left out.
use unouns_monorepo.Base.{
  ℕ, none, some, String, List, ◌≡◌, ◌≢◌, ◌↔◌, ◌∙◌, ◌⊎◌, inl, inr, refl, sym, subst, ap, Bool, arith,
  ◌==◌, Bool-cases, true, false,
}
use unouns_monorepo.Tasks.ChainId
use unouns_monorepo.Tasks.Chain.{Outcome, ok, thrown, exited, not_detected}
use unouns_monorepo.Tasks.Arguments.{
  Addresses, default_options, at_chain, unounders_dao_addresses, resolve_option, resolve_addresses,
}

abbrev is_ok : {A : Type 0} → Outcome A → Bool
is_ok (ok a) = true
is_ok (thrown e) = false
is_ok exited = false

is_ok→ok : {A : Type 0} (o : Outcome A) → is_ok o ≡ true → (a : A) × (o ≡ ok a)
is_ok→ok (ok a) h = (a, refl)
is_ok→ok (thrown e) h = cc
is_ok→ok exited h = cc

unounders-unknown :
    (chain_id : ℕ)
    → chain_id ≢ ChainId.mainnet
    → chain_id ≢ ChainId.goerli
    → at_chain unounders_dao_addresses chain_id ≡ none
unfolding at_chain
unounders-unknown chain_id h k = ground arith

resolve_option-none :
    (name : String) (registry : List (ℕ × String)) (chain_id : ℕ)
    → at_chain registry chain_id ≡ none
    → resolve_option name none registry chain_id ≡ thrown (not_detected name)
unfolding resolve_option
resolve_option-none name registry chain_id h =
    ap (λ o. elim o as (λ x. Outcome String) [ none ↦ thrown (not_detected name) | some a ↦ ok a ])
      h

default-unknown :
    (chain_id : ℕ)
    → chain_id ≢ ChainId.mainnet
    → chain_id ≢ ChainId.goerli
    → resolve_addresses default_options chain_id ≡ thrown (not_detected "unoundersdao")
unfolding resolve_addresses
default-unknown chain_id h k = rw (
    resolve_option-none "unoundersdao" unounders_dao_addresses chain_id
      (unounders-unknown chain_id h k))

default-known :
    (chain_id : ℕ)
    → (chain_id ≡ ChainId.mainnet) ⊎ (chain_id ≡ ChainId.goerli)
    → is_ok (resolve_addresses default_options chain_id) ≡ true
unfolding resolve_addresses
default-known chain_id (inl e) =
    subst (λ n. is_ok (resolve_addresses default_options n) ≡ true) (sym e) refl
default-known chain_id (inr e) =
    subst (λ n. is_ok (resolve_addresses default_options n) ≡ true) (sym e) refl

-- With no address given, the addresses are found on the mainnet and on Goerli, and on no other chain:
-- there the address of the unounders is the one that is missed.
pub resolve_addresses-default_iff :
    (chain_id : ℕ)
    → (((a : Addresses) × (resolve_addresses default_options chain_id ≡ ok a))
        ↔ ((chain_id ≡ ChainId.mainnet) ⊎ (chain_id ≡ ChainId.goerli)))
      × ((resolve_addresses default_options chain_id ≡ thrown (not_detected "unoundersdao"))
          ↔ ((chain_id ≢ ChainId.mainnet) × (chain_id ≢ ChainId.goerli)))
unfolding resolve_addresses
resolve_addresses-default_iff chain_id = (
  (known, λ e. is_ok→ok (resolve_addresses default_options chain_id) (default-known chain_id e)),
  (missed, λ (h, k). default-unknown chain_id h k),
)
  where
    known :
        ((a : Addresses) × (resolve_addresses default_options chain_id ≡ ok a))
        → (chain_id ≡ ChainId.mainnet) ⊎ (chain_id ≡ ChainId.goerli)
    known (a, h) = elim (Bool-cases (chain_id == ChainId.mainnet)) [
      | inl main ↦ inl (ground arith)
      | inr other ↦ elim (Bool-cases (chain_id == ChainId.goerli)) [
        | inl goerli ↦ inr (ground arith)
        | inr neither ↦ absurd (cc (h, default-unknown chain_id (ground arith) (ground arith)))
      ]
    ]

    fails :
        resolve_addresses default_options chain_id ≡ thrown (not_detected "unoundersdao")
        → (chain_id ≡ ChainId.mainnet) ⊎ (chain_id ≡ ChainId.goerli)
        → ⊥
    fails h e = cc (sym (ap is_ok h) ∙ default-known chain_id e)

    missed :
        resolve_addresses default_options chain_id ≡ thrown (not_detected "unoundersdao")
        → (chain_id ≢ ChainId.mainnet) × (chain_id ≢ ChainId.goerli)
    missed h = (λ e. fails h (inl e), λ e. fails h (inr e))
