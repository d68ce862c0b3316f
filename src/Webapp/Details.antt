-- ===== src/Webapp/Details.antt =====
-- `formatProposalTransactionDetails` of packages/nouns-webapp/src/wrappers/nounsDao.ts: the calls of a
-- proposal as the page shows them. Decoding and the printing of ether are parameters.
pub mod Types
mod Tests
use unouns_monorepo.Base.{
  ℕ, suc, Bool, true, false, not, ◌&&◌, Option, none, some, List, [], ◌∷◌, ◌++◌, ◌==◌, codes,
  get_elem?, ltb, ◌>>=◌, if◌then◌else◌,
}
use unouns_monorepo.Base.Text.{Text, onto_first}

pub record ProposalTransactionDetails : Type 0 where
  pub targets : List Text
  pub values : List ℕ
  pub signatures : List Text
  pub calldatas : List Text

pub record ProposalDetail : Type 0 where
  pub target : Text
  pub value : Option Text
  pub function_sig : Text
  pub call_data : Text

-- `formatEther`, and `defaultAbiCoder.decode`, which may throw
pub record Coders : Type 0 where
  pub format_ether : ℕ → Text
  pub decode : List Text → Option Text → Option (List Text)

-- `signature.substring(0, signature.length - 1)`
unfoldable pub without_last : Text → Text
without_last [] = []
without_last (c ∷ []) = []
without_last (c ∷ d ∷ s) = c ∷ without_last (d ∷ s)

abbrev pub to_front : ℕ → Text × Option Text → Text × Option Text
to_front c (name, types) = (c ∷ name, types)

-- the text before the first opening parenthesis, and the one after it where there is one
unfoldable pub split_signature : Text → Text × Option Text
split_signature [] = ([], none)
split_signature (c ∷ s) = elim (c == b'(') [
  | true ↦ ([], some s)
  | false ↦ to_front c (split_signature s)
]

-- a closing parenthesis comes before the next opening one
unfoldable pub closes_first : Text → Bool
closes_first [] = false
closes_first (c ∷ s) = elim (c == b')') [
  | true ↦ true
  | false ↦ elim (c == b'(') [ true ↦ false | false ↦ closes_first s ]
]

-- the pieces between the commas that no closing parenthesis follows
unfoldable pub split_types : Text → List Text
split_types [] = [] ∷ []
split_types (c ∷ s) =
    let rest = split_types s in
    if c == b',' && not (closes_first s) then [] ∷ rest else onto_first c rest

-- `texts.join()`
unfoldable pub join_comma : List Text → Text
join_comma [] = []
join_comma (t ∷ []) = t
join_comma (t ∷ u ∷ ts) = t ++ (b',' ∷ join_comma (u ∷ ts))

-- `text || otherwise`
abbrev pub or_text : Text → Text → Text
or_text [] otherwise = otherwise
or_text (c ∷ text) otherwise = c ∷ text

-- without a name the call is a transfer; a number is no falsy value of `EthersBN`
unfoldable pub plain_detail : Coders → Text → Text → Text → ℕ → ProposalDetail
plain_detail coders target name types value = record {
  target = target;
  value = none;
  function_sig = or_text name (codes "transfer");
  call_data = or_text types (coders.format_ether value ++ codes " ETH");
}

unfoldable pub decoded_detail :
    Coders → Text → Text → Text → ℕ → Option Text → Option ProposalDetail
decoded_detail coders target name types value calldata = do
  decoded ← coders.decode (split_types types) calldata
  some (record {
    target = target;
    value = some (
        if ltb 0 value
        then codes "{ value: " ++ (coders.format_ether value ++ codes " ETH }")
        else []);
    function_sig = name;
    call_data = join_comma decoded;
  })

-- a name and types that are not empty are needed to decode
unfoldable pub format_call :
    Coders → Text → ℕ → Option Text → Text × Option Text → Option ProposalDetail
format_call coders target value calldata (name, none) =
    some (plain_detail coders target name [] value)
format_call coders target value calldata ([], some types) =
    some (plain_detail coders target [] types value)
format_call coders target value calldata (c ∷ name, some []) =
    some (plain_detail coders target (c ∷ name) [] value)
format_call coders target value calldata (c ∷ name, some (d ∷ types)) =
    decoded_detail coders target (c ∷ name) (d ∷ types) value calldata

unfoldable pub format_detail :
    Coders → ProposalTransactionDetails → ℕ → Text → Option ProposalDetail
format_detail coders details i target = do
  signature ← get_elem? details.signatures i
  let value = elim (get_elem? details.values i) as (λ x. ℕ) [ none ↦ 0 | some v ↦ v ]
  format_call coders target value (get_elem? details.calldatas i)
      (split_signature (without_last signature))

unfoldable pub format_from :
    Coders → ProposalTransactionDetails → ℕ → List Text → Option (List ProposalDetail)
format_from coders details i [] = some []
format_from coders details i (target ∷ targets) = do
  detail ← format_detail coders details i target
  rest ← format_from coders details (suc i) targets
  some (detail ∷ rest)

unfoldable pub format_proposal_transaction_details :
    Coders → ProposalTransactionDetails → Option (List ProposalDetail)
format_proposal_transaction_details coders details = format_from coders details 0 details.targets
