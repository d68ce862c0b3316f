-- ===== src/Webapp/Details/Tests.antt =====
-- Examples of the calls of a proposal, with the decoding of one that gives the types back.
use unouns_monorepo.Base.{◌≡◌, none, some, [], ◌∷◌, codes, refl}
use unouns_monorepo.Base.Text.{onto_first}
use unouns_monorepo.Webapp.Details.{
  Coders, ProposalTransactionDetails, format_proposal_transaction_details, format_from,
  format_detail, format_call, plain_detail, decoded_detail, split_signature, without_last,
  split_types, closes_first, join_comma,
}
use unouns_monorepo.Webapp.Details.Types.{
  signature, is_name, is_flat, split_by_depth, split_signature-signature,
}

abbrev coders : Coders
coders = record {
  format_ether = λ wei. codes "1.0";
  decode = λ types calldata. elim calldata [ none ↦ none | some bytes ↦ some types ];
}

abbrev details : ProposalTransactionDetails
details = record {
  targets = codes "0xa" ∷ codes "0xb" ∷ [];
  values = 0 ∷ 5 ∷ [];
  signatures = codes "transfer(address,uint256)" ∷ [] ∷ [];
  calldatas = codes "0x00" ∷ codes "0x" ∷ [];
}

formatted :
    format_proposal_transaction_details coders details
    ≡ some (
        record {
          target = codes "0xa";
          value = some [];
          function_sig = codes "transfer";
          call_data = codes "address,uint256";
        }
        ∷ record {
          target = codes "0xb";
          value = none;
          function_sig = codes "transfer";
          call_data = codes "1.0 ETH";
        }
        ∷ [])
unfolding format_proposal_transaction_details format_from format_detail format_call plain_detail
    decoded_detail split_signature without_last split_types closes_first join_comma onto_first
formatted = refl

-- more targets than signatures
thrown :
    format_proposal_transaction_details coders
      (record { targets = codes "0xa" ∷ []; values = []; signatures = []; calldatas = [] })
    ≡ none
unfolding format_proposal_transaction_details format_from format_detail
thrown = refl

-- A comma inside a tuple does not split, but one before a tuple inside another one does.
tuple : split_types (codes "(a,b),c") ≡ codes "(a,b)" ∷ codes "c" ∷ []
unfolding split_types closes_first onto_first
tuple = refl

nested : split_types (codes "(a,(b,c)),d") ≡ codes "(a" ∷ codes "(b,c))" ∷ codes "d" ∷ []
unfolding split_types closes_first onto_first
nested = refl

split_signature-signature_example :
    (split_signature (without_last (signature (codes "pay") (codes "(a,b),c")))
      ≡ (codes "pay", some (codes "(a,b),c")))
    × (split_types (codes "(a,b),c") ≡ split_by_depth 0 (codes "(a,b),c"))
unfolding is_name is_flat
split_signature-signature_example =
    split_signature-signature (codes "pay") (codes "(a,b),c") refl refl
