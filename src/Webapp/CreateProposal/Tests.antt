-- ===== src/Webapp/CreateProposal/Tests.antt =====
-- Examples of the form for a proposal: a payment in USDC that the token buyer has to be refilled for.
use unouns_monorepo.Base.{◌≡◌, true, false, none, some, List, [], ◌∷◌, codes, refl, arith}
use unouns_monorepo.Base.Int.{◌+ℤ◌, ◌-ℤ◌}
use unouns_monorepo.Base.Text.{Text, same_text, is_space, trim_start, replace_pair}
use unouns_monorepo.Webapp.CreateProposal.{
  ProposalTransaction, CreateProposal, empty_form, with_0x, prefixed, handle_add_proposal_action,
  handle_remove_proposal_action, has_top_up, top_up, topped_up, top_up_effect, describe, FormAction,
  add, remove, need, enter_title, enter_body, form_step, run_form, handle_create_proposal, proposed,
  has_enough_vote,
}
use unouns_monorepo.Webapp.CreateProposal.Payment.{IsConsistent, run_form-IsConsistent}
use unouns_monorepo.Webapp.CreateProposal.TopUp.{IsFunded, top_up_effect-IsFunded}
use unouns_monorepo.Webapp.Titles.{
  proposal_title, extract_title, extract_hash_title, extract_equal_title, hash_title, after_hashes,
  group_after, spaces_of, line_of, after_line, underlined, clean_description, without_last_quote,
}
use unouns_monorepo.Webapp.Titles.Entered.{proposal_title-describe}

abbrev payment : ProposalTransaction
payment = record {
  address = codes "0xpayer";
  value = some 0;
  signature = codes "sendOrRegisterDebt(address,uint256)";
  calldata = codes "00ff";
  usdc_value = some 500;
}

abbrev buyer : Text
buyer = codes "0xbuyer"

-- pay, refill, and take the payment back
abbrev actions : List FormAction
actions =
    add payment
    ∷ need (some 7)
    ∷ enter_title (codes "Pay")
    ∷ enter_body (codes "Yes")
    ∷ remove 0
    ∷ need (some 0)
    ∷ []

-- what is left: the refill, for which nothing is needed any more
abbrev left : CreateProposal
left = record empty_form {
  proposal_transactions =
      (record {
        address = codes "0xbuyer";
        value = some 7;
        signature = [];
        calldata = codes "0x";
        usdc_value = none;
      })
      ∷ [];
  title_value = codes "Pay";
  body_value = codes "Yes";
}

refill_stays : run_form (some buyer) actions empty_form ≡ some left
unfolding run_form form_step empty_form handle_add_proposal_action prefixed with_0x ◌+ℤ◌ ◌-ℤ◌
    top_up_effect topped_up has_top_up top_up same_text handle_remove_proposal_action
refill_stays = refl

call_of_left :
    handle_create_proposal left
    ≡ some (record {
      targets = codes "0xbuyer" ∷ [];
      values = 7 ∷ [];
      signatures = [] ∷ [];
      calldatas = codes "0x" ∷ [];
      description = describe (codes "Pay") (codes "Yes");
    })
unfolding handle_create_proposal proposed empty_form
call_of_left = refl

-- two more votes than the threshold are enough, as many as the threshold are not
enough : has_enough_vote (some 3) (some 1) ≡ true
unfolding has_enough_vote
enough = refl

not_enough : has_enough_vote (some 1) (some 1) ≡ false
unfolding has_enough_vote
not_enough = refl

underlined_title : extract_title (codes "  Pay\n===\nYes") ≡ some (codes "Pay")
unfolding extract_title extract_hash_title extract_equal_title hash_title trim_start is_space
    underlined line_of after_line
underlined_title = refl

-- A title of spaces leaves the first line of the body as the title.
blank_title : proposal_title (describe (codes "  ") (codes "Yes")) ≡ codes "Yes"
unfolding proposal_title describe clean_description without_last_quote replace_pair extract_title
    extract_hash_title hash_title after_hashes group_after spaces_of line_of trim_start is_space
blank_title = refl

run_form-IsConsistent_example : IsConsistent left
unfolding empty_form
run_form-IsConsistent_example =
    run_form-IsConsistent (some buyer) actions empty_form left refill_stays (refl, _)

top_up_effect-IsFunded_example :
    IsFunded buyer 7 (top_up_effect (some buyer) (some 7) empty_form).proposal_transactions
    × ((top_up_effect (some buyer) (some 0) empty_form).proposal_transactions
        ≡ empty_form.proposal_transactions)
unfolding empty_form
top_up_effect-IsFunded_example = top_up_effect-IsFunded buyer 6 empty_form refl refl

proposal_title-describe_example :
    proposal_title (describe (codes "Pay") (codes "Yes")) ≡ codes "Pay"
unfolding is_space
proposal_title-describe_example =
    proposal_title-describe b'P' (codes "ay") (codes "Yes") refl (ground arith)
