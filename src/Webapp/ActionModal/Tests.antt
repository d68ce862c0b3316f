-- ===== src/Webapp/ActionModal/Tests.antt =====
-- Examples of the dialogue for an action: a transfer of ether, and one to no address.
use unouns_monorepo.Base.{true, false, ◌≡◌, ◌≢◌, none, some, [], ◌∷◌, codes, refl}
use unouns_monorepo.Base.Text.{same_text}
use unouns_monorepo.Webapp.ActionModal.{
  ActionModal, TransferCoders, opened, validate, enter_details, on_next, on_prev, stored, user_step,
  enter_amount, enter_address, next, prev, added, unsupported, handle_action_add, add_eth,
}
use unouns_monorepo.Webapp.ActionModal.Reach.{
  Reach, start, after, handle_action_add-supported, on_next-sticky,
}

-- one address, and every amount that is not empty is 5
abbrev coders : TransferCoders
coders = record {
  is_address = λ text. same_text text (codes "0xa");
  is_positive = λ text. elim text [ [] ↦ false | _ ∷ _ ↦ true ];
  parse_ether = λ text. some 5;
  usdc_units = λ text. some 5000000;
  encode_params = λ address units. some (codes "0x00");
  payer_contract = codes "0xpayer";
}

-- the fields of the transfer are right
abbrev filled : ActionModal
filled =
    user_step coders (enter_address (codes "0xa"))
      (user_step coders (enter_amount (codes "5")) (user_step coders next opened))

abbrev reviewed : ActionModal
reviewed = user_step coders next filled

filled_reach : Reach coders filled
filled_reach =
    after (after (after start next) (enter_amount (codes "5"))) (enter_address (codes "0xa"))

pays :
    handle_action_add coders reviewed
    ≡ added (record {
      address = codes "0xa";
      value = some 5;
      signature = [];
      calldata = codes "0x";
      usdc_value = none;
    })
unfolding handle_action_add add_eth user_step on_next enter_details validate opened same_text
pays = refl

-- going back fills the fields again
back : (user_step coders prev reviewed).entered_address ≡ codes "0xa"
unfolding user_step on_next on_prev enter_details validate opened same_text
back = refl

handle_action_add-supported_example : handle_action_add coders reviewed ≢ unsupported
unfolding user_step on_next enter_details validate opened same_text
handle_action_add-supported_example =
    handle_action_add-supported coders reviewed (after filled_reach next) refl

on_next-sticky_example :
    on_next coders
      (user_step coders (enter_amount []) (user_step coders (enter_address (codes "no")) filled))
    ≡ stored coders (record filled { entered_address = codes "no"; entered_amount = [] })
unfolding user_step on_next enter_details validate opened same_text
on_next-sticky_example = on_next-sticky coders filled (codes "no") [] refl refl
