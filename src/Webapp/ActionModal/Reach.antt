-- ===== src/Webapp/ActionModal/Reach.antt =====
-- The states that the dialogue of packages/nouns-webapp/src/components/ProposalActionsModal reaches.
use unouns_monorepo.Base.{Bool, true, false, Option, none, ◌≡◌, ◌≢◌, refl, arith}
use unouns_monorepo.Base.Text.{Text}
use unouns_monorepo.Webapp.ActionModal.{
  ActionStep, lump_sum_details, lump_sum_review, ActionModal, Currency, opened, TransferCoders,
  validate, enter_details, stored, on_next, on_prev, unsupported, add_eth, add_usdc,
  handle_action_add, UserAction, choose_type, enter_currency, enter_amount, enter_address, next,
  prev, user_step,
}

module _ (coders : TransferCoders) where
  -- what the user gets to from the dialogue as it opens
  pub data Reach : ActionModal → Type 0 where
    start : Reach opened
    after : {m : ActionModal} → Reach m → (action : UserAction) → Reach (user_step coders action m)

  -- a transfer that is reviewed has a currency
  abbrev has_currency : ActionStep → Option Currency → Bool
  has_currency lump_sum_review none = false
  has_currency _ _ = true

  abbrev pub IsReviewable : ActionModal → Type 0
  IsReviewable m = has_currency m.step m.transfer_funds_currency ≡ true

  user_step-IsReviewable :
      (action : UserAction) (m : ActionModal)
      → IsReviewable m
      → IsReviewable (user_step coders action m)
  unfolding user_step on_next on_prev enter_details validate
  user_step-IsReviewable (choose_type type) m h = ground arith
  user_step-IsReviewable (enter_currency c) m h = ground arith
  user_step-IsReviewable (enter_amount amount) m h = ground arith
  user_step-IsReviewable (enter_address address) m h = ground arith
  user_step-IsReviewable next m h = ground arith
  user_step-IsReviewable prev m h = ground arith

  Reach-IsReviewable : {m : ActionModal} → Reach m → IsReviewable m
  unfolding opened
  Reach-IsReviewable start = refl
  Reach-IsReviewable (after {m} reach action) =
      user_step-IsReviewable action m (Reach-IsReviewable reach)

  -- A transfer that is reviewed always has one of the two currencies: the branch that should never
  -- happen does not.
  pub handle_action_add-supported :
      (m : ActionModal)
      → Reach m
      → m.step ≡ lump_sum_review
      → handle_action_add coders m ≢ unsupported
  unfolding handle_action_add add_eth add_usdc
  handle_action_add-supported m reach h = ground (arith, Reach-IsReviewable reach)

  -- Once the fields of a transfer were right, the button stays enabled: whatever stands in them
  -- afterwards, the next step reviews a transfer to that address.
  pub on_next-sticky :
      (m : ActionModal) (address amount : Text)
      → m.step ≡ lump_sum_details
      → m.is_valid_for_next_stage ≡ true
      → on_next coders
          (user_step coders (enter_amount amount) (user_step coders (enter_address address) m))
        ≡ stored coders (record m { entered_address = address; entered_amount = amount })
  unfolding on_next user_step validate
  on_next-sticky m address amount h k = ground arith
