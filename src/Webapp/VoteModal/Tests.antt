-- ===== src/Webapp/VoteModal/Tests.antt =====
-- Examples of the dialogue for votes: a vote with a reason, a second press, and a failure.
use unouns_monorepo.Base.{
  ℕ, ◌+◌, ◌≤◌, ◌≡◌, Bool, true, false, Option, none, some, String, List, [], ◌∷◌, length, codes,
  refl,
}
use unouns_monorepo.Webapp.Alerts.{status_of, mining, success, exception}
use unouns_monorepo.Webapp.VoteModal.{
  VoteAction, choose, write, press, dismiss, transaction, for_it, against, opened, run_modal,
  cast_refundable_vote, cast_refundable_vote_with_reason, signer_is_contract,
  get_vote_error_message, act, set_vote, set_vote_reason, submit_vote, send_vote, vote_call,
  handle_vote_state_change, vote_failed, occurs, starts_with, or_try_again,
  reset_non_success_state_and_hide_modal,
}
use unouns_monorepo.Webapp.VoteModal.Calls.{count_votes, run_modal-length}

-- choose, give a reason, press twice; then the wallet asks, the transaction is mined and succeeds
abbrev voting : List VoteAction
voting =
    choose for_it
    ∷ write (codes "yes")
    ∷ press (some false)
    ∷ press (some false)
    ∷ transaction (status_of mining)
    ∷ transaction (status_of success)
    ∷ press (some false)
    ∷ []

voted :
    (run_modal "12" voting opened).calls
    ≡ cast_refundable_vote_with_reason "12" for_it (codes "yes") ∷ []
unfolding run_modal act set_vote set_vote_reason submit_vote send_vote vote_call
    handle_vote_state_change unouns_monorepo.Base.Text.same_text
    unouns_monorepo.Base.Text.trim_start unouns_monorepo.Base.Text.trim_end
    unouns_monorepo.Base.Text.is_space
voted = refl

-- a reason of spaces is none, and a transaction that was refused lets the user vote again
voted_again :
    (run_modal "12"
      (choose against
        ∷ write (codes "  ")
        ∷ press (some false)
        ∷ transaction (status_of exception)
        ∷ dismiss
        ∷ [])
      opened).calls
    ≡ cast_refundable_vote "12" against ∷ []
unfolding run_modal act set_vote set_vote_reason submit_vote send_vote vote_call
    handle_vote_state_change vote_failed get_vote_error_message occurs starts_with or_try_again
    reset_non_success_state_and_hide_modal unouns_monorepo.Base.Text.same_text
    unouns_monorepo.Base.Text.trim_start unouns_monorepo.Base.Text.trim_end
    unouns_monorepo.Base.Text.is_space
voted_again = refl

known_error :
    get_vote_error_message (some "revert: voter already voted!") ≡ some "User Already Voted"
unfolding get_vote_error_message occurs starts_with
known_error = refl

wallet : signer_is_contract (some (λ a. some "0x60")) (some "0xsafe") ≡ some true
unfolding signer_is_contract
wallet = refl

-- the second and the third press call nothing
voting_counted : count_votes "12" voting opened ≡ 1
unfolding act set_vote set_vote_reason submit_vote send_vote vote_call handle_vote_state_change
    unouns_monorepo.Base.Text.same_text unouns_monorepo.Base.Text.trim_start
    unouns_monorepo.Base.Text.trim_end unouns_monorepo.Base.Text.is_space
voting_counted = refl

run_modal-length_example :
    (length (run_modal "12" voting opened).calls ≡ 0 + count_votes "12" voting opened)
    × (count_votes "12" voting opened ≤ 2)
run_modal-length_example = run_modal-length "12" voting opened
