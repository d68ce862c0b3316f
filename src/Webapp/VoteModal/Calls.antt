-- ===== src/Webapp/VoteModal/Calls.antt =====
-- How often the dialogue of packages/nouns-webapp/src/components/VoteModal/index.tsx casts a vote.
use unouns_monorepo.Base.{
  ℕ, suc, ◌+◌, ◌≤◌, ◌≡◌, Bool, true, false, not, ◌&&◌, str_eq, Option, none, some, String, List, [],
  ◌∷◌, length, if◌then◌else◌, arith, refl, ◌∙◌,
}
use unouns_monorepo.Webapp.Alerts.{TransactionState, pending_signature, mining}
use unouns_monorepo.Webapp.VoteModal.{
  VoteModal, Vote, VoteAction, choose, write, press, dismiss, show_or_hide, transaction, act,
  run_modal, submit_vote, send_vote, vote_call, vote_failed, handle_vote_state_change, set_vote,
  set_vote_reason, set_show, has_buttons, reset_non_success_state_and_hide_modal,
}

-- the state is the last one of a transaction, or the one before its start
abbrev pub is_over : TransactionState → Bool
is_over pending_signature = false
is_over mining = false
is_over _ = true

-- the dialogue can send again after the action
abbrev pub releases : VoteAction → ℕ
releases dismiss = 1
releases (transaction state) = if is_over state.status then 1 else 0
releases _ = 0

abbrev pub count_releases : List VoteAction → ℕ
count_releases [] = 0
count_releases (action ∷ actions) = releases action + count_releases actions

-- one more call is possible at once
abbrev pub is_free : VoteModal → ℕ
is_free m = if m.is_loading then 0 else 1

module _ (proposal_id : String) where
  send_vote-length :
      (signer : Option Bool) (vote : Vote) (m : VoteModal)
      → length (send_vote signer proposal_id vote m).calls
          + is_free (send_vote signer proposal_id vote m)
        ≤ suc (length m.calls)
  unfolding send_vote vote_call
  send_vote-length none vote m = omega arith
  send_vote-length (some is_contract) vote m = omega arith

  submit_vote-length :
      (signer : Option Bool) (vote : Option Vote) (m : VoteModal)
      → length (submit_vote signer proposal_id vote m).calls
          + is_free (submit_vote signer proposal_id vote m)
        ≤ length m.calls + is_free m
  unfolding submit_vote
  submit_vote-length signer none m = omega arith
  submit_vote-length signer (some vote) m = ground (arith, send_vote-length signer vote m)

  act-length :
      (action : VoteAction) (m : VoteModal)
      → length (act proposal_id action m).calls + is_free (act proposal_id action m)
        ≤ length m.calls + is_free m + releases action
  unfolding act set_vote set_vote_reason set_show reset_non_success_state_and_hide_modal
      handle_vote_state_change vote_failed
  act-length (choose vote) m = ground arith
  act-length (write reason) m = ground arith
  act-length (press signer) m = ground (arith, submit_vote-length signer m.vote m)
  act-length dismiss m = ground arith
  act-length (show_or_hide show) m = ground arith
  act-length (transaction state) m = ground arith

  -- a vote is called: its buttons are there, a kind of vote is chosen, the proposal has an id, no vote is
  -- under way, and it is known whether the signer is a contract
  abbrev pub can_vote : VoteModal → Bool
  can_vote m = elim m.vote [
    | none ↦ false
    | some vote ↦ has_buttons m && (not (str_eq proposal_id "") && not m.is_loading)
  ]

  abbrev pub votes : VoteAction → VoteModal → ℕ
  votes (press (some is_contract)) m = if can_vote m then 1 else 0
  votes _ m = 0

  -- how often the button is pressed where a vote is called
  abbrev pub count_votes : List VoteAction → VoteModal → ℕ
  count_votes [] m = 0
  count_votes (action ∷ actions) m = votes action m + count_votes actions (act proposal_id action m)

  act-votes :
      (action : VoteAction) (m : VoteModal)
      → length (act proposal_id action m).calls ≡ length m.calls + votes action m
  unfolding act set_vote set_vote_reason set_show reset_non_success_state_and_hide_modal
      handle_vote_state_change vote_failed submit_vote send_vote vote_call
  act-votes (choose vote) m = ground arith
  act-votes (write reason) m = ground arith
  act-votes (press none) m = ground arith
  act-votes (press (some is_contract)) m = ground arith
  act-votes dismiss m = ground arith
  act-votes (show_or_hide show) m = ground arith
  act-votes (transaction state) m = ground arith

  -- The dialogue makes a call for each press of the button where its buttons are there, a kind of vote is
  -- chosen, the proposal has an id, no vote is under way and it is known whether the signer is a
  -- contract, and no other call. These are at most one at once, where no vote is under way at the start,
  -- and one more for each end of a transaction, state before its start or dismissal of the dialogue that
  -- it hears of, however often the button is pressed.
  pub run_modal-length :
      (actions : List VoteAction) (m : VoteModal)
      → (length (run_modal proposal_id actions m).calls ≡ length m.calls + count_votes actions m)
        × (count_votes actions m ≤ is_free m + count_releases actions)
  unfolding run_modal
  run_modal-length [] m = (omega arith, omega arith)
  run_modal-length (action ∷ actions) m =
      let (exact, most) = run_modal-length actions (act proposal_id action m) in
      (
        omega (arith, exact, act-votes action m),
        omega (arith, most, act-votes action m, act-length action m),
      )

  act-successful :
      (action : VoteAction) (m : VoteModal)
      → m.is_vote_successful ≡ true
      → ((act proposal_id action m).is_vote_successful ≡ true)
        × ((act proposal_id action m).calls ≡ m.calls)
  unfolding act set_vote set_vote_reason set_show reset_non_success_state_and_hide_modal
      handle_vote_state_change vote_failed
  act-successful (choose vote) m h = ground arith
  act-successful (write reason) m h = ground arith
  act-successful (press signer) m h = ground arith
  act-successful dismiss m h = ground arith
  act-successful (show_or_hide show) m h = ground arith
  act-successful (transaction state) m h = ground arith

  -- Once a vote has succeeded, the dialogue calls nothing any more.
  run_modal-successful :
      (actions : List VoteAction) (m : VoteModal)
      → m.is_vote_successful ≡ true
      → (run_modal proposal_id actions m).calls ≡ m.calls
  unfolding run_modal
  run_modal-successful [] m h = refl
  run_modal-successful (action ∷ actions) m h =
      let (done, same) = act-successful action m h in
      run_modal-successful actions (act proposal_id action m) done ∙ same
