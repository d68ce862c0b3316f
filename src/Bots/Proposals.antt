-- ===== src/Bots/Proposals.antt =====
-- packages/nouns-bots/src/utils/proposals.ts: the votes that are new, and the risk of expiry.
use unouns_monorepo.Base.{
  ℕ, ◌+◌, ◌*◌, ◌≤◌, ◌<◌, ◌≡◌, ◌↔◌, ◌⊎◌, inl, inr, refl, ap, arith, Bool, true, false, not, ◌&&◌,
  List, [], ◌∷◌, ltb, if◌then◌else◌, filter_by,
}
use unouns_monorepo.Base.Int.{pos, ◌-ℤ◌, ltb_ℤ}
use unouns_monorepo.Base.Text.{Text, same_text, same_text_refl}
use unouns_monorepo.Subgraph.Schema.{Status, pending, active, cancelled, vetoed, queued, executed}
use unouns_monorepo.Bots.Types.{Vote, Proposal}

abbrev pub seconds_in_day : ℕ
seconds_in_day = 60 * 60 * 24

-- the id is among those of the votes
unfoldable pub has_vote : List Vote → Text → Bool
unfolding same_text
has_vote [] id = false
has_vote (v ∷ votes) id = let rest = has_vote votes id in if same_text v.id id then true else rest

unfoldable pub extract_new_votes : Proposal → Proposal → List Vote
unfolding has_vote
extract_new_votes before after =
    filter_by (λ v. not (has_vote before.votes v.id) && ltb 0 v.votes) after.votes

abbrev pub is_queued : Status → Bool
is_queued pending = false
is_queued active = false
is_queued cancelled = false
is_queued vetoed = false
is_queued queued = true
is_queued executed = false

-- `now` is `Math.floor(Date.now() / 1000)`
unfoldable pub is_at_risk_of_expiry : ℕ → Proposal → Bool
is_at_risk_of_expiry now p =
    let expires_at = p.execution_eta + seconds_in_day * 14 in
    let seconds_until_expiry = pos expires_at -ℤ pos now in
    if is_queued p.status
    then ltb_ℤ (pos 0) seconds_until_expiry
      && not (ltb_ℤ (pos (seconds_in_day * 2)) seconds_until_expiry)
    else false

is_queued_iff : (s : Status) → (is_queued s ≡ true) ↔ (s ≡ queued)
is_queued_iff pending = ground arith
is_queued_iff active = ground arith
is_queued_iff cancelled = ground arith
is_queued_iff vetoed = ground arith
is_queued_iff queued = ground arith
is_queued_iff executed = ground arith

in_window_iff :
    (now eta : ℕ)
    → let s = pos (eta + 1209600) -ℤ pos now in
      ((ltb_ℤ (pos 0) s && not (ltb_ℤ (pos 172800) s)) ≡ true)
      ↔ ((eta + 1036800 ≤ now) × (now < eta + 1209600))
unfolding ◌-ℤ◌
in_window_iff now eta = ground arith

-- A proposal is at risk exactly while it is queued and the time lies in the last two of the fourteen
-- days after its execution time, the end of the last one excluded.
is_at_risk_of_expiry_iff :
    (now : ℕ) (p : Proposal)
    → (is_at_risk_of_expiry now p ≡ true) ↔ (
        (p.status ≡ queued)
        × (p.execution_eta + seconds_in_day * 12 ≤ now)
        × (now < p.execution_eta + seconds_in_day * 14))
unfolding is_at_risk_of_expiry
is_at_risk_of_expiry_iff now p =
    ground (arith, is_queued_iff p.status, in_window_iff now p.execution_eta)

-- a vote is one of the list
abbrev pub Among : Vote → List Vote → Type 0
Among v [] = ⊥
Among v (w ∷ votes) = (v ≡ w) ⊎ Among v votes

has_vote-Among : (v : Vote) (votes : List Vote) → Among v votes → has_vote votes v.id ≡ true
unfolding has_vote
has_vote-Among v [] h = elim h [ ]
has_vote-Among v (w ∷ votes) (inl same) = ground (arith, ap Vote.id same, same_text_refl v.id)
has_vote-Among v (w ∷ votes) (inr later) = ground (arith, has_vote-Among v votes later)

filtered_iff :
    (test : Vote → Bool) (v : Vote) (votes : List Vote)
    → Among v (filter_by test votes) ↔ (Among v votes × (test v ≡ true))
filtered_iff test v [] = ground arith
filtered_iff test v (w ∷ votes) = ground (arith, filtered_iff test v votes)

-- A vote is reported exactly when it is among the votes of the proposal now, no vote with its id was
-- there before, and it has weight.
extract_new_votes_iff :
    (before after : Proposal) (v : Vote)
    → Among v (extract_new_votes before after)
      ↔ (Among v after.votes × (has_vote before.votes v.id ≡ false) × (0 < v.votes))
unfolding extract_new_votes
extract_new_votes_iff before after v =
    ground
      (arith, filtered_iff (λ w. not (has_vote before.votes w.id) && ltb 0 w.votes) v after.votes)

all_seen :
    (p : Proposal) (votes : List Vote)
    → ((v : Vote) → Among v votes → Among v p.votes)
    → filter_by (λ v. not (has_vote p.votes v.id) && ltb 0 v.votes) votes ≡ []
all_seen p [] known = refl
all_seen p (v ∷ votes) known = ground (
  arith,
  has_vote-Among v p.votes (known v (inl refl)),
  all_seen p votes (λ w h. known w (inr h)),
)

-- nothing is new after nothing has changed
pub extract_new_votes-same : (p : Proposal) → extract_new_votes p p ≡ []
unfolding extract_new_votes
extract_new_votes-same p = all_seen p p.votes (λ v h. h)
