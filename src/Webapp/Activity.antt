-- ===== src/Webapp/Activity.antt =====
-- packages/nouns-webapp/src/wrappers/nounActivity.ts: the events of a Noun. A number of the subgraph is
-- the natural number that its text holds; a hash is a list of code units.
pub mod Order
pub mod Votes
mod Tests
use unouns_monorepo.Base.{
  ℕ, zero, suc, ◌+◌, ◌-◌, ◌*◌, ◌%◌, Bool, true, false, not, ◌&&◌, ◌||◌, Option, none, some, String,
  List, [], ◌∷◌, ◌++◌, map, take, length, get_elem?, ◌==◌, ltb, leb, str_eq, if◌then◌else◌, ◌>>=◌,
}
use mathlib.Core.List.{reverse}
use unouns_monorepo.Base.Text.{Text}
use unouns_monorepo.Webapp.Auctions.{AuctionState}
use unouns_monorepo.Webapp.Proposals.{ProposalState, is_cancelled}
use unouns_monorepo.Webapp.PastAuctions.{use_noun_can_vote_timestamp}

pub data NounEventType : Type 0 where
  proposal_vote delegation transfer auction_win : NounEventType

-- a proposal as `parsePartialSubgraphProposal` gives it, with what is read of it here
pub record Proposal : Type 0 where
  pub id : Option String
  pub title : String
  pub status : ProposalState
  pub for_count : ℕ
  pub against_count : ℕ
  pub abstain_count : ℕ
  pub end_block : ℕ

-- the voter and the support are missing where no vote was cast
pub data Payload : Type 0 where
  vote_event : Proposal → Option String → Option ℕ → Payload
  delegation_event : String → String → Text → Payload
  transfer_event : String → String → Text → Payload
  win_event : ℕ → String → Text → Payload

pub record NounProfileEvent : Type 0 where
  pub block_number : ℕ
  pub event_type : NounEventType
  pub payload : Payload

pub record Response : Type 0 where
  pub loading : Bool
  pub error : Bool
  pub result : Option (List NounProfileEvent)

-- what a query has given so far
pub record Query {ℓ} (A : Type ℓ) : Type ℓ where
  pub loading : Bool
  pub error : Bool
  pub result : A

abbrev pub is_loading : Response
is_loading = record { loading = true; error = false; result = none }

abbrev pub has_failed : Response
has_failed = record { loading = false; error = true; result = none }

abbrev pub fetched : List NounProfileEvent → Response
fetched events = record { loading = false; error = false; result = some events }

pub record NounVote : Type 0 where
  pub proposal : String
  pub voter : String
  pub support_detailed : ℕ
  pub block_number : ℕ

pub record SubgraphEvent : Type 0 where
  pub id : Text
  pub block_number : ℕ
  pub previous : String
  pub new : String

-- `id.substring(0, id.indexOf('_'))`, which is empty where there is no `_`
unfoldable pub before_underscore : Text → Text
before_underscore s = elim (index_of_underscore s) [ none ↦ [] | some n ↦ take n s ]
  where
    index_of_underscore : Text → Option ℕ
    index_of_underscore [] = none
    index_of_underscore (c ∷ s) =
        let rest = index_of_underscore s in
        if c == b'_'
        then some 0
        else elim rest as (λ x. Option ℕ) [ none ↦ none | some n ↦ some (suc n) ]

-- the vote on a proposal: the last one that is listed
unfoldable pub noun_vote : List NounVote → String → Option NounVote
noun_vote [] id = none
noun_vote (v ∷ votes) id = elim (noun_vote votes id) [
  | some later ↦ some later
  | none ↦ if str_eq v.proposal id then some v else none
]

abbrev pub no_votes : Proposal → Bool
no_votes p = p.for_count + p.abstain_count + p.against_count == 0

abbrev pub cancelled_state : ProposalState → Bool
cancelled_state ProposalState.is_cancelled = true
cancelled_state s = false

-- the proposal has an id, it was made when the Noun could vote, and it is not one without a vote that
-- was cancelled
unfoldable pub is_shown : ℕ → ℕ → Proposal → Bool
is_shown can_vote created p =
    if ltb created can_vote then false else not (cancelled_state p.status && no_votes p)

-- `proposals.filter` for a proposal with its id and the time of its creation, which stands at the same
-- place of the other query; it is an error if there is none there
abbrev pub filter_proposal :
    ℕ
    → Option ℕ
    → Proposal
    → List (String × Proposal)
    → Option String
    → Option (List (String × Proposal))
filter_proposal can_vote created p rest none = some rest
filter_proposal can_vote created p rest (some id) =
    if str_eq id "" then some rest else elim created [
      | none ↦ none
      | some t ↦ some (if is_shown can_vote t p then (id, p) ∷ rest else rest)
    ]

unfoldable pub filter_proposals : ℕ → List ℕ → ℕ → List Proposal → Option (List (String × Proposal))
unfolding is_shown
filter_proposals can_vote created i [] = some []
filter_proposals can_vote created i (p ∷ proposals) =
    filter_proposals can_vote created (suc i) proposals >>= λ rest.
    filter_proposal can_vote (get_elem? created i) p rest p.id

unfoldable pub proposal_event : List NounVote → String × Proposal → NounProfileEvent
unfolding noun_vote
proposal_event votes (id, p) = elim (noun_vote votes id) [
  | none ↦ record {
    block_number = p.end_block;
    event_type = proposal_vote;
    payload = vote_event p none none;
  }
  | some v ↦ record {
    block_number = v.block_number;
    event_type = proposal_vote;
    payload = vote_event p (some v.voter) (some v.support_detailed);
  }
]

-- `none` where the code throws
unfoldable pub use_noun_proposal_vote_events :
    ℕ
    → Query (List NounVote)
    → Query (List ℕ)
    → List AuctionState
    → Option (List Proposal)
    → Option Response
unfolding filter_proposals proposal_event
use_noun_proposal_vote_events unoun_id votes created past proposals =
    let can_vote = use_noun_can_vote_timestamp unoun_id past in
    let events = elim proposals as (λ x. Option Response) [
      | none ↦ some is_loading
      | some [] ↦ some is_loading
      | some (p ∷ ps) ↦
          if created.loading
          then some is_loading
          else if votes.error || created.error
          then some has_failed
          else filter_proposals can_vote created.result 0 (p ∷ ps) >>= λ shown.
              some (fetched (map (proposal_event votes.result) shown))
    ] in
    if votes.loading then some is_loading else events

unfoldable pub events_of_query :
    (SubgraphEvent → NounProfileEvent) → Query (List SubgraphEvent) → Response
events_of_query event q =
    if q.loading then is_loading else if q.error then has_failed else fetched (map event q.result)

unfoldable pub use_noun_transfer_events : Query (List SubgraphEvent) → Response
unfolding events_of_query before_underscore
use_noun_transfer_events = events_of_query λ e. record {
  block_number = e.block_number;
  event_type = transfer;
  payload = transfer_event e.previous e.new (before_underscore e.id);
}

unfoldable pub use_delegation_events : Query (List SubgraphEvent) → Response
unfolding events_of_query before_underscore
use_delegation_events = events_of_query λ e. record {
  block_number = e.block_number;
  event_type = delegation;
  payload = delegation_event e.previous e.new (before_underscore e.id);
}

-- `sort` by block number, which keeps events of one block in order
unfoldable pub insert : NounProfileEvent → List NounProfileEvent → List NounProfileEvent
insert e [] = e ∷ []
insert e (x ∷ xs) = if leb e.block_number x.block_number then e ∷ x ∷ xs else x ∷ insert e xs

unfoldable pub sort_events : List NounProfileEvent → List NounProfileEvent
unfolding insert
sort_events [] = []
sort_events (e ∷ es) = insert e (sort_events es)

-- how many of the oldest events stand for the birth of the Noun
abbrev pub birth_events : ℕ → ℕ
birth_events unoun_id = if unoun_id % 10 == 0 then 2 else 4

-- `events.slice(0, events.length - k)`: an end below 0 counts from the end
unfoldable pub slice_off : ℕ → List NounProfileEvent → List NounProfileEvent
slice_off k events =
    let n = length events in if leb k n then take (n - k) events else take (n - (k - n)) events

-- the event of the transfer from the auction house; nothing where there is no such transfer, since the
-- error is caught
unfoldable pub noun_win_event : ℕ → List NounProfileEvent → List NounProfileEvent
unfolding sort_events
noun_win_event unoun_id transfers =
    elim (get_elem? (sort_events transfers) (if unoun_id % 10 == 0 then 0 else 1)) [
      | none ↦ []
      | some e ↦ win e e.payload
    ]
  where
    win : NounProfileEvent → Payload → List NounProfileEvent
    win e (transfer_event from to hash) =
        record {
          block_number = e.block_number;
          event_type = auction_win;
          payload = win_event unoun_id to hash;
        }
        ∷ []
    win e p = []

unfoldable pub merge_events :
    ℕ
    → List NounProfileEvent
    → List NounProfileEvent
    → List NounProfileEvent
    → List NounProfileEvent
unfolding slice_off noun_win_event
merge_events unoun_id votes transfers delegations =
    slice_off (birth_events unoun_id) (reverse (sort_events ((votes ++ transfers) ++ delegations)))
    ++ noun_win_event unoun_id transfers

unfoldable pub use_noun_activity : ℕ → Response → Response → Response → Response
unfolding merge_events
use_noun_activity unoun_id votes transfers delegations =
    if delegations.loading || (transfers.loading || votes.loading)
    then is_loading
    else if votes.error || (transfers.error || delegations.error)
    then has_failed
    else elim transfers.result [
      | none ↦ is_loading
      | some ts ↦ elim votes.result [
        | none ↦ is_loading
        | some vs ↦ elim delegations.result [
          | none ↦ is_loading
          | some ds ↦ fetched (merge_events unoun_id vs ts ds)
        ]
      ]
    ]
