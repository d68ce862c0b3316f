-- ===== src/Bots/Messages.antt =====
-- The texts of packages/nouns-bots/src/utils.ts, and `extractProposalTitle` of utils/proposals.ts.
use unouns_monorepo.Base.{
  ℕ, ◌+◌, ◌-◌, Option, none, some, List, [], ◌∷◌, ◌++◌, ◌==◌, ◌&&◌, leb, ltb, if◌then◌else◌, codes,
  length, take, drop, map,
}
use unouns_monorepo.Base.Text.{Text, split, trim_start}
use unouns_monorepo.Sdk.Hex.{to_string}
use unouns_monorepo.Subgraph.Schema.{Status, pending, active, cancelled, vetoed, queued, executed}
use unouns_monorepo.Bots.Types.{VoteDirection, against, for, abstain, Vote, Proposal, Bid, Services}

abbrev pub number_text : ℕ → Text
number_text n = to_string 10 n

-- A negative start of `substr` counts from the end, and stops at the front.
unfoldable pub short_address : Text → Text
short_address address =
    let n = length address in
    let start = if ltb n 4 then n + n - 4 else n - 4 in
    take 4 address ++ (codes "..." ++ drop start address)

abbrev pub vote_direction_to_text : VoteDirection → Text
vote_direction_to_text for = codes "for"
vote_direction_to_text against = codes "against"
vote_direction_to_text abstain = codes "to abstain on"

-- an empty name is falsy
unfoldable pub resolve_ens_or_format_address : Services → Text → Text
unfolding short_address
resolve_ens_or_format_address services address = elim (services.lookup_address address) [
  | none ↦ short_address address
  | some [] ↦ short_address address
  | some (c ∷ name) ↦ c ∷ name
]

unfoldable pub format_auction_started_tweet_text : ℕ → Text
unfolding to_string
format_auction_started_tweet_text auction_id =
    codes "＊Bleep Bloop Blop＊\n\n An auction has started for Noun #"
    ++ (number_text auction_id ++ codes "\n Learn more at https://unouns.wtf")

unfoldable pub format_bid_message_text : Services → ℕ → Bid → Text
unfolding resolve_ens_or_format_address to_string
format_bid_message_text services id bid =
    codes "UNoun "
    ++ (number_text id
        ++ (codes " has received a bid of Ξ"
            ++ (services.format_ether bid.amount
                ++ (codes " from " ++ resolve_ens_or_format_address services bid.bidder))))

unfoldable pub get_auction_ending_soon_tweet_text : Text
get_auction_ending_soon_tweet_text =
    codes "This auction is ending soon! Bid now at https://unouns.wtf"

-- the first piece of `split`
abbrev first_piece : List Text → Text
first_piece [] = []
first_piece (p ∷ ps) = p

-- `.replace(/^#\s*/, '')`
unfoldable pub without_heading : Text → Text
unfolding trim_start
without_heading [] = []
without_heading (c ∷ s) = let rest = trim_start s in if c == b'#' then rest else c ∷ s

unfoldable pub extract_proposal_title : Proposal → Text
unfolding split without_heading
extract_proposal_title p = without_heading (first_piece (split 10 p.description))

abbrev pub status_name : Status → Text
status_name pending = codes "PENDING"
status_name active = codes "ACTIVE"
status_name cancelled = codes "CANCELLED"
status_name vetoed = codes "VETOED"
status_name queued = codes "QUEUED"
status_name executed = codes "EXECUTED"

-- `toLocaleLowerCase` on the capital letters of the statuses
abbrev pub to_lower : Text → Text
to_lower s = map (λ c. if leb 65 c && leb c 90 then c + 32 else c) s

unfoldable pub format_new_governance_proposal_text : Proposal → Text
unfolding extract_proposal_title to_string
format_new_governance_proposal_text p =
    codes "A new NounsDAO proposal (#"
    ++ (number_text p.id ++ (codes ") has been created: " ++ extract_proposal_title p))

unfoldable pub format_updated_governance_proposal_status_text : Proposal → Text
unfolding extract_proposal_title to_string
format_updated_governance_proposal_status_text p =
    codes "Nouns DAO proposal #"
    ++ (number_text p.id
        ++ (codes " ("
            ++ (extract_proposal_title p
                ++ (codes ") has changed to status: " ++ to_lower (status_name p.status)))))

unfoldable pub format_proposal_at_risk_of_expiry_text : Proposal → Text
unfolding extract_proposal_title to_string
format_proposal_at_risk_of_expiry_text p =
    codes "Nouns DAO proposal #"
    ++ (number_text p.id
        ++ (codes " ("
            ++ (extract_proposal_title p
                ++ codes ") expires in less than two days. Please execute it immediately!")))

-- an empty reason is falsy
abbrev pub reason_text : Option Text → Text
reason_text none = []
reason_text (some []) = []
reason_text (some (c ∷ reason)) = codes "\n\nReason: " ++ c ∷ reason

unfoldable pub format_new_governance_vote_text : Services → Proposal → Vote → Text
unfolding resolve_ens_or_format_address extract_proposal_title to_string
format_new_governance_vote_text services p vote =
    resolve_ens_or_format_address services vote.voter
    ++ (codes " has voted "
        ++ (vote_direction_to_text vote.support_detailed
            ++ (codes " Proposal #"
                ++ (number_text p.id
                    ++ (codes " ("
                        ++ (extract_proposal_title p ++ (codes ")" ++ reason_text vote.reason)))))))

unfoldable pub build_counter_name : Text → Text
build_counter_name name = codes "bots_" ++ name
