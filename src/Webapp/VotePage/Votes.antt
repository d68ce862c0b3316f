-- ===== src/Webapp/VotePage/Votes.antt =====
-- packages/nouns-webapp/src/utils/getNounsVotes.ts and its use by pages/Vote/index.tsx: the UNouns
-- that are listed under each choice.
use unouns_monorepo.Base.{
  ℕ, ◌+◌, ◌≤◌, ◌≡◌, none, some, String, List, [], ◌∷◌, ◌++◌, ◌==◌, str_eq, map, All, count_by,
  count_by-append, if◌then◌else◌, arith, refl,
}
use unouns_monorepo.Base.Table.{Table, load, save}

pub record ProposalVote : Type 0 where
  pub voter : String
  pub support_detailed : ℕ

pub record Delegate : Type 0 where
  pub id : String
  pub nouns_represented : List String

-- a vote with the UNouns behind it
pub record VoteData : Type 0 where
  pub delegate : String
  pub support_detailed : ℕ
  pub nouns_represented : List String

-- a later delegate of the same name replaces an earlier one
unfoldable pub delegate_to_unoun_ids : List Delegate → Table (List String) → Table (List String)
delegate_to_unoun_ids [] acc = acc
delegate_to_unoun_ids (d ∷ delegates) acc =
    delegate_to_unoun_ids delegates (save acc d.id d.nouns_represented)

abbrev pub unouns_of : Table (List String) → String → List String
unouns_of ids voter = elim (load ids voter) [ none ↦ [] | some nouns ↦ nouns ]

unfoldable pub vote_data : Table (List String) → ProposalVote → VoteData
vote_data ids v = record {
  delegate = v.voter;
  support_detailed = v.support_detailed;
  nouns_represented = unouns_of ids v.voter;
}

unfoldable pub get_noun_votes : List VoteData → ℕ → List String
get_noun_votes [] support = []
get_noun_votes (v ∷ votes) support =
    let rest = get_noun_votes votes support in
    if v.support_detailed == support then v.nouns_represented ++ rest else rest

-- how often a UNoun stands behind the votes, by the delegates of the voters
abbrev pub count_behind : Table (List String) → String → List ProposalVote → ℕ
count_behind ids noun [] = 0
count_behind ids noun (v ∷ votes) =
    count_by (str_eq noun) (unouns_of ids v.voter) + count_behind ids noun votes

-- how often a UNoun is listed under a choice
abbrev pub count_listed : Table (List String) → String → List ProposalVote → ℕ → ℕ
count_listed ids noun votes support =
    count_by (str_eq noun) (get_noun_votes (map (vote_data ids) votes) support)

count_listed-cons :
    (ids : Table (List String)) (noun : String) (v : ProposalVote) (votes : List ProposalVote)
    (support : ℕ)
    → count_listed ids noun (v ∷ votes) support ≡ (
        if v.support_detailed == support
        then count_by (str_eq noun) (unouns_of ids v.voter) + count_listed ids noun votes support
        else count_listed ids noun votes support)
unfolding get_noun_votes vote_data
count_listed-cons ids noun v votes support = ground (
  arith,
  count_by-append (str_eq noun) (unouns_of ids v.voter)
      (get_noun_votes (map (vote_data ids) votes) support),
)

-- Where every vote is against, for or abstains, the three lists of the page have a UNoun together
-- exactly as often as it stands behind the votes.
get_noun_votes-counted :
    (ids : Table (List String)) (noun : String) (votes : List ProposalVote)
    → All (λ v. v.support_detailed ≤ 2) votes
    → count_listed ids noun votes 0 + count_listed ids noun votes 1 + count_listed ids noun votes 2
      ≡ count_behind ids noun votes
unfolding get_noun_votes
get_noun_votes-counted ids noun [] h = refl
get_noun_votes-counted ids noun (v ∷ votes) (first, rest) = ground (
  arith,
  count_listed-cons ids noun v votes 0,
  count_listed-cons ids noun v votes 1,
  count_listed-cons ids noun v votes 2,
  get_noun_votes-counted ids noun votes rest,
)
