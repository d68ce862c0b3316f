-- ===== src/Webapp/Functions.antt =====
-- packages/nouns-webapp/functions: the answers of the web functions about Nouns and votes. An address
-- is the number that its text holds, which is what `bigNumbersEqual` compares; the numbers of the
-- subgraph's answer are taken as read.
use unouns_monorepo.Base.{
  ℕ, ◌≡◌, ◌↔◌, ◌⊎◌, inl, inr, refl, sym, ap, ◌∙◌, arith, Bool, true, false, Option, none, some,
  List, [], ◌∷◌, ◌++◌, append_assoc, append-nil, ◌==◌, ltb, if◌then◌else◌, length, filter_by,
  Bool-cases,
}
use unouns_monorepo.Base.Table.{set_at}

pub record NormalizedVote : Type 0 where
  pub proposal_id : ℕ
  pub support_detailed : ℕ

pub record Seed : Type 0 where
  pub background : ℕ
  pub body : ℕ
  pub accessory : ℕ
  pub head : ℕ
  pub glasses : ℕ

pub record NormalizedNoun : Type 0 where
  pub id : ℕ
  pub owner : ℕ
  pub delegated_to : Option ℕ
  pub votes : List NormalizedVote
  pub seed : Seed

unfoldable pub owner_filter : ℕ → List NormalizedNoun → List NormalizedNoun
owner_filter address nouns = filter_by (λ n. address == n.owner) nouns

unfoldable pub is_noun_owner : ℕ → List NormalizedNoun → Bool
unfolding owner_filter
is_noun_owner address nouns = ltb 0 (length (owner_filter address nouns))

abbrev pub is_delegated_to : ℕ → NormalizedNoun → Bool
is_delegated_to address n = elim n.delegated_to [ none ↦ false | some d ↦ address == d ]

unfoldable pub delegate_filter : ℕ → List NormalizedNoun → List NormalizedNoun
delegate_filter address nouns = filter_by (is_delegated_to address) nouns

unfoldable pub is_noun_delegate : ℕ → List NormalizedNoun → Bool
unfolding delegate_filter
is_noun_delegate address nouns = ltb 0 (length (delegate_filter address nouns))

-- v0-noun-owners, v0-noun-seeds and v0-noun-votes: the picked fields
pub record LiteNoun : Type 0 where
  pub id : ℕ
  pub owner : ℕ
  pub delegated_to : Option ℕ

abbrev pub lighten_noun : NormalizedNoun → LiteNoun
lighten_noun n = record { id = n.id; owner = n.owner; delegated_to = n.delegated_to }

pub record SeededNoun : Type 0 where
  pub id : ℕ
  pub seed : Seed

abbrev pub build_seeded_noun : NormalizedNoun → SeededNoun
build_seeded_noun n = record { id = n.id; seed = n.seed }

pub record NounVote : Type 0 where
  pub id : ℕ
  pub owner : ℕ
  pub delegated_to : Option ℕ
  pub votes : List NormalizedVote

abbrev pub build_noun_vote : NormalizedNoun → NounVote
build_noun_vote n = record {
  id = n.id;
  owner = n.owner;
  delegated_to = n.delegated_to;
  votes = n.votes;
}

-- v0-proposal-votes
pub record ProposalVote : Type 0 where
  pub unoun_id : ℕ
  pub owner : ℕ
  pub delegated_to : Option ℕ
  pub support_detailed : ℕ

abbrev pub built_proposal_vote : NormalizedNoun → NormalizedVote → ProposalVote
built_proposal_vote n v = record {
  unoun_id = n.id;
  owner = n.owner;
  delegated_to = n.delegated_to;
  support_detailed = v.support_detailed;
}

-- the votes by proposal; a proposal without a key has the empty list
abbrev pub ProposalVotes : Type 0
ProposalVotes = ℕ → List ProposalVote

-- the loop over the votes of a Noun
unfoldable pub push_votes : NormalizedNoun → List NormalizedVote → ProposalVotes → ProposalVotes
unfolding set_at
push_votes n [] acc = acc
push_votes n (v ∷ votes) acc =
    push_votes n votes
      (set_at v.proposal_id (acc v.proposal_id ++ built_proposal_vote n v ∷ []) acc)

-- the `reduce` over the Nouns
unfoldable pub push_nouns : List NormalizedNoun → ProposalVotes → ProposalVotes
unfolding push_votes
push_nouns [] acc = acc
push_nouns (n ∷ nouns) acc = push_nouns nouns (push_votes n n.votes acc)

unfoldable pub reduce_proposal_votes : List NormalizedNoun → ProposalVotes
unfolding push_nouns
reduce_proposal_votes nouns = push_nouns nouns (λ id. [])

-- the votes of a Noun on one proposal, in order
abbrev pub votes_on : ℕ → NormalizedNoun → List NormalizedVote → List ProposalVote
votes_on id n [] = []
votes_on id n (v ∷ votes) =
    let rest = votes_on id n votes in
    if v.proposal_id == id then built_proposal_vote n v ∷ rest else rest

abbrev pub all_votes_on : ℕ → List NormalizedNoun → List ProposalVote
all_votes_on id [] = []
all_votes_on id (n ∷ nouns) = votes_on id n n.votes ++ all_votes_on id nouns

push_votes-on :
    (n : NormalizedNoun) (votes : List NormalizedVote) (acc : ProposalVotes) (id : ℕ)
    → push_votes n votes acc id ≡ acc id ++ votes_on id n votes
unfolding push_votes set_at
push_votes-on n [] acc id = sym (append-nil (acc id))
push_votes-on n (v ∷ votes) acc id =
    let next = set_at v.proposal_id (acc v.proposal_id ++ built_proposal_vote n v ∷ []) acc in
    ground (
      arith,
      push_votes-on n votes next id,
      append_assoc (acc id) (built_proposal_vote n v ∷ []) (votes_on id n votes),
    )

push_nouns-on :
    (nouns : List NormalizedNoun) (acc : ProposalVotes) (id : ℕ)
    → push_nouns nouns acc id ≡ acc id ++ all_votes_on id nouns
unfolding push_nouns
push_nouns-on [] acc id = sym (append-nil (acc id))
push_nouns-on (n ∷ nouns) acc id =
    push_nouns-on nouns (push_votes n n.votes acc) id
    ∙ ap (λ t. t ++ all_votes_on id nouns) (push_votes-on n n.votes acc id)
    ∙ append_assoc (acc id) (votes_on id n n.votes) (all_votes_on id nouns)

-- The votes that are answered for a proposal are those that the Nouns cast on it, Noun by Noun and in
-- the order of their votes, each with the Noun's id, owner and delegate: none is lost and none is
-- listed under another proposal.
reduce_proposal_votes-on :
    (nouns : List NormalizedNoun) (id : ℕ) → reduce_proposal_votes nouns id ≡ all_votes_on id nouns
unfolding reduce_proposal_votes
reduce_proposal_votes-on nouns id = push_nouns-on nouns (λ i. []) id

-- the Noun is one of the list
abbrev pub IsNoun : NormalizedNoun → List NormalizedNoun → Type 0
IsNoun n [] = ⊥
IsNoun n (m ∷ nouns) = (n ≡ m) ⊎ IsNoun n nouns

-- a Noun that passes the test
abbrev Some : (NormalizedNoun → Bool) → List NormalizedNoun → Type 0
Some test nouns = (n : NormalizedNoun) × IsNoun n nouns × (test n ≡ true)

Some-later :
    (test : NormalizedNoun → Bool) (m : NormalizedNoun) (nouns : List NormalizedNoun)
    → Some test nouns
    → Some test (m ∷ nouns)
Some-later test m nouns (n, among, passes) = (n, inr among, passes)

filtered→some :
    (test : NormalizedNoun → Bool) (nouns : List NormalizedNoun)
    → ltb 0 (length (filter_by test nouns)) ≡ true
    → Some test nouns
filtered→some test [] h = ground arith
filtered→some test (m ∷ nouns) h = elim (Bool-cases (test m)) [
  | inl passes ↦ (m, inl refl, passes)
  | inr fails ↦ Some-later test m nouns (filtered→some test nouns (ground (arith, fails)))
]

some→filtered :
    (test : NormalizedNoun → Bool) (nouns : List NormalizedNoun) (n : NormalizedNoun)
    → IsNoun n nouns
    → test n ≡ true
    → ltb 0 (length (filter_by test nouns)) ≡ true
some→filtered test [] n among passes = elim among [ ]
some→filtered test (m ∷ nouns) n (inl same) passes = ground (arith, ap test same)
some→filtered test (m ∷ nouns) n (inr later) passes =
    ground (arith, some→filtered test nouns n later passes)

filtered-any :
    (test : NormalizedNoun → Bool) (nouns : List NormalizedNoun)
    → (ltb 0 (length (filter_by test nouns)) ≡ true) ↔ Some test nouns
filtered-any test nouns =
    (filtered→some test nouns, λ (n, among, passes). some→filtered test nouns n among passes)

-- An address is answered to be an owner exactly where some Noun has it as its owner, and a delegate
-- exactly where some Noun is delegated to it.
is_noun_owner_iff :
    (address : ℕ) (nouns : List NormalizedNoun)
    → ((is_noun_owner address nouns ≡ true)
        ↔ ((n : NormalizedNoun) × IsNoun n nouns × ((address == n.owner) ≡ true)))
      × ((is_noun_delegate address nouns ≡ true)
          ↔ ((n : NormalizedNoun) × IsNoun n nouns × (is_delegated_to address n ≡ true)))
unfolding is_noun_owner is_noun_delegate owner_filter delegate_filter
is_noun_owner_iff address nouns =
    (filtered-any (λ n. address == n.owner) nouns, filtered-any (is_delegated_to address) nouns)
