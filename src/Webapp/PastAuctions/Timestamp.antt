-- ===== src/Webapp/PastAuctions/Timestamp.antt =====
-- The time from which a Noun can vote, by the auctions of the Nouns after it.
use unouns_monorepo.Base.{
  ℕ, ◌+◌, ◌≡◌, Bool, true, false, Option, none, some, List, [], ◌∷◌, find, ◌==◌, if◌then◌else◌, All,
  arith, refl, ap, ◌∙◌,
}
use unouns_monorepo.Webapp.Auctions.{Auction, AuctionState}
use unouns_monorepo.Webapp.Display.{is_unouncil_unoun, is_auction}
use unouns_monorepo.Webapp.PastAuctions.{
  start_time_of, next_unoun_id_for_query, use_noun_can_vote_timestamp,
}

-- the auction is not of a Noun that goes to the UNouncil
abbrev pub IsAuctioned : AuctionState → Type 0
IsAuctioned s = elim s.active_auction [
  | none ↦ Unit
  | some a ↦ is_unouncil_unoun a.unoun_id ≡ false
]

other-Noun :
    (id : ℕ) (o : Option Auction)
    → is_unouncil_unoun id ≡ true
    → elim o as (λ x. Type 0) [ none ↦ Unit | some a ↦ is_unouncil_unoun a.unoun_id ≡ false ]
    → elim o as (λ x. Bool) [ none ↦ false | some a ↦ a.unoun_id == id ] ≡ false
other-Noun id none h k = refl
other-Noun id (some a) h k = ground arith

find-unouncil :
    (id : ℕ) (past : List AuctionState)
    → is_unouncil_unoun id ≡ true
    → All IsAuctioned past
    → find (is_auction id) past ≡ none
find-unouncil id [] h all = refl
find-unouncil id (s ∷ past) h (first, rest) =
    ap (λ b. if b then some s else find (is_auction id) past)
      (other-Noun id s.active_auction h first)
    ∙ find-unouncil id past h rest

next-unouncil :
    (unoun_id : ℕ)
    → is_unouncil_unoun (unoun_id + 1) ≡ true
    → next_unoun_id_for_query unoun_id ≡ unoun_id + 1
unfolding next_unoun_id_for_query
next-unouncil unoun_id h = ground arith

-- Before a Noun of the UNouncil, which is not auctioned, the time is always 0.
use_noun_can_vote_timestamp-unouncil :
    (unoun_id : ℕ) (past : List AuctionState)
    → is_unouncil_unoun (unoun_id + 1) ≡ true
    → All IsAuctioned past
    → use_noun_can_vote_timestamp unoun_id past ≡ 0
unfolding use_noun_can_vote_timestamp
use_noun_can_vote_timestamp-unouncil unoun_id past h all =
    ap (λ id. start_time_of (find (is_auction id) past)) (next-unouncil unoun_id h)
    ∙ ap start_time_of (find-unouncil (unoun_id + 1) past h all)
