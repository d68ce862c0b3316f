-- ===== src/Subgraph/Auctions/Replay.antt =====
-- The auction rows as a client sees them: each auction follows its own events, in order.
use unouns_monorepo.Base.{
  String, true, false, Option, none, some, List, [], ◌∷◌, ◌≡◌, refl, arith, eq_iff, ◌∙◌, str_eq,
  if◌then◌else◌, Option-cases, inl, inr, ◌>>=◌,
}
use unouns_monorepo.Base.Table.{load, load-save, KeyedBy, KeyedBy-save}
use unouns_monorepo.Subgraph.Schema.{Account, Auction, Noun, Store}
use unouns_monorepo.Subgraph.Helpers.{fresh_account, get_or_create_account}
use unouns_monorepo.Subgraph.Auctions.{
  AuctionCreated, AuctionBid, AuctionExtended, AuctionSettled, handle_auction_created, new_auction,
  save_auction, handle_auction_bid, handle_auction_extended, handle_auction_settled,
}

pub data Event : Type 0 where
  created : AuctionCreated → Event
  bid : AuctionBid → Event
  extended : AuctionExtended → Event
  settled : AuctionSettled → Event

unfoldable pub handle : Event → Store → Store
handle (created e) = handle_auction_created e
handle (bid e) = handle_auction_bid e
handle (extended e) = handle_auction_extended e
handle (settled e) = handle_auction_settled e

unfoldable pub run : List Event → Store → Store
unfolding handle
run [] s = s
run (e ∷ es) s = run es (handle e s)

-- Rows stand under their own ids.
pub record IsKeyed (s : Store) : Type 0 where
  pub accounts : KeyedBy (λ a. a.id) s.accounts
  pub auctions : KeyedBy (λ a. a.id) s.auctions
  pub nouns : KeyedBy (λ n. n.id) s.nouns

-- What one event does to the auction of Noun `id`, whose row of nouns is `noun`.
unfoldable pub follow : String → Option Noun → Option Auction → Event → Option Auction
follow id noun old (created e) =
    if str_eq e.unoun_id id
    then elim noun [
      | none ↦ old
      | some n ↦ some (record {
        id = id;
        noun = id;
        amount = 0;
        start_time = e.start_time;
        end_time = e.end_time;
        bidder = old >>= λ a. a.bidder;
        settled = false;
      })
    ]
    else old
follow id noun none (bid e) = none
follow id noun (some a) (bid e) =
    some (if str_eq e.unoun_id id then record a { amount = e.value; bidder = some e.sender } else a)
follow id noun none (extended e) = none
follow id noun (some a) (extended e) =
    some (if str_eq e.unoun_id id then record a { end_time = e.end_time } else a)
follow id noun none (settled e) = none
follow id noun (some a) (settled e) =
    some (if str_eq e.unoun_id id then record a { settled = true } else a)

-- `getOrCreateAccount` returns the account of its id, and touches only the accounts.
module _ (id : String) (s : Store) where
  pub get_or_create_account_frame :
      let s' = (get_or_create_account id s).1 in (s'.auctions ≡ s.auctions) × (s'.nouns ≡ s.nouns)
  unfolding get_or_create_account
  get_or_create_account_frame = ground arith

  get_or_create_account-id :
      ((a : Account) → load s.accounts id ≡ some a → a.id ≡ id)
      → (get_or_create_account id s).0.id ≡ id
  unfolding get_or_create_account
  get_or_create_account-id keyed = elim (Option-cases (load s.accounts id)) [
    | inl absent ↦ rw (absent, get_or_create_account)
    | inr (a, row) ↦ rw (row, get_or_create_account) (keyed a row)
  ]

module _ (id : String) (s : Store) (keyed : IsKeyed s) where
  follow-created :
      (e : AuctionCreated)
      → load (handle_auction_created e s).auctions id
        ≡ follow id (load s.nouns id) (load s.auctions id) (created e)
  unfolding handle_auction_created follow
  follow-created e = elim (Option-cases (load s.nouns e.unoun_id)) [
    | inl absent ↦ ground (arith, eq_iff e.unoun_id id)
    | inr (n, row) ↦ ground (
      arith,
      eq_iff e.unoun_id id,
      keyed.nouns e.unoun_id n,
      load-save s.auctions e.unoun_id id (new_auction e n.id (load s.auctions e.unoun_id)),
    )
  ]

  follow-settled :
      (e : AuctionSettled)
      → load (handle_auction_settled e s).auctions id
        ≡ follow id (load s.nouns id) (load s.auctions id) (settled e)
  unfolding handle_auction_settled follow
  follow-settled e = elim (Option-cases (load s.auctions e.unoun_id)) [
    | inl absent ↦ ground (arith, eq_iff e.unoun_id id)
    | inr (a, row) ↦ ground (
      arith,
      eq_iff e.unoun_id id,
      keyed.auctions e.unoun_id a,
      load-save s.auctions e.unoun_id id (record a { settled = true }),
    )
  ]

  follow-bid :
      (e : AuctionBid)
      → load (handle_auction_bid e s).auctions id
        ≡ follow id (load s.nouns id) (load s.auctions id) (bid e)
  unfolding handle_auction_bid follow
  follow-bid e =
      let (same, _) = get_or_create_account_frame e.sender s in
      let own = get_or_create_account-id e.sender s (keyed.accounts e.sender) in
      elim (Option-cases (load s.auctions e.unoun_id)) [
        | inl absent ↦ ground (arith, eq_iff e.unoun_id id)
        | inr (a, row) ↦ ground (
          arith,
          eq_iff e.unoun_id id,
          keyed.auctions e.unoun_id a,
          load-save s.auctions e.unoun_id id
              (record a { amount = e.value; bidder = some e.sender }),
        )
      ]

  follow-extended :
      (e : AuctionExtended)
      → load (handle_auction_extended e s).auctions id
        ≡ follow id (load s.nouns id) (load s.auctions id) (extended e)
  unfolding handle_auction_extended follow
  follow-extended e = elim (Option-cases (load s.auctions e.unoun_id)) [
    | inl absent ↦ ground (arith, eq_iff e.unoun_id id)
    | inr (a, row) ↦ ground (
      arith,
      eq_iff e.unoun_id id,
      keyed.auctions e.unoun_id a,
      load-save s.auctions e.unoun_id id (record a { end_time = e.end_time }),
    )
  ]

handle-nouns : (e : Event) (s : Store) → (handle e s).nouns ≡ s.nouns
unfolding handle handle_auction_created handle_auction_bid handle_auction_extended
    handle_auction_settled
handle-nouns (created e) s = ground arith
handle-nouns (bid e) s = ground (arith, get_or_create_account_frame e.sender s)
handle-nouns (extended e) s = ground arith
handle-nouns (settled e) s = ground arith

accounts-keyed :
    (id : String) (s : Store)
    → IsKeyed s
    → KeyedBy (λ a. a.id) (get_or_create_account id s).1.accounts
unfolding get_or_create_account
accounts-keyed id s keyed = elim (Option-cases (load s.accounts id)) [
  | inl absent ↦
      rw (absent, get_or_create_account)
        (KeyedBy-save (λ a. a.id) s.accounts (fresh_account id) keyed.accounts)
  | inr (a, row) ↦ rw (row, get_or_create_account) keyed.accounts
]

save_auction-IsKeyed : (a : Auction) (s : Store) → IsKeyed s → IsKeyed (save_auction a s)
save_auction-IsKeyed a s keyed = record {
  accounts = keyed.accounts;
  auctions = KeyedBy-save (λ b. b.id) s.auctions a keyed.auctions;
  nouns = keyed.nouns;
}

get_or_create_account-IsKeyed :
    (id : String) (s : Store) → IsKeyed s → IsKeyed (get_or_create_account id s).1
get_or_create_account-IsKeyed id s keyed =
    let (same, nouns) = get_or_create_account_frame id s in
    record {
      accounts = accounts-keyed id s keyed;
      auctions = rw same keyed.auctions;
      nouns = rw nouns keyed.nouns;
    }

-- only the three tables count
same-IsKeyed :
    (s t : Store)
    → t.accounts ≡ s.accounts
    → t.auctions ≡ s.auctions
    → t.nouns ≡ s.nouns
    → IsKeyed s
    → IsKeyed t
same-IsKeyed s t p q r keyed = record {
  accounts = rw p keyed.accounts;
  auctions = rw q keyed.auctions;
  nouns = rw r keyed.nouns;
}

handle-IsKeyed : (e : Event) (s : Store) → IsKeyed s → IsKeyed (handle e s)
unfolding handle handle_auction_created handle_auction_bid handle_auction_extended
    handle_auction_settled
handle-IsKeyed (created e) s keyed = elim (Option-cases (load s.nouns e.unoun_id)) [
  | inl absent ↦ rw (absent, handle_auction_created) (same-IsKeyed s _ refl refl refl keyed)
  | inr (n, row) ↦ rw (row, handle_auction_created) (save_auction-IsKeyed _ s keyed)
]
handle-IsKeyed (bid e) s₀ keyed₀ =
    let s = (get_or_create_account e.sender s₀).1 in
    let keyed = get_or_create_account-IsKeyed e.sender s₀ keyed₀ in
    elim (Option-cases (load s.auctions e.unoun_id)) [
      | inl absent ↦ rw (absent, handle_auction_bid) (same-IsKeyed s _ refl refl refl keyed)
      | inr (a, row) ↦
          rw (row, handle_auction_bid)
            (same-IsKeyed _ _ refl refl refl (save_auction-IsKeyed _ s keyed))
    ]
handle-IsKeyed (extended e) s keyed = elim (Option-cases (load s.auctions e.unoun_id)) [
  | inl absent ↦ rw (absent, handle_auction_extended) (same-IsKeyed s _ refl refl refl keyed)
  | inr (a, row) ↦ rw (row, handle_auction_extended) (save_auction-IsKeyed _ s keyed)
]
handle-IsKeyed (settled e) s keyed = elim (Option-cases (load s.auctions e.unoun_id)) [
  | inl absent ↦ rw (absent, handle_auction_settled) (same-IsKeyed s _ refl refl refl keyed)
  | inr (a, row) ↦ rw (row, handle_auction_settled) (save_auction-IsKeyed _ s keyed)
]

follow-handle :
    (id : String) (s : Store) (e : Event)
    → IsKeyed s
    → load (handle e s).auctions id ≡ follow id (load s.nouns id) (load s.auctions id) e
unfolding handle
follow-handle id s (created e) keyed = follow-created id s keyed e
follow-handle id s (bid e) keyed = follow-bid id s keyed e
follow-handle id s (extended e) keyed = follow-extended id s keyed e
follow-handle id s (settled e) keyed = follow-settled id s keyed e

-- the events one after the other, for one auction
abbrev pub replay : String → Option Noun → Option Auction → List Event → Option Auction
replay id noun old [] = old
replay id noun old (e ∷ es) = replay id noun (follow id noun old e) es

-- From a store whose rows stand under their own ids, after any events of the auction house the row
-- of each auction is what its own events make of the row that it had, one after the other. A creation
-- gives it the amount 0 and the times of the event and makes it not settled, with the bidder that the
-- row had, if its Noun is known; a bid gives it amount and bidder, an extension the end time, and a
-- settlement settles it, if it has a row. Events of other auctions change nothing in it.
pub run-replay :
    (id : String) (es : List Event) (s : Store)
    → IsKeyed s
    → load (run es s).auctions id ≡ replay id (load s.nouns id) (load s.auctions id) es
unfolding run
run-replay id [] s keyed = refl
run-replay id (e ∷ es) s keyed =
    run-replay id es (handle e s) (handle-IsKeyed e s keyed)
    ∙ rw (handle-nouns e s, follow-handle id s e keyed)
