-- ===== src/Subgraph/Auctions/Tests.antt =====
-- A run of the handlers of packages/nouns-subgraph/src/nouns-auction-house.ts.
use unouns_monorepo.Base.{true, none, some, List, [], ◌∷◌, ◌≡◌, arith, eq_iff}
use unouns_monorepo.Base.Table.{load}
use unouns_monorepo.Subgraph.Schema.{Auction, Noun, Store, empty}
use unouns_monorepo.Subgraph.Auctions.Replay
use unouns_monorepo.Subgraph.Auctions.Replay.{IsKeyed, run-replay}

abbrev noun : Noun
noun = record { id = "2"; seed = none; owner = "0xa" }

abbrev auction_events : List Replay.Event
auction_events =
    Replay.created (record { unoun_id = "2"; start_time = 5; end_time = 9; tx_hash = "0x1" })
    ∷ Replay.bid (record {
      unoun_id = "2";
      sender = "0xb";
      value = 70;
      tx_hash = "0x2";
      tx_index = 0;
      block_number = 3;
      block_timestamp = 4;
    })
    ∷ Replay.settled (record { unoun_id = "2"; tx_hash = "0x3" })
    ∷ []

abbrev auctioned : Auction
auctioned = record {
  id = "2";
  noun = "2";
  amount = 70;
  start_time = 5;
  end_time = 9;
  bidder = some "0xb";
  settled = true;
}

one_noun : Store
one_noun = record empty { nouns = ("2", noun) ∷ [] }

one_noun-IsKeyed : IsKeyed one_noun
unfolding load one_noun
one_noun-IsKeyed = record {
  accounts = λ k a row. cc;
  auctions = λ k a row. cc;
  nouns = λ k n row. ground (arith, eq_iff "2" k);
}

run-replay_example : load (Replay.run auction_events one_noun).auctions "2" ≡ some auctioned
unfolding load Replay.follow one_noun
run-replay_example = run-replay "2" auction_events one_noun one_noun-IsKeyed
