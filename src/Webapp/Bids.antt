-- ===== src/Webapp/Bids.antt =====
-- packages/nouns-webapp/src/utils/compareBids.ts and bidSorter.ts: the order of bids by their place on
-- the chain. `toNumber` throws past 2 ^ 53, which no place reaches.
use unouns_monorepo.Base.{ℕ, ◌+◌, ◌*◌, ◌<◌, ◌≡◌, ◌⊎◌, ◌↔◌, arith, true}
use unouns_monorepo.Base.Int.{ℤ, pos, ◌-ℤ◌, ltb_ℤ}

pub record BidPlace : Type 0 where
  pub block : ℕ
  pub tx_index : ℕ

abbrev pub generate_bid_score : BidPlace → ℕ
generate_bid_score b = b.block * 1000000 + b.tx_index

unfoldable pub compare_bids : BidPlace → BidPlace → ℤ
compare_bids a b = pos (generate_bid_score a) -ℤ pos (generate_bid_score b)

-- on the block's timestamp, and the latest first
unfoldable pub compare_bids_chronologically : BidPlace → BidPlace → ℤ
compare_bids_chronologically a b = pos (generate_bid_score b) -ℤ pos (generate_bid_score a)

-- the place comes before
abbrev pub Before : BidPlace → BidPlace → Type 0
Before a b = (a.block < b.block) ⊎ ((a.block ≡ b.block) × (a.tx_index < b.tx_index))

-- For blocks of fewer than a million transactions, `compareBids` is negative exactly where the first
-- bid is in an earlier block, or earlier in the same block, and `compareBidsChronologically` exactly
-- where the second one is.
compare_bids-Before :
    (a b : BidPlace)
    → a.tx_index < 1000000
    → b.tx_index < 1000000
    → ((ltb_ℤ (compare_bids a b) (pos 0) ≡ true) ↔ Before a b)
      × ((ltb_ℤ (compare_bids_chronologically a b) (pos 0) ≡ true) ↔ Before b a)
unfolding compare_bids compare_bids_chronologically ◌-ℤ◌
compare_bids-Before a b h k = (ground arith, ground arith)
