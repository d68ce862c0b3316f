-- ===== src/Subgraph/Quorum.antt =====
-- packages/nouns-subgraph/src/utils/dynamicQuorum.ts. `BigInt` has unbounded integers; its division
-- truncates, and where it aborts, as its `toI32` does, the result is that of a parameter.
pub mod Bounds
use unouns_monorepo.Base.{ℕ, ◌<◌, ◌^◌, ◌≡◌, min, Option, none, some, ltb, leb, if◌then◌else◌}
use unouns_monorepo.Base.Int.{ℤ, pos, ◌+ℤ◌, ◌*ℤ◌, ◌/ℤ◌, ltb_ℤ}

-- `BigInt.toI32` of graph-ts, which aborts or wraps on a number that does not fit, and `BigInt.div`,
-- which aborts on a division by 0. What the code relies on: a number that fits is kept, and a division
-- by another number truncates.
pub record BigIntOps : Type 0 where
  pub div : ℤ → ℤ → ℤ
  pub div_truncates : (a : ℤ) (n : ℕ) → 0 < n → div a (pos n) ≡ a /ℤ pos n
  pub to_i32 : ℤ → ℤ
  pub to_i32_fits : (n : ℕ) → n < 2 ^ 31 → to_i32 (pos n) ≡ pos n

unfoldable pub min_ℤ : ℤ → ℤ → ℤ
min_ℤ a b = if ltb_ℤ b a then b else a

module _ (ops : BigIntOps) where
  unfoldable pub dynamic_quorum_votes : ℤ → ℤ → ℕ → ℕ → ℕ → ℤ
  dynamic_quorum_votes against_votes total_supply min_bps max_bps coefficient =
      let against_votes_bps = ops.div (against_votes *ℤ pos 10000) total_supply in
      let quorum_adjustment_bps = ops.div (pos coefficient *ℤ against_votes_bps) (pos 1000000) in
      let adjusted_quorum_bps = quorum_adjustment_bps +ℤ pos min_bps in
      let quorum_bps = min_ℤ (pos max_bps) (ops.to_i32 adjusted_quorum_bps) in
      ops.div (total_supply *ℤ quorum_bps) (pos 10000)
