-- ===== src/Subgraph/Quorum/Bounds.antt =====
-- What `dynamicQuorumVotes` computes on the numbers of a chain, and its bounds.
use unouns_monorepo.Base.{
  ℕ, zero, suc, ◌+◌, ◌*◌, ◌/◌, ◌≤◌, ◌<◌, ◌^◌, ◌≡◌, arith, ltb, if◌then◌else◌,
}
use unouns_monorepo.Base.Int.{pos, pos_laws, ◌≤ℤ◌}
use unouns_monorepo.Subgraph.Quorum.{BigIntOps, min_ℤ, dynamic_quorum_votes}

-- The quorum in basis points before the cap, as NounsDAOLogicV2 adds it up.
abbrev pub adjusted_bps : ℕ → ℕ → ℕ → ℕ → ℕ
adjusted_bps against total min_bps coefficient =
    coefficient * (against * 10000 / total) / 1000000 + min_bps

abbrev pub quorum_bps : ℕ → ℕ → ℕ → ℕ → ℕ → ℕ
quorum_bps against total min_bps max_bps coefficient =
    let adjusted = adjusted_bps against total min_bps coefficient in
    if ltb adjusted max_bps then adjusted else max_bps

min_ℤ-pos : (a b : ℕ) → min_ℤ (pos a) (pos b) ≡ pos (if ltb b a then b else a)
unfolding min_ℤ
min_ℤ-pos a b = ground arith

-- the quorum in natural numbers
dynamic_quorum_votes-eq :
    (ops : BigIntOps) (against total min_bps max_bps coefficient : ℕ)
    → 0 < total
    → adjusted_bps against total min_bps coefficient < 2 ^ 31
    → dynamic_quorum_votes ops (pos against) (pos total) min_bps max_bps coefficient
      ≡ pos (total * quorum_bps against total min_bps max_bps coefficient / 10000)
unfolding dynamic_quorum_votes
dynamic_quorum_votes-eq ops against total min_bps max_bps coefficient some_supply fits = simp (
  pos_laws,
  ops.div_truncates _ total some_supply,
  ops.div_truncates _ 1000000 (omega arith),
  ops.div_truncates _ 10000 (omega arith),
  ops.to_i32_fits _ fits,
  min_ℤ-pos,
)

share_mono : (t a b : ℕ) → a ≤ b → t * a / 10000 ≤ t * b / 10000
share_mono t a b h = let k : t * a ≤ t * b = grind arith in omega arith

-- The capped basis points lie between the minimum and the maximum.
quorum_bps_bounds :
    (against total min_bps max_bps coefficient : ℕ)
    → min_bps ≤ max_bps
    → (min_bps ≤ quorum_bps against total min_bps max_bps coefficient)
      × (quorum_bps against total min_bps max_bps coefficient ≤ max_bps)
quorum_bps_bounds against total min_bps max_bps coefficient h = ground arith

-- Where there is some supply, the minimum is at most the maximum and the adjusted basis points fit an
-- `i32`, the quorum lies between the minimum and the maximum share of the supply, both rounded down.
pub dynamic_quorum_votes_bounds :
    (ops : BigIntOps) (against total min_bps max_bps coefficient : ℕ)
    → 0 < total
    → min_bps ≤ max_bps
    → adjusted_bps against total min_bps coefficient < 2 ^ 31
    → let quorum = dynamic_quorum_votes ops (pos against) (pos total) min_bps max_bps coefficient in
      (pos (total * min_bps / 10000) ≤ℤ quorum) × (quorum ≤ℤ pos (total * max_bps / 10000))
dynamic_quorum_votes_bounds ops against total min_bps max_bps coefficient some_supply h fits =
    let (low, high) = quorum_bps_bounds against total min_bps max_bps coefficient h in
    rw (dynamic_quorum_votes-eq ops against total min_bps max_bps coefficient some_supply fits)
      (omega (arith, share_mono total _ _ low), omega (arith, share_mono total _ _ high))

div_mono : (a b t : ℕ) → a ≤ b → a / t ≤ b / t
div_mono a b zero h = omega arith
div_mono a b (suc t) h = grind arith

adjusted_bps_mono :
    (a b total min_bps coefficient : ℕ)
    → a ≤ b
    → adjusted_bps a total min_bps coefficient ≤ adjusted_bps b total min_bps coefficient
adjusted_bps_mono a b total min_bps coefficient h =
    let share : a * 10000 / total ≤ b * 10000 / total = div_mono _ _ total (omega arith) in
    let scaled : coefficient * (a * 10000 / total) ≤ coefficient * (b * 10000 / total) =
      grind arith in
    omega (arith, scaled)

quorum_bps_mono :
    (a b total min_bps max_bps coefficient : ℕ)
    → a ≤ b
    → quorum_bps a total min_bps max_bps coefficient
      ≤ quorum_bps b total min_bps max_bps coefficient
quorum_bps_mono a b total min_bps max_bps coefficient h =
    ground (arith, adjusted_bps_mono a b total min_bps coefficient h)

-- Where there is some supply, more votes against never lower the quorum, as long as the adjusted basis
-- points of the larger number fit an `i32`.
pub dynamic_quorum_votes_mono :
    (ops : BigIntOps) (a b total min_bps max_bps coefficient : ℕ)
    → 0 < total
    → a ≤ b
    → adjusted_bps b total min_bps coefficient < 2 ^ 31
    → dynamic_quorum_votes ops (pos a) (pos total) min_bps max_bps coefficient
      ≤ℤ dynamic_quorum_votes ops (pos b) (pos total) min_bps max_bps coefficient
dynamic_quorum_votes_mono ops a b total min_bps max_bps coefficient some_supply h fits_b =
    let fits_a : adjusted_bps a total min_bps coefficient < 2 ^ 31 =
      omega (arith, fits_b, adjusted_bps_mono a b total min_bps coefficient h) in
    rw
      (
        dynamic_quorum_votes-eq ops a total min_bps max_bps coefficient some_supply fits_a,
        dynamic_quorum_votes-eq ops b total min_bps max_bps coefficient some_supply fits_b,
      )
      (omega
        (arith, share_mono total _ _ (quorum_bps_mono a b total min_bps max_bps coefficient h)))
