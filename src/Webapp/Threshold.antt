-- ===== src/Webapp/Threshold.antt =====
-- packages/nouns-webapp/src/components/DynamicQuorumInfoModal/index.tsx: the threshold of a proposal
-- that the dialogue shows. The numbers that are rounded down are doubles; the crossover, and the place
-- on the graph that follows from it, are exact. The supply of a proposal is not 0, for which the source
-- has NaN.
pub mod Near
pub mod Plot
mod Tests
use unouns_monorepo.Base.{
  ℕ, ◌+◌, ◌-◌, ◌*◌, ◌/◌, ◌≤◌, ◌^◌, Bool, ◌&&◌, ◌||◌, ◌==◌, if◌then◌else◌, Option, none, some, min,
  ltb, leb,
}
use unouns_monorepo.Base.Double.{Double, whole, floor, min_double, ◌*ᵈ◌, ◌/ᵈ◌, ◌+ᵈ◌}

pub record DynamicQuorumProps : Type 0 where
  pub min_quorum_votes_bps : ℕ
  pub max_quorum_votes_bps : ℕ
  pub quorum_coefficient : ℕ

-- what the overlay is given; the coefficient is in millionths
pub record Overlay : Type 0 where
  pub against_votes_bps : ℕ
  pub against_votes_abs : ℕ
  pub min_quorum_bps : ℕ
  pub max_quorum_bps : ℕ
  pub quorum_coefficient : ℕ
  pub total_noun_supply : ℕ

-- the parameters, 0 where they are not loaded
unfoldable pub overlay : Option DynamicQuorumProps → ℕ → ℕ → Overlay
unfolding ◌/ᵈ◌ ◌*ᵈ◌ floor
overlay none against total = record {
  against_votes_bps = floor (whole against /ᵈ whole total *ᵈ whole 10000);
  against_votes_abs = against;
  min_quorum_bps = 0;
  max_quorum_bps = 0;
  quorum_coefficient = 0;
  total_noun_supply = total;
}
overlay (some props) against total = record {
  against_votes_bps = floor (whole against /ᵈ whole total *ᵈ whole 10000);
  against_votes_abs = against;
  min_quorum_bps = props.min_quorum_votes_bps;
  max_quorum_bps = props.max_quorum_votes_bps;
  quorum_coefficient = props.quorum_coefficient;
  total_noun_supply = total;
}

abbrev pub scaling_factor : ℕ
scaling_factor = 1000000

unfoldable pub dqm_function : Overlay → ℕ → Double
unfolding ◌/ᵈ◌ ◌*ᵈ◌ ◌+ᵈ◌ min_double
dqm_function o bps =
    let coefficient = whole o.quorum_coefficient /ᵈ whole scaling_factor in
    min_double (whole o.min_quorum_bps +ᵈ coefficient *ᵈ whole bps) (whole o.max_quorum_bps)

-- Whether the votes against are below the point from which on the threshold is the largest one. The
-- source divides by the coefficient, which gives an infinite number where it is 0.
unfoldable pub is_below_crossover : Overlay → Bool
is_below_crossover o =
    ltb (o.against_votes_bps * o.quorum_coefficient)
      ((o.max_quorum_bps - o.min_quorum_bps) * scaling_factor)

-- Where the votes against stand on the graph from left to right: a fraction, as its two numbers. Where the
-- coefficient is 0 and the largest threshold above the smallest one, the crossover is infinite.
unfoldable pub plot_x : Overlay → ℕ × ℕ
unfolding is_below_crossover
plot_x o =
    let crossover_nouns =
      (o.max_quorum_bps - o.min_quorum_bps)
      * scaling_factor
      * o.total_noun_supply
      / (o.quorum_coefficient * 10000) in
    if is_below_crossover o
    then (if o.quorum_coefficient == 0 || crossover_nouns == 0
        then (0, 1)
        else (o.against_votes_abs * 470, crossover_nouns))
    else (470 * 10000 + 475 * o.against_votes_bps, 10000)

unfoldable pub min_threshold : Overlay → ℕ
unfolding floor ◌/ᵈ◌
min_threshold o = floor (whole (o.min_quorum_bps * o.total_noun_supply) /ᵈ whole 10000)

-- the threshold in basis points
unfoldable pub current_bps : Overlay → Double
unfolding dqm_function min_double
current_bps o = min_double (whole o.max_quorum_bps) (dqm_function o o.against_votes_bps)

unfoldable pub current_threshold : Overlay → ℕ
unfolding current_bps floor ◌*ᵈ◌ ◌/ᵈ◌
current_threshold o = floor (current_bps o *ᵈ whole o.total_noun_supply /ᵈ whole 10000)

unfoldable pub max_threshold : Overlay → ℕ
unfolding floor ◌/ᵈ◌
max_threshold o = floor (whole (o.max_quorum_bps * o.total_noun_supply) /ᵈ whole 10000)

-- whether the share of Nouns that is required is written at the graph, and that share in percent
unfoldable pub shows_required : Overlay → Bool
shows_required o = leb 400 o.against_votes_bps && leb o.max_quorum_bps o.against_votes_abs

unfoldable pub required_percent : Overlay → ℕ
unfolding current_bps floor ◌/ᵈ◌
required_percent o = floor (current_bps o /ᵈ whole 100)
