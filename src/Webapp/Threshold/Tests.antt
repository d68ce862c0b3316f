-- ===== src/Webapp/Threshold/Tests.antt =====
-- Concrete runs of packages/nouns-webapp/src/components/DynamicQuorumInfoModal/index.tsx.
use unouns_monorepo.Base.{◌<◌, ◌≤◌, ◌+◌, ◌*◌, ◌≡◌, some, false, refl, arith}
use unouns_monorepo.Webapp.Threshold.{
  DynamicQuorumProps, overlay, current_threshold, required_percent, plot_x, shows_required,
}
use unouns_monorepo.Webapp.Threshold.Near.{against_votes_bps-overlay}
use unouns_monorepo.Webapp.Threshold.Plot.{plot_x-inside}

abbrev some_props : DynamicQuorumProps
some_props = record {
  min_quorum_votes_bps = 1000;
  max_quorum_votes_bps = 1500;
  quorum_coefficient = 1500000;
}

plot_x-inside_example :
    let (numerator, denominator) = plot_x (overlay (some some_props) 25 1000) in
    (0 < denominator) × (numerator ≤ 945 * denominator)
plot_x-inside_example =
    plot_x-inside (some some_props) 25 1000 (omega arith) (omega arith) (omega arith)

current_some : current_threshold (overlay (some some_props) 25 1000) ≡ 137
unfolding current_threshold overlay
current_some = refl

-- 57 of 100 are against, and the coefficient is 1: the quotient 0.57 is rounded to a double below it, so
-- that 5699 basis points are counted, and 56 Nouns are shown where 57 are asked for
abbrev steep : DynamicQuorumProps
steep = record {
  min_quorum_votes_bps = 0;
  max_quorum_votes_bps = 6000;
  quorum_coefficient = 1000000;
}

one_less :
    ((overlay (some steep) 57 100).against_votes_bps ≡ 5699)
    × (current_threshold (overlay (some steep) 57 100) ≡ 56)
    × (required_percent (overlay (some steep) 57 100) ≡ 56)
unfolding current_threshold required_percent overlay
one_less = (refl, refl, refl)

against_votes_bps-overlay_example :
    let bps = (overlay (some steep) 57 100).against_votes_bps in
    (bps * 100 ≤ 57 * 10000) × (57 * 10000 ≤ bps * 100 + 100)
against_votes_bps-overlay_example =
    against_votes_bps-overlay (some steep) 57 100 (omega arith) (omega arith) (omega arith)

-- 333 basis points are against, of which half are counted: 166.5 more than the minimum of 1000, which
-- for 6001 Nouns is a threshold of 700.02, where the subgraph drops the half and has 699.7
abbrev halves : DynamicQuorumProps
halves = record some_props { quorum_coefficient = 500000 }

one_more : current_threshold (overlay (some halves) 200 6001) ≡ 700
unfolding current_threshold overlay
one_more = refl

-- the share at the graph asks for as many Nouns against as there are basis points at most
not_shown : shows_required (overlay (some some_props) 999 1000) ≡ false
unfolding shows_required overlay
not_shown = refl
