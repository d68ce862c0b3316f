-- ===== src/Webapp/Threshold/Near.antt =====
-- The share of the Nouns against a proposal in
-- packages/nouns-webapp/src/components/DynamicQuorumInfoModal/index.tsx.
use unouns_monorepo.Base.{ℕ, ◌+◌, ◌*◌, ◌≤◌, ◌<◌, Option, none, some, arith}
use unouns_monorepo.Base.Double.Error.{floor_bps-near}
use unouns_monorepo.Webapp.Threshold.{DynamicQuorumProps, overlay}

-- Where at most the whole supply, of at most 10000 Nouns, is against, the basis points that the dialogue
-- counts are at most the exact share and at most one below it, although the quotient and the product are
-- rounded to doubles first, whatever the parameters of the quorum are.
pub against_votes_bps-overlay :
    (props : Option DynamicQuorumProps) (against total : ℕ)
    → 0 < total
    → total ≤ 10000
    → against ≤ total
    → let bps = (overlay props against total).against_votes_bps in
      (bps * total ≤ against * 10000) × (against * 10000 ≤ bps * total + total)
unfolding overlay
against_votes_bps-overlay none against total some_supply small part =
    floor_bps-near against total (omega (arith, small, part)) some_supply small
against_votes_bps-overlay (some props) against total some_supply small part =
    floor_bps-near against total (omega (arith, small, part)) some_supply small
