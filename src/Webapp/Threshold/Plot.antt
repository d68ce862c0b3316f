-- ===== src/Webapp/Threshold/Plot.antt =====
-- Where the graph of packages/nouns-webapp/src/components/DynamicQuorumInfoModal/index.tsx, which is 950
-- wide, has the votes against.
use native.Mathlib.Nat.{le-div_iff_mul-le, le_of_mul-le-mul_right, mul-le-mul_right}
use unouns_monorepo.Base.{
  ℕ, zero, suc, ◌+◌, ◌-◌, ◌*◌, ◌/◌, ◌≤◌, ◌<◌, ◌≡◌, Bool, true, false, ◌||◌, ◌==◌, Option, none,
  some, if◌then◌else◌, refl, arith,
}
use unouns_monorepo.Webapp.Threshold.{
  DynamicQuorumProps, Overlay, overlay, plot_x, is_below_crossover,
}
use unouns_monorepo.Webapp.Threshold.Near.{against_votes_bps-overlay}

-- the votes against are at most one above the crossover, counted in Nouns
against_scaled :
    (against total c n q : ℕ)
    → total ≤ 10000
    → against * 10000 ≤ q * total + total
    → q * c < n
    → (against - 1) * (c * 10000) ≤ n * total
against_scaled zero total c n q small near below = omega arith
against_scaled (suc a) total c n q small near below =
    let near_c : suc a * 10000 * c ≤ (q * total + total) * c = mul-le-mul_right c near in
    let small_c : total * c ≤ 10000 * c = mul-le-mul_right c small in
    let below_t : suc (q * c) * total ≤ n * total = mul-le-mul_right total below in
    grind (arith, near_c, small_c, below_t)

against_near :
    (against total c n bps : ℕ)
    → total ≤ 10000
    → 0 < c
    → against * 10000 ≤ bps * total + total
    → bps * c < n
    → against ≤ n * total / (c * 10000) + 1
against_near against total c n bps small positive near below =
    let positive_c : 0 < c * 10000 = omega arith in
    let scaled = against_scaled against total c n bps small near below in
    let shared : against - 1 ≤ n * total / (c * 10000) = (le-div_iff_mul-le positive_c).1 scaled in
    omega (arith, shared)

-- the two sides of the crossover
side-inside :
    (below absent : Bool) (against bps nouns : ℕ)
    → bps ≤ 10000
    → (below ≡ true → absent ≡ false → (0 < nouns) × (against ≤ nouns + 1))
    → let at : ℕ × ℕ =
        if below
        then (if absent then (0, 1) else (against * 470, nouns))
        else (470 * 10000 + 475 * bps, 10000) in
      (0 < at.1) × (at.0 ≤ 945 * at.1)
side-inside true true against bps nouns h near = (omega arith, omega arith)
side-inside true false against bps nouns h near =
    let (some_nouns, close) = near refl refl in (some_nouns, omega (arith, some_nouns, close))
side-inside false absent against bps nouns h near = (omega arith, omega (arith, h))

plot_x-inside_of :
    (o : Overlay)
    → 0 < o.total_noun_supply
    → o.total_noun_supply ≤ 10000
    → o.against_votes_abs ≤ o.total_noun_supply
    → o.against_votes_bps * o.total_noun_supply ≤ o.against_votes_abs * 10000
    → o.against_votes_abs * 10000 ≤ o.against_votes_bps * o.total_noun_supply + o.total_noun_supply
    → let (numerator, denominator) = plot_x o in (0 < denominator) × (numerator ≤ 945 * denominator)
unfolding plot_x is_below_crossover
plot_x-inside_of o some_supply small part most least =
    let n = (o.max_quorum_bps - o.min_quorum_bps) * 1000000 in
    let nouns = n * o.total_noun_supply / (o.quorum_coefficient * 10000) in
    let share : o.against_votes_bps ≤ 10000 =
      le_of_mul-le-mul_right {n = 10000} (omega (arith, most, part)) some_supply in
    side-inside _ (o.quorum_coefficient == 0 || nouns == 0) o.against_votes_abs o.against_votes_bps
      nouns share
      (λ below present. (
        ground (arith, present),
        against_near o.against_votes_abs o.total_noun_supply o.quorum_coefficient n
            o.against_votes_bps small (ground (arith, present)) least (ground (arith, below)),
      ))

-- Where at most the whole supply, of at most 10000 Nouns, is against, the votes against stand within the
-- graph, 5 from its right end at least.
pub plot_x-inside :
    (props : Option DynamicQuorumProps) (against total : ℕ)
    → 0 < total
    → total ≤ 10000
    → against ≤ total
    → let (numerator, denominator) = plot_x (overlay props against total) in
      (0 < denominator) × (numerator ≤ 945 * denominator)
unfolding overlay
plot_x-inside none against total some_supply small part =
    let (most, least) = against_votes_bps-overlay none against total some_supply small part in
    plot_x-inside_of (overlay none against total) some_supply small part most least
plot_x-inside (some props) against total some_supply small part =
    let (most, least) =
      against_votes_bps-overlay (some props) against total some_supply small part in
    plot_x-inside_of (overlay (some props) against total) some_supply small part most least
