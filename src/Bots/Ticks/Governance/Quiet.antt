-- ===== src/Bots/Ticks/Governance/Quiet.antt =====
-- The governance job over several proposals: a tick settles each of them, and a second one says nothing.
use unouns_monorepo.Base.{ℕ, ◌≡◌, ◌≢◌, refl, sym, subst, ap, ◌∙◌, List, [], ◌∷◌, if◌then◌else◌, All}
use unouns_monorepo.Base.Text.{same_text_refl}
use unouns_monorepo.Bots.Types.{Proposal, World, Services, Handler}
use unouns_monorepo.Bots.Messages.{status_name}
use unouns_monorepo.Bots.Proposals.{extract_new_votes, extract_new_votes-same}
use unouns_monorepo.Bots.Handlers.{updated_proposal_status, proposal_at_risk_of_expiry, notify}
use unouns_monorepo.Bots.Ticks.{
  announce_votes, announce_status, warn_of_expiry, update_proposal_cache,
  set_proposal_expiry_warning_sent, process_proposal, process_governance_tick,
}
use unouns_monorepo.Bots.Ticks.Governance.{
  Settled, Known, announced, process_proposal-known, update_proposal_cache-OtherKeys,
  process_proposal-Settled, Settled-OtherKeys,
}

-- No two proposals of the list have one id.
abbrev pub Distinct : List Proposal → Type 0
Distinct [] = Unit
Distinct (p ∷ ps) = All (λ q. p.id ≢ Proposal.id q) ps × Distinct ps

All-carry :
    {P Q : Proposal → Type 0} (id : ℕ) (ps : List Proposal)
    → ((q : Proposal) → id ≢ q.id → P q → Q q)
    → All (λ q. id ≢ Proposal.id q) ps
    → All P ps
    → All Q ps
All-carry id [] carry other h = tt
All-carry id (q ∷ ps) carry other h = (carry q other.0 h.0, All-carry id ps carry other.1 h.1)

-- what a tick leaves settled stays settled through the work on proposals with other ids
process_governance_tick-frame :
    (services : Services) (handlers : List Handler) (now : ℕ) (ps : List Proposal) (w : World)
    (q : Proposal)
    → All (Known w) ps
    → Distinct ps
    → All (λ p. Proposal.id p ≢ q.id) ps
    → Settled now w q
    → Settled now (process_governance_tick services handlers now ps w) q
unfolding process_governance_tick
process_governance_tick-frame services handlers now [] w q known distinct other h = h
process_governance_tick-frame services handlers now (p ∷ ps) w q known distinct other h =
    let t = process_proposal services handlers now p w in
    let frame = (process_proposal-Settled services handlers now p w known.0).1 in
    process_governance_tick-frame services handlers now ps t q
      (All-carry p.id ps (λ r apart k. (k.0, frame.proposals r.id apart ∙ k.1)) distinct.0 known.1)
      distinct.1 other.1 (Settled-OtherKeys now p.id w t q frame other.0 h)

flip :
    (id : ℕ) (ps : List Proposal)
    → All (λ q. id ≢ Proposal.id q) ps
    → All (λ q. Proposal.id q ≢ id) ps
flip id [] h = tt
flip id (q ∷ ps) h = ((λ same. h.0 (sym same)), flip id ps h.1)

-- A tick over proposals with different ids that were all in the cache leaves each of them in the cache
-- as it is now, and warned of where it is at risk of expiry.
pub process_governance_tick-Settled :
    (services : Services) (handlers : List Handler) (now : ℕ) (ps : List Proposal) (w : World)
    → All (Known w) ps
    → Distinct ps
    → All (Settled now (process_governance_tick services handlers now ps w)) ps
unfolding process_governance_tick
process_governance_tick-Settled services handlers now [] w known distinct = tt
process_governance_tick-Settled services handlers now (p ∷ ps) w known distinct =
    let t = process_proposal services handlers now p w in
    let (settled, frame) = process_proposal-Settled services handlers now p w known.0 in
    let later =
      All-carry {P = Known w} {Q = Known t} p.id ps
        (λ r apart k. (k.0, frame.proposals r.id apart ∙ k.1)) distinct.0 known.1 in
    (
      process_governance_tick-frame services handlers now ps t p later distinct.1
          (flip p.id ps distinct.0) settled,
      process_governance_tick-Settled services handlers now ps t later distinct.1,
    )

announced-quiet :
    (services : Services) (handlers : List Handler) (now : ℕ) (p : Proposal) (w : World)
    → Settled now w p
    → announced services handlers now p p w ≡ w
unfolding announce_status announce_votes warn_of_expiry
announced-quiet services handlers now p w h =
    ap
      (λ t. warn_of_expiry services handlers now p (
        announce_votes services handlers p (extract_new_votes p p)
          (if t then w else notify services handlers (updated_proposal_status p) w)))
      (same_text_refl (status_name p.status))
    ∙ ap
        (λ votes.
          warn_of_expiry services handlers now p (announce_votes services handlers p votes w))
        (extract_new_votes-same p)
    ∙ ap
        (λ t.
          if t
          then set_proposal_expiry_warning_sent p.id
              (notify services handlers (proposal_at_risk_of_expiry p) w)
          else w)
        h.1

-- nothing was sent between the two
abbrev pub SaysNothing : World → World → Type 0
SaysNothing w t = (t.tweets ≡ w.tweets) × (t.messages ≡ w.messages) × (t.counters ≡ w.counters)

quiet_tick :
    (services : Services) (handlers : List Handler) (now : ℕ) (ps : List Proposal) (w : World)
    → All (Settled now w) ps
    → Distinct ps
    → SaysNothing w (process_governance_tick services handlers now ps w)
unfolding process_governance_tick
quiet_tick services handlers now [] w settled distinct = (refl, refl, refl)
quiet_tick services handlers now (p ∷ ps) w settled distinct =
    let t = update_proposal_cache p w in
    let step =
      process_proposal-known services handlers now p p w settled.0.0
      ∙ ap (update_proposal_cache p) (announced-quiet services handlers now p w settled.0) in
    subst (λ v. SaysNothing w (process_governance_tick services handlers now ps v)) (sym step)
      (quiet_tick services handlers now ps t
        (All-carry p.id ps
          (λ q apart h.
            Settled-OtherKeys now p.id w t q (update_proposal_cache-OtherKeys p w) apart h)
          distinct.0 settled.1)
        distinct.1)

-- A second tick over the same proposals, with different ids and all in the cache before the first, at
-- the same time: nothing is sent again, neither a status, nor a vote, nor a warning.
pub process_governance_tick-twice :
    (services : Services) (handlers : List Handler) (now : ℕ) (ps : List Proposal) (w : World)
    → All (Known w) ps
    → Distinct ps
    → let t = process_governance_tick services handlers now ps w in
      SaysNothing t (process_governance_tick services handlers now ps t)
process_governance_tick-twice services handlers now ps w known distinct =
    quiet_tick services handlers now ps _
      (process_governance_tick-Settled services handlers now ps w known distinct) distinct
