-- ===== src/Bots/Ticks/Governance.antt =====
-- The governance job on one proposal: what a tick leaves of it and of the others.
pub mod Quiet
use unouns_monorepo.Base.{
  ℕ, ◌≡◌, ◌≢◌, refl, sym, subst, ap, ◌∙◌, arith, Bool, true, false, not, ◌&&◌, none, some, List, [],
  ◌∷◌, ◌==◌, ==_refl, if◌then◌else◌, All,
}
use unouns_monorepo.Base.Text.{same_text, same_text_refl}
use unouns_monorepo.Base.Table.{set_at}
use unouns_monorepo.Bots.Types.{Vote, Proposal, Cache, World, Services, Handler}
use unouns_monorepo.Bots.Messages.{status_name}
use unouns_monorepo.Bots.Proposals.{extract_new_votes, extract_new_votes-same, is_at_risk_of_expiry}
use unouns_monorepo.Bots.Handlers.{
  new_proposal, updated_proposal_status, proposal_at_risk_of_expiry, governance_vote, notify,
}
use unouns_monorepo.Bots.Handlers.Frames.{SameKeys, same, SameKeys-trans, notify-SameKeys}
use unouns_monorepo.Bots.Ticks.{
  announce_votes, announce_status, warn_of_expiry, update_proposal_cache,
  set_proposal_expiry_warning_sent, process_proposal, process_governance_tick,
}

pub set_at_self {ℓ} : {A : Type ℓ} (k : ℕ) (a : A) (f : ℕ → A) → set_at k a f k ≡ a
unfolding set_at
set_at_self k a f = ap (λ t. if t then a else f k) (==_refl k)

pub differ : (k n : ℕ) → k ≢ n → (k == n) ≡ false
differ k n h = ground arith

pub and_false : (b : Bool) → (b && false) ≡ false
and_false true = refl
and_false false = refl

pub set_at_other {ℓ} : {A : Type ℓ} (k n : ℕ) (a : A) (f : ℕ → A) → k ≢ n → set_at k a f n ≡ f n
unfolding set_at
set_at_other k n a f h = ap (λ t. if t then a else f n) (differ k n h)

-- what is kept of every other proposal
pub record OtherKeys (id : ℕ) (c d : Cache) : Type 0 where
  pub proposals : (k : ℕ) → id ≢ k → d.proposals k ≡ c.proposals k
  pub warned : (k : ℕ) → id ≢ k → d.expiry_warning_sent k ≡ c.expiry_warning_sent k

SameKeys-OtherKeys : (id : ℕ) (c d : Cache) → SameKeys c d → OtherKeys id c d
SameKeys-OtherKeys id c d h = record {
  proposals = λ k other. ap (λ f. f k) h.proposals;
  warned = λ k other. ap (λ f. f k) h.warned;
}

OtherKeys-trans : (id : ℕ) (b c d : Cache) → OtherKeys id b c → OtherKeys id c d → OtherKeys id b d
OtherKeys-trans id b c d h l = record {
  proposals = λ k other. l.proposals k other ∙ h.proposals k other;
  warned = λ k other. l.warned k other ∙ h.warned k other;
}

announce_votes-SameKeys :
    (services : Services) (handlers : List Handler) (p : Proposal) (votes : List Vote) (w : World)
    → SameKeys w.cache (announce_votes services handlers p votes w).cache
unfolding announce_votes
announce_votes-SameKeys services handlers p [] w = same w.cache
announce_votes-SameKeys services handlers p (v ∷ votes) w =
    let told = notify services handlers (governance_vote p v) w in
    SameKeys-trans w.cache told.cache _ (notify-SameKeys services handlers (governance_vote p v) w)
      (announce_votes-SameKeys services handlers p votes told)

pub announce_status-SameKeys :
    (services : Services) (handlers : List Handler) (cached p : Proposal) (w : World)
    → SameKeys w.cache (announce_status services handlers cached p w).cache
unfolding announce_status
announce_status-SameKeys services handlers cached p w =
    ground (arith, notify-SameKeys services handlers (updated_proposal_status p) w)

-- After the check for the risk of expiry, the others are as before, and a proposal at risk has been
-- warned of.
pub warn_of_expiry-warned :
    (services : Services) (handlers : List Handler) (now : ℕ) (p : Proposal) (w : World)
    → let d = (warn_of_expiry services handlers now p w).cache in
      OtherKeys p.id w.cache d
      × ((is_at_risk_of_expiry now p && not (d.expiry_warning_sent p.id)) ≡ false)
unfolding warn_of_expiry
warn_of_expiry-warned services handlers now p w =
    go (is_at_risk_of_expiry now p && not (w.cache.expiry_warning_sent p.id)) refl
  where
    go :
        (t : Bool)
        → (is_at_risk_of_expiry now p && not (w.cache.expiry_warning_sent p.id)) ≡ t
        → let d =
            (if t
              then set_proposal_expiry_warning_sent p.id
                  (notify services handlers (proposal_at_risk_of_expiry p) w)
              else w).cache in
          OtherKeys p.id w.cache d
          × ((is_at_risk_of_expiry now p && not (d.expiry_warning_sent p.id)) ≡ false)
    go true h =
        let told = notify services handlers (proposal_at_risk_of_expiry p) w in
        let frame =
          SameKeys-OtherKeys p.id _ _
            (notify-SameKeys services handlers (proposal_at_risk_of_expiry p) w) in
        (
          record {
            proposals = frame.proposals;
            warned = λ k other.
                set_at_other p.id k true told.cache.expiry_warning_sent other
                ∙ frame.warned k other;
          },
          ap (λ t. is_at_risk_of_expiry now p && not t)
                (set_at_self p.id true told.cache.expiry_warning_sent)
              ∙ and_false (is_at_risk_of_expiry now p),
        )
    go false h = (SameKeys-OtherKeys p.id _ _ (same w.cache), h)

-- the work on a proposal is done: it is cached as it is, and warned of where it is at risk
abbrev pub Settled : ℕ → World → Proposal → Type 0
Settled now w p =
    (w.cache.proposals p.id ≡ some p)
    × ((is_at_risk_of_expiry now p && not (w.cache.expiry_warning_sent p.id)) ≡ false)

abbrev pub Known : World → Proposal → Type 0
Known w p = (cached : Proposal) × (w.cache.proposals p.id ≡ some cached)

-- what is announced of a proposal that was cached
abbrev pub announced : Services → List Handler → ℕ → Proposal → Proposal → World → World
announced services handlers now cached p w = warn_of_expiry services handlers now p (
    announce_votes services handlers p (extract_new_votes cached p)
      (announce_status services handlers cached p w))

pub process_proposal-known :
    (services : Services) (handlers : List Handler) (now : ℕ) (p cached : Proposal) (w : World)
    → w.cache.proposals p.id ≡ some cached
    → process_proposal services handlers now p w
      ≡ update_proposal_cache p (announced services handlers now cached p w)
unfolding process_proposal
process_proposal-known services handlers now p cached w h =
    ap
      (λ o.
        let told : World = elim o [
          | none ↦ notify services handlers (new_proposal p) w
          | some c ↦ announced services handlers now c p w
        ] in
        update_proposal_cache p told)
      h

pub update_proposal_cache-OtherKeys :
    (p : Proposal) (w : World) → OtherKeys p.id w.cache (update_proposal_cache p w).cache
update_proposal_cache-OtherKeys p w = record {
  proposals = λ k other. set_at_other p.id k (some p) w.cache.proposals other;
  warned = λ k other. refl;
}

pub announced-warned :
    (services : Services) (handlers : List Handler) (now : ℕ) (cached p : Proposal) (w : World)
    → let d = (announced services handlers now cached p w).cache in
      OtherKeys p.id w.cache d
      × ((is_at_risk_of_expiry now p && not (d.expiry_warning_sent p.id)) ≡ false)
announced-warned services handlers now cached p w =
    let first = announce_status services handlers cached p w in
    let second = announce_votes services handlers p (extract_new_votes cached p) first in
    let third = warn_of_expiry-warned services handlers now p second in
    (
      OtherKeys-trans p.id w.cache second.cache _
          (SameKeys-OtherKeys p.id w.cache second.cache (
            SameKeys-trans w.cache first.cache second.cache
              (announce_status-SameKeys services handlers cached p w)
              (announce_votes-SameKeys services handlers p (extract_new_votes cached p) first)))
          third.0,
      third.1,
    )

pub process_proposal-Settled :
    (services : Services) (handlers : List Handler) (now : ℕ) (p : Proposal) (w : World)
    → Known w p
    → let t = process_proposal services handlers now p w in
      Settled now t p × OtherKeys p.id w.cache t.cache
process_proposal-Settled services handlers now p w (cached, row) =
    let told = announced services handlers now cached p w in
    let facts = announced-warned services handlers now cached p w in
    subst (λ t. Settled now t p × OtherKeys p.id w.cache t.cache)
      (sym (process_proposal-known services handlers now p cached w row))
      (
        (set_at_self p.id (some p) told.cache.proposals, facts.1),
        OtherKeys-trans p.id w.cache told.cache _ facts.0 (update_proposal_cache-OtherKeys p told),
      )

pub Settled-OtherKeys :
    (now id : ℕ) (w t : World) (q : Proposal)
    → OtherKeys id w.cache t.cache
    → id ≢ q.id
    → Settled now w q
    → Settled now t q
Settled-OtherKeys now id w t q frame other h = (
  frame.proposals q.id other ∙ h.0,
  ap (λ s. is_at_risk_of_expiry now q && not s) (frame.warned q.id other) ∙ h.1,
)
