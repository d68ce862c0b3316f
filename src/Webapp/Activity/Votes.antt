-- ===== src/Webapp/Activity/Votes.antt =====
-- The proposals in a Noun's activity.
use unouns_monorepo.Base.{
  ℕ, zero, suc, ◌+◌, ◌≤◌, ◌<◌, ◌≡◌, Option, none, some, String, List, [], ◌∷◌, length, get_elem?,
  str_eq, if◌then◌else◌, refl, sym, ap, ◌∙◌, arith, ◌>>=◌, Bool-cases, inl, inr,
}
use unouns_monorepo.Webapp.Activity.{Proposal, is_shown, filter_proposal, filter_proposals}

-- each proposal with the time of its creation
abbrev pub with_times : List Proposal → List ℕ → List (Proposal × ℕ)
with_times [] ts = []
with_times (p ∷ ps) [] = []
with_times (p ∷ ps) (t ∷ ts) = (p, t) ∷ with_times ps ts

-- the proposals with an id that are shown
abbrev pub show_one :
    ℕ → ℕ → Proposal → List (String × Proposal) → Option String → List (String × Proposal)
show_one can_vote t p others none = others
show_one can_vote t p others (some id) =
    if str_eq id "" then others else if is_shown can_vote t p then (id, p) ∷ others else others

abbrev pub shown : ℕ → List (Proposal × ℕ) → List (String × Proposal)
shown can_vote [] = []
shown can_vote ((p, t) ∷ rest) = show_one can_vote t p (shown can_vote rest) p.id

-- the times from a place on
abbrev from_place : ℕ → List ℕ → List ℕ
from_place zero ts = ts
from_place (suc i) [] = []
from_place (suc i) (t ∷ ts) = from_place i ts

from_place-next :
    (i : ℕ) (ts : List ℕ)
    → i < length ts
    → (t : ℕ) × (get_elem? ts i ≡ some t) × (from_place i ts ≡ t ∷ from_place (suc i) ts)
from_place-next zero [] h = absurd (omega arith)
from_place-next zero (t ∷ ts) h = (t, refl, refl)
from_place-next (suc i) [] h = absurd (omega arith)
from_place-next (suc i) (t ∷ ts) h = from_place-next i ts (omega arith)

filter_proposal-show_one :
    (can_vote t : ℕ) (p : Proposal) (rest : List (String × Proposal)) (id : Option String)
    → filter_proposal can_vote (some t) p rest id ≡ some (show_one can_vote t p rest id)
filter_proposal-show_one can_vote t p rest none = refl
filter_proposal-show_one can_vote t p rest (some id) = elim (Bool-cases (str_eq id "")) [
  | inl empty ↦ rw empty
  | inr full ↦ rw full
]

filter_proposals-from :
    (can_vote : ℕ) (created : List ℕ) (i : ℕ) (ps : List Proposal)
    → i + length ps ≤ length created
    → filter_proposals can_vote created i ps
      ≡ some (shown can_vote (with_times ps (from_place i created)))
unfolding filter_proposals
filter_proposals-from can_vote created i [] h = refl
filter_proposals-from can_vote created i (p ∷ ps) h =
    let (t, at, from) = from_place-next i created (omega arith) in
    let rest = filter_proposals-from can_vote created (suc i) ps (omega arith) in
    ap (λ m. m >>= λ others. filter_proposal can_vote (get_elem? created i) p others p.id) rest
    ∙ ap
        (λ o.
          filter_proposal can_vote o p (shown can_vote (with_times ps (from_place (suc i) created)))
            p.id)
        at
    ∙ filter_proposal-show_one can_vote t p
        (shown can_vote (with_times ps (from_place (suc i) created))) p.id
    ∙ ap (λ ts. some (shown can_vote (with_times (p ∷ ps) ts))) (sym from)

-- Where there is a time of creation for each proposal, as the two queries give them, no look-up fails:
-- the proposals of a Noun's activity are those with an id that were made when the Noun could vote and
-- are not cancelled without a vote, each with the time at its place.
filter_proposals-shown :
    (can_vote : ℕ) (created : List ℕ) (ps : List Proposal)
    → length ps ≤ length created
    → filter_proposals can_vote created 0 ps ≡ some (shown can_vote (with_times ps created))
filter_proposals-shown can_vote created ps h =
    filter_proposals-from can_vote created 0 ps (omega arith)
