-- ===== src/Webapp/Activity/Order.antt =====
-- The order of a Noun's events.
use unouns_monorepo.Base.{
  ℕ, suc, ◌-◌, ◌≤◌, ◌≡◌, List, [], ◌∷◌, ◌++◌, length, take, drop, take-append-drop, length-drop,
  length-append, le→leb, All, All-append, leb, if◌then◌else◌, refl, sym, ap, ◌∙◌, subst, arith, inl,
  inr, Bool-cases,
}
use mathlib.Core.List.{reverse, reverse-cons, Perm, reverse_perm}
use mathlib.Core.List.Perm
use unouns_monorepo.Webapp.Activity.{
  NounProfileEvent, insert, sort_events, birth_events, slice_off, noun_win_event, use_noun_activity,
  fetched,
}

-- the newest event first
abbrev pub IsNewestFirst : List NounProfileEvent → Type 0
IsNewestFirst [] = Unit
IsNewestFirst (e ∷ es) = All (λ x. x.block_number ≤ e.block_number) es × IsNewestFirst es

abbrev pub IsOldestFirst : List NounProfileEvent → Type 0
IsOldestFirst [] = Unit
IsOldestFirst (e ∷ es) = All (λ x. e.block_number ≤ x.block_number) es × IsOldestFirst es

All-map :
    {P Q : NounProfileEvent → Type 0} (f : (e : NounProfileEvent) → P e → Q e)
    (es : List NounProfileEvent)
    → All P es
    → All Q es
All-map f [] h = tt
All-map f (e ∷ es) h = (f e h.0, All-map f es h.1)

-- the event stands first, or after the first one
insert-cases :
    (P : List NounProfileEvent → Type 0) (e x : NounProfileEvent) (xs : List NounProfileEvent)
    → (e.block_number ≤ x.block_number → P (e ∷ x ∷ xs))
    → (x.block_number ≤ e.block_number → P (x ∷ insert e xs))
    → P (insert e (x ∷ xs))
unfolding insert
insert-cases P e x xs first later = elim (Bool-cases (leb e.block_number x.block_number)) [
  | inl h ↦
      subst P (sym (ap (λ b. if b then e ∷ x ∷ xs else x ∷ insert e xs) h)) (first (ground arith))
  | inr h ↦
      subst P (sym (ap (λ b. if b then e ∷ x ∷ xs else x ∷ insert e xs) h)) (later (ground arith))
]

All-insert :
    (P : NounProfileEvent → Type 0) (e : NounProfileEvent) (xs : List NounProfileEvent)
    → P e
    → All P xs
    → All P (insert e xs)
unfolding insert
All-insert P e [] h k = (h, tt)
All-insert P e (x ∷ xs) h k =
    insert-cases (All P) e x xs (λ _. (h, k)) (λ _. (k.0, All-insert P e xs h k.1))

insert-IsOldestFirst :
    (e : NounProfileEvent) (xs : List NounProfileEvent)
    → IsOldestFirst xs
    → IsOldestFirst (insert e xs)
unfolding insert
insert-IsOldestFirst e [] h = (tt, tt)
insert-IsOldestFirst e (x ∷ xs) h =
    insert-cases IsOldestFirst e x xs (λ le. ((le, All-map (λ y hy. omega arith) xs h.0), h))
      (λ le. (
        All-insert (λ y. x.block_number ≤ y.block_number) e xs le h.0,
        insert-IsOldestFirst e xs h.1,
      ))

sort_events-IsOldestFirst : (xs : List NounProfileEvent) → IsOldestFirst (sort_events xs)
unfolding sort_events
sort_events-IsOldestFirst [] = tt
sort_events-IsOldestFirst (e ∷ es) =
    insert-IsOldestFirst e (sort_events es) (sort_events-IsOldestFirst es)

insert-perm : (e : NounProfileEvent) (xs : List NounProfileEvent) → Perm (insert e xs) (e ∷ xs)
unfolding insert
insert-perm e [] = Perm.refl (e ∷ [])
insert-perm e (x ∷ xs) =
    insert-cases (λ ys. Perm ys (e ∷ x ∷ xs)) e x xs (λ _. Perm.refl (e ∷ x ∷ xs))
      (λ _. Perm.trans (Perm.cons x (insert-perm e xs)) (Perm.swap e x xs))

sort_events-perm : (xs : List NounProfileEvent) → Perm (sort_events xs) xs
unfolding sort_events
sort_events-perm [] = Perm.refl []
sort_events-perm (e ∷ es) =
    Perm.trans (insert-perm e (sort_events es)) (Perm.cons e (sort_events-perm es))

-- an event that is older than all stands at the end
IsNewestFirst-append :
    (xs : List NounProfileEvent) (e : NounProfileEvent)
    → All (λ x. e.block_number ≤ x.block_number) xs
    → IsNewestFirst xs
    → IsNewestFirst (xs ++ e ∷ [])
IsNewestFirst-append [] e h k = (tt, tt)
IsNewestFirst-append (x ∷ xs) e h k =
    (All-append _ xs (e ∷ []) k.0 (h.0, tt), IsNewestFirst-append xs e h.1 k.1)

All-reverse :
    (P : NounProfileEvent → Type 0) (xs : List NounProfileEvent) → All P xs → All P (reverse xs)
All-reverse P [] h = tt
All-reverse P (x ∷ xs) h =
    subst (All P) (sym (reverse-cons x xs))
      (All-append P (reverse xs) (x ∷ []) (All-reverse P xs h.1) (h.0, tt))

reverse-IsNewestFirst : (xs : List NounProfileEvent) → IsOldestFirst xs → IsNewestFirst (reverse xs)
reverse-IsNewestFirst [] h = tt
reverse-IsNewestFirst (x ∷ xs) h =
    subst IsNewestFirst (sym (reverse-cons x xs))
      (IsNewestFirst-append (reverse xs) x (All-reverse _ xs h.0) (reverse-IsNewestFirst xs h.1))

-- what is kept and what is cut off
slice_off-eq :
    (k : ℕ) (es : List NounProfileEvent) → k ≤ length es → slice_off k es ≡ take (length es - k) es
unfolding slice_off
slice_off-eq k es h =
    ap (λ b. if b then take (length es - k) es else take (length es - (k - length es)) es)
      (le→leb k (length es) h)

length-cut :
    (k : ℕ) (es : List NounProfileEvent) → k ≤ length es → length (drop (length es - k) es) ≡ k
length-cut k es h = length-drop (length es - k) es ∙ omega arith

-- the list that is cut
abbrev newest_first : List NounProfileEvent → List NounProfileEvent
newest_first es = reverse (sort_events es)

newest_first-perm : (es : List NounProfileEvent) → Perm (newest_first es) es
newest_first-perm es = Perm.trans (reverse_perm (sort_events es)) (sort_events-perm es)

insert-length :
    (e : NounProfileEvent) (xs : List NounProfileEvent) → length (insert e xs) ≡ suc (length xs)
unfolding insert
insert-length e [] = refl
insert-length e (x ∷ xs) = ground (arith, insert-length e xs)

sort_events-length : (xs : List NounProfileEvent) → length (sort_events xs) ≡ length xs
unfolding sort_events
sort_events-length [] = refl
sort_events-length (e ∷ es) = insert-length e (sort_events es) ∙ ap suc (sort_events-length es)

reverse-length : (xs : List NounProfileEvent) → length (reverse xs) ≡ length xs
reverse-length [] = refl
reverse-length (x ∷ xs) =
    ap length (reverse-cons x xs)
    ∙ length-append (reverse xs) (x ∷ [])
    ∙ omega (arith, reverse-length xs)

-- The activity of a Noun whose three lists of events have been fetched, with at least the events of its
-- birth, is the events of the lists with the oldest ones cut off, the newest first, and the event of
-- the win, if there is one, at the end. Those that are cut off are as many as the birth has.
pub use_noun_activity-IsNewestFirst :
    (unoun_id : ℕ) (votes transfers delegations : List NounProfileEvent)
    → birth_events unoun_id ≤ length ((votes ++ transfers) ++ delegations)
    → (kept cut : List NounProfileEvent) × (use_noun_activity unoun_id
          (fetched votes)
          (fetched transfers)
          (fetched delegations)
        ≡ fetched (kept ++ noun_win_event unoun_id transfers))
      × IsNewestFirst (kept ++ cut)
      × Perm (kept ++ cut) ((votes ++ transfers) ++ delegations)
      × (length cut ≡ birth_events unoun_id)
unfolding use_noun_activity
use_noun_activity-IsNewestFirst unoun_id votes transfers delegations enough =
    let all = (votes ++ transfers) ++ delegations in
    let k = birth_events unoun_id in
    let es = newest_first all in
    let same : length es ≡ length all = reverse-length (sort_events all) ∙ sort_events-length all in
    let n = length es - k in
    let whole = take-append-drop n es in
    (
      take n es,
      drop n es,
      ap (λ kept. fetched (kept ++ noun_win_event unoun_id transfers))
          (slice_off-eq k es (omega arith)),
      subst IsNewestFirst whole
          (reverse-IsNewestFirst (sort_events all) (sort_events-IsOldestFirst all)),
      subst (λ l. Perm l all) whole (newest_first-perm all),
      length-cut k es (omega arith),
    )
