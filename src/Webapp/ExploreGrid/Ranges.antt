-- ===== src/Webapp/ExploreGrid/Ranges.antt =====
-- The Nouns of the grid of packages/nouns-webapp/src/components/ExploreGrid/index.tsx, once every range
-- is answered.
use mathlib.Core.List.{reverse, reverse-reverse}
use unouns_monorepo.Base.{
  ℕ, zero, suc, ◌+◌, ◌-◌, ◌%◌, ◌≤◌, ◌<◌, ◌≡◌, ◌≢◌, Option, none, some, List, [], ◌∷◌, ◌++◌,
  append-nil, Bool, true, false, Bool-cases, inl, inr, leb→le, le→leb, length, take, take-all,
  take-length-append, get_elem?, replicate, leb, if◌then◌else◌, refl, sym, ap, ◌∙◌, arith,
}
use unouns_monorepo.Base.Int.{ℤ, pos, ◌-ℤ◌}
use unouns_monorepo.Webapp.ExploreGrid.Ids.{
  ids_below, ids, ids_below-append, ids-append, initial_nouns-ids, length-ids, length-ids_below,
  ids-reverse,
}
use unouns_monorepo.Webapp.ExploreGrid.{
  Noun, NounPics, placeholder_noun, initial_nouns, add_range, fetch_nouns, range_calls_from,
  range_calls, load_nouns,
}

-- `noun.pics` answers with the Nouns from the first to the last one of the range
pub record Serves (pics : NounPics) (n : ℕ) : Type 0 where
  pub answer : ℕ → ℕ → List Noun
  pub is_answer :
      (start i : ℕ)
      → start < i
      → i ≤ n
      → pics.range (pos start) (pos i -ℤ pos 1) ≡ some (answer start i)
  pub is_ascending :
      (start i : ℕ) → start < i → i ≤ n → ids (answer start i) ≡ reverse (ids_below i (i - start))

-- the second Noun of the list has an id
abbrev HasSecond : List Noun → Type 0
HasSecond arr = (noun : Noun) × ((get_elem? arr 1 ≡ some noun) × (noun.id ≢ none))

second_has_id :
    (n k : ℕ) (arr : List Noun) (rest : List (Option ℤ))
    → ids arr ≡ ids_below n (suc (suc k)) ++ rest
    → HasSecond arr
second_has_id n k [] rest e = cc
second_has_id n k (x ∷ []) rest e = cc
second_has_id n k (x ∷ y ∷ arr) rest e = (y, (refl, λ z. cc))

HasSecond_lem :
    (n k : ℕ) (arr : List Noun) (rest : List (Option ℤ))
    → 2 ≤ k
    → ids arr ≡ ids_below n k ++ rest
    → HasSecond arr
HasSecond_lem n k arr rest h e =
    let l : k ≡ suc (suc (k - 2)) = omega arith in
    second_has_id n (k - 2) arr rest (e ∙ ap (λ m. ids_below n m ++ rest) l)

module _ (pics : NounPics) (n : ℕ) (serves : Serves pics n) where
  add_range-known :
      (i : ℕ) (range arr : List Noun)
      → HasSecond arr
      → add_range pics n 0 i range arr ≡ some (take (n - i) arr ++ range)
  unfolding add_range
  add_range-known i range arr (noun, (found, known)) = ground arith

  fetch_nouns-served :
      (seen start i : ℕ) (arr : List Noun)
      → start < i
      → i ≤ n
      → fetch_nouns pics n seen start i arr
        ≡ add_range pics n seen i (reverse (serves.answer start i)) arr
  unfolding fetch_nouns
  fetch_nouns-served seen start i arr h k =
      ap
        (λ o. elim o as (λ x. Option (List Noun)) [
          | none ↦ some arr
          | some json ↦ add_range pics n seen i (reverse json) arr
        ])
        (serves.is_answer start i h k)

  answer-ids :
      (start i : ℕ)
      → start < i
      → i ≤ n
      → ids (reverse (serves.answer start i)) ≡ ids_below i (i - start)
  answer-ids start i h k =
      ids-reverse (serves.answer start i)
      ∙ ap reverse (serves.is_ascending start i h k)
      ∙ reverse-reverse (ids_below i (i - start))

  -- One round: what is known so far is kept, and the range follows it.
  round :
      (m i : ℕ) (arr : List Noun)
      → m ≤ n
      → 0 < i
      → i ≤ m
      → HasSecond arr
      → ids (take (n - i) arr) ≡ ids_below m (m - i)
      → (next : List Noun) × ((fetch_nouns pics n 0 (i - 100) i arr ≡ some next)
          × (ids next ≡ ids_below m (m - (i - 100))))
  round m i arr h positive k second known =
      let range = reverse (serves.answer (i - 100) i) in
      let start : i - 100 < i = omega arith in
      let inside : i ≤ n = omega arith in
      let rest : m - (m - i) ≡ i = omega arith in
      let all : m - i + (i - (i - 100)) ≡ m - (i - 100) = omega arith in
      (
        take (n - i) arr ++ range,
        (
          fetch_nouns-served 0 (i - 100) i arr start inside ∙ add_range-known i range arr second,
          ids-append (take (n - i) arr) range
              ∙ ap (λ is. is ++ ids range) known
              ∙ ap (λ is. ids_below m (m - i) ++ is) (answer-ids (i - 100) i start inside)
              ∙ ap (λ j. ids_below m (m - i) ++ ids_below j (i - (i - 100))) (sym rest)
              ∙ sym (ids_below-append m (m - i) (i - (i - 100)))
              ∙ ap (ids_below m) all,
        ),
      )

  -- what a round comes to, by whether there is another one
  round_then :
      (fuel i : ℕ) (arr next : List Noun) (b : Bool)
      → leb 100 i ≡ b
      → fetch_nouns pics n 0 (i - 100) i arr ≡ some next
      → range_calls_from pics (suc fuel) n 0 i arr
        ≡ (if b then range_calls_from pics fuel n 0 (i - 100) next else some next)
  unfolding range_calls_from
  round_then fuel i arr next b h fetched = ground arith

  kept :
      (m i : ℕ) (arr : List Noun)
      → m ≤ n
      → ids arr ≡ ids_below m (m - i)
      → ids (take (n - i) arr) ≡ ids_below m (m - i)
  kept m i arr h known =
      let size : length arr ≡ m - i =
        sym (length-ids arr) ∙ ap length known ∙ length-ids_below m (m - i) in
      ap ids (take-all (n - i) arr (omega (arith, size))) ∙ known

  -- The rounds that follow one at an index that is no multiple of the chunk, with enough fuel.
  rounds :
      (fuel m i : ℕ) (arr next : List Noun)
      → m ≤ n
      → i ≤ m
      → i % 10 ≡ 9
      → i < suc fuel
      → fetch_nouns pics n 0 (i - 100) i arr ≡ some next
      → ids next ≡ ids_below m (m - (i - 100))
      → (last : List Noun) × ((range_calls_from pics (suc fuel) n 0 i arr ≡ some last)
          × (ids last ≡ ids_below m m))
  rounds zero m i arr next h k odd f fetched followed =
      let near : i ≡ 0 = omega arith in cc (near, odd)
  rounds (suc fuel) m i arr next h k odd f fetched followed = elim (Bool-cases (leb 100 i)) [
    | inl more ↦
        let far : 100 ≤ i = leb→le 100 i more in
        let (after, (found, known)) =
          round m (i - 100) next h (omega arith) (omega arith)
            (HasSecond_lem m (m - (i - 100)) next [] (omega arith) (followed ∙ sym (append-nil _)))
            (kept m (i - 100) next h followed) in
        let (last, (ran, all)) =
          rounds fuel m (i - 100) next after h (omega arith) (omega arith) (omega arith) found
            known in
        (last, (round_then (suc fuel) i arr next true more fetched ∙ ran, all))
    | inr done ↦
        let near : m - (i - 100) ≡ m = ground (arith, done) in
        (
          next,
          (round_then (suc fuel) i arr next false done fetched, followed ∙ ap (ids_below m) near),
        )
  ]

  loaded : ℕ → List Noun
  loaded k = initial_nouns pics n k ++ replicate 100 placeholder_noun

  load_nouns-range_calls :
      (k : ℕ)
      → k ≤ n
      → range_calls pics n 0 k (loaded k) ≡ range_calls_from pics (suc n) n 0 (n - k) (loaded k)
  unfolding range_calls
  load_nouns-range_calls k h =
      ap (λ b. if b then range_calls_from pics (suc n) n 0 (n - k) (loaded k) else some (loaded k))
        (le→leb k n h)

  -- Where the number of Nouns is at least 10 and no multiple of 10, and every range is answered, the
  -- list that the grid loads first has all Nouns, from the newest to the first one.
  pub load_nouns-all :
      10 ≤ n
      → n % 10 ≢ 0
      → (nouns : List Noun) × ((load_nouns pics n 0 ≡ some nouns) × (ids nouns ≡ ids_below n n))
  unfolding load_nouns loaded
  load_nouns-all h odd =
      let k = n % 10 + 1 in
      let two : 2 ≤ k = omega arith in
      let le : k ≤ n = omega arith in
      let back : n - (n - k) ≡ k = omega arith in
      let size : length (initial_nouns pics n k) ≡ k =
        sym (length-ids (initial_nouns pics n k))
        ∙ ap length (initial_nouns-ids pics n k le)
        ∙ length-ids_below n k in
      let (next, (fetched, followed)) =
        round n (n - k) (loaded k) (omega arith) (omega arith) (omega arith)
          (HasSecond_lem n k (loaded k) (ids (replicate 100 placeholder_noun)) two (
            ids-append (initial_nouns pics n k) (replicate 100 placeholder_noun)
            ∙ ap (λ is. is ++ ids (replicate 100 placeholder_noun))
                (initial_nouns-ids pics n k le)))
          (ap (λ j. ids (take j (loaded k))) (back ∙ sym size)
            ∙ ap ids (take-length-append (initial_nouns pics n k) (replicate 100 placeholder_noun))
            ∙ initial_nouns-ids pics n k le
            ∙ ap (ids_below n) (sym back)) in
      let (last, (ran, all)) =
        rounds n n (n - k) (loaded k) next (omega arith) (omega arith) (omega arith) (omega arith)
          fetched followed in
      (last, (load_nouns-range_calls k le ∙ ran, all))

  -- With one Noun in front, a placeholder is found where the code looks, and the Noun is dropped.
  add_range-dropped :
      (i : ℕ) (range : List Noun) → add_range pics n 0 i range (loaded 1) ≡ some range
  unfolding add_range loaded initial_nouns
  add_range-dropped i range = refl

  -- Where the number of Nouns is at least 10 and a multiple of 10, and every range is answered, the
  -- list that the grid loads first has no newest Noun: it begins with the one before.
  pub load_nouns-without_newest :
      10 ≤ n
      → n % 10 ≡ 0
      → (nouns : List Noun) × ((load_nouns pics n 0 ≡ some nouns)
          × (ids nouns ≡ ids_below (n - 1) (n - 1)))
  unfolding load_nouns loaded
  load_nouns-without_newest h even =
      let i = n - 1 in
      let one : n % 10 + 1 ≡ 1 = omega arith in
      let range = reverse (serves.answer (i - 100) i) in
      let (last, (ran, all)) =
        rounds n i i (loaded 1) range (omega arith) (omega arith) (omega arith) (omega arith)
          (fetch_nouns-served 0 (i - 100) i (loaded 1) (omega arith) (omega arith)
            ∙ add_range-dropped i range)
          (answer-ids (i - 100) i (omega arith) (omega arith)) in
      (
        last,
        (
          ap (λ k. range_calls pics n 0 k (loaded k)) one
              ∙ load_nouns-range_calls 1 (omega arith)
              ∙ ran,
          all,
        ),
      )
