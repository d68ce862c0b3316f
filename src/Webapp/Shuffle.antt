-- ===== src/Webapp/Shuffle.antt =====
-- packages/nouns-webapp/src/utils/pseudoRandomPredictableShuffle.ts. The index that `Math.sin` leads to
-- for a seed and a length is an argument.
use unouns_monorepo.Base.{
  remove_at, ℕ, zero, suc, ◌<◌, ◌≡◌, refl, ap, ◌∙◌, arith, Bool, Option, some, List, [], ◌∷◌, ◌==◌,
  if◌then◌else◌, length, get_elem?, count_by, map,
}

-- the seed that a round uses
abbrev pub round_seed : ℕ → ℕ
round_seed seed = if seed == 0 then 1 else seed

module _ {ℓ} {A : Type ℓ} where
  -- The `while` loop, on fuel: a round takes one element away, so that the length of the input is
  -- enough. A read out of range gives `none`.
  unfoldable pub shuffle_from : (ℕ → ℕ → ℕ) → ℕ → List A → ℕ → List (Option A)
  shuffle_from index fuel [] seed = []
  shuffle_from index zero (x ∷ xs) seed = []
  shuffle_from index (suc fuel) (x ∷ xs) seed =
      let used = round_seed seed in
      let i = index used (length (x ∷ xs)) in
      get_elem? (x ∷ xs) i ∷ shuffle_from index fuel (remove_at i (x ∷ xs)) (suc used)

  unfoldable pub pseudo_random_predictable_shuffle : (ℕ → ℕ → ℕ) → List A → ℕ → List (Option A)
  unfolding shuffle_from
  pseudo_random_predictable_shuffle index input seed = shuffle_from index (length input) input seed

  taken :
      (i : ℕ) (xs : List A)
      → i < length xs
      → (x : A) × (get_elem? xs i ≡ some x)
        × (suc (length (remove_at i xs)) ≡ length xs)
        × ((test : A → Bool) → count_by test (x ∷ remove_at i xs) ≡ count_by test xs)
  taken i [] h = ground arith
  taken zero (x ∷ xs) h = (x, refl, refl, λ test. refl)
  taken (suc i) (x ∷ xs) h =
      let (y, found, shorter, counts) = taken i xs (omega arith) in
      (y, found, ap suc shorter, λ test. ground (arith, counts test))

  -- every element of the output is there, and there are as many of each kind as before
  abbrev Shuffles : List A → List (Option A) → Type ℓ
  Shuffles input output =
      (xs : List A) × (output ≡ map some xs)
      × ((test : A → Bool) → count_by test xs ≡ count_by test input)

  shuffle_from-Shuffles :
      (index : ℕ → ℕ → ℕ) (fuel : ℕ) (xs : List A) (seed : ℕ)
      → ((s n : ℕ) → 0 < n → index s n < n)
      → length xs ≡ fuel
      → Shuffles xs (shuffle_from index fuel xs seed)
  unfolding shuffle_from
  shuffle_from-Shuffles index fuel [] seed inside size = ([], refl, λ test. refl)
  shuffle_from-Shuffles index zero (x ∷ xs) seed inside size = ground arith
  shuffle_from-Shuffles index (suc fuel) (x ∷ xs) seed inside size =
      let used = round_seed seed in
      let i = index used (length (x ∷ xs)) in
      let (y, found, shorter, counts) = taken i (x ∷ xs) (inside used _ (omega arith)) in
      let (ys, out, same) =
        shuffle_from-Shuffles index fuel (remove_at i (x ∷ xs)) (suc used) inside (omega arith) in
      (
        y ∷ ys,
        ap (λ o. o ∷ shuffle_from index fuel (remove_at i (x ∷ xs)) (suc used)) found
            ∙ ap (λ t. some y ∷ t) out,
        λ test. ground (arith, same test, counts test),
      )

  -- For an index that is always below the length, the output has every element of the input, whatever
  -- the seed: no element is undefined, and as many pass any test as in the input.
  pseudo_random_predictable_shuffle-Shuffles :
      (index : ℕ → ℕ → ℕ) (input : List A) (seed : ℕ)
      → ((s n : ℕ) → 0 < n → index s n < n)
      → (xs : List A) × (pseudo_random_predictable_shuffle index input seed ≡ map some xs)
        × ((test : A → Bool) → count_by test xs ≡ count_by test input)
  unfolding pseudo_random_predictable_shuffle
  pseudo_random_predictable_shuffle-Shuffles index input seed inside =
      shuffle_from-Shuffles index (length input) input seed inside refl
