-- ===== src/Webapp/ExploreGrid.antt =====
-- packages/nouns-webapp/src/components/ExploreGrid/index.tsx: the list of Nouns, from the newest one
-- on, that the first addresses and the answers about ranges of Nouns are put together to.
pub mod Ids
pub mod Ranges
use mathlib.Core.List.{reverse}
use unouns_monorepo.Base.{
  ℕ, zero, suc, ◌+◌, ◌-◌, ◌%◌, Bool, true, false, Option, none, some, String, List, [], ◌∷◌, ◌++◌,
  map, length, take, get_elem?, replicate, ltb, leb, ◌>>=◌, if◌then◌else◌,
}
use unouns_monorepo.Base.Int.{ℤ, pos, ◌+ℤ◌, ◌-ℤ◌}

-- a placeholder has neither an id nor a picture
pub record Noun : Type 0 where
  pub id : Option ℤ
  pub img_src : Option String

abbrev pub placeholder_noun : Noun
placeholder_noun = record { id = none; img_src = none }

-- what is outside of the program: the address of a picture, and the answer about the Nouns from one
-- number to another one, where there is an answer
pub record NounPics : Type 0 where
  pub picture_url : ℤ → String
  pub range : ℤ → ℤ → Option (List Noun)

abbrev pub initial_chunk_size : ℕ
initial_chunk_size = 10

abbrev pub range_chunk_size : ℕ
range_chunk_size = 100

-- the indices of an array of a length
abbrev pub indices : ℕ → List ℕ
indices zero = []
indices (suc n) = indices n ++ (n ∷ [])

module _ (pics : NounPics) where
  unfoldable pub individual_noun : ℕ → ℕ → ℕ → Noun
  individual_noun noun_count individual_count i =
      let id = pos i +ℤ (pos noun_count -ℤ pos individual_count) in
      record { id = some id; img_src = some (pics.picture_url id) }

  unfoldable pub initial_nouns : ℕ → ℕ → List Noun
  unfolding individual_noun
  initial_nouns noun_count individual_count =
      reverse (map (individual_noun noun_count individual_count) (indices individual_count))

  -- what a range adds to the list, at the index `i` that follows its last Noun; `seen` is the number
  -- of individual Nouns that the component has when the effect runs, and a read out of range throws
  unfoldable pub add_range : ℕ → ℕ → ℕ → List Noun → List Noun → Option (List Noun)
  add_range noun_count seen i range arr = do
    noun ← get_elem? arr (seen + 1)
    some (elim noun.id [
      | none ↦ take seen arr ++ range
      | some id ↦ take (noun_count - i) arr ++ range
    ])

  -- a range that is not answered is logged, and leaves the list
  unfoldable pub fetch_nouns : ℕ → ℕ → ℕ → ℕ → List Noun → Option (List Noun)
  unfolding add_range
  fetch_nouns noun_count seen start i arr = elim (pics.range (pos start) (pos i -ℤ pos 1)) [
    | none ↦ some arr
    | some json ↦ add_range noun_count seen i (reverse json) arr
  ]

  -- The loop over `i`, which goes down by a chunk until it is negative, on fuel.
  unfoldable pub range_calls_from : ℕ → ℕ → ℕ → ℕ → List Noun → Option (List Noun)
  unfolding fetch_nouns
  range_calls_from zero noun_count seen i arr = some arr
  range_calls_from (suc fuel) noun_count seen i arr = do
    arr ← fetch_nouns noun_count seen (i - range_chunk_size) i arr
    elim (leb range_chunk_size i) [
      | true ↦ range_calls_from fuel noun_count seen (i - range_chunk_size) arr
      | false ↦ some arr
    ]

  -- `noun_count - individual_count` is negative where there are fewer Nouns, and the loop is not run
  unfoldable pub range_calls : ℕ → ℕ → ℕ → List Noun → Option (List Noun)
  unfolding range_calls_from
  range_calls noun_count seen individual_count arr =
      if leb individual_count noun_count
      then range_calls_from (suc noun_count) noun_count seen (noun_count - individual_count) arr
      else some arr

  -- The effect once the number of Nouns is known.
  unfoldable pub load_nouns : ℕ → ℕ → Option (List Noun)
  unfolding initial_nouns range_calls
  load_nouns noun_count seen =
      let individual_count = noun_count % initial_chunk_size + 1 in
      range_calls noun_count seen individual_count
        (initial_nouns noun_count individual_count ++ replicate range_chunk_size placeholder_noun)

-- the order in which the grid shows the list
abbrev pub shown_nouns : Bool → List Noun → List Noun
shown_nouns is_ascending nouns = if is_ascending then reverse nouns else nouns
