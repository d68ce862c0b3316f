-- ===== src/Webapp/Explore/Tests.antt =====
-- Concrete runs of packages/nouns-webapp/src/pages/Explore/index.tsx and of its grid.
use mathlib.Core.List.{reverse, reverse-reverse}
use unouns_monorepo.Base.{
  ℕ, zero, suc, ◌+◌, ◌-◌, ◌<◌, ◌≡◌, true, false, Option, none, some, List, map, refl, sym, ap, ◌∙◌,
  arith,
}
use unouns_monorepo.Base.Int.{ℤ, pos, negsuc, ◌-ℤ◌}
use unouns_monorepo.Webapp.ExploreGrid.{Noun, NounPics, indices, load_nouns}
use unouns_monorepo.Webapp.ExploreGrid.Ids.{ids, ids_below, ids-reverse, indices-ids}
use unouns_monorepo.Webapp.ExploreGrid.Ranges.{Serves, load_nouns-all, load_nouns-without_newest}
use unouns_monorepo.Webapp.Explore.{
  Explore, PressedKeys, SortOrder, date_descending, to_next, keyboard_effect,
  handle_noun_navigation, amount_to_move, disable_next, look_at, initial_page,
}
use unouns_monorepo.Webapp.Explore.Keys.{SelectsNoun, keyboard_effect-SelectsNoun}

abbrev served_noun : ℕ → ℕ → Noun
served_noun start j = record { id = some (pos (j + start)); img_src = some "svg" }

abbrev served : ℕ → ℕ → List Noun
served start i = map (served_noun start) (indices (i - start))

abbrev served_range : ℤ → ℤ → Option (List Noun)
served_range (pos start) (pos end) = some (served start (suc end))
served_range _ _ = none

abbrev some_pics : NounPics
some_pics = record { picture_url = λ id. "url"; range = served_range }

served-answer :
    (start i : ℕ) → start < i → served_range (pos start) (pos i -ℤ pos 1) ≡ some (served start i)
unfolding ◌-ℤ◌
served-answer start zero h = elim h [ ]
served-answer start (suc i) h =
    let before : pos (suc i) -ℤ pos 1 ≡ pos i = ground arith in ap (served_range (pos start)) before

served-ids : (start i : ℕ) → start < i → ids (served start i) ≡ reverse (ids_below i (i - start))
served-ids start i h =
    let back : i - (i - start) ≡ start = omega arith in
    sym (
      ap reverse (
        sym (
          indices-ids i (i - start) (served_noun start) (omega arith)
            (λ j. ap (λ m. some (pos (j + m))) (sym back)))
        ∙ ids-reverse (served start i))
      ∙ reverse-reverse (ids (served start i)))

abbrev serves : (n : ℕ) → Serves some_pics n
serves n = record {
  answer = served;
  is_answer = λ start i h k. served-answer start i h;
  is_ascending = λ start i h k. served-ids start i h;
}

load_nouns-all_example :
    (nouns : List Noun) × ((load_nouns some_pics 12 0 ≡ some nouns) × (ids nouns ≡ ids_below 12 12))
load_nouns-all_example =
    load_nouns-all some_pics 12 (serves 12) (omega arith) (λ h. omega (arith, h))

load_nouns-without_newest_example :
    (nouns : List Noun) × ((load_nouns some_pics 10 0 ≡ some nouns) × (ids nouns ≡ ids_below 9 9))
load_nouns-without_newest_example =
    load_nouns-without_newest some_pics 10 (serves 10) (omega arith) refl

abbrev all_keys : PressedKeys
all_keys = record { prev = true; next = true; up = true; down = true; esc = true }

abbrev at_page : SortOrder → Explore
at_page order = look_at (pos 5) (record (initial_page false) { sort_order = order })

keyboard_effect-SelectsNoun_example :
    SelectsNoun (pos 20) (keyboard_effect 1000 (pos 20) all_keys (at_page date_descending))
keyboard_effect-SelectsNoun_example =
    keyboard_effect-SelectsNoun 1000 (pos 20) all_keys (at_page date_descending) (refl, refl)

-- the narrowest window moves as far as a wide one
narrow_window : amount_to_move 400 ≡ 8
unfolding amount_to_move
narrow_window = refl

-- while no order is chosen, the button for the next Noun leads below the first one
below_first :
    (disable_next (pos 20) (look_at (pos 0) (initial_page false)) ≡ false)
    × ((handle_noun_navigation to_next (look_at (pos 0) (initial_page false))).active_noun
        ≡ negsuc 0)
unfolding disable_next handle_noun_navigation initial_page ◌-ℤ◌
below_first = (refl, refl)
