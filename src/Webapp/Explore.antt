-- ===== src/Webapp/Explore.antt =====
-- packages/nouns-webapp/src/pages/Explore/index.tsx: the Noun that is looked at, by keys, buttons and
-- the order of the grid. Where the page stands while it is scrolled is left out.
pub mod Keys
mod Tests
use unouns_monorepo.Base.{
  ℕ, Bool, true, false, not, ◌&&◌, ◌||◌, Option, none, some, leb, if◌then◌else◌,
}
use unouns_monorepo.Base.Int.{ℤ, pos, negsuc, ◌+ℤ◌, ◌-ℤ◌, ltb_ℤ, eq_ℤ}

-- the empty text, until the user chooses an order
pub data SortOrder : Type 0 where
  not_chosen date_ascending date_descending : SortOrder

pub data Direction : Type 0 where
  to_next to_prev : Direction

pub record Explore : Type 0 where
  pub is_sidebar_visible : Bool
  pub selected_noun : Option ℤ
  pub active_noun : ℤ
  pub sort_order : SortOrder

-- -1 while there is no auction
unfoldable pub noun_count_of : Option ℕ → ℤ
noun_count_of none = negsuc 0
noun_count_of (some unoun_id) = pos unoun_id +ℤ pos 1

unfoldable pub initial_page : Bool → Explore
initial_page is_mobile = record {
  is_sidebar_visible = not is_mobile;
  selected_noun = none;
  active_noun = negsuc 0;
  sort_order = not_chosen;
}

abbrev pub look_at : ℤ → Explore → Explore
look_at noun e = record e { active_noun = noun; selected_noun = some noun }

abbrev pub is_up : SortOrder → Direction → Bool
is_up date_ascending to_next = true
is_up date_descending to_prev = true
is_up _ _ = false

unfoldable pub handle_noun_navigation : Direction → Explore → Explore
handle_noun_navigation direction e =
    if is_up e.sort_order direction
    then look_at (e.active_noun +ℤ pos 1) e
    else look_at (e.active_noun -ℤ pos 1) e

abbrev pub is_ascending : SortOrder → Bool
is_ascending date_ascending = true
is_ascending _ = false

-- the order that is tested is the one before the change
unfoldable pub handle_sort_order_change : Bool → ℤ → SortOrder → Explore → Explore
handle_sort_order_change is_mobile noun_count order e =
    let first = if is_ascending e.sort_order then noun_count -ℤ pos 1 else pos 0 in
    if not is_mobile && e.is_sidebar_visible
    then look_at first (record e { sort_order = order })
    else record e { sort_order = order }

unfoldable pub handle_close_detail : Explore → Explore
handle_close_detail e = record e {
  is_sidebar_visible = false;
  active_noun = negsuc 0;
  selected_noun = none;
}

unfoldable pub handle_focus_noun : ℤ → Explore → Explore
handle_focus_noun noun e = record (look_at noun e) { is_sidebar_visible = true }

-- the tests follow one another, and each overrides the ones before
unfoldable pub amount_to_move : ℕ → ℕ
amount_to_move width =
    let any : ℕ = 10 in
    let narrow = if leb width 400 then 3 else any in
    let middle = if leb width 991 then 5 else narrow in if leb width 1399 then 8 else middle

pub record PressedKeys : Type 0 where
  pub prev : Bool
  pub next : Bool
  pub up : Bool
  pub down : Bool
  pub esc : Bool

-- a key that leads to a later Noun, up to the last one, and one that leads to an earlier one
abbrev pub forward : Bool → ℤ → ℕ → ℤ → Explore → Explore
forward pressed noun_count amount selected e =
    if pressed && ltb_ℤ (selected +ℤ pos amount) noun_count
    then handle_focus_noun (selected +ℤ pos amount) e
    else e

abbrev pub backward : Bool → ℕ → ℤ → Explore → Explore
backward pressed amount selected e =
    if pressed && not (ltb_ℤ (selected -ℤ pos amount) (pos 0))
    then handle_focus_noun (selected -ℤ pos amount) e
    else e

abbrev pub is_descending : SortOrder → Bool
is_descending date_descending = true
is_descending _ = false

-- All tests are on the Noun that was selected before, and the last of them that holds counts.
unfoldable pub move_by_keys : ℕ → ℤ → PressedKeys → ℤ → Explore → Explore
unfolding handle_close_detail handle_focus_noun amount_to_move
move_by_keys width noun_count keys selected e =
    let amount = amount_to_move width in
    let e₁ = if keys.esc then handle_close_detail e else e in
    if is_descending e.sort_order
    then backward keys.down amount selected (
        forward keys.up noun_count amount selected
          (backward keys.next 1 selected (forward keys.prev noun_count 1 selected e₁)))
    else forward keys.down noun_count amount selected (
        backward keys.up amount selected
          (forward keys.next noun_count 1 selected (backward keys.prev 1 selected e₁)))

unfoldable pub keyboard_effect : ℕ → ℤ → PressedKeys → Explore → Explore
unfolding move_by_keys
keyboard_effect width noun_count keys e = elim e.selected_noun [
  | none ↦ e
  | some selected ↦
      if ltb_ℤ selected (pos 0) then e else move_by_keys width noun_count keys selected e
]

-- the effect once the number of Nouns is known
unfoldable pub count_effect : Bool → Option ℕ → Explore → Explore
count_effect is_mobile none e = e
count_effect is_mobile (some unoun_id) e = if is_mobile then e else look_at (pos unoun_id) e

-- whether the buttons of the detail are off
unfoldable pub disable_prev : ℤ → Explore → Bool
disable_prev noun_count e =
    (is_ascending e.sort_order && eq_ℤ e.active_noun (pos 0))
    || (is_descending e.sort_order && eq_ℤ e.active_noun (noun_count -ℤ pos 1))

unfoldable pub disable_next : ℤ → Explore → Bool
disable_next noun_count e =
    (is_ascending e.sort_order && eq_ℤ e.active_noun (noun_count -ℤ pos 1))
    || (is_descending e.sort_order && eq_ℤ e.active_noun (pos 0))
