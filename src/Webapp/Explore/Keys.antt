-- ===== src/Webapp/Explore/Keys.antt =====
-- Which Nouns the keys and buttons of packages/nouns-webapp/src/pages/Explore/index.tsx lead to.
use unouns_monorepo.Base.{
  ℕ, ◌≡◌, Bool, true, false, not, ◌&&◌, Option, none, some, if◌then◌else◌, refl, sym, subst, arith,
}
use unouns_monorepo.Base.Int.{ℤ, pos, ◌+ℤ◌, ◌-ℤ◌, ltb_ℤ, +ℤ_parts, -ℤ_parts}
use unouns_monorepo.Webapp.Explore.{
  Explore, PressedKeys, handle_focus_noun, handle_close_detail, forward, backward, is_descending,
  move_by_keys, keyboard_effect,
}

-- a Noun that exists
abbrev pub IsNoun : ℤ → ℤ → Type 0
IsNoun noun_count noun = (ltb_ℤ noun (pos 0) ≡ false) × (ltb_ℤ noun noun_count ≡ true)

abbrev IsNounIn : ℤ → Option ℤ → Type 0
IsNounIn noun_count none = Unit {0}
IsNounIn noun_count (some noun) = IsNoun noun_count noun

-- the Noun that is selected, where one is
abbrev pub SelectsNoun : ℤ → Explore → Type 0
SelectsNoun noun_count e = IsNounIn noun_count e.selected_noun

if-SelectsNoun :
    (n : ℤ) (b : Bool) (noun : ℤ) (e : Explore)
    → (b ≡ true → IsNoun n noun)
    → SelectsNoun n e
    → SelectsNoun n (if b then handle_focus_noun noun e else e)
unfolding handle_focus_noun
if-SelectsNoun n true noun e h k = h refl
if-SelectsNoun n false noun e h k = k

forward-SelectsNoun :
    (pressed : Bool) (n : ℤ) (amount : ℕ) (selected : ℤ) (e : Explore)
    → IsNoun n selected
    → SelectsNoun n e
    → SelectsNoun n (forward pressed n amount selected e)
forward-SelectsNoun pressed n amount selected e known h =
    if-SelectsNoun n (pressed && ltb_ℤ (selected +ℤ pos amount) n) (selected +ℤ pos amount) e
      (λ k. ground (arith, +ℤ_parts selected (pos amount))) h

backward-SelectsNoun :
    (pressed : Bool) (n : ℤ) (amount : ℕ) (selected : ℤ) (e : Explore)
    → IsNoun n selected
    → SelectsNoun n e
    → SelectsNoun n (backward pressed amount selected e)
backward-SelectsNoun pressed n amount selected e known h =
    if-SelectsNoun n (pressed && not (ltb_ℤ (selected -ℤ pos amount) (pos 0)))
      (selected -ℤ pos amount) e (λ k. ground (arith, -ℤ_parts selected (pos amount))) h

close_if-SelectsNoun :
    (n : ℤ) (b : Bool) (e : Explore)
    → SelectsNoun n e
    → SelectsNoun n (if b then handle_close_detail e else e)
unfolding handle_close_detail
close_if-SelectsNoun n true e h = _
close_if-SelectsNoun n false e h = h

if_either-SelectsNoun :
    (n : ℤ) (b : Bool) (d e : Explore)
    → SelectsNoun n d
    → SelectsNoun n e
    → SelectsNoun n (if b then d else e)
if_either-SelectsNoun n true d e h k = h
if_either-SelectsNoun n false d e h k = k

move_by_keys-SelectsNoun :
    (width : ℕ) (n : ℤ) (keys : PressedKeys) (selected : ℤ) (e : Explore)
    → IsNoun n selected
    → SelectsNoun n e
    → SelectsNoun n (move_by_keys width n keys selected e)
unfolding move_by_keys
move_by_keys-SelectsNoun width n keys selected e known h =
    let closed = close_if-SelectsNoun n keys.esc e h in
    if_either-SelectsNoun n (is_descending e.sort_order) _ _
      (backward-SelectsNoun keys.down n _ selected _ known (
        forward-SelectsNoun keys.up n _ selected _ known (
          backward-SelectsNoun keys.next n 1 selected _ known
            (forward-SelectsNoun keys.prev n 1 selected _ known closed))))
      (forward-SelectsNoun keys.down n _ selected _ known (
        backward-SelectsNoun keys.up n _ selected _ known (
          forward-SelectsNoun keys.next n 1 selected _ known
            (backward-SelectsNoun keys.prev n 1 selected _ known closed))))

-- the effect by the Noun that is selected
abbrev by_selected : ℕ → ℤ → PressedKeys → Explore → Option ℤ → Explore
by_selected width n keys e none = e
by_selected width n keys e (some selected) =
    if ltb_ℤ selected (pos 0) then e else move_by_keys width n keys selected e

by_selected-SelectsNoun :
    (width : ℕ) (n : ℤ) (keys : PressedKeys) (e : Explore) (o : Option ℤ)
    → IsNounIn n o
    → SelectsNoun n e
    → SelectsNoun n (by_selected width n keys e o)
by_selected-SelectsNoun width n keys e none known h = h
by_selected-SelectsNoun width n keys e (some selected) known h =
    if_either-SelectsNoun n (ltb_ℤ selected (pos 0)) e (move_by_keys width n keys selected e) h
      (move_by_keys-SelectsNoun width n keys selected e known h)

keyboard_effect-by_selected :
    (width : ℕ) (n : ℤ) (keys : PressedKeys) (e : Explore)
    → keyboard_effect width n keys e ≡ by_selected width n keys e e.selected_noun
unfolding keyboard_effect
keyboard_effect-by_selected width n keys e = refl

-- Whatever keys are pressed in a window of whatever width: where the selected Noun exists, or none is
-- selected, the same holds after the effect of the keys.
pub keyboard_effect-SelectsNoun :
    (width : ℕ) (n : ℤ) (keys : PressedKeys) (e : Explore)
    → SelectsNoun n e
    → SelectsNoun n (keyboard_effect width n keys e)
keyboard_effect-SelectsNoun width n keys e h =
    subst (SelectsNoun n) (sym (keyboard_effect-by_selected width n keys e))
      (by_selected-SelectsNoun width n keys e e.selected_noun h h)
